-- ===== src/Mesh/Exits/Examples.antt =====
-- Two devices that leave through site 4, and a rule as `ip rule` prints it.
use jump_host.Base.{
  ℕ, ◌≡◌, refl, ◌↔◌, Option, none, some, List, [], ◌∷◌, arith, nat_eq, text_eq, text_beq, any, In,
  All, Text, text, Lacks,
}
use jump_host.Base.Decimal.{decimal}
use jump_host.Base.Maps.{get, put}
use jump_host.Mesh.Roster.{Client, Site}
use jump_host.Mesh.Exits.{
  Rule, Plan, by_id_from, exit_of, rule_of, plan_exits, plan_client, plan_from, route_client,
  add_exit,
}
use jump_host.Mesh.Exits.Laws.{rules_of, refusals_of, plan_exits_lists}
use jump_host.Mesh.Exits.Readback.{Installed}
use jump_host.Mesh.Exits.Apply.{
  del_rule, add_rule, Serves, Sends, present, wanted, removals, additions, rule_commands,
  rule_commands_iff,
}

abbrev site_four : Site
site_four = record {
  site_id = 4;
  slug = some (text "nyc");
  gateway_public_key = some (text "k4");
  gateway_endpoint = some (text "nyc:51820");
  lan168 = none;
  lan172 = none;
}

abbrev device : Text → Option ℕ → Client
device ip exit = record {
  uid = text "ann";
  name = text "phone";
  public_key = some (text "kd");
  assigned_ip = some ip;
  exit_site_id = exit;
}

abbrev devices : List Client
devices =
    device (text "10.1.128.2") (some 4)
    ∷ device (text "10.1.128.3") (some 4)
    ∷ device (text "10.1.128.4") (some 9)
    ∷ device (text "10.1.128.5") (some 1)
    ∷ []

abbrev planned : Plan
planned = plan_exits devices (site_four ∷ []) 1

two_rules :
    planned.rules
    ≡ rule_of (device (text "10.1.128.2") (some 4)) 4
      ∷ rule_of (device (text "10.1.128.3") (some 4)) 4
      ∷ []
unfolding plan_exits plan_client route_client by_id_from get put plan_from
two_rules = refl

one_interface : planned.exits ≡ (4, exit_of 4 site_four) ∷ []
unfolding plan_exits plan_client route_client add_exit by_id_from get put plan_from
one_interface = refl

plan_exits_lists_example :
    (planned.rules ≡ rules_of (site_four ∷ []) 1 devices)
    × (planned.unusable ≡ refusals_of (site_four ∷ []) 1 devices)
plan_exits_lists_example = plan_exits_lists devices (site_four ∷ []) 1

abbrev stale : Installed
stale = record { priority = 3009; from = text "10.1"; table = text "2409" }

abbrev first_rule : Rule
first_rule = record { from = text "10.2"; table = 2404; priority = 3004; exit_site_id = 4 }

one_of_each :
    rule_commands (first_rule ∷ []) (stale ∷ []) ≡ del_rule stale ∷ add_rule first_rule ∷ []
unfolding rule_commands removals additions wanted present any text_beq decimal
one_of_each = refl

stale-Lacks : Lacks b'|' (text "10.1")
stale-Lacks = (
  (λ e. absurd (ground (arith, e))),
  (
    (λ e. absurd (ground (arith, e))),
    ((λ e. absurd (ground (arith, e))), ((λ e. absurd (ground (arith, e))), tt)),
  ),
)

first-Lacks : Lacks b'|' (text "10.2")
first-Lacks = (
  (λ e. absurd (ground (arith, e))),
  (
    (λ e. absurd (ground (arith, e))),
    ((λ e. absurd (ground (arith, e))), ((λ e. absurd (ground (arith, e))), tt)),
  ),
)

rule_commands_iff_example :
    (In (del_rule stale) (rule_commands (first_rule ∷ []) (stale ∷ []))
      ↔ (In stale (stale ∷ []) × All (λ q. Serves q stale → ⊥) (first_rule ∷ [])))
    × (In (add_rule first_rule) (rule_commands (first_rule ∷ []) (stale ∷ []))
        ↔ (In first_rule (first_rule ∷ []) × All (λ r. Sends first_rule r → ⊥) (stale ∷ [])))
rule_commands_iff_example =
    rule_commands_iff (first_rule ∷ []) (stale ∷ []) stale first_rule stale-Lacks (first-Lacks, tt)
