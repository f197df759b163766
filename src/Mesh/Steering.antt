-- ===== src/Mesh/Steering.antt =====
-- applyExits, clearManagedRules, listExitInterfaces and exitStatus of nodejs/services/exit_router.js.
pub mod Reported
use jump_host.Base.{
  ℕ, zero, suc, ◌+◌, ◌-◌, ◌*◌, ◌/◌, ◌%◌, ◌^◌, ◌≤◌, ◌<◌, min, pred, ◌≡◌, refl, sym, ap, ap₂, ◌∙◌,
  subst, ◌≡⟨◌⟩◌, ◌∎, ◌≢◌, ◌↔◌, ◌⊎◌, inl, inr, Bool, true, false, not, ◌&&◌, ◌||◌, Option, none,
  some, List, [], ◌∷◌, ◌++◌, map, reverse, append-nil, append_assoc, map-append, arith, ltb, leb,
  if◌then◌else◌, ltb→lt, lt→ltb, leb→le, le→leb, tests, Bool-cases, Option-cases, Eq, ◌==◌, eq_iff,
  eq_refl, eq_of_ne, nat_eq, text_eq, text_beq, Result, ok, err, require, Result-cases, length,
  length-append, get_elem?, take, drop, length-take, take-append, drop-append, all, any, find,
  filter, In, All, All-In, All-from_members, In-append, Text, text, is_digit, is_lower, is_upper,
  split, join, Lacks, split_of_Lacks, split-append, split-Lacks, join-split, starts_with, index_of,
  starts_with_iff, split-join, all_iff, any_iff, find-eq-some, find-eq-none, In-filter,
  length-filter-le, All-imp, All-append, drop-nil, drop-add, take-append-drop,
}
use jump_host.Base.Decimal.{decimal, value}
use jump_host.Base.Maps.{put}
use jump_host.Host.Shell.{
  Exec, Reply, Failure, Gateway, Action, return, and_then, ◌>>=◌, ◌>>◌, catch, try_run, succeeded,
  for_each,
}
use jump_host.Host.Uplink.{apply_sysctls}
use jump_host.Host.Wg.{System, ensure_interface, set_private_key, set_addresses}
use jump_host.Host.Peers.{PeerConf, Status, trim, set_peer_no_routes, peer_status}
use jump_host.Mesh.Exits
use jump_host.Mesh.Exits.{Exit, Rule, Unusable, table_for}
use jump_host.Mesh.Exits.Readback.{
  is_space, some_of, literal, ◌>>?◌, Installed, exec_rule, in_managed_range, list_managed_rules,
}
use jump_host.Mesh.Exits.Apply.{Command, del_rule, add_rule, rule_commands}

-- What did not work: an exit's interface, or a rule.
pub data Note : Type 0 where
  exit_note : Text → Text → Note
  rule_note : Text → Text → Note

pub record Report : Type 0 where
  pub applied : List Text
  pub failed : List Note
  pub rules : ℕ
  pub unusable : List Unusable

-- `/^\d+:\s+(wg-exit-(\d+))[:@]/`
abbrev closes : Text → Bool
closes [] = false
closes (c ∷ s) = c == b':' || c == b'@'

unfoldable pub exec_link : Text → Option (Text × Text)
exec_link line = some_of is_digit line >>? λ (_, s). literal (text ":") s >>? λ s.
    some_of is_space s >>? λ (_, s). literal (text "wg-exit-") s >>? λ s.
    some_of is_digit s >>? λ (id, s). if closes s then some (text "wg-exit-" ++ id, id) else none

abbrev pub found_link : Option (Text × Text) → List (ℕ × Text) → List (ℕ × Text)
found_link none found = found
found_link (some (iface, id)) found = put (value id) iface found

unfoldable pub exit_links : List Text → List (ℕ × Text) → List (ℕ × Text)
exit_links [] found = found
exit_links (line ∷ lines) found = exit_links lines (found_link (exec_link (trim line)) found)

abbrev pub links_of : Reply → List (ℕ × Text)
links_of (ok out) = exit_links (split 10 out) []
links_of (err _) = []

abbrev pub installed_of : Reply → List Installed
installed_of (ok out) = list_managed_rules (map trim (split 10 out))
installed_of (err _) = []

abbrev pub rule_failure : Text → Reply → List Note
rule_failure from (ok _) = []
rule_failure from (err f) = rule_note from f.message ∷ []

abbrev pub command_args : Command → List Text
command_args (del_rule r) =
    text "rule"
    ∷ text "del"
    ∷ text "from"
    ∷ r.from
    ∷ text "lookup"
    ∷ r.table
    ∷ text "priority"
    ∷ decimal r.priority
    ∷ []
command_args (add_rule r) =
    text "rule"
    ∷ text "add"
    ∷ text "from"
    ∷ r.from
    ∷ text "lookup"
    ∷ decimal r.table
    ∷ text "priority"
    ∷ decimal r.priority
    ∷ []

abbrev pub command_from : Command → Text
command_from (del_rule r) = r.from
command_from (add_rule r) = r.from

abbrev pub peer_of : Exit → PeerConf
peer_of e = record {
  public_key = e.public_key;
  endpoint = e.endpoint;
  allowed_ips = e.allowed_ips;
  keepalive = e.keepalive;
}

module _ {W : Type 0} (sys : System W) (probe tmp : Text) (polls : ℕ) where
  open sys use {exec}

  -- The interface of an exit with its peer and its table. The reply to the command for the default
  -- route is not looked at.
  unfoldable pub bring_up : Text → Exit → Action W Unit
  bring_up key e = do
    ensure_interface sys probe polls e.iface
    set_private_key sys tmp e.iface key 0
    set_addresses sys e.iface []
    set_peer_no_routes exec e.iface (peer_of e)
    try_run exec (text "ip") (
        text "route"
        ∷ text "replace"
        ∷ text "default"
        ∷ text "dev"
        ∷ e.iface
        ∷ text "table"
        ∷ decimal e.table
        ∷ [])
    apply_sysctls exec (e.iface ∷ [])
    return tt

  -- The first loop: the interfaces that are up, and those that are not.
  abbrev pub done_note : Exit → Action W (List Text × List Note)
  done_note e = return (e.iface ∷ [], [])

  abbrev pub failed_note : Exit → Text → Action W (List Text × List Note)
  failed_note e m = return ([], exit_note e.iface m ∷ [])

  abbrev pub attempt : Text → Exit → Action W (List Text × List Note)
  attempt key e = catch (do bring_up key e; done_note e) (failed_note e)

  unfoldable pub bring_up_all : Text → List Exit → Action W (List Text × List Note)
  bring_up_all key [] = return ([], [])
  bring_up_all key (e ∷ es) = do
    here ← attempt key e
    rest ← bring_up_all key es
    return (here.0 ++ rest.0, here.1 ++ rest.1)

  unfoldable pub run_commands : List Command → Action W (List Note)
  run_commands [] = return []
  run_commands (c ∷ cs) = do
    res ← try_run exec (text "ip") (command_args c)
    rest ← run_commands cs
    return (rule_failure (command_from c) res ++ rest)

  unfoldable pub list_exit_interfaces : Action W (List (ℕ × Text))
  list_exit_interfaces = do
    res ← try_run exec (text "ip") (text "-o" ∷ text "link" ∷ text "show" ∷ [])
    return (links_of res)

  unfoldable pub managed_rules : Action W (List Installed)
  managed_rules = do
    res ← try_run exec (text "ip") (text "-o" ∷ text "rule" ∷ text "show" ∷ [])
    return (installed_of res)

  abbrev pub drop_link : ℕ → Text → Action W Unit
  drop_link id iface = do
    try_run exec (text "ip")
        (text "route" ∷ text "flush" ∷ text "table" ∷ decimal (table_for id) ∷ [])
    try_run exec (text "ip") (text "link" ∷ text "del" ∷ text "dev" ∷ iface ∷ [])
    return tt

  abbrev pub tear_down : List ℕ → ℕ × Text → Action W Unit
  tear_down wanted (id, iface) = if any (λ w. w == id) wanted then return tt else drop_link id iface

  -- After the interfaces: the rules, and the interfaces that nobody uses.
  unfoldable pub exits_rest : Exits.Plan → List Text × List Note → Action W Report
  exits_rest plan up = do
    installed ← managed_rules
    failed ← run_commands (rule_commands plan.rules installed)
    found ← list_exit_interfaces
    for_each (tear_down (map (λ e. e.1.site_id) plan.exits)) found
    return (record {
      applied = up.0;
      failed = up.1 ++ failed;
      rules = length plan.rules;
      unusable = plan.unusable;
    })

  unfoldable pub apply_exits : Exits.Plan → Text → Action W Report
  apply_exits plan key = do up ← bring_up_all key (map (λ e. e.1) plan.exits); exits_rest plan up

  -- A line of `ip -o rule show` with a priority in the managed range.
  abbrev pub clear_line : Text → Action W ℕ
  clear_line line = elim (exec_rule (trim line)) [
    | none ↦ return 0
    | some (priority, _, _) ↦
        if in_managed_range (value priority)
        then (do
          res ←
              try_run exec (text "ip")
                (text "rule" ∷ text "del" ∷ text "priority" ∷ decimal (value priority) ∷ [])
          return (if succeeded res then 1 else 0))
        else return 0
  ]

  unfoldable pub clear_lines : List Text → Action W ℕ
  clear_lines [] = return 0
  clear_lines (line ∷ lines) = do n ← clear_line line; m ← clear_lines lines; return (n + m)

  unfoldable pub clear_managed_rules : Action W ℕ
  clear_managed_rules = do
    res ← try_run exec (text "ip") (text "-o" ∷ text "rule" ∷ text "show" ∷ [])
    elim res [ err _ ↦ return 0 | ok out ↦ clear_lines (split 10 out) ]

  unfoldable pub statuses_of :
      ℕ → List (ℕ × Text) → Action W (List (ℕ × (Text × List (Text × Status))))
  statuses_of now [] = return []
  statuses_of now ((id, iface) ∷ rest) = do
    peers ← peer_status exec now iface
    others ← statuses_of now rest
    return ((id, (iface, peers)) ∷ others)

  unfoldable pub exit_status : ℕ → Action W (List (ℕ × (Text × List (Text × Status))))
  exit_status now = do found ← list_exit_interfaces; statuses_of now found
