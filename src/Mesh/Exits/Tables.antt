-- ===== src/Mesh/Exits/Tables.antt =====
-- Rules and exit interfaces belong together: each rule's table has its interface, and each interface its rule.
use jump_host.Base.{ℕ, ◌+◌, ◌≡◌, ◌≢◌, none, some, List, nat_eq, text_eq, In}
use jump_host.Base.Maps.{get}
use jump_host.Mesh.Roster.{Site}
use jump_host.Mesh.Exits.{rule_priority_base, Exit, Rule, Plan, problem, exit_of}

-- The exit is that of a usable site of the roster, other than this one.
pub record Backed (by_id : List (ℕ × Site)) (local id : ℕ) (e : Exit) : Type 0 where
  pub site : Site
  pub listed : get id by_id ≡ some site
  pub usable : problem (some site) ≡ none
  pub elsewhere : id ≢ local
  pub built : e ≡ exit_of id site

pub record IsSound (by_id : List (ℕ × Site)) (local : ℕ) (p : Plan) : Type 0 where
  pub backed : (id : ℕ) (e : Exit) → get id p.exits ≡ some e → Backed by_id local id e
  pub served :
      (r : Rule)
      → In r p.rules
      → (e : Exit) × (get r.exit_site_id p.exits ≡ some e)
        × (r.table ≡ e.table)
        × (r.priority ≡ rule_priority_base + r.exit_site_id)
  pub used :
      (id : ℕ) (e : Exit)
      → get id p.exits ≡ some e
      → (r : Rule) × In r p.rules × (r.exit_site_id ≡ id)
