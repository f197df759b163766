-- ===== src/Mesh/Exits.antt =====
-- nodejs/services/exit_router.js: planning which device leaves through which site.
use jump_host.Base.{
  ℕ, zero, suc, ◌+◌, ◌-◌, ◌*◌, ◌/◌, ◌%◌, ◌^◌, ◌≤◌, ◌<◌, min, pred, ◌≡◌, refl, sym, ap, ap₂, ◌∙◌,
  subst, ◌≡⟨◌⟩◌, ◌∎, ◌≢◌, ◌↔◌, ◌⊎◌, inl, inr, Bool, true, false, not, ◌&&◌, ◌||◌, Option, none,
  some, List, [], ◌∷◌, ◌++◌, map, reverse, append-nil, append_assoc, map-append, arith, ltb, leb,
  if◌then◌else◌, ltb→lt, lt→ltb, leb→le, le→leb, tests, Bool-cases, Option-cases, Eq, ◌==◌, eq_iff,
  eq_refl, eq_of_ne, nat_eq, text_eq, text_beq, Result, ok, err, ◌>>=◌, ◌>>◌, require, Result-cases,
  length, length-append, get_elem?, take, drop, length-take, take-append, drop-append, all, any,
  find, filter, In, All, All-In, All-from_members, In-append, Text, text, is_digit, is_lower,
  is_upper, split, join, Lacks, split_of_Lacks, split-append, split-Lacks, join-split, starts_with,
  index_of, starts_with_iff, split-join, all_iff, any_iff, find-eq-some, find-eq-none, In-filter,
  length-filter-le, All-imp, drop-nil, drop-add, take-append-drop,
}
pub mod Laws
pub mod Tables
pub mod Readback
pub mod ReadbackLaws
pub mod Apply
mod Examples
use jump_host.Base.Decimal.{decimal}
use jump_host.Base.Maps.{get, put}
use jump_host.Mesh.Roster.{Client, Site, is_truthy, or_text, shown}

abbrev pub table_base : ℕ
table_base = 2400

abbrev pub rule_priority_base : ℕ
rule_priority_base = 3000

abbrev pub iface_for : ℕ → Text
iface_for id = text "wg-exit-" ++ decimal id

abbrev pub table_for : ℕ → ℕ
table_for id = table_base + id

pub record Exit : Type 0 where
  pub site_id : ℕ
  pub slug : Text
  pub iface : Text
  pub table : ℕ
  pub public_key : Text
  pub endpoint : Text
  pub allowed_ips : List Text
  pub keepalive : ℕ

pub record Rule : Type 0 where
  pub from : Text
  pub table : ℕ
  pub priority : ℕ
  pub exit_site_id : ℕ

pub data Reason : Type 0 where
  no_such_site no_public_key no_endpoint : Reason

pub record Unusable : Type 0 where
  pub client : Option Text
  pub exit_site_id : ℕ
  pub reason : Reason

pub record Plan : Type 0 where
  pub exits : List (ℕ × Exit)
  pub rules : List Rule
  pub unusable : List Unusable

-- `new Map(sites.map((s) => [s.siteId, s]))`: the last row of a site wins.
unfoldable pub by_id_from : List (ℕ × Site) → List Site → List (ℕ × Site)
by_id_from m [] = m
by_id_from m (s ∷ sites) = by_id_from (put s.site_id s m) sites

-- Why the exit cannot be used, if it cannot.
abbrev pub problem : Option Site → Option Reason
problem none = some no_such_site
problem (some site) =
    if not (is_truthy site.gateway_public_key)
    then some no_public_key
    else if not (is_truthy site.gateway_endpoint)
    then some no_endpoint
    else none

abbrev pub exit_of : ℕ → Site → Exit
exit_of id site = record {
  site_id = id;
  slug = or_text site.slug (text "site-" ++ decimal id);
  iface = iface_for id;
  table = table_for id;
  public_key = or_text site.gateway_public_key [];
  endpoint = or_text site.gateway_endpoint [];
  allowed_ips = text "0.0.0.0/0" ∷ text "::/0" ∷ [];
  keepalive = 25;
}

abbrev pub rule_of : Client → ℕ → Rule
rule_of c id = record {
  from = shown c.assigned_ip ++ text "/32";
  table = table_for id;
  priority = rule_priority_base + id;
  exit_site_id = id;
}

-- `if (!exits.has(id)) exits.set(id, …)`
unfoldable pub add_exit : ℕ → Site → List (ℕ × Exit) → List (ℕ × Exit)
add_exit id site exits = elim (get id exits) [
  | none ↦ put id (exit_of id site) exits
  | some _ ↦ exits
]

-- The rest of the loop's body, for a device whose exit is another site.
unfoldable pub route_client : Plan → Client → ℕ → Option Site → Plan
route_client p c id none = record p {
  unusable =
      p.unusable
      ++ record { client = c.assigned_ip; exit_site_id = id; reason = no_such_site } ∷ [];
}
route_client p c id (some site) = elim (problem (some site)) [
  | some reason ↦ record p {
    unusable =
        p.unusable ++ record { client = c.assigned_ip; exit_site_id = id; reason = reason } ∷ [];
  }
  | none ↦ record p { exits = add_exit id site p.exits; rules = p.rules ++ rule_of c id ∷ [] }
]

-- The body of the loop over the devices.
unfoldable pub plan_client : List (ℕ × Site) → ℕ → Plan → Client → Plan
plan_client by_id local p c = elim c.exit_site_id [
  | none ↦ p
  | some id ↦ if id == local then p else route_client p c id (get id by_id)
]

unfoldable pub plan_from : List (ℕ × Site) → ℕ → Plan → List Client → Plan
plan_from by_id local p [] = p
plan_from by_id local p (c ∷ clients) = plan_from by_id local (plan_client by_id local p c) clients

unfoldable pub plan_exits : List Client → List Site → ℕ → Plan
plan_exits clients sites local =
    plan_from (by_id_from [] sites) local (record { exits = []; rules = []; unusable = [] }) clients
