-- ===== src/Mesh/Exits/Laws.antt =====
-- What `planExits` plans for each device, by the last row that the roster has for its exit.
use jump_host.Base.{
  ℕ, ◌+◌, ◌≡◌, refl, sym, ap, ◌∙◌, inl, inr, Bool, true, false, Option, none, some, List, [], ◌∷◌,
  ◌++◌, append-nil, append_assoc, arith, if◌then◌else◌, Bool-cases, Option-cases, ◌==◌, nat_eq,
  text_eq, Text, text,
}
use jump_host.Base.Maps.{get, put, get-put}
use jump_host.Mesh.Roster.{Client, Site, is_truthy, shown}
use jump_host.Mesh.Exits.{
  Rule, Reason, no_such_site, no_public_key, no_endpoint, Unusable, Plan, by_id_from, plan_client,
  route_client, plan_from, plan_exits,
}

infixr 20 ◌or_else◌
abbrev pub ◌or_else◌ : Option Site → Option Site → Option Site
none or_else b = b
some a or_else b = some a

-- The last row of the roster for a site id.
abbrev pub last_row : ℕ → List Site → Option Site
last_row id [] = none
last_row id (s ∷ sites) =
    let later = last_row id sites in later or_else (if s.site_id == id then some s else none)

-- What becomes of a device.
pub data Fate : Type 0 where
  stays : Fate
  routed : ℕ → Fate
  refused : ℕ → Reason → Fate

-- A text that is there and is not empty.
abbrev pub is_published : Option Text → Bool
is_published none = false
is_published (some []) = false
is_published (some (c ∷ s)) = true

-- The fate by what the roster's row publishes: its key first, then its endpoint.
abbrev pub fate_by : ℕ → Bool → Bool → Fate
fate_by id true true = routed id
fate_by id true false = refused id no_endpoint
fate_by id false _ = refused id no_public_key

abbrev pub fate_at : ℕ → Option Site → Fate
fate_at id none = refused id no_such_site
fate_at id (some site) =
    fate_by id (is_published site.gateway_public_key) (is_published site.gateway_endpoint)

abbrev pub fate : List Site → ℕ → Option ℕ → Fate
fate sites local none = stays
fate sites local (some id) = if id == local then stays else fate_at id (last_row id sites)

abbrev pub rule_for : Client → Fate → List Rule
rule_for c stays = []
rule_for c (routed id) =
    record {
      from = shown c.assigned_ip ++ text "/32";
      table = 2400 + id;
      priority = 3000 + id;
      exit_site_id = id;
    }
    ∷ []
rule_for c (refused id reason) = []

abbrev pub refusal_for : Client → Fate → List Unusable
refusal_for c stays = []
refusal_for c (routed id) = []
refusal_for c (refused id reason) =
    record { client = c.assigned_ip; exit_site_id = id; reason = reason } ∷ []

-- The rules of the devices that are routed, in their order.
pub rules_of : List Site → ℕ → List Client → List Rule
rules_of sites local [] = []
rules_of sites local (c ∷ cs) =
    rule_for c (fate sites local c.exit_site_id) ++ rules_of sites local cs

pub refusals_of : List Site → ℕ → List Client → List Unusable
refusals_of sites local [] = []
refusals_of sites local (c ∷ cs) =
    refusal_for c (fate sites local c.exit_site_id) ++ refusals_of sites local cs

-- What the map of the roster answers is the last row.
by_id-last :
    (id : ℕ) (m : List (ℕ × Site)) (sites : List Site)
    → get id (by_id_from m sites) ≡ last_row id sites or_else get id m
unfolding by_id_from
by_id-last id m [] = refl
by_id-last id m (s ∷ sites) = by_id-last id (put s.site_id s m) sites ∙ by_later (last_row id sites)
  where
    by_later :
        (later : Option Site)
        → later or_else get id (put s.site_id s m)
          ≡ (later or_else (if s.site_id == id then some s else none)) or_else get id m
    by_later (some t) = refl
    by_later none = elim (Bool-cases (s.site_id == id)) [
      | inl same ↦ rw (get-put s.site_id id s m, same) refl
      | inr other ↦ rw (get-put s.site_id id s m, other) refl
    ]

by_id-last_row : (id : ℕ) (sites : List Site) → get id (by_id_from [] sites) ≡ last_row id sites
unfolding get
by_id-last_row id sites = by_id-last id [] sites ∙ by_row (last_row id sites)
  where
    by_row : (o : Option Site) → o or_else none ≡ o
    by_row none = refl
    by_row (some s) = refl

is_truthy-is_published : (o : Option Text) → is_truthy o ≡ is_published o
is_truthy-is_published none = refl
is_truthy-is_published (some []) = refl
is_truthy-is_published (some (c ∷ s)) = ground arith

-- One device, at the row that the map answers.
route_lists :
    (p : Plan) (c : Client) (id : ℕ) (row : Option Site)
    → ((route_client p c id row).rules ≡ p.rules ++ rule_for c (fate_at id row))
      × ((route_client p c id row).unusable ≡ p.unusable ++ refusal_for c (fate_at id row))
unfolding route_client
route_lists p c id none = (sym (append-nil p.rules), refl)
route_lists p c id (some site) = ground (
  arith,
  append-nil p.rules,
  append-nil p.unusable,
  is_truthy-is_published site.gateway_public_key,
  is_truthy-is_published site.gateway_endpoint,
)

step_lists :
    (sites : List Site) (local : ℕ) (p : Plan) (c : Client)
    → let q = plan_client (by_id_from [] sites) local p c in
      (q.rules ≡ p.rules ++ rule_for c (fate sites local c.exit_site_id))
      × (q.unusable ≡ p.unusable ++ refusal_for c (fate sites local c.exit_site_id))
unfolding plan_client route_client
step_lists sites local p c = elim (Option-cases c.exit_site_id) [
  | inl no_exit ↦ rw no_exit (sym (append-nil p.rules), sym (append-nil p.unusable))
  | inr (id, at) ↦ elim (Bool-cases (id == local)) [
    | inl here ↦ rw (at, here) (sym (append-nil p.rules), sym (append-nil p.unusable))
    | inr away ↦ rw (at, away, by_id-last_row id sites) (route_lists p c id (last_row id sites))
  ]
]

from_lists :
    (sites : List Site) (local : ℕ) (p : Plan) (cs : List Client)
    → let q = plan_from (by_id_from [] sites) local p cs in
      (q.rules ≡ p.rules ++ rules_of sites local cs)
      × (q.unusable ≡ p.unusable ++ refusals_of sites local cs)
unfolding plan_from rules_of refusals_of
from_lists sites local p [] = (sym (append-nil p.rules), sym (append-nil p.unusable))
from_lists sites local p (c ∷ cs) =
    let (r, u) = step_lists sites local p c in
    let (rs, us) = from_lists sites local (plan_client (by_id_from [] sites) local p c) cs in
    (
      rs ∙ ap (λ x. x ++ rules_of sites local cs) r ∙ append_assoc p.rules _ _,
      us ∙ ap (λ x. x ++ refusals_of sites local cs) u ∙ append_assoc p.unusable _ _,
    )

-- The rules and the refusals of a plan are those of the devices, in their order, each by the last row
-- that the roster has for its exit. No exit, or this site as exit, gives neither. No row, a row without
-- a key, and a row with a key but without an endpoint, give a refusal with that reason. Any other row
-- gives the rule from the device's address to table 2400 + id, with priority 3000 + id.
pub plan_exits_lists :
    (clients : List Client) (sites : List Site) (local : ℕ)
    → let p = plan_exits clients sites local in
      (p.rules ≡ rules_of sites local clients) × (p.unusable ≡ refusals_of sites local clients)
unfolding plan_exits
plan_exits_lists clients sites local = from_lists sites local _ clients
