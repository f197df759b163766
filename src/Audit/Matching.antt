-- ===== src/Audit/Matching.antt =====
-- Which events a query of nodejs/models/audit_event.js lists.
use jump_host.Base.{
  ◌≡◌, refl, ◌↔◌, ◌⊎◌, inl, inr, Bool, true, false, not, ◌&&◌, ◌||◌, Option, none, some, List, [],
  ◌∷◌, arith, Bool-cases, Option-cases, eq_iff, nat_eq, text_eq, filter, Text, text,
}
use jump_host.Base.Maps.{get}
use jump_host.Audit.Index.{Member, Hash}
use jump_host.Audit.Event.{Row, field, deserialize, Query, is_word, passes, matches, collect}

-- The stored events of some ids, in their order; an id without one is passed over.
pub stored : List (Text × Hash) → List Member → List Row
stored hashes [] = []
stored hashes (m ∷ ms) = elim (deserialize (get m.id hashes)) [
  | none ↦ stored hashes ms
  | some e ↦ e ∷ stored hashes ms
]

-- What a filter asks for, where it is given and not empty.
abbrev pub Asked : Option Text → (Text → Type 0) → Type 0
Asked none P = Unit
Asked (some []) P = Unit
Asked (some (c ∷ s)) P = P (c ∷ s)

abbrev pub Holds : Row → Text → Text → Type 0
Holds e name value = field name e.fields ≡ some value

abbrev pub Wanted : Query → Row → Type 0
Wanted q e =
    Asked q.uid (Holds e (text "uid"))
    × Asked q.target (λ t. Holds e (text "targetSlug") t ⊎ Holds e (text "targetAddr") t)
    × (q.status ≡ some (text "success") → e.success ≡ true)
    × (q.status ≡ some (text "fail") → e.success ≡ false)

is_word_iff : (o : Option Text) (w : Text) → (is_word o w ≡ true) ↔ (o ≡ some w)
is_word_iff none w = ((λ e. cc), (λ e. cc))
is_word_iff (some v) w = let same = eq_iff v w in ((λ e. rw (same.0 e) refl), (λ e. same.1 cc))

passes_iff :
    (o : Option Text) (p : Text → Bool) (P : Text → Type 0)
    → ((v : Text) → (p v ≡ true) ↔ P v)
    → (passes o p ≡ true) ↔ Asked o P
passes_iff none p P each = ((λ _. tt), (λ _. refl))
passes_iff (some []) p P each = ((λ _. tt), (λ _. refl))
passes_iff (some (c ∷ s)) p P each =
    let (to, from) = each (c ∷ s) in
    ((λ e. to (ground arith)), (λ h. let passed = from h in ground arith))

either_iff :
    (e : Row) (t : Text)
    → ((is_word (field (text "targetSlug") e.fields) t
          || is_word (field (text "targetAddr") e.fields) t)
        ≡ true)
      ↔ (Holds e (text "targetSlug") t ⊎ Holds e (text "targetAddr") t)
either_iff e t = ground (
  arith,
  is_word_iff (field (text "targetSlug") e.fields) t,
  is_word_iff (field (text "targetAddr") e.fields) t,
)

status_iff :
    (o : Option Text) (w : Text) (bad : Bool)
    → (not (is_word o w && bad) ≡ true) ↔ (o ≡ some w → bad ≡ false)
status_iff o w bad = elim (Bool-cases (is_word o w)) [
  | inl named ↦
      rw named
        ((λ e h. ground arith), (λ f. let good = f ((is_word_iff o w).0 named) in ground arith))
  | inr other ↦
      rw other ((λ e h. let named = (is_word_iff o w).1 h in absurd (ground arith)), (λ f. refl))
]

four_iff :
    (a b c d : Bool)
    → (a && b && c && d ≡ true) ↔ ((a ≡ true) × (b ≡ true) × (c ≡ true) × (d ≡ true))
four_iff a b c d = ground arith

-- An event is listed for a query exactly if it has the uid and the target that are asked for, as slug
-- or as address, and, where the status is one of the two words, succeeded or did not.
pub matches_iff : (q : Query) (e : Row) → (matches q e ≡ true) ↔ Wanted q e
unfolding matches
matches_iff q e =
    let uid =
      passes_iff q.uid (λ u. is_word (field (text "uid") e.fields) u) (Holds e (text "uid"))
        (λ u. is_word_iff (field (text "uid") e.fields) u) in
    let target =
      passes_iff q.target _ (λ t. Holds e (text "targetSlug") t ⊎ Holds e (text "targetAddr") t)
        (either_iff e) in
    let success = status_iff q.status (text "success") (not e.success) in
    let fail = status_iff q.status (text "fail") e.success in
    let all_four =
      four_iff (passes q.uid (λ u. is_word (field (text "uid") e.fields) u))
        (passes q.target (λ t.
          is_word (field (text "targetSlug") e.fields) t
          || is_word (field (text "targetAddr") e.fields) t))
        (not (is_word q.status (text "success") && not e.success))
        (not (is_word q.status (text "fail") && e.success)) in
    (
      (λ h.
          let (a, b, c, d) = all_four.0 h in
          (uid.0 a, target.0 b, (λ s. let good = success.0 c s in ground arith), fail.0 d)),
      (λ (a, b, c, d).
          all_four.1
            (uid.1 a, target.1 b, success.1 (λ s. let good = c s in ground arith), fail.1 d)),
    )

pub collect-filter :
    (q : Query) (hashes : List (Text × Hash)) (ms : List Member)
    → collect q hashes ms ≡ filter (matches q) (stored hashes ms)
unfolding collect stored filter
collect-filter q hashes [] = refl
collect-filter q hashes (m ∷ ms) = elim (Option-cases (deserialize (get m.id hashes))) [
  | inl missing ↦ rw (collect, stored, missing) (collect-filter q hashes ms)
  | inr (e, there) ↦ rw (collect, stored, there, collect-filter q hashes ms) refl
]
