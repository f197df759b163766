-- ===== src/Audit/Bounds.antt =====
-- The audit trail stays within its cap, and its index and hashes stay in step.
use jump_host.Base.{
  ℕ, zero, suc, ◌-◌, ◌≤◌, ◌≡◌, refl, sym, ap, ◌∙◌, inl, inr, Bool, true, false, not, ◌&&◌, ◌||◌,
  Option, none, some, List, [], ◌∷◌, ◌++◌, map, arith, ltb, if◌then◌else◌, Bool-cases, ◌==◌, eq_iff,
  eq_refl, nat_eq, text_eq, length, take, drop, any, filter, In, Text, length-filter-le,
  take-append-drop,
}
use jump_host.Base.Maps.{get, delete, get-put, get-delete}
use jump_host.Audit.Index.{Member, insert, listed, z_rem, Hash, del, Redis, cap, trim, write}

abbrev pub is_some : {A : Type 0} → Option A → Bool
is_some none = false
is_some (some a) = true

abbrev pub indexed : Text → List Member → Bool
indexed id index = any (λ n. n.id == id) index

-- An id stands in the index exactly if its hash is stored.
abbrev pub InStep : Redis → Type 0
InStep r = (id : Text) → indexed id r.index ≡ is_some (get id r.hashes)

indexed-insert :
    (id : Text) (m : Member) (ns : List Member)
    → indexed id (insert m ns) ≡ (m.id == id || indexed id ns)
unfolding insert any
indexed-insert id m [] = refl
indexed-insert id m (n ∷ ns) = ground (arith, indexed-insert id m ns)

indexed-filter :
    (p : Text → Bool) (id : Text) (ns : List Member)
    → indexed id (filter (λ n. p n.id) ns) ≡ (p id && indexed id ns)
unfolding filter any
indexed-filter p id [] = ground arith
indexed-filter p id (n ∷ ns) = ground (arith, eq_iff n.id id, indexed-filter p id ns)

get-del :
    (ids : List Text) (id : Text) (hashes : List (Text × Hash))
    → get id (del ids hashes) ≡ (if listed ids id then none else get id hashes)
unfolding del any
get-del [] id hashes = refl
get-del (i ∷ ids) id hashes =
    ground (arith, get-del ids id (delete i hashes), get-delete i id hashes)

trim-InStep : (max : ℕ) (r : Redis) → InStep r → InStep (trim max r)
unfolding trim
trim-InStep max r h id =
    let stale = map (λ n. n.id) (take (length r.index - max) r.index) in
    elim (Bool-cases (ltb max (length r.index))) [
      | inl over ↦
          rw
            (over, indexed-filter (λ i. not (listed stale i)) id r.index, get-del stale id r.hashes)
            (ground (arith, h id))
      | inr within ↦ rw within (h id)
    ]

-- Writing an event keeps the index and the hashes in step.
pub write-InStep :
    (max_events : Option ℕ) (id : Text) (ts : ℕ) (hash : Hash) (r : Redis)
    → InStep r
    → InStep (write max_events id ts hash r)
unfolding write
write-InStep max_events id ts hash r h =
    let m : Member = record { score = ts; id = id } in
    trim-InStep (cap max_events) _ (λ j. ground (
      arith,
      h j,
      eq_iff id j,
      eq_iff j id,
      indexed-insert j m (filter (λ n. not (n.id == id)) r.index),
      indexed-filter (λ i. not (i == id)) j r.index,
      get-put id j hash r.hashes,
    ))

filter-append :
    {A : Type 0} (p : A → Bool) (xs ys : List A) → filter p (xs ++ ys) ≡ filter p xs ++ filter p ys
unfolding filter
filter-append p [] ys = refl
filter-append p (x ∷ xs) ys = ground (arith, filter-append p xs ys)

-- Removing the ids of some members leaves none of these members.
z_rem-own :
    (ns : List Member) (ids : List Text)
    → ((n : Member) → In n ns → listed ids n.id ≡ true)
    → z_rem ids ns ≡ []
unfolding filter
z_rem-own [] ids h = refl
z_rem-own (n ∷ ns) ids h = rw (h n (inl refl), z_rem-own ns ids (λ k m. h k (inr m))) refl

listed-map : (ns : List Member) (n : Member) → In n ns → listed (map (λ k. k.id) ns) n.id ≡ true
unfolding any
listed-map [] n m = absurd m
listed-map (k ∷ ns) n (inl e) = ground (arith, eq_refl n.id)
listed-map (k ∷ ns) n (inr m) = ground (arith, listed-map ns n m)

length-drop : (n : ℕ) (ms : List Member) → length (drop n ms) ≡ length ms - n
length-drop zero ms = ground arith
length-drop (suc n) [] = ground arith
length-drop (suc n) (m ∷ ms) = ground (arith, length-drop n ms)

trim-bounded : (max : ℕ) (r : Redis) → length (trim max r).index ≤ max
unfolding trim
trim-bounded max r =
    let old = take (length r.index - max) r.index in
    let new = drop (length r.index - max) r.index in
    let stale = map (λ n. n.id) old in
    elim (Bool-cases (ltb max (length r.index))) [
      | inl over ↦
          let parts : z_rem stale r.index ≡ z_rem stale new =
            ap (z_rem stale) (sym (take-append-drop (length r.index - max) r.index))
            ∙ filter-append (λ n. not (listed stale n.id)) old new
            ∙ rw (z_rem-own old stale (listed-map old)) refl in
          rw over (
            omega (
              arith,
              ap length parts,
              length-filter-le (λ n. not (listed stale n.id)) new,
              length-drop (length r.index - max) r.index,
            ))
      | inr within ↦ rw within (ground arith)
    ]

-- However the trail stood before, after a write it holds at most as many events as the cap.
pub write-bounded :
    (max_events : Option ℕ) (id : Text) (ts : ℕ) (hash : Hash) (r : Redis)
    → length (write max_events id ts hash r).index ≤ cap max_events
unfolding write
write-bounded max_events id ts hash r = trim-bounded (cap max_events) _
