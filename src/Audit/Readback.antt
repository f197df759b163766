-- ===== src/Audit/Readback.antt =====
-- What is read back from the audit trail.
use jump_host.Base.{
  ap₂, min, ◌-◌, filter, drop-nil, ◌↔◌, ℕ, zero, suc, ◌+◌, ◌*◌, ◌≤◌, ◌≡◌, refl, sym, ap, ◌∙◌, true,
  Option, none, some, List, [], ◌∷◌, ◌++◌, reverse, arith, if◌then◌else◌, nat_eq, text_eq, length,
  take, drop, length-take, Text,
}
use jump_host.Base.Int.{pos}
use jump_host.Audit.Matching.{stored, Wanted, matches_iff, collect-filter}
use jump_host.Audit.Index.{Redis}
use jump_host.Audit.Event.{Event, Row, number, Query, matches, collect, slice, list, is_word}

abbrev duration_of : Text → Option ℕ
duration_of v = if is_word (some v) [] then none else number (some v)

-- The pages from the first on, one after the other.
pub pages : ℕ → ℕ → Query → Redis → List Row
pages zero size q r = []
pages (suc n) size q r = pages n size q r ++ (list n (pos size) q r).results

take-nil : {A : Type 0} (n : ℕ) → take {A = A} n [] ≡ []
take-nil zero = refl
take-nil (suc n) = refl

take-add : {A : Type 0} (n m : ℕ) (xs : List A) → take n xs ++ take m (drop n xs) ≡ take (n + m) xs
take-add zero m xs = ap (λ k. take k xs) (omega arith)
take-add (suc n) m [] = take-nil m ∙ sym (take-nil (suc n + m))
take-add (suc n) m (x ∷ xs) =
    let shifted : suc (n + m) ≡ suc n + m = omega arith in
    ap (◌∷◌ x) (take-add n m xs) ∙ ap (λ k. take k (x ∷ xs)) shifted

take-min : {A : Type 0} (n : ℕ) (xs : List A) → take (min n (length xs)) xs ≡ take n xs
take-min zero xs = let nothing : min 0 (length xs) ≡ 0 = omega arith in ap (λ k. take k xs) nothing
take-min (suc n) [] = take-nil (min (suc n) 0)
take-min (suc n) (x ∷ xs) =
    let shifted : min (suc n) (suc (length xs)) ≡ suc (min n (length xs)) = omega arith in
    ap (λ k. take k (x ∷ xs)) shifted ∙ ap (◌∷◌ x) (take-min n xs)

-- `slice` at a start and an end that are not negative.
slice-take : (xs : List Row) (a n : ℕ) → slice xs (pos a) (pos (a + n)) ≡ take n (drop a xs)
slice-take [] a n =
    ap (take (min (a + n) 0 - min a 0)) (drop-nil (min a 0))
    ∙ take-nil (min (a + n) 0 - min a 0)
    ∙ sym (ap (take n) (drop-nil a) ∙ take-nil n)
slice-take (x ∷ xs) zero n =
    let first : min 0 (suc (length xs)) ≡ 0 = omega arith in
    let size : min (0 + n) (suc (length xs)) - 0 ≡ min n (suc (length xs)) = omega arith in
    rw (first, size) (take-min n (x ∷ xs))
slice-take (x ∷ xs) (suc a) n =
    let first : min (suc a) (suc (length xs)) ≡ suc (min a (length xs)) = omega arith in
    let size : min (suc a + n) (suc (length xs)) - suc (min a (length xs))
        ≡ min (a + n) (length xs) - min a (length xs) =
      omega arith in
    rw (first, size) (slice-take xs a n)

-- The events that the query asks for, newest first.
abbrev pub wanted_rows : Query → Redis → List Row
wanted_rows q r = filter (matches q) (stored r.hashes (reverse r.index))

results-take :
    (n size : ℕ) (q : Query) (r : Redis)
    → (list n (pos size) q r).results ≡ take size (drop (n * size) (wanted_rows q r))
unfolding list
results-take n size q r =
    slice-take (collect q r.hashes (reverse r.index)) (n * size) size
    ∙ ap (λ rows. take size (drop (n * size) rows)) (collect-filter q r.hashes (reverse r.index))

pages-take :
    (n size : ℕ) (q : Query) (r : Redis) → pages n size q r ≡ take (n * size) (wanted_rows q r)
unfolding pages
pages-take zero size q r = ap (λ k. take k (wanted_rows q r)) zero_pages
  where
    zero_pages : 0 ≡ 0 * size
    zero_pages = omega arith
pages-take (suc n) size q r =
    let rows = wanted_rows q r in
    ap₂ (◌++◌) (pages-take n size q r) (results-take n size q r)
    ∙ take-add (n * size) size rows
    ∙ ap (λ k. take k rows) next_pages
  where
    next_pages : n * size + size ≡ suc n * size
    next_pages = omega arith

-- For a page size that is not negative, every event that the query asks for, newest first, stands on
-- exactly one page: the first pages together are the first such events, and no page is longer than the
-- page size. A query asks for the events with its uid, with its target as slug or address, and that
-- succeeded, or failed, where its status is that word.
pub list-pages :
    (n size : ℕ) (q : Query) (r : Redis)
    → (pages n size q r ≡ take (n * size) (wanted_rows q r))
      × (length (list n (pos size) q r).results ≤ size)
      × ((e : Row) → (matches q e ≡ true) ↔ Wanted q e)
list-pages n size q r = (
  pages-take n size q r,
  rw (results-take n size q r)
      (omega (arith, length-take size (drop (n * size) (wanted_rows q r)))),
  matches_iff q,
)
