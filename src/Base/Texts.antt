-- ===== src/Base/Texts.antt =====
-- Strings as lists of code units.
use Prim.Native.Nat.{ℕ, suc}
use Prim.Native.Char.{code}
use Prim.Native.String.{String}
use mathlib.Core.List.{List, [], ◌∷◌, ◌++◌}
use mathlib.Core.Bool.{Bool, true, false, ◌&&◌}
use mathlib.Core.Option
use mathlib.Core.Option.{Option, none, some}
use mathlib.Core.Path.{◌≡◌, refl, ap, ◌∙◌}
use mathlib.Core.Logic.{◌≢◌, ◌↔◌, inl, inr}
use native.Mathlib.Omega.{arith}
use jump_host.Base.Tests.{leb, if◌then◌else◌, ◌==◌, nat_eq, Bool-cases}
use jump_host.Base.Lists.{All}

abbrev pub Text : Type 0
Text = List ℕ

-- A literal: the code units of an ASCII text.
abbrev pub text : String → Text
text String.[] = []
text (String.◌∷◌ c s) = code c ∷ text s

abbrev pub is_digit : ℕ → Bool
is_digit c = leb b'0' c && leb c b'9'

abbrev pub is_lower : ℕ → Bool
is_lower c = leb b'a' c && leb c b'z'

abbrev pub is_upper : ℕ → Bool
is_upper c = leb b'A' c && leb c b'Z'

-- `s.split(sep)` at a one-character separator, and `parts.join(sep)`.
cons_head : ℕ → List Text → List Text
cons_head c [] = (c ∷ []) ∷ []
cons_head c (p ∷ ps) = (c ∷ p) ∷ ps

unfoldable pub split : ℕ → Text → List Text
unfolding cons_head
split sep [] = [] ∷ []
split sep (c ∷ s) = if c == sep then [] ∷ split sep s else cons_head c (split sep s)

unfoldable pub join : ℕ → List Text → Text
join sep [] = []
join sep (p ∷ []) = p
join sep (p ∷ q ∷ ps) = p ++ sep ∷ join sep (q ∷ ps)

-- No character of the text is `c`.
abbrev pub Lacks : ℕ → Text → Type 0
Lacks c = All (λ d. d ≢ c)

pub split_of_Lacks : (c : ℕ) (s : Text) → Lacks c s → split c s ≡ s ∷ []
unfolding split
split_of_Lacks c [] _ = refl
split_of_Lacks c (d ∷ s) (h, hs) = ground (arith, split_of_Lacks c s hs)

pub split-append : (c : ℕ) (s t : Text) → Lacks c s → split c (s ++ c ∷ t) ≡ s ∷ split c t
unfolding split
split-append c [] t _ = ground arith
split-append c (d ∷ s) t (h, hs) = ground (arith, split-append c s t hs)

cons_head-Lacks :
    (c d : ℕ) (ps : List Text) → d ≢ c → All (Lacks c) ps → All (Lacks c) (cons_head d ps)
unfolding cons_head
cons_head-Lacks c d [] h _ = ((h, tt), tt)
cons_head-Lacks c d (p ∷ ps) h (k, ks) = ((h, k), ks)

-- No part holds the separator.
pub split-Lacks : (c : ℕ) (s : Text) → All (Lacks c) (split c s)
unfolding split
split-Lacks c [] = (tt, tt)
split-Lacks c (d ∷ s) = elim (Bool-cases (d == c)) [
  | inl e ↦ rw e (tt, split-Lacks c s)
  | inr e ↦ rw e (cons_head-Lacks c d (split c s) (ground arith) (split-Lacks c s))
]

pub split-cons : (c : ℕ) (s : Text) → (p : Text) × (ps : List Text) × (split c s ≡ p ∷ ps)
unfolding split cons_head
split-cons c [] = ([], [], refl)
split-cons c (d ∷ s) =
    let (p, ps, e) = split-cons c s in
    elim (Bool-cases (d == c)) [ inl t ↦ ([], split c s, rw t) | inr t ↦ (d ∷ p, ps, rw (t, e)) ]

join-cons_head : (c d : ℕ) (p : Text) (ps : List Text) → join c ((d ∷ p) ∷ ps) ≡ d ∷ join c (p ∷ ps)
unfolding join
join-cons_head c d p [] = refl
join-cons_head c d p (q ∷ ps) = refl

-- Joining the parts gives the text back.
pub join-split : (c : ℕ) (s : Text) → join c (split c s) ≡ s
unfolding split cons_head join
join-split c [] = refl
join-split c (d ∷ s) =
    let (p, ps, e) = split-cons c s in
    let ih = join-split c s in
    elim (Bool-cases (d == c)) [
      | inl t ↦ rw (t, e) (ground (arith, ih, e))
      | inr t ↦ rw (t, e) (join-cons_head c d p ps ∙ ap (◌∷◌ d) (rw e at ih))
    ]

unfoldable pub starts_with : Text → Text → Bool
starts_with s [] = true
starts_with [] (p ∷ ps) = false
starts_with (c ∷ s) (p ∷ ps) = c == p && starts_with s ps

-- `s.indexOf(p)`, with `none` for -1.
unfoldable pub index_of : Text → Text → Option ℕ
unfolding starts_with
index_of [] p = if starts_with [] p then some 0 else none
index_of (c ∷ s) p = if starts_with (c ∷ s) p then some 0 else Option.map suc (index_of s p)

pub starts_with_iff : (s p : Text) → (starts_with s p ≡ true) ↔ ((t : Text) × (s ≡ p ++ t))
unfolding starts_with
starts_with_iff s [] = (λ _. (s, refl), λ _. refl)
starts_with_iff [] (p ∷ ps) = (λ h. cc, λ h. cc (h.1))
starts_with_iff (c ∷ s) (p ∷ ps) =
    let (to, from) = starts_with_iff s ps in
    (
      λ h. let (t, e) = to (ground arith) in (t, ground arith),
      λ h. ground (arith, from (h.0, ground arith)),
    )

-- Splitting a join of parts without the separator gives the parts back.
pub split-join :
    (c : ℕ) (p : Text) (ps : List Text)
    → All (Lacks c) (p ∷ ps)
    → split c (join c (p ∷ ps)) ≡ p ∷ ps
unfolding join
split-join c p [] (h, _) = split_of_Lacks c p h
split-join c p (q ∷ ps) (h, hs) =
    split-append c p (join c (q ∷ ps)) h ∙ ap (◌∷◌ p) (split-join c q ps hs)
