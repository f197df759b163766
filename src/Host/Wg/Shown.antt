-- ===== src/Host/Wg/Shown.antt =====
-- nodejs/utils/wg_iface.js: the sets of setAddresses, and the addresses that it reads.
use jump_host.Base.{
  ℕ, ◌≡◌, refl, sym, ◌∙◌, ◌↔◌, ◌⊎◌, inl, inr, true, false, not, none, some, List, [], ◌∷◌, ◌++◌,
  arith, Bool-cases, ◌==◌, eq_iff, eq_refl, nat_eq, text_eq, any, In, All, In-append, Text, text,
  Lacks, starts_with,
}
use jump_host.Host.Wg.{set_onto, set_of, has, shown_addresses}
use jump_host.Mesh.Exits.Readback.{is_space, literal}
use jump_host.Mesh.Exits.ReadbackLaws.{some_of-stop}
use jump_host.Host.Uplink.{word_at, after_word}

pub has_iff : (x : Text) (xs : List Text) → (has x xs ≡ true) ↔ In x xs
unfolding any
has_iff x [] = ((λ h. cc), (λ m. absurd m))
has_iff x (y ∷ ys) = (
  λ h. elim (Bool-cases (y == x)) [
    | inl same ↦ inl (sym ((eq_iff y x).0 same))
    | inr differs ↦ inr ((has_iff x ys).0 (rw differs at h))
  ],
  λ m. elim m [
    | inl same ↦ rw (same, eq_refl y) refl
    | inr later ↦ ground (arith, (has_iff x ys).1 later)
  ],
)

In-set_onto : (a : Text) (seen xs : List Text) → In a (set_onto seen xs) ↔ (In a seen ⊎ In a xs)
unfolding set_onto
In-set_onto a seen [] = ((λ m. inl m), (λ s. elim s [ inl m ↦ m | inr n ↦ absurd n ]))
In-set_onto a seen (x ∷ xs) = elim (Bool-cases (has x seen)) [
  | inl old ↦ rw old (
      let (to, from) = In-set_onto a seen xs in
      (
        λ m. elim (to m) [ inl k ↦ inl k | inr k ↦ inr (inr k) ],
        λ s. elim s [
          | inl k ↦ from (inl k)
          | inr (inl same) ↦ from (inl (rw same ((has_iff x seen).0 old)))
          | inr (inr k) ↦ from (inr k)
        ],
      ))
  | inr new ↦ rw new (
      let (to, from) = In-set_onto a (seen ++ x ∷ []) xs in
      let (front, back) = In-append a seen (x ∷ []) in
      (
        λ m. elim (to m) [
          | inl k ↦ elim (front k) [
            | inl old ↦ inl old
            | inr (inl same) ↦ inr (inl same)
            | inr (inr no_more) ↦ absurd no_more
          ]
          | inr k ↦ inr (inr k)
        ],
        λ s. elim s [
          | inl k ↦ from (inl (back (inl k)))
          | inr (inl same) ↦ from (inl (back (inr (inl same))))
          | inr (inr k) ↦ from (inr k)
        ],
      ))
]

pub In-set_of : (a : Text) (xs : List Text) → In a (set_of xs) ↔ In a xs
In-set_of a xs =
    let (to, from) = In-set_onto a [] xs in
    ((λ m. elim (to m) [ inl no_one ↦ absurd no_one | inr k ↦ k ]), (λ k. from (inr k)))

-- A line of `ip -o -4 addr show`: an index, the device, an address, and more.
abbrev pub IsLine : Text → Text → Type 0
IsLine a l =
    (index : Text) × (dev : Text) × (c : ℕ) × (s : Text) × (more : Text) × All
      (λ d. is_space d ≡ false) index
    × All (λ d. is_space d ≡ false) dev
    × (starts_with dev (text "inet") ≡ false)
    × (a ≡ c ∷ s)
    × All (λ d. is_space d ≡ false) (c ∷ s)
    × (l ≡ index ++ 32 ∷ (dev ++ (text "    " ++ (text "inet" ++ 32 ∷ (a ++ 32 ∷ more)))))

-- The lines that show these addresses, with an empty one at the end.
abbrev pub ShowsLines : List Text → List Text → Type 0
ShowsLines [] lines = lines ≡ [] ∷ []
ShowsLines (a ∷ rest) [] = ⊥
ShowsLines (a ∷ rest) (l ∷ ls) = IsLine a l × ShowsLines rest ls

after_word-skip :
    (w front s : Text)
    → All (λ d. is_space d ≡ false) front
    → after_word w (front ++ s) ≡ after_word w s
unfolding after_word
after_word-skip w [] s _ = refl
after_word-skip w (c ∷ front) s (h, hs) = rw h (after_word-skip w front s hs)

starts_with-dev :
    (dev s p : Text)
    → Lacks 32 p
    → starts_with dev p ≡ false
    → starts_with (dev ++ 32 ∷ s) p ≡ false
unfolding starts_with
starts_with-dev dev s [] _ h = cc
starts_with-dev [] s (q ∷ p) (k, _) _ = ground arith
starts_with-dev (d ∷ dev) s (q ∷ p) (k, ks) h = elim (Bool-cases (d == q)) [
  | inl same ↦ rw same (starts_with-dev dev s p ks (rw same at h))
  | inr differs ↦ rw differs refl
]

word_at-none : (w s : Text) → starts_with s w ≡ false → word_at w s ≡ none
unfolding word_at literal
word_at-none w s h = rw h refl

after_space : (w s : Text) → starts_with s w ≡ false → after_word w (32 ∷ s) ≡ after_word w s
unfolding after_word
after_space w s h = rw (word_at-none w s h) refl

after_found : (w s v : Text) → word_at w s ≡ some v → after_word w (32 ∷ s) ≡ some v
unfolding after_word
after_found w s v h = rw h refl

inet_literal : (t : Text) → literal (text "inet") (text "inet" ++ t) ≡ some t
unfolding literal starts_with
inet_literal t = refl

inet_at :
    (c : ℕ) (s more : Text)
    → All (λ d. is_space d ≡ false) (c ∷ s)
    → word_at (text "inet") (text "inet" ++ 32 ∷ ((c ∷ s) ++ 32 ∷ more)) ≡ some (c ∷ s)
unfolding word_at
inet_at c s more (hc, hs) =
    let gap = some_of-stop is_space (32 ∷ []) c (s ++ 32 ∷ more) (refl, tt) (omega arith) hc in
    let address =
      some_of-stop (λ d. not (is_space d)) (c ∷ s) 32 more (solid_not (c ∷ s) (hc, hs))
        (ground arith) refl in
    rw (inet_literal (32 ∷ ((c ∷ s) ++ 32 ∷ more)), gap, address) refl
  where
    solid_not : (t : Text) → All (λ d. is_space d ≡ false) t → All (λ d. not (is_space d) ≡ true) t
    solid_not [] _ = tt
    solid_not (d ∷ t) (h, k) = (rw h refl, solid_not t k)

no_inet_at_space : (t : Text) → starts_with (32 ∷ t) (text "inet") ≡ false
unfolding starts_with
no_inet_at_space t = refl

after_padding :
    (w index dev t v : Text)
    → All (λ d. is_space d ≡ false) index
    → All (λ d. is_space d ≡ false) dev
    → Lacks 32 w
    → starts_with dev w ≡ false
    → ((u : Text) → starts_with (32 ∷ u) w ≡ false)
    → word_at w t ≡ some v
    → after_word w (index ++ 32 ∷ (dev ++ 32 ∷ 32 ∷ 32 ∷ 32 ∷ t)) ≡ some v
after_padding w index dev t v index_solid dev_solid bare no_word no_space found =
    after_word-skip w index _ index_solid
    ∙ after_space w _ (starts_with-dev dev (32 ∷ 32 ∷ 32 ∷ t) w bare no_word)
    ∙ after_word-skip w dev _ dev_solid
    ∙ after_space w _ (no_space (32 ∷ 32 ∷ t))
    ∙ after_space w _ (no_space (32 ∷ t))
    ∙ after_space w _ (no_space t)
    ∙ after_found w t v found

inet_bare : Lacks 32 (text "inet")
inet_bare =
    ((λ e. ground arith), ((λ e. ground arith), ((λ e. ground arith), ((λ e. ground arith), tt))))

padded_inet :
    (index dev s more : Text) (c : ℕ)
    → All (λ d. is_space d ≡ false) index
    → All (λ d. is_space d ≡ false) dev
    → starts_with dev (text "inet") ≡ false
    → All (λ d. is_space d ≡ false) (c ∷ s)
    → after_word
        (text "inet")
        (index ++ 32 ∷ (dev ++ (text "    " ++ (text "inet" ++ 32 ∷ ((c ∷ s) ++ 32 ∷ more)))))
      ≡ some (c ∷ s)
padded_inet index dev s more c index_solid dev_solid no_inet solid =
    after_padding (text "inet") index dev (text "inet" ++ 32 ∷ ((c ∷ s) ++ 32 ∷ more)) (c ∷ s)
      index_solid dev_solid inet_bare no_inet no_inet_at_space (inet_at c s more solid)

-- The code reads the address of a line.
shown_line : (a l : Text) → IsLine a l → after_word (text "inet") l ≡ some a
shown_line a l h =
    let (index, dev, c, s, more, index_solid, dev_solid, no_inet, is_a, solid, is_l) = h in
    rw (is_l, is_a) (padded_inet index dev s more c index_solid dev_solid no_inet solid)

after_word_empty : after_word (text "inet") [] ≡ none
unfolding after_word
after_word_empty = refl

pub shown_addresses-lines :
    (cidrs lines : List Text) → ShowsLines cidrs lines → shown_addresses lines ≡ cidrs
unfolding shown_addresses
shown_addresses-lines [] lines h = rw (h, after_word_empty) refl
shown_addresses-lines (a ∷ rest) [] h = absurd h
shown_addresses-lines (a ∷ rest) (l ∷ ls) (h, hs) =
    rw (shown_line a l h, shown_addresses-lines rest ls hs) refl
