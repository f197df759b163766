-- ===== src/Grammar/Parse.antt =====
-- What `parseUsername` accepts, and that a printed username is parsed back.
use jump_host.Base.{
  ℕ, zero, suc, ◌+◌, ◌≤◌, ◌<◌, ◌≡◌, refl, sym, ap, ◌∙◌, ◌≢◌, ◌↔◌, true, false, Option, none, some,
  [], ◌∷◌, ◌++◌, append_assoc, arith, le→leb, nat_eq, text_eq, ok, length, length-append, take,
  drop, length-take, take-append, drop-append, drop-add, take-append-drop, Text, text, starts_with,
  index_of, starts_with_iff,
}
use jump_host.Grammar.Defs.{sep, is_uid, valid_target, parse_at, parse_username}

abbrev Misses : Text → Text → ℕ → Type 0
Misses s p i = (j : ℕ) → j < i → starts_with (drop j s) p ≡ false

Misses-suc :
    (c : ℕ) (s p : Text) (i : ℕ)
    → starts_with (c ∷ s) p ≡ false
    → Misses s p i
    → Misses (c ∷ s) p (suc i)
Misses-suc c s p i e m zero h = e
Misses-suc c s p i e m (suc j) h = m j (omega arith)

-- `indexOf` finds the first place where the pattern stands.
index_of-eq-some :
    (s p : Text) (i : ℕ) → index_of s p ≡ some i → (starts_with (drop i s) p ≡ true) × Misses s p i
unfolding index_of
index_of-eq-some [] p zero h = (ground arith, λ j k. elim k [ ])
index_of-eq-some [] p (suc i) h = ground arith
index_of-eq-some (c ∷ s) p zero h = (ground arith, λ j k. elim k [ ])
index_of-eq-some (c ∷ s) p (suc i) h =
    let (here, before) = index_of-eq-some s p i (ground arith) in
    (here, Misses-suc c s p i (ground arith) before)

index_of_first :
    (s p : Text) (i : ℕ) → starts_with (drop i s) p ≡ true → Misses s p i → index_of s p ≡ some i
unfolding index_of
index_of_first [] p zero h m = ground arith
index_of_first [] p (suc i) h m = ground (arith, m 0 (omega arith))
index_of_first (c ∷ s) p zero h m = ground arith
index_of_first (c ∷ s) p (suc i) h m =
    ground (arith, m 0 (omega arith), index_of_first s p i h (λ j k. m (suc j) (omega arith)))

pub index_of_absent :
    (s p : Text) → index_of s p ≡ none → (j : ℕ) → starts_with (drop j s) p ≡ false
unfolding index_of
index_of_absent [] p h zero = ground arith
index_of_absent [] p h (suc j) = ground arith
index_of_absent (c ∷ s) p h zero = ground arith
index_of_absent (c ∷ s) p h (suc j) = index_of_absent s p (ground arith) j

index_of-none : (s p : Text) → ((j : ℕ) → starts_with (drop j s) p ≡ false) → index_of s p ≡ none
unfolding index_of
index_of-none [] p h = ground (arith, h 0)
index_of-none (c ∷ s) p h = ground (arith, h 0, index_of-none s p (λ j. h (suc j)))

-- What a username means: a uid alone, in which the separator does not stand, or a uid, the first
-- separator and a target.
abbrev pub Denotes : Text → Text → Option Text → Type 0
Denotes s uid none =
    (s ≡ uid) × (is_uid uid ≡ true) × ((j : ℕ) → starts_with (drop j s) sep ≡ false)
Denotes s uid (some t) =
    (s ≡ uid ++ (sep ++ t))
    × (is_uid uid ≡ true)
    × (valid_target t ≡ true)
    × ((j : ℕ) → j < length uid → starts_with (drop j s) sep ≡ false)

-- The two successful ends of the parser.
parse_at-none :
    (s uid : Text) (t : Option Text)
    → parse_at s none ≡ ok (record { uid = uid; target = t })
    → (s ≡ uid) × (is_uid s ≡ true) × (t ≡ none)
unfolding parse_at
parse_at-none s uid t h = ground arith

parse_at-some :
    (s uid : Text) (t : Option Text) (i : ℕ)
    → parse_at s (some i) ≡ ok (record { uid = uid; target = t })
    → (take i s ≡ uid)
      × (is_uid (take i s) ≡ true)
      × (t ≡ some (drop (i + 3) s))
      × (valid_target (drop (i + 3) s) ≡ true)
unfolding parse_at
parse_at-some s uid t i h = ground arith

-- The text around the place of a separator.
around_sep :
    (s : Text) (i : ℕ)
    → starts_with (drop i s) sep ≡ true
    → (s ≡ take i s ++ (sep ++ drop (i + 3) s)) × (length (take i s) ≡ i)
around_sep s i h =
    let (rest, e) = (starts_with_iff (drop i s) sep).0 h in
    let after : drop (i + 3) s ≡ rest = drop-add i 3 s ∙ ap (drop 3) e in
    let len = ap length e in
    (
      sym (take-append-drop i s) ∙ ap (◌++◌ (take i s)) (e ∙ ap (◌++◌ sep) (sym after)),
      omega (
        arith,
        length-take i s,
        ap length (take-append-drop i s),
        len,
        length-append {0} (take i s) (drop i s),
      ),
    )

parse_sound :
    (s uid : Text) (t : Option Text) (found : Option ℕ)
    → index_of s sep ≡ found
    → parse_at s found ≡ ok (record { uid = uid; target = t })
    → Denotes s uid t
parse_sound s uid t none e h =
    let (same, valid, no_target) = parse_at-none s uid t h in
    rw no_target (same, rw (← same) valid, index_of_absent s sep e)
parse_sound s uid t (some i) e h =
    let (same, valid, target, right) = parse_at-some s uid t i h in
    let (here, before) = index_of-eq-some s sep i e in
    let (parts, len) = around_sep s i here in
    rw (target, ← same) (parts, valid, right, rw len before)

parse_complete_none :
    (s uid : Text)
    → Denotes s uid none
    → parse_username s ≡ ok (record { uid = uid; target = none })
unfolding parse_username parse_at is_uid
parse_complete_none [] uid (same, valid, absent) = ground arith
parse_complete_none (c ∷ s) uid (same, valid, absent) =
    rw (index_of-none (c ∷ s) sep absent) (ground arith)

parse_complete_some :
    (s uid t : Text)
    → Denotes s uid (some t)
    → parse_username s ≡ ok (record { uid = uid; target = some t })
unfolding parse_username parse_at
parse_complete_some s uid t (parts, valid, right, before) =
    let behind : drop (length uid) s ≡ sep ++ t =
      ap (drop (length uid)) parts ∙ drop-append uid (sep ++ t) in
    let found : index_of s sep ≡ some (length uid) =
      index_of_first s sep (length uid) (rw behind ((starts_with_iff _ sep).1 (t, refl))) before in
    let first : take (length uid) s ≡ uid =
      ap (take (length uid)) parts ∙ take-append uid (sep ++ t) in
    let rest : drop (length uid + 3) s ≡ t = drop-add (length uid) 3 s ∙ ap (drop 3) behind in
    let size : 1 ≤ length s = omega (arith, ap length parts, length-append {0} uid (sep ++ t)) in
    rw (found, le→leb 1 (length s) size, first, rest, valid, right)

-- `parseUsername` succeeds exactly on the usernames of the grammar, and gives their parts.
pub parse_username_iff :
    (s uid : Text) (t : Option Text)
    → (parse_username s ≡ ok (record { uid = uid; target = t })) ↔ Denotes s uid t
unfolding parse_username
parse_username_iff s uid t =
    (λ h. parse_sound s uid t (index_of s sep) refl (ground arith), complete t)
  where
    complete :
        (t : Option Text)
        → Denotes s uid t
        → parse_username s ≡ ok (record { uid = uid; target = t })
    complete none = parse_complete_none s uid
    complete (some t) = parse_complete_some s uid t

-- The separator does not stand in the uid, and the uid's end does not begin one.
abbrev pub IsSeparate : Text → Type 0
IsSeparate uid = (j : ℕ) → starts_with (drop j (uid ++ text "_-")) sep ≡ false

starts_with_past :
    (u t : Text)
    → starts_with (u ++ text "_-") sep ≡ false
    → 1 ≤ length u
    → starts_with (u ++ (sep ++ t)) sep ≡ false
unfolding starts_with
starts_with_past [] t h k = absurd (omega arith)
starts_with_past (a ∷ []) t h k = ground arith
starts_with_past (a ∷ b ∷ []) t h k = ground arith
starts_with_past (a ∷ b ∷ c ∷ u) t h k = h

Misses_of_IsSeparate :
    (uid t : Text)
    → IsSeparate uid
    → (j : ℕ) → j < length uid
    → starts_with (drop j (uid ++ (sep ++ t))) sep ≡ false
Misses_of_IsSeparate [] t h j k = absurd (omega arith)
Misses_of_IsSeparate (c ∷ u) t h zero k = starts_with_past (c ∷ u) t (h 0) (omega arith)
Misses_of_IsSeparate (c ∷ u) t h (suc j) k =
    Misses_of_IsSeparate u t (λ i. h (suc i)) j (omega arith)

-- Round trip: a valid uid whose end cannot be mistaken for the separator, the separator and a valid
-- target are parsed into that uid and that target.
pub parse_username_roundtrip :
    (uid t : Text)
    → is_uid uid ≡ true
    → valid_target t ≡ true
    → IsSeparate uid
    → parse_username (uid ++ (sep ++ t)) ≡ ok (record { uid = uid; target = some t })
parse_username_roundtrip uid t valid right separate =
    (parse_username_iff _ uid (some t)).1 (refl, valid, right, Misses_of_IsSeparate uid t separate)

-- A uid that ends in `_-` never reaches a target, though UID_RE admits it: its own last two
-- characters are taken for the separator's start.
parse_username_shadowed :
    (u t uid : Text) (target : Option Text)
    → parse_username ((u ++ text "_-") ++ (sep ++ t)) ≡ ok (record { uid = uid; target = target })
    → uid ≢ u ++ text "_-"
unfolding starts_with
parse_username_shadowed u t uid target h same = clash target ((parse_username_iff _ uid target).0 h)
  where
    at_u : starts_with (drop (length u) ((u ++ text "_-") ++ (sep ++ t))) sep ≡ true
    at_u = rw (append_assoc, drop-append) refl

    clash : (target : Option Text) → Denotes ((u ++ text "_-") ++ (sep ++ t)) uid target → ⊥
    clash none (_, _, absent) = ground (arith, at_u, absent (length u))
    clash (some t') (_, _, _, before) = ground (
      arith,
      at_u,
      before (length u) (omega (arith, ap length same, length-append {0} u (text "_-"))),
    )
