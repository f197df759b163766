-- ===== src/Ssh/Metrics.antt =====
-- nodejs/models/metrics.js: bump and lastForHosts.
use jump_host.Base.{
  ◌≤◌, ℕ, ◌+◌, ◌≡◌, refl, ap, ◌∙◌, ◌≢◌, inl, inr, Bool, true, false, Option, none, some, List, [],
  ◌∷◌, ◌++◌, arith, leb, if◌then◌else◌, Bool-cases, ◌==◌, nat_eq, text_eq, text_beq, length, Text,
  text,
}
use jump_host.Base.Maps.{get, put, get-put, get-put_self}

-- The keys of Redis after the prefix, with the numbers that they hold: counters, and times.
abbrev pub Counters : Type 0
Counters = List (Text × ℕ)

abbrev pub count_of : Text → Counters → ℕ
count_of key m = elim (get key m) [ none ↦ 0 | some n ↦ n ]

unfoldable pub incr : Text → Counters → Counters
incr key m = put key (count_of key m + 1) m

-- `if (uid)`, `if (hostSlug)`.
abbrev pub is_given : Option Text → Bool
is_given none = false
is_given (some s) = leb 1 (length s)

abbrev pub text_of : Option Text → Text
text_of none = []
text_of (some s) = s

abbrev pub last_key : Bool → Text → Text
last_key success slug =
    text "host_last_" ++ ((if success then text "success" else text "fail") ++ 95 ∷ slug)

-- Which of the calls of Redis that `bump` starts side by side are carried out.
pub record Done : Type 0 where
  pub total : Bool
  pub day : Bool
  pub fail : Bool
  pub user : Bool
  pub host : Bool
  pub last : Bool

abbrev pub all_done : Done
all_done = record { total = true; day = true; fail = true; user = true; host = true; last = true }

abbrev pub when : Bool → (Counters → Counters) → Counters → Counters
when true act m = act m
when false act m = m

abbrev pub bump_host : Done → ℕ → Option Text → Bool → Counters → Counters
bump_host d now none success m = m
bump_host d now (some slug) success m =
    if leb 1 (length slug)
    then when d.last (put (last_key success slug) now) (when d.host (incr (text "host_" ++ slug)) m)
    else m

abbrev pub bump_user : Done → Option Text → Counters → Counters
bump_user d none m = m
bump_user d (some uid) m =
    if leb 1 (length uid) then when d.user (incr (text "user_" ++ uid)) m else m

-- `day` and `now` are the clock's. The calls do not depend on one another: where one fails, `bump`
-- throws and the others are carried out or not.
unfoldable pub bump : Done → Text → ℕ → Option Text → Option Text → Bool → Counters → Counters
bump d day now uid host_slug success m =
    let all_of = when d.day (incr (text "day_" ++ day)) (when d.total (incr (text "total")) m) in
    let failed = if success then all_of else when d.fail (incr (text "fail")) all_of in
    bump_host d now host_slug success (bump_user d uid failed)

-- An entry of `lastForHosts`: a time that is absent is null.
abbrev pub time_of : Text → Counters → Option ℕ
time_of key m = elim (get key m) [ none ↦ none | some n ↦ some n ]

unfoldable pub last_for_hosts : List Text → Counters → List (Text × (Option ℕ × Option ℕ))
last_for_hosts [] m = []
last_for_hosts (slug ∷ slugs) m =
    put slug (time_of (last_key true slug) m, time_of (last_key false slug) m)
      (last_for_hosts slugs m)

other_key :
    (k j : Text) (n : ℕ) (m : Counters) → (k == j) ≡ false → count_of j (put k n m) ≡ count_of j m
other_key k j n m differs = ground (arith, get-put k j n m)

incr_self : (k : Text) (m : Counters) → count_of k (incr k m) ≡ count_of k m + 1
unfolding incr
incr_self k m = ground (arith, get-put_self k (count_of k m + 1) m)

incr_other : (k j : Text) (m : Counters) → (k == j) ≡ false → count_of j (incr k m) ≡ count_of j m
unfolding incr
incr_other k j m differs = other_key k j (count_of k m + 1) m differs

heads_differ : (a b : ℕ) (s t : Text) → a ≢ b → ((a ∷ s) == (b ∷ t)) ≡ false
unfolding text_beq
heads_differ a b s t h = ground arith

-- A call that is carried out or not keeps what the call keeps.
when-keeps :
    (b : Bool) (act : Counters → Counters) (k : Text) (m : Counters)
    → count_of k (act m) ≡ count_of k m
    → count_of k (when b act m) ≡ count_of k m
when-keeps true act k m e = e
when-keeps false act k m e = refl

module _ (c : ℕ) (s : Text) (not_h : b'h' ≢ c) (not_u : b'u' ≢ c) (d : Done) where
  bump_user-keeps :
      (uid : Option Text) (m : Counters) → count_of (c ∷ s) (bump_user d uid m) ≡ count_of (c ∷ s) m
  bump_user-keeps none m = refl
  bump_user-keeps (some uid) m = elim (Bool-cases (leb 1 (length uid))) [
    | inl given ↦ rw given (
        when-keeps d.user (incr (text "user_" ++ uid)) (c ∷ s) m
          (incr_other (text "user_" ++ uid) (c ∷ s) m (heads_differ b'u' c _ s not_u)))
    | inr empty ↦ rw empty refl
  ]

  bump_host-keeps :
      (now : ℕ) (slug : Option Text) (success : Bool) (m : Counters)
      → count_of (c ∷ s) (bump_host d now slug success m) ≡ count_of (c ∷ s) m
  bump_host-keeps now none success m = refl
  bump_host-keeps now (some slug) success m = elim (Bool-cases (leb 1 (length slug))) [
    | inl given ↦ rw given (
        when-keeps d.last (put (last_key success slug) now) (c ∷ s) _
          (other_key (last_key success slug) (c ∷ s) now _ (heads_differ b'h' c _ s not_h))
        ∙ when-keeps d.host (incr (text "host_" ++ slug)) (c ∷ s) m
            (incr_other (text "host_" ++ slug) (c ∷ s) m (heads_differ b'h' c _ s not_h)))
    | inr empty ↦ rw empty refl
  ]

day_total : (day : Text) → ((text "day_" ++ day) == text "total") ≡ false
day_total day = heads_differ b'd' b't' _ _ (λ e. ground arith)

day_fail : (day : Text) → ((text "day_" ++ day) == text "fail") ≡ false
day_fail day = heads_differ b'd' b'f' _ _ (λ e. ground arith)

fail_total : (text "fail" == text "total") ≡ false
fail_total = heads_differ b'f' b't' _ _ (λ e. ground arith)

total_fail : (text "total" == text "fail") ≡ false
total_fail = heads_differ b't' b'f' _ _ (λ e. ground arith)

-- 1 for a call that is carried out.
abbrev pub one_if : Bool → ℕ
one_if b = if b then 1 else 0

pub one_if_le : (b : Bool) → one_if b ≤ 1
one_if_le true = omega arith
one_if_le false = omega arith

when-counts :
    (b : Bool) (k : Text) (m : Counters) → count_of k (when b (incr k) m) ≡ count_of k m + one_if b
when-counts true k m = incr_self k m
when-counts false k m = omega arith

abbrev both_counts : Done → Text → Counters → Counters
both_counts d day m = when d.day (incr (text "day_" ++ day)) (when d.total (incr (text "total")) m)

both_total :
    (d : Done) (day : Text) (m : Counters)
    → count_of (text "total") (both_counts d day m) ≡ count_of (text "total") m + one_if d.total
both_total d day m =
    when-keeps d.day (incr (text "day_" ++ day)) (text "total") _
      (incr_other (text "day_" ++ day) (text "total") _ (day_total day))
    ∙ when-counts d.total (text "total") m

both_fail :
    (d : Done) (day : Text) (m : Counters)
    → count_of (text "fail") (both_counts d day m) ≡ count_of (text "fail") m
both_fail d day m =
    when-keeps d.day (incr (text "day_" ++ day)) (text "fail") _
      (incr_other (text "day_" ++ day) (text "fail") _ (day_fail day))
    ∙ when-keeps d.total (incr (text "total")) (text "fail") m
        (incr_other (text "total") (text "fail") m total_fail)

abbrev outcome_counts : Done → Text → Bool → Counters → Counters
outcome_counts d day success m =
    if success then both_counts d day m else when d.fail (incr (text "fail")) (both_counts d day m)

counted_total :
    (d : Done) (day : Text) (success : Bool) (m : Counters)
    → count_of (text "total") (outcome_counts d day success m)
      ≡ count_of (text "total") m + one_if d.total
counted_total d day true m = both_total d day m
counted_total d day false m =
    when-keeps d.fail (incr (text "fail")) (text "total") _
      (incr_other (text "fail") (text "total") (both_counts d day m) fail_total)
    ∙ both_total d day m

counted_fail :
    (d : Done) (day : Text) (success : Bool) (m : Counters)
    → count_of (text "fail") (outcome_counts d day success m)
      ≡ count_of (text "fail") m + (if success then 0 else one_if d.fail)
counted_fail d day true m = both_fail d day m ∙ omega arith
counted_fail d day false m =
    when-counts d.fail (text "fail") (both_counts d day m)
    ∙ ap (λ n. n + one_if d.fail) (both_fail d day m)

-- A call of `bump` counts one connection, and one failure exactly if it did not succeed, each where its
-- call of Redis is carried out.
pub bump_counts :
    (d : Done) (day : Text) (now : ℕ) (uid host_slug : Option Text) (success : Bool) (m : Counters)
    → let m' = bump d day now uid host_slug success m in
      (count_of (text "total") m' ≡ count_of (text "total") m + one_if d.total)
      × (count_of (text "fail") m'
          ≡ count_of (text "fail") m + (if success then 0 else one_if d.fail))
unfolding bump
bump_counts d day now uid host_slug success m =
    let failed = outcome_counts d day success m in
    (
      bump_host-keeps b't' (text "otal") (λ e. ground arith) (λ e. ground arith) d now host_slug
            success (bump_user d uid failed)
          ∙ bump_user-keeps b't' (text "otal") (λ e. ground arith) (λ e. ground arith) d uid failed
          ∙ counted_total d day success m,
      bump_host-keeps b'f' (text "ail") (λ e. ground arith) (λ e. ground arith) d now host_slug
            success (bump_user d uid failed)
          ∙ bump_user-keeps b'f' (text "ail") (λ e. ground arith) (λ e. ground arith) d uid failed
          ∙ counted_fail d day success m,
    )
