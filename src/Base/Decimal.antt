-- ===== src/Base/Decimal.antt =====
-- Decimal numerals: what `${n}` prints and `Number(s)` reads, for natural numbers.
use Prim.Native.Nat.{ℕ, zero, suc, ◌+◌, ◌-◌, ◌*◌, ◌/◌, ◌%◌, ◌≤◌, ◌<◌}
use mathlib.Core.Path.{◌≡◌, refl, ◌∙◌}
use mathlib.Core.Bool.{true}
use mathlib.Core.List.{[], ◌∷◌, ◌++◌}
use native.Mathlib.Omega.{arith}
use jump_host.Base.Tests.{ltb, if◌then◌else◌, Bool-cases}
use mathlib.Core.Logic.{inl, inr}
use jump_host.Base.Lists.{length, length-append, All}
use jump_host.Base.Texts.{Text, is_digit}

-- One digit after the other, most significant first. The fuel is the number itself, plus one.
decimal_fuel : ℕ → ℕ → Text
decimal_fuel zero n = []
decimal_fuel (suc f) n =
    let high = decimal_fuel f (n / 10) in
    if ltb n 10 then (b'0' + n) ∷ [] else high ++ (b'0' + n % 10) ∷ []

unfoldable pub decimal : ℕ → Text
unfolding decimal_fuel
decimal n = decimal_fuel (suc n) n

unfoldable pub value_from : ℕ → Text → ℕ
value_from acc [] = acc
value_from acc (c ∷ s) = value_from (acc * 10 + (c - b'0')) s

abbrev pub value : Text → ℕ
value = value_from 0

value_from-append :
    (acc : ℕ) (s t : Text) → value_from acc (s ++ t) ≡ value_from (value_from acc s) t
unfolding value_from
value_from-append acc [] t = refl
value_from-append acc (c ∷ s) t = value_from-append (acc * 10 + (c - b'0')) s t

value_from-snoc :
    (acc : ℕ) (s : Text) (d : ℕ) → value_from acc (s ++ (b'0' + d) ∷ []) ≡ value_from acc s * 10 + d
unfolding value_from
value_from-snoc acc s d = value_from-append acc s ((b'0' + d) ∷ []) ∙ omega arith

value-decimal_fuel : (f n : ℕ) → n < f → value (decimal_fuel f n) ≡ n
unfolding decimal_fuel value_from
value-decimal_fuel zero n h = elim h [ ]
value-decimal_fuel (suc f) n h = elim (Bool-cases (ltb n 10)) [
  | inl small ↦ rw small (omega arith)
  | inr big ↦
      rw (big, value_from-snoc 0 (decimal_fuel f (n / 10)) (n % 10))
        (ground (arith, value-decimal_fuel f (n / 10)))
]

-- Printing and reading back gives the number.
pub value-decimal : (n : ℕ) → value (decimal n) ≡ n
unfolding decimal
value-decimal n = value-decimal_fuel (suc n) n (omega arith)

abbrev pub AllDigits : Text → Type 0
AllDigits = All (λ c. is_digit c ≡ true)

AllDigits-snoc : (s : Text) (d : ℕ) → AllDigits s → d < 10 → AllDigits (s ++ (b'0' + d) ∷ [])
AllDigits-snoc [] d _ h = (ground arith, tt)
AllDigits-snoc (c ∷ s) d (k, ks) h = (k, AllDigits-snoc s d ks h)

decimal_fuel-AllDigits : (f n : ℕ) → AllDigits (decimal_fuel f n)
unfolding decimal_fuel
decimal_fuel-AllDigits zero n = tt
decimal_fuel-AllDigits (suc f) n = elim (Bool-cases (ltb n 10)) [
  | inl small ↦ rw small (ground arith, tt)
  | inr big ↦ rw big (
      AllDigits-snoc (decimal_fuel f (n / 10)) (n % 10) (decimal_fuel-AllDigits f (n / 10))
        (omega arith))
]

pub decimal-AllDigits : (n : ℕ) → AllDigits (decimal n)
unfolding decimal
decimal-AllDigits n = decimal_fuel-AllDigits (suc n) n

decimal_fuel-length : (f n : ℕ) → n < f → 1 ≤ length (decimal_fuel f n)
unfolding decimal_fuel
decimal_fuel-length zero n h = elim h [ ]
decimal_fuel-length (suc f) n h = elim (Bool-cases (ltb n 10)) [
  | inl small ↦ rw small (omega arith)
  | inr big ↦ rw big (omega (arith, length-append (decimal_fuel f (n / 10)) ((b'0' + n % 10) ∷ [])))
]

-- At most `k` digits below 10 ^ k, for the sizes an address needs.
decimal_fuel-short : (f n : ℕ) → n < 1000 → length (decimal_fuel f n) ≤ 3
unfolding decimal_fuel
decimal_fuel-short zero n h = omega arith
decimal_fuel-short (suc zero) n h = ground arith
decimal_fuel-short (suc (suc zero)) n h = ground arith
decimal_fuel-short (suc (suc (suc f))) n h = ground arith

pub decimal-length : (n : ℕ) → n < 1000 → (1 ≤ length (decimal n)) × (length (decimal n) ≤ 3)
unfolding decimal
decimal-length n h = (decimal_fuel-length (suc n) n (omega arith), decimal_fuel-short (suc n) n h)

pub decimal-nonempty : (n : ℕ) → 1 ≤ length (decimal n)
unfolding decimal
decimal-nonempty n = decimal_fuel-length (suc n) n (omega arith)
