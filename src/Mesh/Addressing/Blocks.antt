-- ===== src/Mesh/Addressing/Blocks.antt =====
-- What a CIDR text denotes: a block of addresses. Written independently of the code.
use jump_host.Base.{
  ℕ, ◌+◌, ◌-◌, ◌*◌, ◌/◌, ◌^◌, ◌≤◌, ◌≡◌, refl, ◌⊎◌, false, Option, none, some, List, [], ◌∷◌, ◌++◌,
  arith, nat_eq, text_eq, Text, is_digit, split, join, Lacks, split_of_Lacks, split-append,
  split-join,
}
use jump_host.Base.Decimal.{value, decimal, value-decimal, AllDigits, decimal-AllDigits}
use jump_host.Grammar.Ipv4.{dotted}

-- The addresses from `first` up to, and without, `stop`.
pub record Block : Type 0 where
  pub first : ℕ
  pub stop : ℕ

abbrev pub ip : ℕ → ℕ → ℕ → ℕ → ℕ
ip a b c d = ((a * 256 + b) * 256 + c) * 256 + d

abbrev pub block : ℕ → ℕ → Block
block n size = record { first = n / size * size; stop = n / size * size + size }

quad : List Text → Option ℕ
quad (a ∷ b ∷ c ∷ d ∷ []) = some (ip (value a) (value b) (value c) (value d))
quad _ = none

block_of : List Text → Option Block
block_of (address ∷ prefix ∷ []) = elim (quad (split b'.' address)) [
  | none ↦ none
  | some n ↦ some (block n (2 ^ (32 - value prefix)))
]
block_of _ = none

unfoldable pub cidr_block : Text → Option Block
unfolding block_of quad
cidr_block s = block_of (split b'/' s)

abbrev pub Within : Block → Block → Type 0
Within b c = (c.first ≤ b.first) × (b.stop ≤ c.stop)

abbrev pub Disjoint : Block → Block → Type 0
Disjoint b c = (b.stop ≤ c.first) ⊎ (c.stop ≤ b.first)

digits-Lacks : (c : ℕ) (s : Text) → is_digit c ≡ false → AllDigits s → Lacks c s
digits-Lacks c [] e _ = tt
digits-Lacks c (d ∷ s) e (h, hs) = (λ same. ground arith, digits-Lacks c s e hs)

decimal-Lacks : (c n : ℕ) → is_digit c ≡ false → Lacks c (decimal n)
decimal-Lacks c n e = digits-Lacks c (decimal n) e (decimal-AllDigits n)

Lacks-append : (c : ℕ) (s t : Text) → Lacks c s → Lacks c t → Lacks c (s ++ t)
Lacks-append c [] t _ k = k
Lacks-append c (d ∷ s) t (h, hs) k = (h, Lacks-append c s t hs k)

dotted-Lacks : (a b c d : ℕ) → Lacks b'/' (dotted a b c d)
unfolding dotted join
dotted-Lacks a b c d =
    let digit = λ (n : ℕ). decimal-Lacks b'/' n refl in
    Lacks-append b'/' (decimal a) _ (digit a) (
      ground arith,
      Lacks-append b'/' (decimal b) _ (digit b)
          (ground arith, Lacks-append b'/' (decimal c) _ (digit c) (ground arith, digit d)),
    )

quad-dotted : (a b c d : ℕ) → quad (split b'.' (dotted a b c d)) ≡ some (ip a b c d)
unfolding dotted quad
quad-dotted a b c d =
    let dot = λ (n : ℕ). decimal-Lacks b'.' n refl in
    rw (
      split-join b'.' (decimal a) (decimal b ∷ decimal c ∷ decimal d ∷ [])
          (dot a, (dot b, (dot c, (dot d, tt)))),
      value-decimal a,
      value-decimal b,
      value-decimal c,
      value-decimal d,
    )

-- A printed address and prefix denote their block.
pub cidr_block-dotted :
    (a b c d p : ℕ)
    → cidr_block (dotted a b c d ++ b'/' ∷ decimal p) ≡ some (block (ip a b c d) (2 ^ (32 - p)))
unfolding cidr_block
cidr_block-dotted a b c d p =
    rw
      (
        split-append b'/' (dotted a b c d) (decimal p) (dotted-Lacks a b c d),
        split_of_Lacks b'/' (decimal p) (decimal-Lacks b'/' p refl),
      )
      (rw (block_of, quad-dotted, value-decimal))
