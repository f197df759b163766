-- ===== src/Mesh/Exits/ReadbackLaws.antt =====
-- A managed rule that the kernel prints is read back as it was added.
use jump_host.Base.{
  ℕ, ◌+◌, ◌≤◌, ◌<◌, ◌≡◌, refl, Bool, true, false, not, some, [], ◌∷◌, ◌++◌, arith, le→leb, nat_eq,
  text_eq, length, length-append, All, Text, text, is_digit, join, starts_with,
}
use jump_host.Base.Decimal.{
  decimal, value, value-decimal, AllDigits, decimal-AllDigits, decimal-nonempty,
}
use jump_host.Grammar.Defs.{is_ipv4, exec_ipv4}
use jump_host.Grammar.Ipv4.{dotted, is_ipv4-dotted}
use jump_host.Mesh.Exits.{rule_priority_base}
use jump_host.Mesh.Exits.Readback.{
  is_space, span, some_of, literal, exec_rule, is_address, read_rule,
}

span-stop :
    (p : ℕ → Bool) (front : Text) (c : ℕ) (rest : Text)
    → All (λ d. p d ≡ true) front
    → p c ≡ false
    → span p (front ++ c ∷ rest) ≡ (front, c ∷ rest)
unfolding span
span-stop p [] c rest h e = ground arith
span-stop p (d ∷ front) c rest (k, h) e = rw (k, span-stop p front c rest h e)

span-whole :
    (p : ℕ → Bool) (front : Text) → All (λ d. p d ≡ true) front → span p front ≡ (front, [])
unfolding span
span-whole p [] h = refl
span-whole p (d ∷ front) (k, h) = rw (k, span-whole p front h)

pub some_of-stop :
    (p : ℕ → Bool) (front : Text) (c : ℕ) (rest : Text)
    → All (λ d. p d ≡ true) front
    → 1 ≤ length front
    → p c ≡ false
    → some_of p (front ++ c ∷ rest) ≡ some (front, c ∷ rest)
unfolding some_of
some_of-stop p front c rest h n e = rw (span-stop p front c rest h e, le→leb 1 (length front) n)

some_of-whole :
    (p : ℕ → Bool) (front : Text)
    → All (λ d. p d ≡ true) front
    → 1 ≤ length front
    → some_of p front ≡ some (front, [])
unfolding some_of
some_of-whole p front h n = rw (span-whole p front h, le→leb 1 (length front) n)

-- How `ip -o rule show` prints a rule, with the source and the table as it prints them.
abbrev pub printed : ℕ → Text → Text → Text
printed priority from table =
    decimal priority ++ b':' ∷ 9 ∷ (text "from " ++ (from ++ (text " lookup " ++ table)))

abbrev pub NoSpace : Text → Type 0
NoSpace = All (λ c. not (is_space c) ≡ true)

digits-NoSpace : (s : Text) → AllDigits s → NoSpace s
digits-NoSpace [] _ = tt
digits-NoSpace (c ∷ s) (h, hs) = (ground arith, digits-NoSpace s hs)

exec_rule-printed :
    (priority : ℕ) (from table : Text)
    → (1 ≤ length from) × NoSpace from
    → (1 ≤ length table) × NoSpace table
    → exec_rule (printed priority from table) ≡ some (decimal priority, from, table)
unfolding exec_rule literal starts_with
exec_rule-printed priority [] table (n, clean) k = absurd (omega arith)
exec_rule-printed priority (c ∷ s) [] h (n, _) = absurd (omega arith)
exec_rule-printed priority (c ∷ s) (d ∷ t) (_, clean) (_, tidy) =
    let digits = decimal-AllDigits in
    rw
      (some_of-stop is_digit (decimal priority) b':' _ (digits priority) (decimal-nonempty priority)
        refl)
      (rw (some_of-stop is_space (9 ∷ []) b'f' _ (refl, tt) (omega arith) refl) (
        rw (some_of-stop is_space (32 ∷ []) c _ (refl, tt) (omega arith) (ground (arith, clean.0)))
          (rw (some_of-stop (λ c. not (is_space c)) (c ∷ s) 32 _ clean (omega arith) refl) (
            rw (some_of-stop is_space (32 ∷ []) b'l' _ (refl, tt) (omega arith) refl) (
              rw
                (some_of-stop is_space (32 ∷ []) d _ (refl, tt) (omega arith)
                  (ground (arith, tidy.0)))
                (rw (some_of-whole (λ c. not (is_space c)) (d ∷ t) tidy (omega arith))))))))

NoSpace-append : (s t : Text) → NoSpace s → NoSpace t → NoSpace (s ++ t)
NoSpace-append [] t _ k = k
NoSpace-append (c ∷ s) t (h, hs) k = (h, NoSpace-append s t hs k)

dotted-NoSpace : (a b c d : ℕ) → (1 ≤ length (dotted a b c d)) × NoSpace (dotted a b c d)
unfolding dotted join
dotted-NoSpace a b c d =
    let clean = λ (n : ℕ). digits-NoSpace (decimal n) (decimal-AllDigits n) in
    (
      omega (
        arith,
        length-append {0} (decimal a)
            (b'.' ∷ (decimal b ++ b'.' ∷ (decimal c ++ b'.' ∷ decimal d))),
      ),
      NoSpace-append (decimal a) _ (clean a) (
        refl,
        NoSpace-append (decimal b) _ (clean b)
            (refl, NoSpace-append (decimal c) _ (clean c) (refl, clean d)),
      ),
    )

is_address_of_is_ipv4 : (s : Text) → is_ipv4 s ≡ true → is_address s ≡ true
unfolding is_ipv4 exec_ipv4
is_address_of_is_ipv4 s h = ground arith

read_rule-found :
    (line p from table : Text) (n : ℕ)
    → exec_rule line ≡ some (p, from, table)
    → value p ≡ n
    → rule_priority_base ≤ n
    → n ≤ rule_priority_base + 254
    → is_address from ≡ true
    → read_rule line ≡ record { priority = n; from = from ++ text "/32"; table = table } ∷ []
unfolding read_rule
read_rule-found line p from table n found v low high address =
    rw (found, read_rule) (rw (v, address) (ground arith))

-- A rule of the managed range that the kernel prints, with a device's address without its /32 and a
-- numbered table, is read back with the address in the form in which it was added.
read_rule-printed :
    (priority a b c d table : ℕ)
    → rule_priority_base ≤ priority
    → priority ≤ rule_priority_base + 254
    → (a < 256) × (b < 256) × (c < 256) × (d < 256)
    → read_rule (printed priority (dotted a b c d) (decimal table))
      ≡ record { priority = priority; from = dotted a b c d ++ text "/32"; table = decimal table }
        ∷ []
read_rule-printed priority a b c d table low high (ha, hb, hc, hd) =
    read_rule-found _ (decimal priority) (dotted a b c d) (decimal table) priority
      (exec_rule-printed priority (dotted a b c d) (decimal table) (dotted-NoSpace a b c d)
        (decimal-nonempty table, digits-NoSpace (decimal table) (decimal-AllDigits table)))
      (value-decimal priority) low high
      (is_address_of_is_ipv4 (dotted a b c d) (is_ipv4-dotted a b c d ha hb hc hd))
