-- ===== src/Grammar/Ipv4.antt =====
-- Which texts `isIPv4` accepts.
use jump_host.Base.{
  ℕ, ◌≤◌, ◌<◌, ◌≡◌, refl, sym, ap, ◌∙◌, ◌↔◌, Bool, true, ◌&&◌, List, [], ◌∷◌, arith, leb, ◌==◌,
  nat_eq, text_eq, length, all, All, Text, is_digit, split, join, Lacks, join-split, split-join,
  all_iff, All-imp, All-imp,
}
use jump_host.Base.Decimal.{
  value, decimal, value-decimal, AllDigits, decimal-AllDigits, decimal-length,
}
use jump_host.Grammar.Defs.{is_octet_text, exec_ipv4, is_ipv4}

-- One to three digits, for a number up to 255.
pub record IsOctet (o : Text) : Type 0 where
  pub some_digit : 1 ≤ length o
  pub three_at_most : length o ≤ 3
  pub digits : AllDigits o
  pub in_range : value o ≤ 255

pub AllDigits-Lacks : (s : Text) → AllDigits s → Lacks b'.' s
AllDigits-Lacks [] _ = tt
AllDigits-Lacks (c ∷ s) (h, hs) = (ground arith, AllDigits-Lacks s hs)

pub octet_text_lem : (o : Text) → (is_octet_text o && leb (value o) 255 ≡ true) ↔ IsOctet o
octet_text_lem o = ground (arith, all_iff is_digit o)

-- Four octets, with dots between them.
abbrev pub IsQuad : Text → Type 0
IsQuad s =
    (a : Text) × (b : Text) × (c : Text) × (d : Text) × (s ≡ join b'.' (a ∷ b ∷ c ∷ d ∷ []))
    × All IsOctet (a ∷ b ∷ c ∷ d ∷ [])

pub four :
    (ps : List Text)
    → length ps ≡ 4
    → (a : Text) × (b : Text) × (c : Text) × (d : Text) × (ps ≡ a ∷ b ∷ c ∷ d ∷ [])
four [] h = absurd (omega arith)
four (a ∷ []) h = absurd (omega arith)
four (a ∷ b ∷ []) h = absurd (omega arith)
four (a ∷ b ∷ c ∷ []) h = absurd (omega arith)
four (a ∷ b ∷ c ∷ d ∷ []) h = (a, b, c, d, refl)
four (a ∷ b ∷ c ∷ d ∷ e ∷ ps) h = absurd (omega arith)

abbrev in_range : Text → Bool
in_range o = leb (value o) 255

octets_iff : (ps : List Text) → (all is_octet_text ps && all in_range ps ≡ true) ↔ All IsOctet ps
unfolding all
octets_iff [] = (λ _. tt, λ _. refl)
octets_iff (p ∷ ps) = ground (arith, octets_iff ps, octet_text_lem p)

is_ipv4_parts :
    (s : Text)
    → let ps = split b'.' s in
      is_ipv4 s ≡ (length ps == 4) && (all is_octet_text ps && all in_range ps)
unfolding is_ipv4 exec_ipv4
is_ipv4_parts s = ground arith

is_ipv4_sound : (s : Text) → is_ipv4 s ≡ true → IsQuad s
is_ipv4_sound s h =
    let parts = is_ipv4_parts s in
    let (a, b, c, d, e) = four (split b'.' s) (ground arith) in
    (
      a,
      b,
      c,
      d,
      sym (join-split b'.' s) ∙ ap (join b'.') e,
      rw e at (octets_iff (split b'.' s)).0 (ground arith),
    )

is_ipv4_complete : (s : Text) → IsQuad s → is_ipv4 s ≡ true
is_ipv4_complete s (a, b, c, d, e, octets) =
    let parts = split-join b'.' a (b ∷ c ∷ d ∷ []) (
      All-imp IsOctet (Lacks b'.') (a ∷ b ∷ c ∷ d ∷ []) (λ o h. AllDigits-Lacks o h.digits)
        octets) in
    rw (e, is_ipv4_parts, parts) ((octets_iff (a ∷ b ∷ c ∷ d ∷ [])).1 octets)

-- `isIPv4` accepts exactly the dotted quads: four numbers of one to three digits, up to 255, with
-- dots between them.
pub is_ipv4_iff : (s : Text) → (is_ipv4 s ≡ true) ↔ IsQuad s
is_ipv4_iff s = (is_ipv4_sound s, is_ipv4_complete s)

-- The address of four bytes.
unfoldable pub dotted : ℕ → ℕ → ℕ → ℕ → Text
dotted a b c d = join b'.' (decimal a ∷ decimal b ∷ decimal c ∷ decimal d ∷ [])

decimal-IsOctet : (n : ℕ) → n < 256 → IsOctet (decimal n)
decimal-IsOctet n h = record {
  some_digit = (decimal-length n (omega arith)).0;
  three_at_most = (decimal-length n (omega arith)).1;
  digits = decimal-AllDigits n;
  in_range = omega (arith, value-decimal n);
}

-- Every printed address is accepted.
pub is_ipv4-dotted :
    (a b c d : ℕ) → a < 256 → b < 256 → c < 256 → d < 256 → is_ipv4 (dotted a b c d) ≡ true
unfolding dotted
is_ipv4-dotted a b c d ha hb hc hd = is_ipv4_complete _ (
  decimal a,
  decimal b,
  decimal c,
  decimal d,
  refl,
  (
    decimal-IsOctet a ha,
    (decimal-IsOctet b hb, (decimal-IsOctet c hc, (decimal-IsOctet d hd, tt))),
  ),
)
