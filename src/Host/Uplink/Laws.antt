-- ===== src/Host/Uplink/Laws.antt =====
-- isPrivateIPv4 and detectResolver of nodejs/utils/net_router.js.
use jump_host.Base.{
  ℕ, ◌≤◌, ◌≡◌, refl, sym, ap, ◌∙◌, ◌↔◌, ◌⊎◌, inl, inr, Bool, true, false, not, ◌||◌, Option, none,
  some, List, [], ◌∷◌, arith, ltb, Bool-cases, nat_eq, text_eq, Result, ok, err, any, All, Text,
  text, split, join, Lacks, join-split, split-join, All-imp,
}
use jump_host.Host.Shell.{Exec, Reply, Gateway, try_run}
use jump_host.Host.Uplink.{
  private_parts, in_private_range, is_private_ipv4, if_private, nameserver, first_nameserver,
  after_word, first_line, from_resolv_conf, from_route, or_route, detect_resolver,
}
use jump_host.Grammar.Defs.{is_octet_text}
use jump_host.Grammar.Ipv4.{IsOctet, octet_text_lem, AllDigits-Lacks}
use jump_host.Base.Decimal.{value}

-- 10.0.0.0/8, 172.16.0.0/12 and 192.168.0.0/16, by the first two numbers.
abbrev pub InPrivateRange : ℕ → ℕ → Type 0
InPrivateRange a b = (a ≡ 10) ⊎ ((a ≡ 172) × (16 ≤ b) × (b ≤ 31)) ⊎ ((a ≡ 192) × (b ≡ 168))

-- A dotted quad in a private range.
abbrev pub IsPrivate : Text → Type 0
IsPrivate s =
    (a : Text) × (b : Text) × (c : Text) × (d : Text) × (s ≡ join b'.' (a ∷ b ∷ c ∷ d ∷ []))
    × All IsOctet (a ∷ b ∷ c ∷ d ∷ [])
    × InPrivateRange (value a) (value b)

in_private_range_iff : (a b : ℕ) → (in_private_range a b ≡ true) ↔ InPrivateRange a b
in_private_range_iff a b = ground arith

abbrev bad_octet : Text → Bool
bad_octet t = not (is_octet_text t) || ltb 255 (value t)

bad_octet_lem : (t : Text) → (bad_octet t ≡ false) ↔ IsOctet t
bad_octet_lem t = ground (arith, octet_text_lem t)

bad_octets_iff : (ps : List Text) → (any bad_octet ps ≡ false) ↔ All IsOctet ps
unfolding any
bad_octets_iff [] = (λ _. tt, λ _. refl)
bad_octets_iff (p ∷ ps) = ground (arith, bad_octets_iff ps, bad_octet_lem p)

private_parts_sound :
    (ps : List Text)
    → private_parts ps ≡ true
    → (a : Text) × (b : Text) × (c : Text) × (d : Text) × (ps ≡ a ∷ b ∷ c ∷ d ∷ [])
      × All IsOctet (a ∷ b ∷ c ∷ d ∷ [])
      × InPrivateRange (value a) (value b)
private_parts_sound [] h = cc
private_parts_sound (a ∷ []) h = cc
private_parts_sound (a ∷ b ∷ []) h = cc
private_parts_sound (a ∷ b ∷ c ∷ []) h = cc
private_parts_sound (a ∷ b ∷ c ∷ d ∷ []) h =
    elim (Bool-cases (any bad_octet (a ∷ b ∷ c ∷ d ∷ []))) [
      | inl bad ↦ let no_way : false ≡ true = rw bad at h in absurd (ground arith)
      | inr good ↦ (
        a,
        b,
        c,
        d,
        refl,
        (bad_octets_iff (a ∷ b ∷ c ∷ d ∷ [])).0 good,
        (in_private_range_iff (value a) (value b)).0 (rw good at h),
      )
    ]
private_parts_sound (a ∷ b ∷ c ∷ d ∷ e ∷ ps) h = cc

private_parts_complete :
    (a b c d : Text)
    → All IsOctet (a ∷ b ∷ c ∷ d ∷ [])
    → InPrivateRange (value a) (value b)
    → private_parts (a ∷ b ∷ c ∷ d ∷ []) ≡ true
private_parts_complete a b c d octets range =
    rw ((bad_octets_iff (a ∷ b ∷ c ∷ d ∷ [])).1 octets)
      ((in_private_range_iff (value a) (value b)).1 range)

-- `isPrivateIPv4` accepts exactly the dotted quads (four numbers of one to three digits, up to 255)
-- in 10.0.0.0/8, 172.16.0.0/12 and 192.168.0.0/16.
pub is_private_ipv4_iff : (s : Text) → (is_private_ipv4 s ≡ true) ↔ IsPrivate s
unfolding is_private_ipv4
is_private_ipv4_iff s = (
  λ h.
      let (a, b, c, d, e, octets, range) = private_parts_sound (split b'.' s) h in
      (a, b, c, d, sym (join-split b'.' s) ∙ ap (join b'.') e, octets, range),
  λ (a, b, c, d, e, octets, range).
      let parts = split-join b'.' a (b ∷ c ∷ d ∷ []) (
        All-imp IsOctet (Lacks b'.') (a ∷ b ∷ c ∷ d ∷ []) (λ o h. AllDigits-Lacks o h.digits)
          octets) in
      rw (e, parts) (private_parts_complete a b c d octets range),
)

abbrev SomePrivate : Option Text → Type 0
SomePrivate none = Unit
SomePrivate (some addr) = IsPrivate addr

if_private-SomePrivate : (o : Option Text) → SomePrivate (if_private o)
if_private-SomePrivate none = tt
if_private-SomePrivate (some addr) = elim (Bool-cases (is_private_ipv4 addr)) [
  | inl yes_private ↦ rw yes_private ((is_private_ipv4_iff addr).0 yes_private)
  | inr no_private ↦ rw no_private tt
]

first_nameserver-SomePrivate : (lines : List Text) → SomePrivate (first_nameserver lines)
unfolding first_nameserver
first_nameserver-SomePrivate [] = tt
first_nameserver-SomePrivate (line ∷ lines) =
    choose (if_private (nameserver line)) (if_private-SomePrivate (nameserver line))
      (first_nameserver-SomePrivate lines)
  where
    choose :
        (o : Option Text)
        → SomePrivate o
        → SomePrivate (first_nameserver lines)
        → SomePrivate (elim o [ some addr ↦ some addr | none ↦ first_nameserver lines ])
    choose none h k = k
    choose (some addr) h k = h

from_resolv_conf-SomePrivate :
    {W : Type 0} (exec : Exec W) (r : Reply) → SomePrivate (from_resolv_conf exec r)
from_resolv_conf-SomePrivate exec (ok out) = first_nameserver-SomePrivate (split 10 out)
from_resolv_conf-SomePrivate exec (err f) = tt

from_route-SomePrivate : {W : Type 0} (exec : Exec W) (r : Reply) → SomePrivate (from_route exec r)
from_route-SomePrivate exec (ok out) =
    if_private-SomePrivate (after_word (text "via") (first_line out))
from_route-SomePrivate exec (err f) = tt

-- The call returns, and an address that it returns is private.
abbrev pub ReturnsPrivate : {W : Type 0} → Result Text (Option Text) × Gateway W → Type 0
ReturnsPrivate (ok none, h) = Unit
ReturnsPrivate (ok (some addr), h) = IsPrivate addr
ReturnsPrivate (err e, h) = ⊥

or_route-ReturnsPrivate :
    {W : Type 0} (exec : Exec W) (o : Option Text) (g : Gateway W)
    → SomePrivate o
    → ReturnsPrivate (or_route exec o g)
unfolding try_run
or_route-ReturnsPrivate exec (some addr) g h = h
or_route-ReturnsPrivate {W} exec none g h =
    returned (from_route exec reply)
      (exec (text "ip") (text "-o" ∷ text "route" ∷ text "show" ∷ text "default" ∷ []) g.world).1
      (from_route-SomePrivate exec reply)
  where
    reply : Reply
    reply =
        (exec (text "ip") (text "-o" ∷ text "route" ∷ text "show" ∷ text "default" ∷ []) g.world).0

    returned :
        (o : Option Text) (w : W) → SomePrivate o → ReturnsPrivate (ok o, record g { world = w })
    returned none w k = k
    returned (some addr) w k = k

-- Whatever the commands answer, `detectResolver` does not throw, and an address that it suggests is
-- a dotted quad in a private range: never a loopback address, and never text of another form.
pub detect_resolver-ReturnsPrivate :
    {W : Type 0} (exec : Exec W) (g : Gateway W) → ReturnsPrivate (detect_resolver exec g)
unfolding detect_resolver try_run
detect_resolver-ReturnsPrivate exec g =
    or_route-ReturnsPrivate exec
      (from_resolv_conf exec (exec (text "cat") (text "/etc/resolv.conf" ∷ []) g.world).0) _
      (from_resolv_conf-SomePrivate exec
        (exec (text "cat") (text "/etc/resolv.conf" ∷ []) g.world).0)
