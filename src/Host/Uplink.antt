-- ===== src/Host/Uplink.antt =====
-- nodejs/utils/net_router.js: sysctls, and what the gateway detects of its uplink.
pub mod Laws
use jump_host.Base.{
  ℕ, zero, suc, ◌+◌, ◌-◌, ◌*◌, ◌/◌, ◌%◌, ◌^◌, ◌≤◌, ◌<◌, min, pred, ◌≡◌, refl, sym, ap, ap₂, ◌∙◌,
  subst, ◌≡⟨◌⟩◌, ◌∎, ◌≢◌, ◌↔◌, ◌⊎◌, inl, inr, Bool, true, false, not, ◌&&◌, ◌||◌, Option, none,
  some, List, [], ◌∷◌, ◌++◌, map, reverse, append-nil, append_assoc, map-append, arith, ltb, leb,
  if◌then◌else◌, ltb→lt, lt→ltb, leb→le, le→leb, tests, Bool-cases, Option-cases, Eq, ◌==◌, eq_iff,
  eq_refl, eq_of_ne, nat_eq, text_eq, text_beq, Result, ok, err, require, Result-cases, length,
  length-append, get_elem?, take, drop, length-take, take-append, drop-append, all, any, find,
  filter, In, All, All-In, All-from_members, In-append, Text, text, is_digit, is_lower, is_upper,
  split, join, Lacks, split_of_Lacks, split-append, split-Lacks, join-split, starts_with, index_of,
  starts_with_iff, split-join, all_iff, any_iff, find-eq-some, find-eq-none, In-filter,
  length-filter-le, All-imp, All-append, drop-nil, drop-add, take-append-drop,
}
use jump_host.Host.Shell.{
  Exec, Reply, Failure, Gateway, Action, return, and_then, ◌>>=◌, ◌>>◌, try_run, succeeded,
  is_missing, output,
}
use jump_host.Host.Router.{have_iptables, with_iptables}
use jump_host.Directory.Target.{includes}
use jump_host.Mesh.Exits.Readback.{is_space, span, some_of, literal, ◌>>?◌}
use jump_host.Grammar.Defs.{is_octet_text}
use jump_host.Base.Decimal.{value}

-- The settings of `applySysctls`, a key and its value.
abbrev rp_filter : Text → Text × Text
rp_filter iface = (text "net.ipv4.conf." ++ iface ++ text ".rp_filter", text "0")

unfoldable pub interface_settings : List Text → List (Text × Text)
interface_settings [] = []
interface_settings ([] ∷ rest) = interface_settings rest
interface_settings ((c ∷ s) ∷ rest) = rp_filter (c ∷ s) ∷ interface_settings rest

unfoldable pub settings : List Text → List (Text × Text)
settings interfaces =
    (text "net.ipv4.ip_forward", text "1")
    ∷ rp_filter (text "all")
    ∷ rp_filter (text "default")
    ∷ interface_settings interfaces

-- `key.replace(/\./g, '/')`
abbrev pub proc_path : Text → Text
proc_path key = text "/proc/sys/" ++ join b'/' (split b'.' key)

-- `/^word\s+(\S+)/`
unfoldable pub word_at : Text → Text → Option Text
word_at word s = literal word s >>? λ s.
    some_of is_space s >>? λ (_, s). some_of (λ c. not (is_space c)) s >>? λ (v, _). some v

-- `/\sword\s+(\S+)/`, anywhere in the text.
unfoldable pub after_word : Text → Text → Option Text
after_word word [] = none
after_word word (c ∷ s) =
    let later = after_word word s in
    if is_space c then elim (word_at word s) [ some v ↦ some v | none ↦ later ] else later

-- `/^\s*nameserver\s+(\S+)/`
abbrev pub nameserver : Text → Option Text
nameserver line = let (_, s) = span is_space line in word_at (text "nameserver") s

abbrev pub first_line : Text → Text
first_line out = elim (split 10 out) [ [] ↦ [] | line ∷ _ ↦ line ]

-- The ranges of `isPrivateIPv4`, on the first two numbers.
abbrev pub in_private_range : ℕ → ℕ → Bool
in_private_range a b =
    if a == 10
    then true
    else if a == 172 && leb 16 b && leb b 31
    then true
    else a == 192 && b == 168

abbrev pub private_parts : List Text → Bool
private_parts (p ∷ q ∷ r ∷ s ∷ []) =
    if any (λ t. not (is_octet_text t) || ltb 255 (value t)) (p ∷ q ∷ r ∷ s ∷ [])
    then false
    else in_private_range (value p) (value q)
private_parts _ = false

unfoldable pub is_private_ipv4 : Text → Bool
is_private_ipv4 addr = private_parts (split b'.' addr)

abbrev pub if_private : Option Text → Option Text
if_private none = none
if_private (some addr) = if is_private_ipv4 addr then some addr else none

-- The loop over the lines of resolv.conf.
unfoldable pub first_nameserver : List Text → Option Text
unfolding is_private_ipv4
first_nameserver [] = none
first_nameserver (line ∷ lines) =
    let later = first_nameserver lines in
    elim (if_private (nameserver line)) [ some addr ↦ some addr | none ↦ later ]

module _ {W : Type 0} (exec : Exec W) where
  -- A setting that `sysctl` or, where it is missing, a shell has written.
  abbrev pub write_setting : Text → Text → Reply → Action W Reply
  write_setting key v (ok out) = return (ok out)
  write_setting key v (err f) =
      if f.missing
      then try_run exec (text "sh")
          (text "-c" ∷ (text "echo " ++ v ++ text " > " ++ proc_path key) ∷ [])
      else return (err f)

  unfoldable pub apply_settings : List (Text × Text) → Action W (List Text)
  apply_settings [] = return []
  apply_settings ((key, v) ∷ rest) = do
    first ← try_run exec (text "sysctl") (text "-w" ∷ (key ++ text "=" ++ v) ∷ [])
    res ← write_setting key v first
    applied ← apply_settings rest
    return (if succeeded res then key ∷ applied else applied)

  unfoldable pub apply_sysctls : List Text → Action W (List Text)
  apply_sysctls interfaces = apply_settings (settings interfaces)

  abbrev pub default_route : Action W Reply
  default_route =
      try_run exec (text "ip") (text "-o" ∷ text "route" ∷ text "show" ∷ text "default" ∷ [])

  unfoldable pub detect_wan_interface : Action W (Option Text)
  detect_wan_interface = do
    res ← default_route
    return (elim res [ err _ ↦ none | ok out ↦ after_word (text "dev") (first_line out) ])

  abbrev pub from_resolv_conf : Reply → Option Text
  from_resolv_conf (ok out) = first_nameserver (split 10 out)
  from_resolv_conf (err _) = none

  abbrev pub from_route : Reply → Option Text
  from_route (ok out) = if_private (after_word (text "via") (first_line out))
  from_route (err _) = none

  abbrev pub or_route : Option Text → Action W (Option Text)
  or_route (some addr) = return (some addr)
  or_route none = do route ← default_route; return (from_route route)

  unfoldable pub detect_resolver : Action W (Option Text)
  detect_resolver = do
    res ← try_run exec (text "cat") (text "/etc/resolv.conf" ∷ [])
    or_route (from_resolv_conf res)

  -- `/No chain\/target\/match|Unknown arg|unknown option/i`, with the message in lower case.
  abbrev pub lacks_target : (Text → Text) → Text → Bool
  lacks_target lower message =
      includes (lower message) (text "no chain/target/match")
      || includes (lower message) (text "unknown arg")
      || includes (lower message) (text "unknown option")

  abbrev pub probed : (Text → Text) → Reply → Bool
  probed lower (ok _) = true
  probed lower (err f) = not (lacks_target lower f.message)

  abbrev pub probe_netmap : (Text → Text) → Action W Bool
  probe_netmap lower = do
    res ← try_run exec (text "iptables") (
        text "-t"
        ∷ text "nat"
        ∷ text "-C"
        ∷ text "POSTROUTING"
        ∷ text "-s"
        ∷ text "192.0.2.0/24"
        ∷ text "-j"
        ∷ text "NETMAP"
        ∷ text "--to"
        ∷ text "198.51.100.0/24"
        ∷ [])
    return (probed lower res)

  unfoldable pub netmap_available : (Text → Text) → Action W Bool
  netmap_available lower = do
    have ← have_iptables exec
    with_iptables exec false (probe_netmap lower) have
