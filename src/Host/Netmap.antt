-- ===== src/Host/Netmap.antt =====
-- applyNetmap and removeNetmap of nodejs/utils/net_router.js.
pub mod Laws
use jump_host.Base.{
  ℕ, zero, suc, ◌+◌, ◌-◌, ◌*◌, ◌/◌, ◌%◌, ◌^◌, ◌≤◌, ◌<◌, min, pred, ◌≡◌, refl, sym, ap, ap₂, ◌∙◌,
  subst, ◌≡⟨◌⟩◌, ◌∎, ◌≢◌, ◌↔◌, ◌⊎◌, inl, inr, Bool, true, false, not, ◌&&◌, ◌||◌, Option, none,
  some, List, [], ◌∷◌, ◌++◌, map, reverse, append-nil, append_assoc, map-append, arith, ltb, leb,
  if◌then◌else◌, ltb→lt, lt→ltb, leb→le, le→leb, tests, Bool-cases, Option-cases, Eq, ◌==◌, eq_iff,
  eq_refl, eq_of_ne, nat_eq, text_eq, text_beq, Result, ok, err, require, Result-cases, length,
  length-append, get_elem?, take, drop, length-take, take-append, drop-append, all, any, find,
  filter, In, All, All-In, All-from_members, In-append, Text, text, is_digit, is_lower, is_upper,
  split, join, Lacks, split_of_Lacks, split-append, split-Lacks, join-split, starts_with, index_of,
  starts_with_iff, split-join, all_iff, any_iff, find-eq-some, find-eq-none, In-filter,
  length-filter-le, All-imp, All-append, drop-nil, drop-add, take-append-drop,
}
use jump_host.Host.Shell.{
  Exec, Reply, Gateway, Action, return, throw, and_then, ◌>>=◌, ◌>>◌, try_run, succeeded, output,
}
use jump_host.Host.Router.{
  IpRule, Outcome, changed, skipped, is_blank, have_iptables, with_iptables, ensure_count,
  remove_rule,
}
use jump_host.Host.Forwarding.{no_iptables}

-- Who addresses the shadow on the mesh reaches the physical network.
abbrev pub inbound : Text → Text → Text → IpRule
inbound wg shadow physical = record {
  table = text "nat";
  chain = text "PREROUTING";
  spec =
      text "-i" ∷ wg ∷ text "-d" ∷ shadow ∷ text "-j" ∷ text "NETMAP" ∷ text "--to" ∷ physical ∷ [];
}

-- A host of the physical network appears as its shadow.
abbrev pub outbound : Text → Text → Text → IpRule
outbound wg shadow physical = record {
  table = text "nat";
  chain = text "POSTROUTING";
  spec =
      text "-o" ∷ wg ∷ text "-s" ∷ physical ∷ text "-j" ∷ text "NETMAP" ∷ text "--to" ∷ shadow ∷ [];
}

abbrev pub masquerade_lan : Text → Text → IpRule
masquerade_lan wg physical = record {
  table = text "nat";
  chain = text "POSTROUTING";
  spec = text "-s" ∷ physical ∷ text "-o" ∷ wg ∷ text "-j" ∷ text "MASQUERADE" ∷ [];
}

-- `!s` of a text.
abbrev pub is_empty : Text → Bool
is_empty [] = true
is_empty (c ∷ s) = false

abbrev pub any_empty : Text → Text → Text → Bool
any_empty wg shadow physical = is_empty wg || is_empty shadow || is_empty physical

abbrev plus : Option ℕ → Option ℕ → Option ℕ
plus none _ = none
plus (some a) none = none
plus (some a) (some b) = some (a + b)

module _ {W : Type 0} (exec : Exec W) where
  abbrev pub with_local : Text → ℕ → Bool → Action W ℕ
  with_local shadow m true = return m
  with_local shadow m false = do
    add ←
        try_run exec (text "ip")
          (text "route" ∷ text "add" ∷ text "local" ∷ shadow ∷ text "dev" ∷ text "lo" ∷ [])
    return (if succeeded add then m + 1 else m)

  -- The local route of the shadow; a failure is only logged.
  unfoldable pub claim_local : Text → ℕ → Action W ℕ
  claim_local shadow m = do
    shown ←
        try_run exec (text "ip")
          (text "route" ∷ text "show" ∷ text "table" ∷ text "local" ∷ shadow ∷ [])
    with_local shadow m (succeeded shown && not (is_blank (output shown)))

  unfoldable pub netmap_on : Text → Text → Text → Action W Outcome
  netmap_on wg shadow physical = do
    n ← ensure_count exec (inbound wg shadow physical) 0
    m ← ensure_count exec (outbound wg shadow physical) n
    k ← claim_local shadow m
    p ← ensure_count exec (masquerade_lan wg physical) k
    return (changed p)

  abbrev pub unless_empty : {A : Type 0} → Bool → A → Action W A → Action W A
  unless_empty true otherwise act = return otherwise
  unless_empty false otherwise act = act

  unfoldable pub apply_netmap : Text → Text → Text → Action W Outcome
  apply_netmap wg shadow physical = do
    have ← have_iptables exec
    with_iptables exec (no_iptables exec)
        (unless_empty (any_empty wg shadow physical) (changed 0) (netmap_on wg shadow physical))
        have

  unfoldable pub netmap_off : Text → Text → Text → Action W (Option ℕ)
  netmap_off wg shadow physical = do
    a ← remove_rule exec (inbound wg shadow physical)
    b ← remove_rule exec (outbound wg shadow physical)
    c ← remove_rule exec (masquerade_lan wg physical)
    try_run exec (text "ip")
        (text "route" ∷ text "del" ∷ text "local" ∷ shadow ∷ text "dev" ∷ text "lo" ∷ [])
    return (plus (plus a b) c)

  unfoldable pub remove_netmap : Text → Text → Text → Action W (Option ℕ)
  remove_netmap wg shadow physical =
      unless_empty (any_empty wg shadow physical) (some 0) (netmap_off wg shadow physical)
