-- ===== src/Host/Forwarding.antt =====
-- applyForwarding, applyNetmap and removeNetmap of nodejs/utils/net_router.js.
pub mod Laws
use jump_host.Base.{
  ℕ, zero, suc, ◌+◌, ◌-◌, ◌*◌, ◌/◌, ◌%◌, ◌^◌, ◌≤◌, ◌<◌, min, pred, ◌≡◌, refl, sym, ap, ap₂, ◌∙◌,
  subst, ◌≡⟨◌⟩◌, ◌∎, ◌≢◌, ◌↔◌, ◌⊎◌, inl, inr, Bool, true, false, not, ◌&&◌, ◌||◌, Option, none,
  some, List, [], ◌∷◌, ◌++◌, map, reverse, append-nil, append_assoc, map-append, arith, ltb, leb,
  if◌then◌else◌, ltb→lt, lt→ltb, leb→le, le→leb, tests, Bool-cases, Option-cases, Eq, ◌==◌, eq_iff,
  eq_refl, eq_of_ne, nat_eq, text_eq, text_beq, Result, ok, err, require, Result-cases, length,
  length-append, get_elem?, take, drop, length-take, take-append, drop-append, all, any, find,
  filter, In, All, All-In, All-from_members, In-append, Text, text, is_digit, is_lower, is_upper,
  split, join, Lacks, split_of_Lacks, split-append, split-Lacks, join-split, starts_with, index_of,
  starts_with_iff, split-join, all_iff, any_iff, find-eq-some, find-eq-none, In-filter,
  length-filter-le, All-imp, All-append, drop-nil, drop-add, take-append-drop,
}
use jump_host.Host.Shell.{
  Exec, Reply, Gateway, Action, return, throw, and_then, ◌>>=◌, ◌>>◌, try_run, succeeded, output,
}
use jump_host.Host.Router.{
  IpRule, Outcome, changed, skipped, is_blank, have_iptables, with_iptables, ensure_count,
  remove_rule,
}

abbrev pub masquerade : Text → IpRule
masquerade wan = record {
  table = text "nat";
  chain = text "POSTROUTING";
  spec = text "-o" ∷ wan ∷ text "-j" ∷ text "MASQUERADE" ∷ [];
}

-- Traffic that comes in at one interface may go out at the other.
abbrev pub forward : Text → Text → IpRule
forward from to = record {
  table = text "filter";
  chain = text "FORWARD";
  spec = text "-i" ∷ from ∷ text "-o" ∷ to ∷ text "-j" ∷ text "ACCEPT" ∷ [];
}

-- Only answers to what was begun from the tunnel come back.
abbrev pub established : Text → Text → IpRule
established wan tun = record {
  table = text "filter";
  chain = text "FORWARD";
  spec =
      text "-i"
      ∷ wan
      ∷ text "-o"
      ∷ tun
      ∷ text "-m"
      ∷ text "state"
      ∷ text "--state"
      ∷ text "RELATED,ESTABLISHED"
      ∷ text "-j"
      ∷ text "ACCEPT"
      ∷ [];
}

module _ {W : Type 0} (exec : Exec W) where
  -- The loop over the other tunnels.
  unfoldable pub forward_others : Text → List Text → ℕ → Action W ℕ
  forward_others tun [] n = return n
  forward_others tun (other ∷ rest) n =
      if other == tun
      then forward_others tun rest n
      else (do m ← ensure_count exec (forward tun other) n; forward_others tun rest m)

  -- The loop over the tunnels that are left.
  unfoldable pub forward_tunnels : Text → List Text → List Text → ℕ → Action W ℕ
  forward_tunnels wan tunnels [] n = return n
  forward_tunnels wan tunnels (tun ∷ rest) n = do
    out ← ensure_count exec (forward tun wan) n
    back ← ensure_count exec (established wan tun) out
    all_of ← forward_others tun tunnels back
    forward_tunnels wan tunnels rest all_of

  abbrev pub no_iptables : Outcome
  no_iptables = skipped (text "iptables not available")

  unfoldable pub forward_on : Text → List Text → Action W Outcome
  forward_on wan tunnels = do
    n ← ensure_count exec (masquerade wan) 0
    m ← forward_tunnels wan tunnels tunnels n
    return (changed m)

  -- `!wanIface`
  abbrev pub on_wan : Option Text → List Text → Action W Outcome
  on_wan none tunnels = return (skipped (text "no WAN interface"))
  on_wan (some []) tunnels = return (skipped (text "no WAN interface"))
  on_wan (some (c ∷ s)) tunnels = forward_on (c ∷ s) tunnels

  unfoldable pub apply_forwarding : Option Text → List Text → Action W Outcome
  apply_forwarding wan tunnels = do
    have ← have_iptables exec
    with_iptables exec no_iptables (on_wan wan tunnels) have
