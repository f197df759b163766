-- ===== src/Host/Router.antt =====
-- nodejs/utils/net_router.js: rules, sysctls, forwarding and NETMAP.
pub mod Firewall
pub mod Settled
pub mod Removal
pub mod Extra
use jump_host.Base.{
  ℕ, zero, suc, ◌+◌, ◌-◌, ◌*◌, ◌/◌, ◌%◌, ◌^◌, ◌≤◌, ◌<◌, min, pred, ◌≡◌, refl, sym, ap, ap₂, ◌∙◌,
  subst, ◌≡⟨◌⟩◌, ◌∎, ◌≢◌, ◌↔◌, ◌⊎◌, inl, inr, Bool, true, false, not, ◌&&◌, ◌||◌, Option, none,
  some, List, [], ◌∷◌, ◌++◌, map, reverse, append-nil, append_assoc, map-append, arith, ltb, leb,
  if◌then◌else◌, ltb→lt, lt→ltb, leb→le, le→leb, tests, Bool-cases, Option-cases, Eq, ◌==◌, eq_iff,
  eq_refl, eq_of_ne, nat_eq, text_eq, text_beq, Result, ok, err, require, Result-cases, length,
  length-append, get_elem?, take, drop, length-take, take-append, drop-append, all, any, find,
  filter, In, All, All-In, All-from_members, In-append, Text, text, is_digit, is_lower, is_upper,
  split, join, Lacks, split_of_Lacks, split-append, split-Lacks, join-split, starts_with, index_of,
  starts_with_iff, split-join, all_iff, any_iff, find-eq-some, find-eq-none, In-filter,
  length-filter-le, All-imp, All-append, drop-nil, drop-add, take-append-drop,
}
use jump_host.Mesh.Exits.Readback.{is_space, span, some_of, literal}
use jump_host.Base.Decimal.{value}
use jump_host.Host.Shell.{
  Exec, Reply, Failure, Gateway, Action, return, throw, and_then, ◌>>=◌, ◌>>◌, try_run, succeeded,
  is_missing, output, refused,
}

abbrev pub tools : List Text
tools = text "iptables" ∷ text "sysctl" ∷ []

-- A rule of a table and a chain.
pub record IpRule : Type 0 where
  pub table : Text
  pub chain : Text
  pub spec : List Text

-- What a function of the module returns: how many rules changed, or that it did nothing.
pub data Outcome : Type 0 where
  changed : ℕ → Outcome
  skipped : Text → Outcome

-- `s.trim()` is not empty.
abbrev pub is_blank : Text → Bool
is_blank s = all is_space s

-- Enough for the loop of `removeRule`, which stops at 33.
abbrev pub remove_fuel : ℕ
remove_fuel = 33

module _ {W : Type 0} (exec : Exec W) where
  -- `TOOLS.filter(…)`
  unfoldable pub probe_tools : List Text → Action W (List Text)
  probe_tools [] = return []
  probe_tools (tool ∷ ts) = do
    r ← try_run exec tool (text "--version" ∷ [])
    rest ← probe_tools ts
    return (if is_missing r then tool ∷ rest else rest)

  abbrev pub remember_tools : List Text → Action W (List Text)
  remember_tools ts g = (ok ts, record g { tool_cache = some ts })

  abbrev pub on_cache : Option (List Text) → Action W (List Text)
  on_cache (some ts) = return ts
  on_cache none = do ts ← probe_tools tools; remember_tools ts

  unfoldable pub missing_tools : Action W (List Text)
  missing_tools g = on_cache g.tool_cache g

  unfoldable pub have_iptables : Action W Bool
  unfolding missing_tools
  have_iptables = do ts ← missing_tools; return (not (any (λ t. t == text "iptables") ts))

  -- `iptables -t <table> <option> <chain> <rule…>`
  abbrev pub iptables : Text → IpRule → Action W Reply
  iptables option e =
      try_run exec (text "iptables") (text "-t" ∷ e.table ∷ option ∷ e.chain ∷ e.spec)

  abbrev pub added : IpRule → Reply → Action W Bool
  added e (ok _) = return true
  added e (err f) = throw (
      text "iptables -t "
      ++ e.table
      ++ text " "
      ++ e.chain
      ++ text " "
      ++ join b' ' e.spec
      ++ text ": "
      ++ f.message)

  abbrev pub add_rule : IpRule → Bool → Action W Bool
  add_rule e append = do r ← iptables (if append then text "-A" else text "-I") e; added e r

  abbrev pub check_rule : IpRule → Action W Bool
  check_rule e = do r ← iptables (text "-C") e; return (succeeded r)

  abbrev pub unless_present : IpRule → Bool → Bool → Action W Bool
  unless_present e append true = return false
  unless_present e append false = add_rule e append

  abbrev pub with_iptables : {A : Type 0} → A → Action W A → Bool → Action W A
  with_iptables otherwise act true = act
  with_iptables otherwise act false = return otherwise

  abbrev pub ensure_present : IpRule → Bool → Action W Bool
  ensure_present e append = do there ← check_rule e; unless_present e append there

  unfoldable pub ensure_rule : IpRule → Bool → Action W Bool
  ensure_rule e append = do have ← have_iptables; with_iptables false (ensure_present e append) have

  -- A round of the `while` loop of `removeRule`, after its test; `rest` is what the loop goes on with.
  abbrev pub after_delete : ℕ → Action W (Option ℕ) → Bool → Action W (Option ℕ)
  after_delete removed rest false = return (some removed)
  after_delete removed rest true =
      if ltb 32 (removed + 1) then return (some (removed + 1)) else rest

  abbrev pub remove_round : IpRule → ℕ → Action W (Option ℕ) → Bool → Action W (Option ℕ)
  remove_round e removed rest false = return (some removed)
  remove_round e removed rest true = do
    r ← iptables (text "-D") e
    after_delete removed rest (succeeded r)

  -- The loop, from a number of removed rules; `none` if the fuel runs out.
  unfoldable pub remove_loop : ℕ → IpRule → ℕ → Action W (Option ℕ)
  remove_loop zero e removed = return none
  remove_loop (suc fuel) e removed =
      let rest = remove_loop fuel e (removed + 1) in
      do there ← check_rule e; remove_round e removed rest there

  unfoldable pub remove_rule : IpRule → Action W (Option ℕ)
  remove_rule e = do have ← have_iptables; with_iptables (some 0) (remove_loop remove_fuel e 0) have

  -- A rule that is ensured, and the count of changes.
  abbrev pub ensure_count : IpRule → ℕ → Action W ℕ
  ensure_count e n = do new ← ensure_rule e true; return (if new then n + 1 else n)

  -- Rules in the order of the calls, with the count so far.
  unfoldable pub ensure_each : List IpRule → ℕ → Action W ℕ
  ensure_each [] n = return n
  ensure_each (e ∷ es) n = do m ← ensure_count e n; ensure_each es m
