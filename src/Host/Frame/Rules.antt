-- ===== src/Host/Frame/Rules.antt =====
-- What the tests, additions and removals of a rule in nodejs/utils/net_router.js leave alone.
use jump_host.Base.{
  ℕ, zero, suc, ◌+◌, ◌≢◌, Bool, true, false, Option, none, some, List, [], ◌∷◌, ltb, if◌then◌else◌,
  nat_eq, text_eq, ok, err, All, Text, text,
}
use jump_host.Host.Shell.{Exec, Reply, Action, try_run, succeeded}
use jump_host.Host.Router.{
  IpRule, probe_tools, tools, on_cache, remember_tools, missing_tools, have_iptables, iptables,
  with_iptables, check_rule, added, unless_present, ensure_present, ensure_rule, ensure_count,
  after_delete, remove_round, remove_loop, remove_fuel, remove_rule,
}
use jump_host.Host.Frame.{Keeps, Keeps-bind, Keeps-if, try_run-Keeps, iptables-Keeps}

module _ {W : Type 0} (I : W → Type 0) (exec : Exec W)
    (others : (cmd : Text) (args : List Text) (w : W)
      → cmd ≢ text "wg"
      → I w
      → I (exec cmd args w).1) where
  probe_tools-Keeps : (ts : List Text) → All (λ t. t ≢ text "wg") ts → Keeps I (probe_tools exec ts)
  unfolding probe_tools
  probe_tools-Keeps [] _ = λ g i. i
  probe_tools-Keeps (t ∷ ts) (h, hs) =
      Keeps-bind I (try_run exec t (text "--version" ∷ [])) _
        (try_run-Keeps I exec others t (text "--version" ∷ []) h)
        (λ r. Keeps-bind I (probe_tools exec ts) _ (probe_tools-Keeps ts hs) (λ rest g i. i))

  on_cache-Keeps : (c : Option (List Text)) → Keeps I (on_cache exec c)
  on_cache-Keeps (some ts) = λ g i. i
  on_cache-Keeps none =
      Keeps-bind I (probe_tools exec tools) (remember_tools exec)
        (probe_tools-Keeps tools ((λ e. cc), ((λ e. cc), tt))) (λ ts g i. i)

  pub have_iptables-Keeps : Keeps I (have_iptables exec)
  unfolding have_iptables missing_tools
  have_iptables-Keeps g =
      Keeps-bind I (missing_tools exec) _ (λ h. on_cache-Keeps h.tool_cache h) (λ ts h i. i) g

  pub with_iptables-Keeps :
      {A : Type 0} (a : A) (act : Action W A) (b : Bool)
      → Keeps I act
      → Keeps I (with_iptables exec a act b)
  with_iptables-Keeps a act true h = h
  with_iptables-Keeps a act false h = λ g i. i

  added-Keeps : (e : IpRule) (r : Reply) → Keeps I (added exec e r)
  added-Keeps e (ok out) g i = i
  added-Keeps e (err f) g i = i

  unless_present-Keeps : (e : IpRule) (b there : Bool) → Keeps I (unless_present exec e b there)
  unless_present-Keeps e b true = λ g i. i
  unless_present-Keeps e b false =
      Keeps-bind I (iptables exec (if b then text "-A" else text "-I") e) _
        (iptables-Keeps I exec others (if b then text "-A" else text "-I") e) (added-Keeps e)

  check_rule-Keeps : (e : IpRule) → Keeps I (check_rule exec e)
  check_rule-Keeps e =
      Keeps-bind I (iptables exec (text "-C") e) _ (iptables-Keeps I exec others (text "-C") e)
        (λ r g i. i)

  pub ensure_count-Keeps : (e : IpRule) (n : ℕ) → Keeps I (ensure_count exec e n)
  unfolding ensure_rule
  ensure_count-Keeps e n =
      Keeps-bind I (ensure_rule exec e true) _
        (Keeps-bind I (have_iptables exec) _ have_iptables-Keeps (λ have.
          with_iptables-Keeps false (ensure_present exec e true) have (
            Keeps-bind I (check_rule exec e) _ (check_rule-Keeps e) (unless_present-Keeps e true))))
        (λ new g i. i)

  after_delete-Keeps :
      (n : ℕ) (rest : Action W (Option ℕ)) (b : Bool)
      → Keeps I rest
      → Keeps I (after_delete exec n rest b)
  after_delete-Keeps n rest false h = λ g i. i
  after_delete-Keeps n rest true h = Keeps-if I (ltb 32 (n + 1)) _ rest (λ g i. i) h

  remove_round-Keeps :
      (e : IpRule) (n : ℕ) (rest : Action W (Option ℕ)) (b : Bool)
      → Keeps I rest
      → Keeps I (remove_round exec e n rest b)
  remove_round-Keeps e n rest false h = λ g i. i
  remove_round-Keeps e n rest true h =
      Keeps-bind I (iptables exec (text "-D") e) _ (iptables-Keeps I exec others (text "-D") e)
        (λ r. after_delete-Keeps n rest (succeeded r) h)

  remove_loop-Keeps : (fuel : ℕ) (e : IpRule) (n : ℕ) → Keeps I (remove_loop exec fuel e n)
  unfolding remove_loop
  remove_loop-Keeps zero e n = λ g i. i
  remove_loop-Keeps (suc fuel) e n =
      Keeps-bind I (check_rule exec e) _ (check_rule-Keeps e) (λ there.
        remove_round-Keeps e n (remove_loop exec fuel e (n + 1)) there
          (remove_loop-Keeps fuel e (n + 1)))

  pub remove_rule-Keeps : (e : IpRule) → Keeps I (remove_rule exec e)
  unfolding remove_rule
  remove_rule-Keeps e = Keeps-bind I (have_iptables exec) _ have_iptables-Keeps (λ have.
      with_iptables-Keeps (some 0) (remove_loop exec remove_fuel e 0) have
        (remove_loop-Keeps remove_fuel e 0))
