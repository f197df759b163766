-- ===== src/Host/Router/Removal.antt =====
-- removeRule of nodejs/utils/net_router.js.
use jump_host.Base.{
  ℕ, zero, suc, ◌+◌, ◌≤◌, ◌≡◌, refl, ◌∙◌, ◌⊎◌, inl, inr, Bool, true, false, not, Option, none, some,
  List, [], ◌∷◌, arith, ltb, leb, if◌then◌else◌, Bool-cases, ◌==◌, nat_eq, text_eq, Result, ok, err,
  any, Text, text,
}
use jump_host.Host.Shell.{Exec, Gateway, Action, try_run, is_missing}
use jump_host.Host.Router.{
  IpRule, on_cache, have_iptables, missing_tools, probe_tools, tools, with_iptables, after_delete,
  remove_round, remove_fuel, remove_loop, remove_rule,
}
use jump_host.Host.Router.Firewall.{
  Firewall, iptables_args, SameRules, OnlyRule, IsReady, have_iptables-IsReady,
}

module _ {W : Type 0} (exec : Exec W) where
  -- A call that returns a number, and at most 33.
  abbrev pub Ends : Result Text (Option ℕ) × Gateway W → Type 0
  Ends (ok (some n), h) = n ≤ 33
  Ends (ok none, h) = ⊥
  Ends (err e, h) = ⊥

  after_delete-Ends :
      (removed : ℕ) (rest : Action W (Option ℕ)) (g : Gateway W) (deleted : Bool)
      → removed ≤ 32
      → (removed + 1 ≤ 32 → Ends (rest g))
      → Ends (after_delete exec removed rest deleted g)
  after_delete-Ends removed rest g false few next = omega arith
  after_delete-Ends removed rest g true few next = elim (Bool-cases (ltb 32 (removed + 1))) [
    | inl many ↦ rw many (omega arith)
    | inr more ↦ rw more (next (ground arith))
  ]

  remove_round-Ends :
      (e : IpRule) (removed : ℕ) (rest : Action W (Option ℕ)) (g : Gateway W) (there : Bool)
      → removed ≤ 32
      → ((h : Gateway W) → removed + 1 ≤ 32 → Ends (rest h))
      → Ends (remove_round exec e removed rest there g)
  unfolding try_run
  remove_round-Ends e removed rest g false few next = omega arith
  remove_round-Ends e removed rest g true few next =
      let h = (try_run exec (text "iptables") (iptables_args (text "-D") e) g).1 in
      after_delete-Ends removed rest h _ few (next h)

  remove_loop-Ends :
      (fuel : ℕ) (e : IpRule) (removed : ℕ) (g : Gateway W)
      → fuel + removed ≡ 33
      → removed ≤ 32
      → Ends (remove_loop exec fuel e removed g)
  unfolding remove_loop try_run
  remove_loop-Ends zero e removed g total few = absurd (omega arith)
  remove_loop-Ends (suc fuel) e removed g total few =
      remove_round-Ends e removed (remove_loop exec fuel e (removed + 1)) _ _ few
        (λ h more. remove_loop-Ends fuel e (removed + 1) h (omega arith) more)

  with_iptables-Ends :
      (act : Action W (Option ℕ)) (have : Bool) (g : Gateway W)
      → Ends (act g)
      → Ends (with_iptables exec (some 0) act have g)
  with_iptables-Ends act true g h = h
  with_iptables-Ends act false g h = omega arith

  probe_tools-ok :
      (ts : List Text) (g : Gateway W)
      → (found : List Text) × (h : Gateway W) × (probe_tools exec ts g ≡ (ok found, h))
  unfolding probe_tools try_run
  probe_tools-ok [] g = ([], g, refl)
  probe_tools-ok (tool ∷ ts) g =
      let (found, h, e) = probe_tools-ok ts (try_run exec tool (text "--version" ∷ []) g).1 in
      (
        if is_missing (exec tool (text "--version" ∷ []) g.world).0 then tool ∷ found else found,
        h,
        rw e refl,
      )

  on_cache-ok :
      (cache : Option (List Text)) (g : Gateway W)
      → (ts : List Text) × (h : Gateway W) × (on_cache exec cache g ≡ (ok ts, h))
  on_cache-ok (some ts) g = (ts, g, refl)
  on_cache-ok none g =
      let (found, h, e) = probe_tools-ok tools g in
      (found, record h { tool_cache = some found }, rw e refl)

  -- The probe for the tools does not throw.
  have_iptables-ok :
      (g : Gateway W) → (b : Bool) × (h : Gateway W) × (have_iptables exec g ≡ (ok b, h))
  unfolding have_iptables missing_tools
  have_iptables-ok g =
      let (ts, h, e) = on_cache-ok g.tool_cache g in
      (not (any (λ t. t == text "iptables") ts), h, rw e refl)

  -- `removeRule` ends, whatever the commands answer, and returns at most 33.
  pub remove_rule-Ends : (e : IpRule) (g : Gateway W) → Ends (remove_rule exec e g)
  unfolding remove_rule
  remove_rule-Ends e g =
      let (b, h, p) = have_iptables-ok g in
      rw p (
        with_iptables-Ends (remove_loop exec remove_fuel e 0) b h
          (remove_loop-Ends remove_fuel e 0 h refl (omega arith)))

  module _ (count : W → IpRule → ℕ) (fw : Firewall exec count) where
    -- From `v`, with `n` copies removed before: the copies that are gone are counted, and all are gone
    -- unless 33 are.
    abbrev pub Removes :
        IpRule → ℕ → W → Option (List Text) → Result Text (Option ℕ) × Gateway W → Type 0
    Removes e n v cache (ok (some m), h) =
        (count h.world e + m ≡ n + count v e)
        × ((count h.world e ≡ 0) ⊎ (m ≡ 33))
        × OnlyRule count e v h.world
        × (h.tool_cache ≡ cache)
    Removes e n v cache (ok none, h) = ⊥
    Removes e n v cache (err m, h) = ⊥

    after_delete-Removes :
        (e : IpRule) (n : ℕ) (v : W) (rest : Action W (Option ℕ)) (g : Gateway W) (deleted : Bool)
        → n ≤ 32
        → deleted ≡ true
        → count g.world e + 1 ≡ count v e
        → OnlyRule count e v g.world
        → (n + 1 ≤ 32 → Removes e (n + 1) g.world g.tool_cache (rest g))
        → Removes e n v g.tool_cache (after_delete exec n rest deleted g)
    after_delete-Removes e n v rest g false few gone one only next = cc
    after_delete-Removes e n v rest g true few gone one only next =
        elim (Bool-cases (ltb 32 (n + 1))) [
          | inl many ↦ rw many (omega arith, inr (ground arith), only, refl)
          | inr more ↦ rw more (carry (rest g) (next (ground arith)))
        ]
      where
        carry :
            (r : Result Text (Option ℕ) × Gateway W)
            → Removes e (n + 1) g.world g.tool_cache r
            → Removes e n v g.tool_cache r
        carry (ok (some m), h) (total, ended, only', same) = (
          omega arith,
          ended,
          λ j. elim (only' j) [
            | inl k ↦ inl k
            | inr k' ↦ elim (only j) [ inl k ↦ inl k | inr k ↦ inr (k' ∙ k) ]
          ],
          same,
        )
        carry (ok none, h) no_way = no_way
        carry (err m, h) no_way = no_way

    remove_round-Removes :
        (e : IpRule) (n : ℕ) (v : W) (rest : Action W (Option ℕ)) (g : Gateway W) (there : Bool)
        → n ≤ 32
        → SameRules count v g.world
        → there ≡ leb 1 (count v e)
        → ((h : Gateway W)
            → n + 1 ≤ 32
            → h.tool_cache ≡ g.tool_cache
            → Removes e (n + 1) h.world g.tool_cache (rest h))
        → Removes e n v g.tool_cache (remove_round exec e n rest there g)
    unfolding try_run
    remove_round-Removes e n v rest g false few same t next =
        (omega (arith, same e), inl (ground (arith, same e)), λ j. inr (same j), refl)
    remove_round-Removes e n v rest g true few same t next =
        let there : 1 ≤ count g.world e = ground (arith, same e) in
        let h = (try_run exec (text "iptables") (iptables_args (text "-D") e) g).1 in
        after_delete-Removes e n v rest h _ few (fw.remove e g.world there)
          (fw.remove_one e g.world there ∙ same e)
          (λ j. elim (fw.remove_only e g.world j) [ inl k ↦ inl k | inr k ↦ inr (k ∙ same j) ])
          (λ more. next h more refl)

    remove_loop-Removes :
        (fuel : ℕ) (e : IpRule) (n : ℕ) (g : Gateway W)
        → fuel + n ≡ 33
        → n ≤ 32
        → Removes e n g.world g.tool_cache (remove_loop exec fuel e n g)
    unfolding remove_loop try_run
    remove_loop-Removes zero e n g total few = absurd (omega arith)
    remove_loop-Removes (suc fuel) e n g total few =
        remove_round-Removes e n g.world (remove_loop exec fuel e (n + 1)) _ _ few
          (fw.check_keeps e g.world) (fw.check e g.world)
          (λ h more same. rw (← same) (remove_loop-Removes fuel e (n + 1) h (omega arith) more))

    -- With iptables there, `removeRule` returns how many copies of the rule are gone: all of them, or
    -- 33; no other rule changes.
    pub remove_rule-Removes :
        (e : IpRule) (g : Gateway W)
        → IsReady g
        → Removes e 0 g.world g.tool_cache (remove_rule exec e g)
    unfolding remove_rule
    remove_rule-Removes e g ready =
        rw (have_iptables-IsReady exec count g ready)
          (remove_loop-Removes remove_fuel e 0 g refl (omega arith))
