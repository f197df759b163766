-- ===== src/Host/Router/Firewall.antt =====
-- What iptables documents of the options that nodejs/utils/net_router.js uses, and one rule under it.
use jump_host.Base.{
  ℕ, ◌+◌, ◌≤◌, ◌≡◌, refl, ◌∙◌, ◌≢◌, ◌⊎◌, inl, inr, Bool, true, false, some, List, ◌∷◌, arith, leb,
  if◌then◌else◌, ◌==◌, nat_eq, text_eq, Result, ok, err, Result-cases, any, Text, text,
}
use jump_host.Host.Shell.{Exec, Reply, Gateway, succeeded, try_run}
use jump_host.Host.Router.{IpRule, added, unless_present, ensure_rule, have_iptables, missing_tools}

abbrev pub iptables_args : Text → IpRule → List Text
iptables_args option e = text "-t" ∷ e.table ∷ option ∷ e.chain ∷ e.spec

module _ {W : Type 0} (count : W → IpRule → ℕ) where
  -- No rule came or went.
  abbrev pub SameRules : W → W → Type 0
  SameRules v w = (j : IpRule) → count w j ≡ count v j

  -- Nothing changed but the copies of one rule.
  abbrev pub OnlyRule : IpRule → W → W → Type 0
  OnlyRule e v w = (j : IpRule) → (j ≡ e) ⊎ (count w j ≡ count v j)

  -- What `-A` and `-I` do: they add a copy of the rule, or fail and change no rule.
  abbrev pub Appends : IpRule → W → Reply × W → Type 0
  Appends e v (ok _, w) = (count w e ≡ count v e + 1) × OnlyRule e v w
  Appends e v (err _, w) = SameRules v w

-- iptables, for a host that holds `count w e` copies of a rule: `-C` succeeds exactly for a rule that
-- is there, `-A` and `-I` add a copy, and `-D` takes one away. No other program touches the rules.
pub record Firewall {W : Type 0} (exec : Exec W) (count : W → IpRule → ℕ) : Type 0 where
  pub check :
      (e : IpRule) (w : W)
      → succeeded (exec (text "iptables") (iptables_args (text "-C") e) w).0 ≡ leb 1 (count w e)
  pub check_keeps :
      (e : IpRule) (w : W)
      → SameRules count w (exec (text "iptables") (iptables_args (text "-C") e) w).1
  pub append :
      (e : IpRule) (w : W)
      → Appends count e w (exec (text "iptables") (iptables_args (text "-A") e) w)
  pub insert :
      (e : IpRule) (w : W)
      → Appends count e w (exec (text "iptables") (iptables_args (text "-I") e) w)
  pub remove :
      (e : IpRule) (w : W)
      → 1 ≤ count w e
      → succeeded (exec (text "iptables") (iptables_args (text "-D") e) w).0 ≡ true
  pub remove_one :
      (e : IpRule) (w : W)
      → 1 ≤ count w e
      → count (exec (text "iptables") (iptables_args (text "-D") e) w).1 e + 1 ≡ count w e
  pub remove_only :
      (e : IpRule) (w : W)
      → OnlyRule count e w (exec (text "iptables") (iptables_args (text "-D") e) w).1
  pub others :
      (cmd : Text) (args : List Text) (w : W)
      → cmd ≢ text "iptables"
      → SameRules count w (exec cmd args w).1

-- The module has looked for its tools, and iptables is there.
abbrev pub IsReady : {W : Type 0} → Gateway W → Type 0
IsReady g =
    (ts : List Text) × (g.tool_cache ≡ some ts) × (any (λ t. t == text "iptables") ts ≡ false)

module _ {W : Type 0} (exec : Exec W) (count : W → IpRule → ℕ) where
  -- What a call of `ensureRule` has done to the host, by how it ended.
  abbrev pub Ensures : IpRule → W → Result Text Bool × Gateway W → Type 0
  Ensures e v (ok true, h) = (count v e ≡ 0) × (count h.world e ≡ 1) × OnlyRule count e v h.world
  Ensures e v (ok false, h) = (1 ≤ count v e) × SameRules count v h.world
  Ensures e v (err _, h) = (count v e ≡ 0) × SameRules count v h.world

  module _ (fw : Firewall exec count) where
    adds :
        (e : IpRule) (b : Bool) (w : W)
        → Appends count e w
            (exec (text "iptables") (iptables_args (if b then text "-A" else text "-I") e) w)
    adds e true w = fw.append e w
    adds e false w = fw.insert e w

    added-Ensures :
        (e : IpRule) (v : W) (g : Gateway W) (p : Reply × W)
        → count v e ≡ 0
        → SameRules count v g.world
        → Appends count e g.world p
        → Ensures e v (added exec e p.0 (record g { world = p.1 }))
    added-Ensures e v g (ok out, w) none_there same (one, only) = (
      none_there,
      omega (arith, one, same e, none_there),
      λ j. elim (only j) [ inl e ↦ inl e | inr k ↦ inr (k ∙ same j) ],
    )
    added-Ensures e v g (err f, w) none_there same same' = (none_there, λ j. same' j ∙ same j)

    unless_present-Ensures :
        (e : IpRule) (b : Bool) (v : W) (g : Gateway W) (there : Bool)
        → SameRules count v g.world
        → there ≡ leb 1 (count v e)
        → Ensures e v (unless_present exec e b there g)
    unfolding try_run
    unless_present-Ensures e b v g true same t = (ground arith, same)
    unless_present-Ensures e b v g false same t =
        added-Ensures e v g _ (ground arith) same (adds e b g.world)

    -- With iptables there, `ensureRule` ends in one of three ways. It returns true: the rule was not
    -- there, there is one copy now, and no other rule changed. It returns false: the rule was there,
    -- and no rule changed. It throws: the rule was not there, and no rule changed.
    pub ensure_rule_lem :
        (e : IpRule) (b : Bool) (g : Gateway W)
        → IsReady g
        → Ensures e g.world (ensure_rule exec e b g)
    unfolding ensure_rule have_iptables missing_tools try_run
    ensure_rule_lem e b g (ts, cached, there) =
        rw (cached, there)
          (unless_present-Ensures e b g.world _ _ (fw.check_keeps e g.world) (fw.check e g.world))

  unless_present-keeps :
      (e : IpRule) (b : Bool) (g : Gateway W) (there : Bool)
      → (unless_present exec e b there g).1.tool_cache ≡ g.tool_cache
  unfolding try_run
  unless_present-keeps e b g true = refl
  unless_present-keeps e b g false =
      elim (Result-cases
        (exec (text "iptables") (iptables_args (if b then text "-A" else text "-I") e) g.world).0) [
          | inl (out, r) ↦ rw r
          | inr (f, r) ↦ rw r
        ]

  pub ensure_rule-IsReady :
      (e : IpRule) (b : Bool) (g : Gateway W) → IsReady g → IsReady (ensure_rule exec e b g).1
  unfolding ensure_rule have_iptables missing_tools try_run
  ensure_rule-IsReady e b g (ts, cached, there) =
      rw (cached, there) (ts, unless_present-keeps e b _ _, there)

  pub have_iptables-IsReady : (g : Gateway W) → IsReady g → have_iptables exec g ≡ (ok true, g)
  unfolding have_iptables missing_tools
  have_iptables-IsReady g (ts, cached, there) = rw (cached, there)

  -- Without iptables, nothing is done.
  ensure_rule-skips :
      (e : IpRule) (b : Bool) (g : Gateway W) (ts : List Text)
      → g.tool_cache ≡ some ts
      → any (λ t. t == text "iptables") ts ≡ true
      → ensure_rule exec e b g ≡ (ok false, g)
  unfolding ensure_rule have_iptables missing_tools
  ensure_rule-skips e b g ts cached gone = rw (cached, gone)
