-- ===== src/Host/Router/Settled.antt =====
-- Calls of ensureRule of nodejs/utils/net_router.js, one after the other: a pass, and the pass after it.
use jump_host.Base.{
  ℕ, ◌+◌, ◌≤◌, ◌≡◌, refl, sym, ◌∙◌, ◌⊎◌, inl, inr, Bool, true, false, List, [], ◌∷◌, arith,
  if◌then◌else◌, nat_eq, text_eq, Result, ok, err, In, All, Text, All-imp,
}
use jump_host.Host.Shell.{Exec, Gateway, Action, return, and_then}
use jump_host.Host.Router.{IpRule, Outcome, changed, ensure_rule, ensure_count, ensure_each}
use jump_host.Host.Router.Firewall.{
  Firewall, SameRules, IsReady, Ensures, ensure_rule_lem, ensure_rule-IsReady,
}

module _ {W : Type 0} (count : W → IpRule → ℕ) where
  -- From `v` to `w`, some rules of the list that were not there came, one copy each, and no other rule
  -- changed.
  abbrev pub Within : List IpRule → W → W → Type 0
  Within es v w =
      (j : IpRule) → (count w j ≡ count v j) ⊎ (In j es × (count v j ≡ 0) × (count w j ≡ 1))

  abbrev pub AllPresent : List IpRule → W → Type 0
  AllPresent es w = All (λ e. 1 ≤ count w e) es

  -- After a pass that returns, every rule of the list is there. A pass that throws has added some.
  abbrev pub Settles : {A : Type 0} → List IpRule → W → Result Text A × Gateway W → Type 0
  Settles es v (ok _, h) = AllPresent es h.world × Within es v h.world × IsReady h
  Settles es v (err _, h) = Within es v h.world

  -- A pass that returns `a` and changes no rule.
  abbrev pub IsQuiet : {A : Type 0} → A → W → Result Text A × Gateway W → Type 0
  IsQuiet a v (ok b, h) = (b ≡ a) × SameRules count v h.world
  IsQuiet a v (err _, h) = ⊥

  -- After a pass that returns, every rule is there, and the same pass once more changes nothing.
  abbrev pub Converges :
      List IpRule → Action W Outcome → W → Result Text Outcome × Gateway W → Type 0
  Converges es pass v (ok _, h) =
      AllPresent es h.world × Within es v h.world × IsQuiet (changed 0) h.world (pass h)
  Converges es pass v (err _, h) = Within es v h.world

  pub Converges-Settles :
      (es : List IpRule) (pass : Action W Outcome) (v : W) (r : Result Text Outcome × Gateway W)
      → ((h : Gateway W) → IsReady h → AllPresent es h.world → IsQuiet (changed 0) h.world (pass h))
      → Settles es v r
      → Converges es pass v r
  Converges-Settles es pass v (ok a, h) again (all_there, within, ready) =
      (all_there, within, again h ready all_there)
  Converges-Settles es pass v (err e, h) again within = within

  Within-trans :
      (e : IpRule) (es : List IpRule) (v u w : W)
      → Within (e ∷ []) v u
      → Within es u w
      → Within (e ∷ es) v w
  Within-trans e es v u w first rest j = elim (first j) [
    | inl same ↦ elim (rest j) [
      | inl same' ↦ inl (same' ∙ same)
      | inr (m, none_there, one) ↦ inr (inr m, sym same ∙ none_there, one)
    ]
    | inr (m, none_there, one) ↦ elim (rest j) [
      | inl same' ↦
          inr
            (elim m [ inl same ↦ inl same | inr no_more ↦ absurd no_more ], none_there, same' ∙ one)
      | inr (m', none_there', one') ↦ absurd (omega arith)
    ]
  ]

  stays : (es : List IpRule) (u w : W) (e : IpRule) → Within es u w → 1 ≤ count u e → 1 ≤ count w e
  stays es u w e within there = elim (within e) [
    | inl same ↦ omega arith
    | inr (m, none_there, one) ↦ omega arith
  ]

  Settles-cons :
      {A : Type 0} (e : IpRule) (es : List IpRule) (v u : W) (r : Result Text A × Gateway W)
      → Within (e ∷ []) v u
      → 1 ≤ count u e
      → Settles es u r
      → Settles (e ∷ es) v r
  Settles-cons e es v u (ok a, h) first there (all_there, within, ready) = (
    (stays es u h.world e within there, all_there),
    Within-trans e es v u h.world first within,
    ready,
  )
  Settles-cons e es v u (err m, h) first there within = Within-trans e es v u h.world first within

  pub Settles-same :
      {A : Type 0} (es : List IpRule) (v u : W) (r : Result Text A × Gateway W)
      → SameRules count v u
      → Settles es u r
      → Settles es v r
  Settles-same es v u (ok a, h) same (all_there, within, ready) =
      (all_there, λ j. rw (← same j) (within j), ready)
  Settles-same es v u (err e, h) same within = λ j. rw (← same j) (within j)

  module _ (exec : Exec W) (fw : Firewall exec count) where
    -- A rule, and what follows it, by a continuation `f` that takes the count.
    Settles-step :
        {A : Type 0} (e : IpRule) (es : List IpRule) (n : ℕ) (v : W)
        (p : Result Text Bool × Gateway W) (f : ℕ → Action W A)
        → Ensures exec count e v p
        → IsReady p.1
        → ((m : ℕ) → Settles es p.1.world (f m p.1))
        → Settles (e ∷ es) v (and_then (and_then p (λ new. return (if new then n + 1 else n))) f)
    Settles-step e es n v (ok true, h) f (none_there, one, only) ready rest =
        Settles-cons e es v h.world (f (n + 1) h)
          (λ j. elim (only j) [
            | inl same ↦ inr (inl same, rw same none_there, rw same one)
            | inr k ↦ inl k
          ])
          (omega arith) (rest (n + 1))
    Settles-step e es n v (ok false, h) f (there, same) ready rest =
        Settles-cons e es v h.world (f n h) (λ j. inl (same j)) (omega (arith, same e)) (rest n)
    Settles-step e es n v (err m, h) f (none_there, same) ready rest = λ j. inl (same j)

    -- The same, for a call of `ensureRule`.
    pub Settles-ensure :
        {A : Type 0} (e : IpRule) (es : List IpRule) (n : ℕ) (g : Gateway W) (f : ℕ → Action W A)
        → IsReady g
        → ((m : ℕ) (h : Gateway W) → IsReady h → Settles es h.world (f m h))
        → Settles (e ∷ es) g.world (and_then (ensure_count exec e n g) f)
    Settles-ensure e es n g f ready rest =
        let next = ensure_rule-IsReady exec count e true g ready in
        Settles-step e es n g.world (ensure_rule exec e true g) f
          (ensure_rule_lem exec count fw e true g ready) next
          (λ m. rest m (ensure_rule exec e true g).1 next)

    -- A pass over any rules.
    pub ensure_each-Settles :
        (es : List IpRule) (n : ℕ) (g : Gateway W)
        → IsReady g
        → Settles es g.world (ensure_each exec es n g)
    unfolding ensure_each
    ensure_each-Settles [] n g ready = (tt, λ j. inl refl, ready)
    ensure_each-Settles (e ∷ es) n g ready =
        Settles-ensure e es n g (ensure_each exec es) ready (λ m h. ensure_each-Settles es m h)

    IsQuiet-step :
        (e : IpRule) (es : List IpRule) (n : ℕ) (v : W) (p : Result Text Bool × Gateway W)
        → 1 ≤ count v e
        → Ensures exec count e v p
        → (SameRules count v p.1.world → IsQuiet n p.1.world (ensure_each exec es n p.1))
        → IsQuiet n v
            (and_then (and_then p (λ new. return (if new then n + 1 else n))) (ensure_each exec es))
    IsQuiet-step e es n v (ok true, h) there (none_there, _, _) rest = absurd (omega arith)
    IsQuiet-step e es n v (ok false, h) there (_, same) rest =
        carry (ensure_each exec es n h) (rest same)
      where
        carry : (r : Result Text ℕ × Gateway W) → IsQuiet n h.world r → IsQuiet n v r
        carry (ok m, k) (e', same') = (e', λ j. same' j ∙ same j)
        carry (err m, k) no_way = no_way
    IsQuiet-step e es n v (err m, h) there (none_there, _) rest = absurd (omega arith)

    -- A pass over rules that are all there.
    pub ensure_each-IsQuiet :
        (es : List IpRule) (n : ℕ) (g : Gateway W)
        → IsReady g
        → AllPresent es g.world
        → IsQuiet n g.world (ensure_each exec es n g)
    unfolding ensure_each
    ensure_each-IsQuiet [] n g ready _ = (refl, λ j. refl)
    ensure_each-IsQuiet (e ∷ es) n g ready (there, all_there) =
        let next = ensure_rule-IsReady exec count e true g ready in
        let p = ensure_rule exec e true g in
        IsQuiet-step e es n g.world p there (ensure_rule_lem exec count fw e true g ready) (λ same.
          ensure_each-IsQuiet es n p.1 next (
            All-imp (λ j. 1 ≤ count g.world j) (λ j. 1 ≤ count p.1.world j) es
              (λ j h. omega (arith, same j)) all_there))
