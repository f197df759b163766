-- ===== src/Host/Router/Extra.antt =====
-- Rules that are there once and were not before, and their removal by removeRule of
-- nodejs/utils/net_router.js.
use jump_host.Base.{
  ℕ, ◌≤◌, ◌≡◌, refl, sym, ◌∙◌, ◌≢◌, ◌⊎◌, inl, inr, Option, none, some, List, [], ◌∷◌, arith, nat_eq,
  text_eq, Result, ok, err, In, All, Text,
}
use jump_host.Host.Shell.{Exec, Gateway}
use jump_host.Host.Router.{IpRule, remove_rule}
use jump_host.Host.Router.Firewall.{Firewall, OnlyRule, IsReady}
use jump_host.Host.Router.Settled.{AllPresent, Within}
use jump_host.Host.Router.Removal.{Removes, remove_rule-Removes}

module _ {W : Type 0} (exec : Exec W) (count : W → IpRule → ℕ) (fw : Firewall exec count) where
  removed_one :
      (e : IpRule) (v : W) (cache : Option (List Text)) (r : Result Text (Option ℕ) × Gateway W)
      → Removes exec count fw e 0 v cache r
      → count v e ≡ 1
      → (h : Gateway W) × (r ≡ (ok (some 1), h))
        × (count h.world e ≡ 0)
        × OnlyRule count e v h.world
        × (h.tool_cache ≡ cache)
  removed_one e v cache (ok (some m), h) (total, inl none_left, only, same) one =
      let m_one : m ≡ 1 = omega arith in (h, rw m_one refl, none_left, only, same)
  removed_one e v cache (ok (some m), h) (total, inr many, only, same) one = absurd (omega arith)
  removed_one e v cache (ok none, h) no_way one = absurd no_way
  removed_one e v cache (err m, h) no_way one = absurd no_way

  -- The rule is there once after a pass over rules that were not there.
  once :
      (es : List IpRule) (v w : W) (e : IpRule)
      → Within count es v w
      → count v e ≡ 0
      → 1 ≤ count w e
      → count w e ≡ 1
  once es v w e within none_there there = elim (within e) [
    | inl same ↦ absurd (omega arith)
    | inr (m, z, one) ↦ one
  ]

  -- What a rule other than `e` has kept, and what `e` has.
  drop_rule :
      (e : IpRule) (es : List IpRule) (v u w : W)
      → count v e ≡ 0
      → count w e ≡ 0
      → OnlyRule count e u w
      → ((j : IpRule) → (count u j ≡ count v j) ⊎ In j (e ∷ es))
      → (j : IpRule) → (count w j ≡ count v j) ⊎ In j es
  drop_rule e es v u w none_before none_after only others j = elim (only j) [
    | inl is_e ↦ inl (rw is_e (none_after ∙ sym none_before))
    | inr kept ↦ elim (others j) [
      | inl same ↦ inl (kept ∙ same)
      | inr (inl is_e) ↦ inl (rw is_e (none_after ∙ sym none_before))
      | inr (inr m) ↦ inr m
    ]
  ]

  other_keeps :
      (e f : IpRule) (u w : W) (n : ℕ)
      → e ≢ f
      → OnlyRule count f u w
      → count u e ≡ n
      → count w e ≡ n
  other_keeps e f u w n differs only same = elim (only e) [
    | inl is_f ↦ absurd (differs is_f)
    | inr kept ↦ kept ∙ same
  ]

  -- The rules of the list are there once and were not before, and no other rule differs.
  abbrev pub Extra : List IpRule → W → Gateway W → Type 0
  Extra es v g =
      All (λ e. (count v e ≡ 0) × (count g.world e ≡ 1)) es
      × ((j : IpRule) → (count g.world j ≡ count v j) ⊎ In j es)
      × IsReady g

  Extra-step :
      (e : IpRule) (es : List IpRule) (v : W) (g : Gateway W)
      → All (λ f. f ≢ e) es
      → Extra (e ∷ es) v g
      → (h : Gateway W) × (remove_rule exec e g ≡ (ok (some 1), h)) × Extra es v h
  Extra-step e es v g differ (((none_before, one), ones), others, (ts, cached, there)) =
      let (h, ends, none_after, only, same) =
        removed_one e g.world g.tool_cache (remove_rule exec e g)
          (remove_rule-Removes exec count fw e g (ts, cached, there)) one in
      (
        h,
        ends,
        (
          keep es h.world only differ ones,
          drop_rule e es v g.world h.world none_before none_after only others,
          (ts, same ∙ cached, there),
        ),
      )
    where
      keep :
          (fs : List IpRule) (w : W)
          → OnlyRule count e g.world w
          → All (λ f. f ≢ e) fs
          → All (λ f. (count v f ≡ 0) × (count g.world f ≡ 1)) fs
          → All (λ f. (count v f ≡ 0) × (count w f ≡ 1)) fs
      keep [] w only _ _ = tt
      keep (f ∷ fs) w only (d, ds) ((z, o), os) =
          ((z, other_keeps f e g.world w 1 d only o), keep fs w only ds os)

  pub Extra_of_Within :
      (es fs : List IpRule) (v : W) (g : Gateway W)
      → AllPresent count fs g.world
      → Within count es v g.world
      → All (λ e. count v e ≡ 0) fs
      → All (λ e. (count v e ≡ 0) × (count g.world e ≡ 1)) fs
  Extra_of_Within es [] v g _ within _ = tt
  Extra_of_Within es (f ∷ fs) v g (there, rest) within (clean, cleans) = (
    (clean, once es v g.world f within clean there),
    Extra_of_Within es fs v g rest within cleans,
  )

  pub remove_three :
      (a b c : IpRule) (v : W) (g : Gateway W)
      → b ≢ a
      → c ≢ a
      → c ≢ b
      → Extra (a ∷ b ∷ c ∷ []) v g
      → (h₁ : Gateway W) × (h₂ : Gateway W) × (h₃ : Gateway W) × (remove_rule exec a g
          ≡ (ok (some 1), h₁))
        × (remove_rule exec b h₁ ≡ (ok (some 1), h₂))
        × (remove_rule exec c h₂ ≡ (ok (some 1), h₃))
        × ((j : IpRule) → (count h₃.world j ≡ count v j) ⊎ ⊥)
  remove_three a b c v g b_a c_a c_b extra =
      let (h₁, e₁, extra₁) = Extra-step a (b ∷ c ∷ []) v g (b_a, (c_a, tt)) extra in
      let (h₂, e₂, extra₂) = Extra-step b (c ∷ []) v h₁ (c_b, tt) extra₁ in
      let (h₃, e₃, extra₃) = Extra-step c [] v h₂ tt extra₂ in (h₁, h₂, h₃, e₁, e₂, e₃, extra₃.1)
