-- ===== src/Host/Netmap/Laws.antt =====
-- applyNetmap and removeNetmap of nodejs/utils/net_router.js, one after the other.
use jump_host.Base.{
  ℕ, ◌≡◌, refl, ap, ◌∙◌, ◌≢◌, ◌⊎◌, inl, inr, Bool, true, false, some, List, [], ◌∷◌, arith, eq_iff,
  nat_eq, text_eq, text_beq, Result, ok, err, All, Text, text,
}
use jump_host.Host.Shell.{Exec, Gateway, Action, and_then, try_run}
use jump_host.Host.Router.{IpRule, Outcome, remove_rule}
use jump_host.Host.Router.Firewall.{Firewall, SameRules, IsReady, have_iptables-IsReady}
use jump_host.Host.Router.Settled.{Within, Settles, Settles-same, Settles-ensure}
use jump_host.Host.Netmap.{
  inbound, outbound, masquerade_lan, any_empty, with_local, claim_local, netmap_on, apply_netmap,
  netmap_off, remove_netmap,
}
use jump_host.Host.Router.Extra.{Extra, Extra_of_Within, remove_three}

abbrev pub netmap_rules : Text → Text → Text → List IpRule
netmap_rules wg shadow physical =
    inbound wg shadow physical ∷ outbound wg shadow physical ∷ masquerade_lan wg physical ∷ []

module _ {W : Type 0} (exec : Exec W) (count : W → IpRule → ℕ) (fw : Firewall exec count) where
  with_local-Settles :
      {A : Type 0} (es : List IpRule) (shadow : Text) (m : ℕ) (here : Bool) (g : Gateway W)
      (f : ℕ → Action W A)
      → IsReady g
      → ((k : ℕ) (h : Gateway W) → IsReady h → Settles count es h.world (f k h))
      → Settles count es g.world (and_then (with_local exec shadow m here g) f)
  unfolding try_run
  with_local-Settles es shadow m true g f ready rest = rest m g ready
  with_local-Settles es shadow m false g f (ts, cached, there) rest =
      let args = text "route" ∷ text "add" ∷ text "local" ∷ shadow ∷ text "dev" ∷ text "lo" ∷ [] in
      Settles-same count es g.world _ _ (fw.others (text "ip") args g.world (λ e. cc))
        (rest _ _ (ts, cached, there))

  claim_local-Settles :
      {A : Type 0} (es : List IpRule) (shadow : Text) (m : ℕ) (g : Gateway W) (f : ℕ → Action W A)
      → IsReady g
      → ((k : ℕ) (h : Gateway W) → IsReady h → Settles count es h.world (f k h))
      → Settles count es g.world (and_then (claim_local exec shadow m g) f)
  unfolding claim_local try_run
  claim_local-Settles es shadow m g f (ts, cached, there) rest =
      let args = text "route" ∷ text "show" ∷ text "table" ∷ text "local" ∷ shadow ∷ [] in
      Settles-same count es g.world _ _ (fw.others (text "ip") args g.world (λ e. cc))
        (with_local-Settles es shadow m _ _ f (ts, cached, there) rest)

  netmap_on-Settles :
      (wg shadow physical : Text) (g : Gateway W)
      → IsReady g
      → Settles count
          (netmap_rules wg shadow physical)
          g.world
          (netmap_on exec wg shadow physical g)
  unfolding netmap_on
  netmap_on-Settles wg shadow physical g ready =
      Settles-ensure count exec fw (inbound wg shadow physical)
        (outbound wg shadow physical ∷ masquerade_lan wg physical ∷ []) 0 g _ ready
        (λ n h ready₁.
          Settles-ensure count exec fw (outbound wg shadow physical)
            (masquerade_lan wg physical ∷ []) n h _ ready₁
            (λ m i ready₂.
              claim_local-Settles (masquerade_lan wg physical ∷ []) shadow m i _ ready₂
                (λ k l ready₃.
                  Settles-ensure count exec fw (masquerade_lan wg physical) [] k l _ ready₃
                    (λ p q ready₄. (tt, λ j. inl refl, ready₄)))))

  -- With iptables there, a call for three texts that are not empty settles the three rules.
  apply_netmap-Settles :
      (wg shadow physical : Text) (g : Gateway W)
      → any_empty wg shadow physical ≡ false
      → IsReady g
      → Settles count
          (netmap_rules wg shadow physical)
          g.world
          (apply_netmap exec wg shadow physical g)
  unfolding apply_netmap
  apply_netmap-Settles wg shadow physical g full ready =
      rw (have_iptables-IsReady exec count g ready, full)
        (netmap_on-Settles wg shadow physical g ready)

  abbrev lo_args : Text → List Text
  lo_args shadow = text "route" ∷ text "del" ∷ text "local" ∷ shadow ∷ text "dev" ∷ text "lo" ∷ []

  netmap_off-eq :
      (wg shadow physical : Text) (g h₁ h₂ h₃ : Gateway W)
      → remove_rule exec (inbound wg shadow physical) g ≡ (ok (some 1), h₁)
      → remove_rule exec (outbound wg shadow physical) h₁ ≡ (ok (some 1), h₂)
      → remove_rule exec (masquerade_lan wg physical) h₂ ≡ (ok (some 1), h₃)
      → netmap_off exec wg shadow physical g
        ≡ (ok (some 3), record h₃ { world = (exec (text "ip") (lo_args shadow) h₃.world).1 })
  unfolding netmap_off try_run
  netmap_off-eq wg shadow physical g h₁ h₂ h₃ e₁ e₂ e₃ = rw (e₁, e₂, e₃) refl

  chains_differ : text "POSTROUTING" ≢ text "PREROUTING"
  chains_differ e = cc

  options_differ : text "-s" ≢ text "-o"
  unfolding text_beq
  options_differ e =
      let same : text_beq (text "-s") (text "-o") ≡ true = (eq_iff (text "-s") (text "-o")).1 e in
      ground arith

  first_word : List Text → Text
  first_word [] = []
  first_word (w ∷ ws) = w

  out_in : (wg shadow physical : Text) → outbound wg shadow physical ≢ inbound wg shadow physical
  out_in wg shadow physical e = chains_differ (ap (λ (x : IpRule). x.chain) e)

  lan_in : (wg shadow physical : Text) → masquerade_lan wg physical ≢ inbound wg shadow physical
  lan_in wg shadow physical e = chains_differ (ap (λ (x : IpRule). x.chain) e)

  lan_out : (wg shadow physical : Text) → masquerade_lan wg physical ≢ outbound wg shadow physical
  unfolding first_word
  lan_out wg shadow physical e = options_differ (ap (λ (x : IpRule). first_word x.spec) e)

  netmap_off-restores :
      (wg shadow physical : Text) (v : W) (g : Gateway W)
      → Extra exec count fw (netmap_rules wg shadow physical) v g
      → (h : Gateway W) × (netmap_off exec wg shadow physical g ≡ (ok (some 3), h))
        × SameRules count v h.world
  netmap_off-restores wg shadow physical v g extra =
      let (h₁, h₂, h₃, e₁, e₂, e₃, others) =
        remove_three exec count fw (inbound wg shadow physical) (outbound wg shadow physical)
          (masquerade_lan wg physical) v g (out_in wg shadow physical) (lan_in wg shadow physical)
          (lan_out wg shadow physical) extra in
      (
        record h₃ { world = (exec (text "ip") (lo_args shadow) h₃.world).1 },
        netmap_off-eq wg shadow physical g h₁ h₂ h₃ e₁ e₂ e₃,
        restored shadow v h₃ others,
      )
    where
      restored :
          (shadow : Text) (v : W) (h : Gateway W)
          → ((j : IpRule) → (count h.world j ≡ count v j) ⊎ ⊥)
          → SameRules count v (exec (text "ip") (lo_args shadow) h.world).1
      restored shadow v h others j =
          fw.others (text "ip") (lo_args shadow) h.world (λ e. cc) j
          ∙ elim (others j) [ inl same ↦ same | inr no_more ↦ absurd no_more ]

  -- What `removeNetmap` does after a call of `applyNetmap` that returned.
  abbrev pub Undone : Text → Text → Text → W → Result Text Outcome × Gateway W → Type 0
  Undone wg shadow physical v (ok _, h) =
      (k : Gateway W) × (remove_netmap exec wg shadow physical h ≡ (ok (some 3), k))
      × SameRules count v k.world
  Undone wg shadow physical v (err _, h) = Within count (netmap_rules wg shadow physical) v h.world

  undo :
      (wg shadow physical : Text) (v : W) (r : Result Text Outcome × Gateway W)
      → any_empty wg shadow physical ≡ false
      → All (λ e. count v e ≡ 0) (netmap_rules wg shadow physical)
      → Settles count (netmap_rules wg shadow physical) v r
      → Undone wg shadow physical v r
  unfolding remove_netmap
  undo wg shadow physical v (ok o, h) full clean (all_there, within, ready) = rw full (
      netmap_off-restores wg shadow physical v h (
        Extra_of_Within exec count fw (netmap_rules wg shadow physical)
            (netmap_rules wg shadow physical) v h all_there within clean,
        (λ j. elim (within j) [ inl same ↦ inl same | inr (m, _, _) ↦ inr m ]),
        ready,
      ))
  undo wg shadow physical v (err m, h) full clean within = within

  -- With iptables there, for three texts that are not empty and a host with none of the three rules:
  -- once `applyNetmap` has returned, `removeNetmap` returns 3 and every rule of the host is as before
  -- both. Where `applyNetmap` throws, it has added some of the three rules and changed no other.
  pub remove_netmap-apply_netmap :
      (wg shadow physical : Text) (g : Gateway W)
      → any_empty wg shadow physical ≡ false
      → IsReady g
      → All (λ e. count g.world e ≡ 0) (netmap_rules wg shadow physical)
      → Undone wg shadow physical g.world (apply_netmap exec wg shadow physical g)
  remove_netmap-apply_netmap wg shadow physical g full ready clean =
      undo wg shadow physical g.world (apply_netmap exec wg shadow physical g) full clean
        (apply_netmap-Settles wg shadow physical g full ready)
