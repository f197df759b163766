-- ===== src/Host/Forwarding/Laws.antt =====
-- applyForwarding of nodejs/utils/net_router.js against the list of its rules.
use jump_host.Base.{
  ℕ, ◌≡◌, refl, sym, ap, ◌∙◌, inl, inr, not, some, List, [], ◌∷◌, ◌++◌, map, Bool-cases, ◌==◌,
  nat_eq, text_eq, Result, ok, err, filter, Text,
}
use jump_host.Host.Shell.{Exec, Gateway, return, and_then, and_then_assoc, and_then_cong}
use jump_host.Host.Router.{IpRule, changed, ensure_count, ensure_each}
use jump_host.Host.Router.Firewall.{Firewall, IsReady, have_iptables-IsReady}
use jump_host.Host.Router.Settled.{
  Settles, IsQuiet, Converges, Converges-Settles, ensure_each-Settles, ensure_each-IsQuiet,
}
use jump_host.Host.Forwarding.{
  masquerade, forward, established, forward_others, forward_tunnels, apply_forwarding, forward_on,
}

abbrev others_of : Text → List Text → List Text
others_of tun tunnels = filter (λ other. not (other == tun)) tunnels

tunnel_rules : Text → List Text → List Text → List IpRule
tunnel_rules wan tunnels [] = []
tunnel_rules wan tunnels (tun ∷ rest) =
    forward tun wan
    ∷ established wan tun
    ∷ (map (forward tun) (others_of tun tunnels) ++ tunnel_rules wan tunnels rest)

-- The rules that an uplink and its tunnels need.
unfoldable pub forward_rules : Text → List Text → List IpRule
unfolding tunnel_rules
forward_rules wan tunnels = masquerade wan ∷ tunnel_rules wan tunnels tunnels

module _ {W : Type 0} (exec : Exec W) where
  ensure_each-append :
      (xs ys : List IpRule) (n : ℕ) (g : Gateway W)
      → ensure_each exec (xs ++ ys) n g ≡ and_then (ensure_each exec xs n g) (ensure_each exec ys)
  unfolding ensure_each
  ensure_each-append [] ys n g = refl
  ensure_each-append (x ∷ xs) ys n g =
      and_then_cong (ensure_count exec x n g) _ _ (λ m h. ensure_each-append xs ys m h)
      ∙ sym (and_then_assoc (ensure_count exec x n g) (ensure_each exec xs) (ensure_each exec ys))

  forward_others-eq :
      (tun : Text) (others : List Text) (n : ℕ) (g : Gateway W)
      → forward_others exec tun others n g
        ≡ ensure_each exec (map (forward tun) (others_of tun others)) n g
  unfolding forward_others ensure_each filter
  forward_others-eq tun [] n g = refl
  forward_others-eq tun (other ∷ rest) n g = elim (Bool-cases (other == tun)) [
    | inl same ↦ rw same (forward_others-eq tun rest n g)
    | inr differs ↦ rw differs (
        and_then_cong (ensure_count exec (forward tun other) n g) _ _
          (λ m h. forward_others-eq tun rest m h))
  ]

  forward_tunnels-eq :
      (wan : Text) (tunnels rest : List Text) (n : ℕ) (g : Gateway W)
      → forward_tunnels exec wan tunnels rest n g
        ≡ ensure_each exec (tunnel_rules wan tunnels rest) n g
  unfolding forward_tunnels tunnel_rules ensure_each
  forward_tunnels-eq wan tunnels [] n g = refl
  forward_tunnels-eq wan tunnels (tun ∷ rest) n g =
      and_then_cong (ensure_count exec (forward tun wan) n g) _ _ (λ m h.
        and_then_cong (ensure_count exec (established wan tun) m h) _ _ (λ i k.
          and_then_cong (forward_others exec tun tunnels i k) _ _
            (λ j l. forward_tunnels-eq wan tunnels rest j l)
          ∙ ap (λ r. and_then r (ensure_each exec (tunnel_rules wan tunnels rest)))
              (forward_others-eq tun tunnels i k)
          ∙ sym (
              ensure_each-append (map (forward tun) (others_of tun tunnels))
                (tunnel_rules wan tunnels rest) i k)))

  forward_on-eq :
      (wan : Text) (tunnels : List Text) (g : Gateway W)
      → forward_on exec wan tunnels g
        ≡ and_then (ensure_each exec (forward_rules wan tunnels) 0 g) (λ n. return (changed n))
  unfolding forward_on forward_rules ensure_each
  forward_on-eq wan tunnels g =
      and_then_cong (ensure_count exec (masquerade wan) 0 g) _ _ (λ n h.
        ap (λ r. and_then r (λ m. return (changed m))) (forward_tunnels-eq wan tunnels tunnels n h))
      ∙ sym (and_then_assoc (ensure_count exec (masquerade wan) 0 g) _ _)

  module _ (count : W → IpRule → ℕ) (fw : Firewall exec count) where
    Settles-changed :
        (es : List IpRule) (v : W) (r : Result Text ℕ × Gateway W)
        → Settles count es v r
        → Settles count es v (and_then r (λ n. return (changed n)))
    Settles-changed es v (ok n, h) s = s
    Settles-changed es v (err e, h) s = s

    IsQuiet-changed :
        (v : W) (r : Result Text ℕ × Gateway W)
        → IsQuiet count 0 v r
        → IsQuiet count (changed 0) v (and_then r (λ n. return (changed n)))
    IsQuiet-changed v (ok n, h) (e, same) = (ap changed e, same)
    IsQuiet-changed v (err e, h) no_way = no_way

    forwarding-eq :
        (c : ℕ) (s : Text) (tunnels : List Text) (g : Gateway W)
        → IsReady g
        → apply_forwarding exec (some (c ∷ s)) tunnels g
          ≡ and_then
              (ensure_each exec (forward_rules (c ∷ s) tunnels) 0 g)
              (λ n. return (changed n))
    unfolding apply_forwarding
    forwarding-eq c s tunnels g ready =
        rw (have_iptables-IsReady exec count g ready) (forward_on-eq (c ∷ s) tunnels g)

    -- With iptables and an uplink, a pass that returns leaves every rule of `forward_rules` there: the
    -- missing ones were added once each, no other rule changed, and a second pass returns that it
    -- changed nothing and changes no rule. A pass that throws has added some of them and changed
    -- nothing else.
    pub apply_forwarding-Converges :
        (c : ℕ) (s : Text) (tunnels : List Text) (g : Gateway W)
        → IsReady g
        → Converges count
            (forward_rules (c ∷ s) tunnels)
            (apply_forwarding exec (some (c ∷ s)) tunnels)
            g.world
            (apply_forwarding exec (some (c ∷ s)) tunnels g)
    apply_forwarding-Converges c s tunnels g ready =
        let rules = forward_rules (c ∷ s) tunnels in
        Converges-Settles count rules (apply_forwarding exec (some (c ∷ s)) tunnels) g.world _
          (λ h ready' all_there. rw (forwarding-eq c s tunnels h ready') (
            IsQuiet-changed h.world _
              (ensure_each-IsQuiet count exec fw rules 0 h ready' all_there)))
          (rw (forwarding-eq c s tunnels g ready)
            (Settles-changed rules g.world _ (ensure_each-Settles count exec fw rules 0 g ready)))
