-- ===== src/Host/Frame/Passes.antt =====
-- What the passes of nodejs/utils/net_router.js and the routes of nodejs/utils/wg_iface.js leave alone.
use jump_host.Base.{
  ℕ, ◌≢◌, Bool, true, false, not, ◌&&◌, Option, none, some, List, [], ◌∷◌, ◌==◌, nat_eq, text_eq,
  ok, err, Text, text,
}
use jump_host.Host.Shell.{
  Exec, Reply, Action, return, try_run, throw_if, refused, succeeded, output,
}
use jump_host.Host.Router.{have_iptables, ensure_count, remove_rule, is_blank}
use jump_host.Host.Forwarding.{
  masquerade, forward, established, forward_others, forward_tunnels, forward_on, on_wan,
  apply_forwarding,
}
use jump_host.Host.Netmap.{
  inbound, outbound, masquerade_lan, any_empty, with_local, claim_local, netmap_on, unless_empty,
  apply_netmap, netmap_off, remove_netmap,
}
use jump_host.Host.Uplink.{
  write_setting, apply_settings, settings, apply_sysctls, detect_wan_interface,
}
use jump_host.Host.Wg.{System, ensure_route, add_route}
use jump_host.Host.Frame.{
  Keeps, Keeps-bind, Keeps-if, throw_if-Keeps, try_run-Keeps, ip-Keeps, sh_wg,
}
use jump_host.Host.Frame.Rules.{
  have_iptables-Keeps, with_iptables-Keeps, ensure_count-Keeps, remove_rule-Keeps,
}

module _ {W : Type 0} (I : W → Type 0) (exec : Exec W)
    (others : (cmd : Text) (args : List Text) (w : W)
      → cmd ≢ text "wg"
      → I w
      → I (exec cmd args w).1) where
  forward_others-Keeps :
      (tun : Text) (others_left : List Text) (n : ℕ)
      → Keeps I (forward_others exec tun others_left n)
  unfolding forward_others
  forward_others-Keeps tun [] n = λ g i. i
  forward_others-Keeps tun (other ∷ rest) n =
      Keeps-if I (other == tun) _ _ (forward_others-Keeps tun rest n) (
        Keeps-bind I (ensure_count exec (forward tun other) n) _
          (ensure_count-Keeps I exec others (forward tun other) n) (forward_others-Keeps tun rest))

  forward_tunnels-Keeps :
      (wan : Text) (tunnels rest : List Text) (n : ℕ)
      → Keeps I (forward_tunnels exec wan tunnels rest n)
  unfolding forward_tunnels
  forward_tunnels-Keeps wan tunnels [] n = λ g i. i
  forward_tunnels-Keeps wan tunnels (tun ∷ rest) n =
      Keeps-bind I (ensure_count exec (forward tun wan) n) _
        (ensure_count-Keeps I exec others (forward tun wan) n)
        (λ m.
          Keeps-bind I (ensure_count exec (established wan tun) m) _
            (ensure_count-Keeps I exec others (established wan tun) m)
            (λ k.
              Keeps-bind I (forward_others exec tun tunnels k) _
                (forward_others-Keeps tun tunnels k) (forward_tunnels-Keeps wan tunnels rest)))

  on_wan-Keeps : (wan : Option Text) (tunnels : List Text) → Keeps I (on_wan exec wan tunnels)
  unfolding forward_on
  on_wan-Keeps none tunnels = λ g i. i
  on_wan-Keeps (some []) tunnels = λ g i. i
  on_wan-Keeps (some (c ∷ s)) tunnels =
      Keeps-bind I (ensure_count exec (masquerade (c ∷ s)) 0) _
        (ensure_count-Keeps I exec others (masquerade (c ∷ s)) 0)
        (λ n.
          Keeps-bind I (forward_tunnels exec (c ∷ s) tunnels tunnels n) _
            (forward_tunnels-Keeps (c ∷ s) tunnels tunnels n) (λ m g i. i))

  pub apply_forwarding-Keeps :
      (wan : Option Text) (tunnels : List Text) → Keeps I (apply_forwarding exec wan tunnels)
  unfolding apply_forwarding
  apply_forwarding-Keeps wan tunnels =
      Keeps-bind I (have_iptables exec) _ (have_iptables-Keeps I exec others)
        (λ have. with_iptables-Keeps I exec others _ _ have (on_wan-Keeps wan tunnels))

  with_local-Keeps : (shadow : Text) (m : ℕ) (here : Bool) → Keeps I (with_local exec shadow m here)
  with_local-Keeps shadow m true = λ g i. i
  with_local-Keeps shadow m false =
      Keeps-bind I (try_run exec (text "ip") _) _ (ip-Keeps I exec others _) (λ r g i. i)

  claim_local-Keeps : (shadow : Text) (m : ℕ) → Keeps I (claim_local exec shadow m)
  unfolding claim_local
  claim_local-Keeps shadow m =
      Keeps-bind I (try_run exec (text "ip") _) _ (ip-Keeps I exec others _)
        (λ r. with_local-Keeps shadow m _)

  unless_empty-Keeps :
      {A : Type 0} (b : Bool) (a : A) (act : Action W A)
      → Keeps I act
      → Keeps I (unless_empty exec b a act)
  unless_empty-Keeps true a act h = λ g i. i
  unless_empty-Keeps false a act h = h

  pub apply_netmap-Keeps :
      (wg shadow physical : Text) → Keeps I (apply_netmap exec wg shadow physical)
  unfolding apply_netmap netmap_on
  apply_netmap-Keeps wg shadow physical =
      Keeps-bind I (have_iptables exec) _ (have_iptables-Keeps I exec others) (λ have.
        with_iptables-Keeps I exec others _ _ have (
          unless_empty-Keeps (any_empty wg shadow physical) _ _ (
            Keeps-bind I (ensure_count exec (inbound wg shadow physical) 0) _
              (ensure_count-Keeps I exec others (inbound wg shadow physical) 0)
              (λ n.
                Keeps-bind I (ensure_count exec (outbound wg shadow physical) n) _
                  (ensure_count-Keeps I exec others (outbound wg shadow physical) n)
                  (λ m.
                    Keeps-bind I (claim_local exec shadow m) _ (claim_local-Keeps shadow m) (λ k.
                      Keeps-bind I (ensure_count exec (masquerade_lan wg physical) k) _
                        (ensure_count-Keeps I exec others (masquerade_lan wg physical) k)
                        (λ p g i. i)))))))

  pub remove_netmap-Keeps :
      (wg shadow physical : Text) → Keeps I (remove_netmap exec wg shadow physical)
  unfolding remove_netmap netmap_off
  remove_netmap-Keeps wg shadow physical = unless_empty-Keeps (any_empty wg shadow physical) _ _ (
      Keeps-bind I (remove_rule exec (inbound wg shadow physical)) _
        (remove_rule-Keeps I exec others (inbound wg shadow physical))
        (λ a.
          Keeps-bind I (remove_rule exec (outbound wg shadow physical)) _
            (remove_rule-Keeps I exec others (outbound wg shadow physical))
            (λ b.
              Keeps-bind I (remove_rule exec (masquerade_lan wg physical)) _
                (remove_rule-Keeps I exec others (masquerade_lan wg physical))
                (λ c.
                  Keeps-bind I (try_run exec (text "ip") _) _ (ip-Keeps I exec others _)
                    (λ r g i. i)))))

  write_setting-Keeps : (key v : Text) (r : Reply) → Keeps I (write_setting exec key v r)
  write_setting-Keeps key v (ok out) = λ g i. i
  write_setting-Keeps key v (err f) =
      Keeps-if I f.missing _ _ (try_run-Keeps I exec others (text "sh") _ sh_wg) (λ g i. i)

  apply_settings-Keeps : (xs : List (Text × Text)) → Keeps I (apply_settings exec xs)
  unfolding apply_settings
  apply_settings-Keeps [] = λ g i. i
  apply_settings-Keeps ((key, v) ∷ rest) =
      Keeps-bind I (try_run exec (text "sysctl") _) _
        (try_run-Keeps I exec others (text "sysctl") _ (λ e. cc))
        (λ r. Keeps-bind I (write_setting exec key v r) _ (write_setting-Keeps key v r) (λ res.
          Keeps-bind I (apply_settings exec rest) _ (apply_settings-Keeps rest) (λ applied g i. i)))

  pub apply_sysctls-Keeps : (interfaces : List Text) → Keeps I (apply_sysctls exec interfaces)
  unfolding apply_sysctls
  apply_sysctls-Keeps interfaces = apply_settings-Keeps (settings interfaces)

  pub detect_wan_interface-Keeps : Keeps I (detect_wan_interface exec)
  unfolding detect_wan_interface
  detect_wan_interface-Keeps =
      Keeps-bind I (try_run exec (text "ip") _) _ (ip-Keeps I exec others _) (λ r g i. i)

module _ {W : Type 0} (I : W → Type 0) where
  pub ensure_route-Keeps :
      (sys : System W)
      → ((cmd : Text) (args : List Text) (w : W)
          → cmd ≢ text "wg"
          → I w
          → I (sys.exec cmd args w).1)
      → (cidr dev : Text) → Keeps I (ensure_route sys cidr dev)
  unfolding ensure_route
  ensure_route-Keeps sys others cidr dev =
      Keeps-bind I (try_run sys.exec (text "ip") _) _ (ip-Keeps I sys.exec others _)
        (λ r. unless_there (succeeded r && not (is_blank (output r))))
    where
      unless_there :
          (b : Bool) → Keeps I (elim b [ true ↦ return false | false ↦ add_route sys cidr dev ])
      unless_there true = λ g i. i
      unless_there false =
          Keeps-bind I (try_run sys.exec (text "ip") _) _ (ip-Keeps I sys.exec others _) (λ r.
            Keeps-bind I (throw_if (refused r) _) _ (throw_if-Keeps I (refused r) _) (λ _ g i. i))
