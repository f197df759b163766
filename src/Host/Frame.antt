-- ===== src/Host/Frame.antt =====
-- Calls that leave alone what only wg changes: the functions of nodejs/utils/net_router.js and the routes
-- of nodejs/utils/wg_iface.js (Frame.Rules, Frame.Passes) are such calls.
pub mod Rules
pub mod Passes
use jump_host.Base.{
  ℕ, zero, suc, ◌+◌, ◌≡◌, refl, ◌≢◌, Bool, true, false, not, ◌&&◌, Option, none, some, List, [],
  ◌∷◌, arith, ltb, if◌then◌else◌, ◌==◌, eq_iff, nat_eq, text_eq, text_beq, Result, ok, err, All,
  Text, text,
}
use jump_host.Host.Shell.{
  Exec, Reply, Gateway, Action, return, and_then, or_catch, ◌>>=◌, catch, try_run, throw_if,
  refused, for_each, succeeded, output,
}
use jump_host.Host.Router.{
  IpRule, probe_tools, tools, on_cache, remember_tools, missing_tools, have_iptables, iptables,
  with_iptables, check_rule, added, unless_present, ensure_present, ensure_rule, ensure_count,
  after_delete, remove_round, remove_loop, remove_fuel, remove_rule, is_blank,
}
use jump_host.Host.Forwarding.{
  masquerade, forward, established, forward_others, forward_tunnels, forward_on, on_wan,
  apply_forwarding,
}
use jump_host.Host.Netmap.{
  inbound, outbound, masquerade_lan, any_empty, with_local, claim_local, netmap_on, unless_empty,
  apply_netmap, netmap_off, remove_netmap,
}
use jump_host.Host.Uplink.{
  write_setting, apply_settings, settings, apply_sysctls, detect_wan_interface,
}
use jump_host.Host.Wg.{System, ensure_route, add_route}

unequal : (s t : Text) → (s == t) ≡ false → s ≢ t
unequal s t h e = let same = (eq_iff s t).1 e in absurd (ground arith)

ip_wg : text "ip" ≢ text "wg"
unfolding text_beq
ip_wg = unequal (text "ip") (text "wg") refl

pub sh_wg : text "sh" ≢ text "wg"
unfolding text_beq
sh_wg = unequal (text "sh") (text "wg") refl

module _ {W : Type 0} (I : W → Type 0) where
  -- A call after which `I` holds of the host if it did before.
  abbrev pub Keeps : {A : Type 0} → Action W A → Type 0
  Keeps act = (g : Gateway W) → I g.world → I (act g).1.world

  pub Keeps-bind :
      {A B : Type 0} (m : Action W A) (f : A → Action W B)
      → Keeps m
      → ((a : A) → Keeps (f a))
      → Keeps (m >>= f)
  Keeps-bind {A} m f first rest g i = by_result (m g) (first g i)
    where
      by_result : (p : Result Text A × Gateway W) → I p.1.world → I (and_then p f).1.world
      by_result (ok a, h) k = rest a h k
      by_result (err e, h) k = k

  pub Keeps-catch :
      {A : Type 0} (m : Action W A) (f : Text → Action W A)
      → Keeps m
      → ((e : Text) → Keeps (f e))
      → Keeps (catch m f)
  Keeps-catch {A} m f first rest g i = by_result (m g) (first g i)
    where
      by_result : (p : Result Text A × Gateway W) → I p.1.world → I (or_catch p f).1.world
      by_result (ok a, h) k = k
      by_result (err e, h) k = rest e h k

  pub Keeps-if :
      {A : Type 0} (b : Bool) (m k : Action W A) → Keeps m → Keeps k → Keeps (if b then m else k)
  Keeps-if true m k first rest = first
  Keeps-if false m k first rest = rest

  pub Keeps-for_each :
      {A : Type 0} (body : A → Action W Unit) (xs : List A)
      → ((a : A) → Keeps (body a))
      → Keeps (for_each body xs)
  unfolding for_each
  Keeps-for_each body [] each = λ g i. i
  Keeps-for_each body (x ∷ xs) each =
      Keeps-bind (body x) (λ _. for_each body xs) (each x) (λ _. Keeps-for_each body xs each)

  pub throw_if-Keeps : (o : Option Text) (front : Text) → Keeps (throw_if o front)
  throw_if-Keeps none front g i = i
  throw_if-Keeps (some m) front g i = i

  module _ (exec : Exec W)
      (others : (cmd : Text) (args : List Text) (w : W)
        → cmd ≢ text "wg"
        → I w
        → I (exec cmd args w).1) where
    pub try_run-Keeps :
        (cmd : Text) (args : List Text) → cmd ≢ text "wg" → Keeps (try_run exec cmd args)
    unfolding try_run
    try_run-Keeps cmd args differs g i = others cmd args g.world differs i

    pub iptables-Keeps : (option : Text) (e : IpRule) → Keeps (iptables exec option e)
    iptables-Keeps option e = try_run-Keeps (text "iptables") _ (λ e. cc)

    pub ip-Keeps : (args : List Text) → Keeps (try_run exec (text "ip") args)
    ip-Keeps args = try_run-Keeps (text "ip") args ip_wg
