-- ===== src/Mesh/Apply.antt =====
-- applyPlan of nodejs/services/mesh_state.js: a plan, made real on the host.
pub mod Listing
pub mod Frame
pub mod Revocation
mod Examples
use jump_host.Base.{
  ℕ, zero, suc, ◌+◌, ◌-◌, ◌*◌, ◌/◌, ◌%◌, ◌^◌, ◌≤◌, ◌<◌, min, pred, ◌≡◌, refl, sym, ap, ap₂, ◌∙◌,
  subst, ◌≡⟨◌⟩◌, ◌∎, ◌≢◌, ◌↔◌, ◌⊎◌, inl, inr, Bool, true, false, not, ◌&&◌, ◌||◌, Option, none,
  some, List, [], ◌∷◌, ◌++◌, map, reverse, append-nil, append_assoc, map-append, arith, ltb, leb,
  if◌then◌else◌, ltb→lt, lt→ltb, leb→le, le→leb, tests, Bool-cases, Option-cases, Eq, ◌==◌, eq_iff,
  eq_refl, eq_of_ne, nat_eq, text_eq, text_beq, Result, ok, err, require, Result-cases, length,
  length-append, get_elem?, take, drop, length-take, take-append, drop-append, all, any, find,
  filter, In, All, All-In, All-from_members, In-append, Text, text, is_digit, is_lower, is_upper,
  split, join, Lacks, split_of_Lacks, split-append, split-Lacks, join-split, starts_with, index_of,
  starts_with_iff, split-join, all_iff, any_iff, find-eq-some, find-eq-none, In-filter,
  length-filter-le, All-imp, All-append, drop-nil, drop-add, take-append-drop,
}
use jump_host.Base.Int.{ℤ, sub_ℕ}
use jump_host.Host.Shell.{
  Exec, Gateway, Action, return, throw, and_then, or_catch, ◌>>=◌, ◌>>◌, catch, for_each,
}
use jump_host.Host.Router.{Outcome}
use jump_host.Host.Forwarding.{apply_forwarding}
use jump_host.Host.Netmap.{apply_netmap, remove_netmap, is_empty}
use jump_host.Host.Uplink.{detect_wan_interface, apply_sysctls}
use jump_host.Host.Wg.{System, has, ensure_interface, set_private_key, set_addresses, ensure_route}
use jump_host.Host.Peers.{PeerConf, list_peers, set_peer, remove_peer}
use jump_host.Mesh.Plan.{Peer, Route, Netmap, Plan}

-- The Redis set of the NETMAPs that were applied. Adding and removing is not awaited, and a failure
-- there is dropped.
pub record Applied (W : Type 0) : Type 0 where
  pub s_add : Text → W → W
  pub s_rem : Text → W → W
  pub s_members : W → Result Text (List Text) × W

-- What a pass is given besides the plan: the interface and its port, the gateway's private key, a
-- name for the file that the key goes by, a name to probe the kernel with, and the polls for an
-- interface to come up.
pub record Setting : Type 0 where
  pub iface : Text
  pub listen_port : ℕ
  pub private_key : Text
  pub tmp : Text
  pub probe : Text
  pub polls : ℕ

pub record Failed : Type 0 where
  pub label : Text
  pub error : Text

pub record Report : Type 0 where
  pub peers : ℤ
  pub failed : List Failed
  pub wan : Option Text

abbrev pub conf_of : Peer → PeerConf
conf_of p = record {
  public_key = p.public_key;
  endpoint = p.endpoint;
  allowed_ips = p.allowed_ips;
  keepalive = p.keepalive;
}

abbrev pub netmap_key : Text → Text → Text
netmap_key shadow physical = shadow ++ b'|' ∷ physical

-- `applied.split('|')`, where a part that is not there is `undefined`, which is falsy.
abbrev pub part : ℕ → Text → Text
part i applied = elim (get_elem? (split b'|' applied) i) [ none ↦ [] | some s ↦ s ]

abbrev pub truthy_names : Text → Option Text → List Text
truthy_names iface wan =
    filter (λ s. not (is_empty s)) (iface ∷ (elim wan [ none ↦ [] | some w ↦ w ∷ [] ]))

module _ {W : Type 0} (sys : System W) (redis : Applied W) where
  open sys use {exec}

  -- The body of a loop that notes a failure under a label, and goes on.
  abbrev pub noting : Text → Action W Unit → Action W (List Failed)
  noting label act =
      catch (do act; return []) (λ e. return (record { label = label; error = e } ∷ []))

  unfoldable pub noted_each :
      {A : Type 0} → (A → Action W (List Failed)) → List A → Action W (List Failed)
  noted_each body [] = return []
  noted_each body (a ∷ rest) = do
    here ← body a
    later ← noted_each body rest
    return (here ++ later)

  abbrev pub apply_peer : Text → Peer → Action W (List Failed)
  apply_peer iface p = noting p.label (set_peer exec iface (conf_of p))

  abbrev pub drop_unwanted : Text → List Text → Text → Action W Unit
  drop_unwanted iface wanted key = if has key wanted then return tt else remove_peer exec iface key

  abbrev pub touch : (W → W) → Action W Unit
  touch f g = (ok tt, record g { world = f g.world })

  abbrev pub apply_map : Text → Netmap → Action W (List Failed)
  apply_map iface m = noting (text "netmap " ++ m.shadow) (do
    apply_netmap exec iface m.shadow m.physical
    touch (redis.s_add (netmap_key m.shadow m.physical)))

  abbrev pub remove_map : Text → Text → Action W (List Failed)
  remove_map iface applied = noting (text "netmap " ++ part 0 applied) (do
    remove_netmap exec iface (part 0 applied) (part 1 applied)
    touch (redis.s_rem (netmap_key (part 0 applied) (part 1 applied))))

  abbrev pub drop_stale : Text → List Text → Text → Action W (List Failed)
  drop_stale iface wanted applied =
      if has applied wanted then return [] else remove_map iface applied

  abbrev pub list_applied : Action W (List Text)
  list_applied g = let (r, w) = redis.s_members g.world in (r, record g { world = w })

  -- The interface and its peers.
  unfoldable pub apply_peers : Setting → Plan → Action W (List Failed)
  apply_peers s plan = do
    ensure_interface sys s.probe s.polls s.iface
    set_private_key sys s.tmp s.iface s.private_key s.listen_port
    set_addresses sys s.iface plan.addresses
    failed ← noted_each (apply_peer s.iface) plan.peers
    existing ← list_peers exec s.iface
    for_each (drop_unwanted s.iface (map (λ p. p.public_key) plan.peers)) existing
    return failed

  abbrev pub mesh_route : Route → Action W Unit
  mesh_route r = do ensure_route sys r.cidr r.dev; return tt

  -- Routes, forwarding and NETMAPs.
  unfoldable pub apply_routing : Setting → Plan → List Failed → Action W Report
  apply_routing s plan failed = do
    for_each mesh_route plan.routes
    wan ← detect_wan_interface exec
    apply_sysctls exec (truthy_names s.iface wan)
    forwarding ←
        noting (text "forwarding/NAT") (do apply_forwarding exec wan (s.iface ∷ []); return tt)
    maps ← noted_each (apply_map s.iface) plan.netmaps
    applied ← list_applied
    stale ←
        noted_each (drop_stale s.iface (map (λ m. netmap_key m.shadow m.physical) plan.netmaps))
          applied
    return (
        let all_failed = failed ++ (forwarding ++ (maps ++ stale)) in
        record {
          peers = sub_ℕ (length plan.peers) (length all_failed);
          failed = all_failed;
          wan = wan;
        })

  unfoldable pub apply_plan : Setting → Plan → Action W Report
  apply_plan s plan = do failed ← apply_peers s plan; apply_routing s plan failed
