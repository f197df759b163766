-- ===== src/Mesh/Apply/Frame.antt =====
-- What the second half of applyPlan, routes, forwarding and NAT, leaves alone (nodejs/services/mesh_state.js).
use jump_host.Base.{◌≢◌, Option, List, [], ◌∷◌, ◌++◌, map, nat_eq, text_eq, Text, text}
use jump_host.Host.Shell.{Action, return, ◌>>=◌, for_each}
use jump_host.Host.Frame.{Keeps, Keeps-bind, Keeps-catch, Keeps-if, Keeps-for_each}
use jump_host.Host.Frame.Passes.{
  ensure_route-Keeps, detect_wan_interface-Keeps, apply_sysctls-Keeps, apply_forwarding-Keeps,
  apply_netmap-Keeps, remove_netmap-Keeps,
}
use jump_host.Host.Wg.{System, has}
use jump_host.Host.Netmap.{apply_netmap, remove_netmap}
use jump_host.Host.Forwarding.{apply_forwarding}
use jump_host.Host.Uplink.{detect_wan_interface, apply_sysctls}
use jump_host.Host.Wg.{ensure_route}
use jump_host.Mesh.Plan.{Netmap, Route, Plan}
use jump_host.Mesh.Apply.{
  Applied, Setting, Failed, netmap_key, noting, noted_each, touch, apply_map, drop_stale,
  list_applied, mesh_route, apply_routing, truthy_names, part,
}

module _ {W : Type 0} (P : W → Type 0) (sys : System W) (redis : Applied W) (s : Setting)
    (others : (cmd : Text) (args : List Text) (w : W)
      → cmd ≢ text "wg"
      → P w
      → P (sys.exec cmd args w).1)
    (adds : (key : Text) (w : W) → P w → P (redis.s_add key w))
    (rems : (key : Text) (w : W) → P w → P (redis.s_rem key w))
    (reads : (w : W) → P w → P (redis.s_members w).1) where
  noting-Keeps :
      (label : Text) (act : Action W Unit) → Keeps P act → Keeps P (noting sys redis label act)
  noting-Keeps label act h =
      Keeps-catch P (act >>= λ _. return []) _ (Keeps-bind P act (λ _. return []) h (λ _ g i. i))
        (λ e g i. i)

  noted_each-Keeps :
      {A : Type 0} (body : A → Action W (List Failed)) (xs : List A)
      → ((a : A) → Keeps P (body a))
      → Keeps P (noted_each sys redis body xs)
  unfolding noted_each
  noted_each-Keeps body [] each = λ g i. i
  noted_each-Keeps body (x ∷ xs) each = Keeps-bind P (body x) _ (each x) (λ here.
      Keeps-bind P (noted_each sys redis body xs) (λ later. return (here ++ later))
        (noted_each-Keeps body xs each) (λ later g i. i))

  apply_map-Keeps : (m : Netmap) → Keeps P (apply_map sys redis s.iface m)
  apply_map-Keeps m = noting-Keeps _ _ (
      Keeps-bind P (apply_netmap sys.exec s.iface m.shadow m.physical)
        (λ _. touch sys redis (redis.s_add (netmap_key m.shadow m.physical)))
        (apply_netmap-Keeps P sys.exec others s.iface m.shadow m.physical)
        (λ _ g i. adds _ g.world i))

  drop_stale-Keeps :
      (kept : List Text) (applied : Text) → Keeps P (drop_stale sys redis s.iface kept applied)
  drop_stale-Keeps kept applied =
      let shadow = part 0 applied in
      let physical = part 1 applied in
      Keeps-if P (has applied kept) (return []) _ (λ g i. i)
        (noting-Keeps _ _ (
          Keeps-bind P (remove_netmap sys.exec s.iface shadow physical)
            (λ _. touch sys redis (redis.s_rem (netmap_key shadow physical)))
            (remove_netmap-Keeps P sys.exec others s.iface shadow physical)
            (λ _ g i. rems _ g.world i)))

  mesh_route-Keeps : (r : Route) → Keeps P (mesh_route sys redis r)
  mesh_route-Keeps r =
      Keeps-bind P (ensure_route sys r.cidr r.dev) (λ _. return tt)
        (ensure_route-Keeps P sys others r.cidr r.dev) (λ _ g i. i)

  forwarding-Keeps :
      (wan : Option Text)
      → Keeps P (
          noting sys redis
            (text "forwarding/NAT")
            (apply_forwarding sys.exec wan (s.iface ∷ []) >>= λ _. return tt))
  forwarding-Keeps wan = noting-Keeps _ _ (
      Keeps-bind P (apply_forwarding sys.exec wan (s.iface ∷ [])) (λ _. return tt)
        (apply_forwarding-Keeps P sys.exec others wan (s.iface ∷ [])) (λ _ g i. i))

  pub apply_routing-Keeps :
      (plan : Plan) (failed : List Failed) → Keeps P (apply_routing sys redis s plan failed)
  unfolding apply_routing
  apply_routing-Keeps plan failed =
      let kept = map (λ m. netmap_key m.shadow m.physical) plan.netmaps in
      Keeps-bind P (for_each (mesh_route sys redis) plan.routes) _
        (Keeps-for_each P (mesh_route sys redis) plan.routes mesh_route-Keeps)
        (λ _.
          Keeps-bind P (detect_wan_interface sys.exec) _
            (detect_wan_interface-Keeps P sys.exec others)
            (λ wan.
              Keeps-bind P (apply_sysctls sys.exec (truthy_names s.iface wan)) _
                (apply_sysctls-Keeps P sys.exec others (truthy_names s.iface wan))
                (λ _.
                  Keeps-bind P
                    (noting sys redis (text "forwarding/NAT")
                      (apply_forwarding sys.exec wan (s.iface ∷ []) >>= λ _. return tt))
                    _ (forwarding-Keeps wan)
                    (λ forwarding.
                      Keeps-bind P (noted_each sys redis (apply_map sys redis s.iface) plan.netmaps)
                        _
                        (noted_each-Keeps (apply_map sys redis s.iface) plan.netmaps
                          apply_map-Keeps)
                        (λ maps.
                          Keeps-bind P (list_applied sys redis) _ (λ g i. reads g.world i)
                            (λ applied.
                              Keeps-bind P
                                (noted_each sys redis (drop_stale sys redis s.iface kept) applied) _
                                (noted_each-Keeps (drop_stale sys redis s.iface kept) applied
                                  (drop_stale-Keeps kept))
                                (λ stale g i. i)))))))
