-- ===== src/Mesh/Apply/Revocation.antt =====
-- applyPlan of nodejs/services/mesh_state.js, and peers that are no longer in the roster.
use jump_host.Base.{
  ◌≡◌, refl, ◌≢◌, ◌⊎◌, inl, inr, List, [], ◌∷◌, map, Bool-cases, nat_eq, text_eq, Result, ok, err,
  In, Text, text,
}
use jump_host.Host.Shell.{Gateway, Action, return, and_then, try_run, for_each}
use jump_host.Host.Frame.{Keeps, Keeps-bind, Keeps-for_each, ip-Keeps}
use jump_host.Host.Wg.{System, has}
use jump_host.Host.Wg.Shown.{has_iff}
use jump_host.Host.Wg.{ensure_interface, set_private_key, set_addresses}
use jump_host.Host.Peers.{peers_of, list_peers, remove_peer, del_route}
use jump_host.Mesh.Plan.{Plan}
use jump_host.Mesh.Apply.{
  Applied, Setting, Failed, noted_each, drop_unwanted, apply_peers, apply_routing, apply_plan,
  apply_peer,
}
use jump_host.Mesh.Apply.Listing.{PeerLaws, ApartLaws, key_lines}
use jump_host.Mesh.Apply.Frame.{apply_routing-Keeps}

module _ {W : Type 0} (sys : System W) (redis : Applied W) (keys : W → List Text) (s : Setting)
    (laws : PeerLaws sys.exec keys s.iface) (apart : ApartLaws redis keys)
    (wanted : List Text) where
  -- Every peer of the interface is wanted, or is one of some that are still to be looked at.
  abbrev StillSome : List Text → W → Type 0
  StillSome xs w = (x : Text) → In x (keys w) → In x wanted ⊎ In x xs

  StillSome-others :
      (xs : List Text) (cmd : Text) (args : List Text) (w : W)
      → cmd ≢ text "wg"
      → StillSome xs w
      → StillSome xs (sys.exec cmd args w).1
  StillSome-others xs cmd args w differs h = λ x m. h x (rw (laws.others cmd args w differs) at m)

  abbrev removed_args : Text → List Text
  removed_args k = text "set" ∷ s.iface ∷ text "peer" ∷ k ∷ text "remove" ∷ []

  del_route-StillSome :
      (ys : List Text) (cidr : Text) → Keeps (StillSome ys) (del_route sys.exec s.iface cidr)
  del_route-StillSome ys cidr =
      let args = text "route" ∷ text "del" ∷ cidr ∷ text "dev" ∷ s.iface ∷ [] in
      Keeps-bind (StillSome ys) (try_run sys.exec (text "ip") args) (λ _. return tt)
        (ip-Keeps (StillSome ys) sys.exec (StillSome-others ys) args) (λ r g i. i)

  drop_one :
      (y : Text) (ys : List Text) (g : Gateway W)
      → StillSome (y ∷ ys) g.world
      → StillSome ys (drop_unwanted sys redis s.iface wanted y g).1.world
  unfolding remove_peer try_run
  drop_one y ys g h = elim (Bool-cases (has y wanted)) [
    | inl keep ↦ rw keep (λ x m. elim (h x m) [
      | inl w ↦ inl w
      | inr (inl same) ↦ inl (rw same ((has_iff y wanted).0 keep))
      | inr (inr n) ↦ inr n
    ])
    | inr gone ↦ rw gone (
        let v =
          (sys.exec (text "wg") (text "show" ∷ s.iface ∷ text "allowed-ips" ∷ []) g.world).1 in
        let w = (sys.exec (text "wg") (removed_args y) v).1 in
        Keeps-for_each (StillSome ys) (del_route sys.exec s.iface) _ (del_route-StillSome ys)
          (record g { world = w })
          (λ x m.
            let (old, differs) = laws.remove y v x m in
            elim (h x (rw (laws.allowed_keeps g.world) at old)) [
              | inl n ↦ inl n
              | inr (inl same) ↦ absurd (differs same)
              | inr (inr n) ↦ inr n
            ]))
  ]

  abbrev pub OnlyWanted : W → Type 0
  OnlyWanted w = (x : Text) → In x (keys w) → In x wanted

  -- Of a call that returns: only wanted peers are left.
  abbrev pub Leaves : {A : Type 0} → Result Text A × Gateway W → Type 0
  Leaves (ok _, h) = OnlyWanted h.world
  Leaves (err _, h) = Unit

  dropping :
      (ys : List Text) (g : Gateway W)
      → StillSome ys g.world
      → Leaves (for_each (drop_unwanted sys redis s.iface wanted) ys g)
  unfolding for_each
  dropping [] g h = λ x m. elim (h x m) [ inl n ↦ n | inr no_more ↦ absurd no_more ]
  dropping (y ∷ ys) g h =
      by_result (drop_unwanted sys redis s.iface wanted y g) (drop_one y ys g h) (dropping ys)
    where
      by_result :
          (p : Result Text Unit × Gateway W)
          → StillSome ys p.1.world
          → ((i : Gateway W)
              → StillSome ys i.world
              → Leaves (for_each (drop_unwanted sys redis s.iface wanted) ys i))
          → Leaves (and_then p (λ _. for_each (drop_unwanted sys redis s.iface wanted) ys))
      by_result (ok _, i) k rest = rest i k
      by_result (err e, i) k rest = tt

  Leaves-return :
      {A : Type 0} (a : A) (r : Result Text Unit × Gateway W)
      → Leaves r
      → Leaves (and_then r (λ _. return a))
  Leaves-return a (ok _, h) k = k
  Leaves-return a (err e, h) k = tt

  Leaves-bind :
      {A B : Type 0} (p : Result Text A × Gateway W) (f : A → Action W B)
      → ((a : A) (h : Gateway W) → Leaves (f a h))
      → Leaves (and_then p f)
  Leaves-bind (ok a, h) f rest = rest a h
  Leaves-bind (err e, h) f rest = tt

  Leaves-Keeps :
      {A B : Type 0} (p : Result Text A × Gateway W) (f : A → Action W B)
      → Leaves p
      → ((a : A) → Keeps OnlyWanted (f a))
      → Leaves (and_then p f)
  Leaves-Keeps {A} {B} (ok a, h) f first rest = by_result (f a h) (rest a h first)
    where
      by_result : (r : Result Text B × Gateway W) → OnlyWanted r.1.world → Leaves r
      by_result (ok b, i) k = k
      by_result (err e, i) k = tt
  Leaves-Keeps (err e, h) f first rest = tt

  listed :
      (failed : List Failed) (g : Gateway W)
      → Leaves (
          and_then (list_peers sys.exec s.iface g) (λ existing h.
            and_then
              (for_each (drop_unwanted sys redis s.iface wanted) existing h)
              (λ _. return failed)))
  unfolding list_peers try_run
  listed failed g =
      let (out, is_ok, lines) = laws.list g.world in
      let v = (sys.exec (text "wg") (text "show" ∷ s.iface ∷ text "peers" ∷ []) g.world).1 in
      let existing : peers_of sys.exec (ok out) ≡ keys g.world =
        rw lines (key_lines (keys g.world) (laws.keys_solid g.world)) in
      rw (is_ok, existing)
        (Leaves-return failed
          (for_each (drop_unwanted sys redis s.iface wanted) (keys g.world)
            (record g { world = v }))
          (dropping (keys g.world) (record g { world = v })
            (λ x m. inr (rw (laws.list_keeps g.world) at m))))

  others-OnlyWanted :
      (cmd : Text) (args : List Text) (w : W)
      → cmd ≢ text "wg"
      → OnlyWanted w
      → OnlyWanted (sys.exec cmd args w).1
  others-OnlyWanted cmd args w differs h = λ x m. h x (rw (laws.others cmd args w differs) at m)

  peers-Leaves :
      (plan : Plan) (g : Gateway W)
      → wanted ≡ map (λ p. p.public_key) plan.peers
      → Leaves (apply_peers sys redis s plan g)
  unfolding apply_peers
  peers-Leaves plan g e = rw (← e) (
      Leaves-bind (ensure_interface sys s.probe s.polls s.iface g) _ (λ mode g₁.
        Leaves-bind (set_private_key sys s.tmp s.iface s.private_key s.listen_port g₁) _ (λ _ g₂.
          Leaves-bind (set_addresses sys s.iface plan.addresses g₂) _ (λ _ g₃.
            Leaves-bind (noted_each sys redis (apply_peer sys redis s.iface) plan.peers g₃) _
              (λ failed g₄. listed failed g₄)))))

  plan-Leaves :
      (plan : Plan) (g : Gateway W)
      → wanted ≡ map (λ p. p.public_key) plan.peers
      → Leaves (apply_plan sys redis s plan g)
  unfolding apply_plan
  plan-Leaves plan g e =
      Leaves-Keeps (apply_peers sys redis s plan g) (apply_routing sys redis s plan)
        (peers-Leaves plan g e)
        (apply_routing-Keeps OnlyWanted sys redis s others-OnlyWanted
          (λ key w i x k. i x (rw (apart.add_keeps key w) at k))
          (λ key w i x k. i x (rw (apart.rem_keeps key w) at k))
          (λ w i x k. i x (rw (apart.members_keeps w) at k)) plan)

-- With `wg` as documented: when `applyPlan` returns, every peer that is left on the interface is a peer
-- of the plan, whatever failed on the way.
pub apply_plan-OnlyWanted :
    {W : Type 0} (sys : System W) (redis : Applied W) (keys : W → List Text) (s : Setting)
    (plan : Plan) (g : Gateway W) (laws : PeerLaws sys.exec keys s.iface)
    (apart : ApartLaws redis keys)
    → Leaves sys redis keys s laws apart
        (map (λ p. p.public_key) plan.peers)
        (apply_plan sys redis s plan g)
apply_plan-OnlyWanted sys redis keys s plan g laws apart =
    plan-Leaves sys redis keys s laws apart (map (λ p. p.public_key) plan.peers) plan g refl
