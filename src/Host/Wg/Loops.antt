-- ===== src/Host/Wg/Loops.antt =====
-- The two loops of setAddresses of nodejs/utils/wg_iface.js, against the addresses of a device.
use jump_host.Base.{
  refl, ap, ◌≡◌, ◌≢◌, ◌↔◌, ◌⊎◌, inl, inr, true, false, List, [], ◌∷◌, arith, Bool-cases, nat_eq,
  text_eq, Result, ok, err, In, Text, text, split,
}
use jump_host.Host.Shell.{
  Failure, Exec, Reply, Gateway, Action, and_then, try_run, refused, throw_if, for_each,
}
use jump_host.Directory.Target.{includes}
use jump_host.Host.Wg.{System, has, add_address, del_address, unless}
use jump_host.Host.Wg.Shown.{ShowsLines}

abbrev pub show_args : Text → List Text
show_args name = text "-o" ∷ text "-4" ∷ text "addr" ∷ text "show" ∷ text "dev" ∷ name ∷ []

abbrev pub add_args : Text → Text → List Text
add_args cidr name = text "addr" ∷ text "add" ∷ cidr ∷ text "dev" ∷ name ∷ []

abbrev pub del_args : Text → Text → List Text
del_args cidr name = text "addr" ∷ text "del" ∷ cidr ∷ text "dev" ∷ name ∷ []

abbrev pub up_args : Text → List Text
up_args name = text "link" ∷ text "set" ∷ text "up" ∷ text "dev" ∷ name ∷ []

module _ {W : Type 0} (held : W → List Text) where
  -- What `ip addr add` does: the address is held and no other comes or goes, or it fails and nothing
  -- changes, with "File exists" only for an address that was held.
  abbrev pub AddsAddress : Text → W → Reply × W → Type 0
  AddsAddress cidr v (ok _, w) = (a : Text) → In a (held w) ↔ ((a ≡ cidr) ⊎ In a (held v))
  AddsAddress cidr v (err f, w) =
      (includes f.message (text "File exists") ≡ true → In cidr (held v)) × (held w ≡ held v)

module _ {W : Type 0} (held : W → List Text) (follows : Text → Text → Type 0) where
  -- What `ip addr del` does: the address goes, and no other goes but those that follow it, or it fails
  -- and nothing changes.
  abbrev pub DeletesAddress : Text → W → Reply × W → Type 0
  DeletesAddress cidr v (ok _, w) =
      (In cidr (held w) → ⊥)
      × ((a : Text) → In a (held w) → In a (held v))
      × ((a : Text) → In a (held v) → a ≢ cidr → (follows a cidr → ⊥) → In a (held w))
  DeletesAddress cidr v (err _, w) = held w ≡ held v

-- `ip` for a device that exists and holds the addresses `held w`. An address follows another if it may
-- be secondary to it, in the same subnet: then the kernel may remove the two together.
pub record AddressLaws {W : Type 0} (exec : Exec W) (held : W → List Text)
    (follows : Text → Text → Type 0) (name : Text) : Type 0 where
  pub show :
      (w : W)
      → (out : Text) × ((exec (text "ip") (show_args name) w).0 ≡ ok out)
        × ShowsLines (held w) (split 10 out)
  pub show_keeps : (w : W) → held (exec (text "ip") (show_args name) w).1 ≡ held w
  pub add :
      (cidr : Text) (w : W) → AddsAddress held cidr w (exec (text "ip") (add_args cidr name) w)
  pub del :
      (cidr : Text) (w : W)
      → DeletesAddress held follows cidr w (exec (text "ip") (del_args cidr name) w)
  pub up_keeps : (w : W) → held (exec (text "ip") (up_args name) w).1 ≡ held w

module _ {W : Type 0} (sys : System W) (held : W → List Text) (follows : Text → Text → Type 0)
    (name : Text) (laws : AddressLaws sys.exec held follows name) where
  -- `ip addr del` fails for the address in a state of the host that holds it.
  abbrev pub Refuses : Text → Type 0
  Refuses a =
      (w : W) × (f : Failure) × In a (held w)
      × ((sys.exec (text "ip") (del_args a name) w).0 ≡ err f)

  module _ (present : List Text) where
    -- One address, and the first loop over some.
    abbrev AddedOne : Text → W → Result Text Unit × Gateway W → Type 0
    AddedOne x v (ok _, h) =
        (a : Text) → In a (held h.world) ↔ (In a (held v) ⊎ ((a ≡ x) × (has x present ≡ false)))
    AddedOne x v (err _, h) = held h.world ≡ held v

    abbrev pub Added : List Text → W → Result Text Unit × Gateway W → Type 0
    Added xs v (ok _, h) =
        (a : Text) → In a (held h.world) ↔ (In a (held v) ⊎ (In a xs × (has a present ≡ false)))
    Added xs v (err _, h) = (a : Text) → In a (held v) → In a (held h.world)

    add_address-AddedOne :
        (x front : Text) (g : Gateway W) (p : Reply × W)
        → has x present ≡ false
        → AddsAddress held x g.world p
        → AddedOne x g.world (throw_if {W = W} (refused p.0) front (record g { world = p.1 }))
    add_address-AddedOne x front g (ok out, w) new adds = λ a. (
      λ m. elim ((adds a).0 m) [ inl same ↦ inr (same, new) | inr k ↦ inl k ],
      λ s. (adds a).1 (elim s [ inl k ↦ inr k | inr (same, _) ↦ inl same ]),
    )
    add_address-AddedOne x front g (err f, w) new (exists, same) =
        elim (Bool-cases (includes f.message (text "File exists"))) [
          | inl there ↦ rw there (λ a.
              rw same
                (λ m. inl m, λ s. elim s [ inl k ↦ k | inr (is_x, _) ↦ rw is_x (exists there) ]))
          | inr refused_it ↦ rw refused_it same
        ]

    unless-AddedOne :
        (x : Text) (g : Gateway W)
        → AddedOne x g.world (unless sys (has x present) (add_address sys name x) g)
    unfolding try_run
    unless-AddedOne x g = elim (Bool-cases (has x present)) [
      | inl old ↦
          rw old
            (λ a. (λ m. inl m, λ s. elim s [ inl k ↦ k | inr (_, no_way) ↦ absurd (ground arith) ]))
      | inr new ↦ rw new (add_address-AddedOne x _ g _ new (laws.add x g.world))
    ]

    Added-cons :
        (x : Text) (xs : List Text) (v : W) (p : Result Text Unit × Gateway W) (k : Action W Unit)
        → AddedOne x v p
        → Added xs p.1.world (k p.1)
        → Added (x ∷ xs) v (and_then p (λ _. k))
    Added-cons x xs v (err e, h) k first rest = λ a m. rw first m
    Added-cons x xs v (ok _, h) k first rest = carry (k h) rest
      where
        carry : (r : Result Text Unit × Gateway W) → Added xs h.world r → Added (x ∷ xs) v r
        carry (err e, i) keeps = λ a m. keeps a ((first a).1 (inl m))
        carry (ok _, i) done = λ a. (
          λ m. elim ((done a).0 m) [
            | inl k ↦ elim ((first a).0 k) [
              | inl old ↦ inl old
              | inr (same, new) ↦ inr (inl same, rw same new)
            ]
            | inr (later, new) ↦ inr (inr later, new)
          ],
          λ s. (done a).1 (elim s [
            | inl old ↦ inl ((first a).1 (inl old))
            | inr (inl same, new) ↦ inl ((first a).1 (inr (same, rw same at new)))
            | inr (inr later, new) ↦ inr (later, new)
          ]),
        )

    pub adding-Added :
        (xs : List Text) (g : Gateway W)
        → Added xs g.world
            (for_each (λ cidr. unless sys (has cidr present) (add_address sys name cidr)) xs g)
    unfolding for_each
    adding-Added [] g =
        λ a. (λ m. inl m, λ s. elim s [ inl m ↦ m | inr (no_one, _) ↦ absurd no_one ])
    adding-Added (x ∷ xs) g =
        Added-cons x xs g.world (unless sys (has x present) (add_address sys name x) g) _
          (unless-AddedOne x g) (adding-Added xs _)

  module _ (wanted : List Text) where
    -- None of some addresses that go takes the address with it.
    abbrev pub Clear : Text → List Text → Type 0
    Clear a ys = (c : Text) → In c ys → has c wanted ≡ false → follows a c → ⊥

    -- The second loop over some addresses: what is still held was, and is wanted or could not be
    -- removed; a wanted address is still held, unless one that goes takes it along.
    abbrev pub Removed : List Text → W → Result Text Unit × Gateway W → Type 0
    Removed ys v (ok _, h) =
        (a : Text)
        → (In a (held h.world) → In a (held v) × (In a ys → (has a wanted ≡ true) ⊎ Refuses a))
          × (In a (held v) → has a wanted ≡ true → Clear a ys → In a (held h.world))
    Removed ys v (err _, h) = ⊥

    -- One address of the loop.
    abbrev RemovedOne : Text → W → W → Type 0
    RemovedOne y v u =
        (a : Text)
        → (In a (held u) → In a (held v) × (a ≡ y → (has a wanted ≡ true) ⊎ Refuses a))
          × (In a (held v)
              → has a wanted ≡ true
              → (has y wanted ≡ false → follows a y → ⊥)
              → In a (held u))

    Removed-cons :
        (y : Text) (ys : List Text) (v u : W) (r : Result Text Unit × Gateway W)
        → RemovedOne y v u
        → Removed ys u r
        → Removed (y ∷ ys) v r
    Removed-cons y ys v u (err e, h) first no_way = no_way
    Removed-cons y ys v u (ok _, h) first rest = λ a. (
      λ m.
          let (k, later) = (rest a).0 m in
          let (old, now) = (first a).0 k in
          (old, λ s. elim s [ inl same ↦ now same | inr n ↦ later n ]),
      λ old want clear.
          (rest a).1 ((first a).1 old want (clear y (inl refl))) want (λ c n. clear c (inr n)),
    )

    kept_one : (y : Text) (v : W) → has y wanted ≡ true → RemovedOne y v v
    kept_one y v keep = λ a. (λ m. (m, λ same. inl (rw same keep)), λ m want clear. m)

    deleted_one :
        (y : Text) (v : W) (p : Reply × W)
        → has y wanted ≡ false
        → (sys.exec (text "ip") (del_args y name) v) ≡ p
        → DeletesAddress held follows y v p
        → RemovedOne y v p.1
    deleted_one y v (ok out, u) gone made (away, only, others) = λ a. (
      λ m. (only a m, λ same. absurd (away (rw same at m))),
      λ m want clear.
          others a m (λ same. absurd (let no_way = rw same at want in ground arith)) (clear gone),
    )
    deleted_one y v (err f, u) gone made same = λ a. rw same (
      λ m. (m, λ e. let it : Refuses y = (v, f, (rw e at m), ap (λ q. q.0) made) in inr (rw e it)),
      λ m want clear. m,
    )

    pub removing-Removed :
        (ys : List Text) (g : Gateway W)
        → Removed ys g.world
            (for_each (λ cidr. unless sys (has cidr wanted) (del_address sys name cidr)) ys g)
    unfolding for_each try_run
    removing-Removed [] g = λ a. (λ m. (m, λ no_one. absurd no_one), λ m want clear. m)
    removing-Removed (y ∷ ys) g = elim (Bool-cases (has y wanted)) [
      | inl keep ↦
          rw keep
            (Removed-cons y ys g.world g.world _ (kept_one y g.world keep) (removing-Removed ys g))
      | inr gone ↦ rw gone (
          let after = sys.exec (text "ip") (del_args y name) g.world in
          Removed-cons y ys g.world after.1 _
            (deleted_one y g.world after gone refl (laws.del y g.world))
            (removing-Removed ys (record g { world = after.1 })))
    ]
