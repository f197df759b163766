-- ===== src/Host/Wg/Addresses.antt =====
-- setAddresses of nodejs/utils/wg_iface.js, against a set of addresses.
use jump_host.Base.{
  arith, ◌≡◌, ◌↔◌, ◌⊎◌, inl, inr, true, false, List, Bool-cases, nat_eq, text_eq, Result, ok, err,
  In, Text, text, split,
}
use jump_host.Host.Shell.{Reply, Gateway, return, and_then, try_run, run, for_each, or_message}
use jump_host.Host.Wg.{
  System, set_of, has, present_addresses, add_address, del_address, unless, change_addresses,
  set_addresses,
}
use jump_host.Host.Wg.Shown.{has_iff, In-set_of, ShowsLines, shown_addresses-lines}
use jump_host.Host.Wg.Loops.{
  show_args, up_args, AddressLaws, Added, Removed, Clear, Refuses, adding-Added, removing-Removed,
}

module _ {W : Type 0} (sys : System W) (held : W → List Text) (follows : Text → Text → Type 0)
    (name : Text) (laws : AddressLaws sys.exec held follows name) where
  abbrev pub Refused : Text → Type 0
  Refused a = Refuses sys held follows name laws a

  -- What the two loops do to the addresses, from a host that holds the present ones.
  abbrev Changed : List Text → List Text → W → Result Text Unit × Gateway W → Type 0
  Changed wanted present v (ok _, h) =
      (a : Text)
      → (In a (held h.world) → In a wanted ⊎ Refused a)
        × (In a wanted → Clear sys held follows name laws wanted a present → In a (held h.world))
  Changed wanted present v (err _, h) = (a : Text) → In a (held v) → In a (held h.world)

  decide :
      (wanted present : List Text) (v w z : W) (a : Text)
      → In a (held v) ↔ In a present
      → In a (held w) ↔ (In a (held v) ⊎ (In a wanted × (has a present ≡ false)))
      → (In a (held z) → In a (held w) × (In a present → (has a wanted ≡ true) ⊎ Refused a))
        × (In a (held w)
            → has a wanted ≡ true
            → Clear sys held follows name laws wanted a present
            → In a (held z))
      → (In a (held z) → In a wanted ⊎ Refused a)
        × (In a wanted → Clear sys held follows name laws wanted a present → In a (held z))
  decide wanted present v w z a (seen, unseen) (added, add) (kept, keep) = (
    λ m.
        let (now, want) = kept m in
        elim (added now) [
          | inl old ↦ elim (want (seen old)) [
            | inl still ↦ inl ((has_iff a wanted).0 still)
            | inr refused_it ↦ inr refused_it
          ]
          | inr (n, _) ↦ inl n
        ],
    λ m clear.
        keep
          (elim (Bool-cases (has a present)) [
            | inl old ↦ add (inl (unseen ((has_iff a present).0 old)))
            | inr new ↦ add (inr (m, new))
          ])
          ((has_iff a wanted).1 m) clear,
  )

  change-Changed :
      (wanted present : List Text) (g : Gateway W)
      → ((a : Text) → In a (held g.world) ↔ In a present)
      → Changed wanted present g.world (change_addresses sys name wanted present g)
  unfolding change_addresses
  change-Changed wanted present g shown =
      by_loops
        (for_each (λ cidr. unless sys (has cidr present) (add_address sys name cidr)) wanted g)
        (adding-Added sys held follows name laws present wanted g)
    where
      after :
          (w : W)
          → ((a : Text)
              → In a (held w) ↔ (In a (held g.world) ⊎ (In a wanted × (has a present ≡ false))))
          → (r : Result Text Unit × Gateway W)
          → Removed sys held follows name laws wanted present w r
          → Changed wanted present g.world r
      after w added (ok _, h) kept =
          λ a. decide wanted present g.world w h.world a (shown a) (added a) (kept a)
      after w added (err e, h) no_way = absurd no_way

      by_loops :
          (p : Result Text Unit × Gateway W)
          → Added sys held follows name laws present wanted g.world p
          → Changed wanted present g.world (
              and_then p (λ _.
                for_each
                  (λ cidr. unless sys (has cidr wanted) (del_address sys name cidr))
                  present))
      by_loops (ok _, h) added =
          after h.world added _ (removing-Removed sys held follows name laws wanted present h)
      by_loops (err e, h) keeps = keeps

  -- No address that is there and is not wanted takes the wanted one along when it is removed.
  abbrev pub Safe : List Text → W → Text → Type 0
  Safe cidrs v a = (c : Text) → In c (held v) → (In c cidrs → ⊥) → follows a c → ⊥

  -- How `setAddresses` ends.
  abbrev pub HoldsWanted : List Text → W → Result Text Unit × Gateway W → Type 0
  HoldsWanted cidrs v (ok _, h) =
      (a : Text)
      → (In a (held h.world) → In a cidrs ⊎ Refused a)
        × (In a cidrs → Safe cidrs v a → In a (held h.world))
  HoldsWanted cidrs v (err _, h) =
      (a : Text) → In a (held v) → In a cidrs → Safe cidrs v a → In a (held h.world)

  abbrev Ready : List Text → W → W → Type 0
  Ready cidrs v w =
      (a : Text)
      → (In a (held w) → In a cidrs ⊎ Refused a) × (In a cidrs → Safe cidrs v a → In a (held w))

  brought_up :
      (cidrs : List Text) (v : W) (g : Gateway W)
      → Ready cidrs v g.world
      → HoldsWanted cidrs v (and_then (run sys.exec (text "ip") (up_args name) g) (λ _. return tt))
  unfolding run try_run
  brought_up cidrs v g exact =
      by_reply (sys.exec (text "ip") (up_args name) g.world) (laws.up_keeps g.world)
    where
      by_reply :
          (p : Reply × W)
          → held p.1 ≡ held g.world
          → HoldsWanted cidrs v
              (and_then (or_message sys.exec p.0 (record g { world = p.1 })) (λ _. return tt))
      by_reply (ok out, w) same = λ a. rw same (exact a)
      by_reply (err f, w) same = λ a m want safe. rw same ((exact a).1 want safe)

  -- From the sets that the code works on to the texts that it is given.
  Changed-Ready :
      (cidrs present : List Text) (v w : W)
      → ((a : Text) → In a (held v) ↔ In a present)
      → ((a : Text)
          → (In a (held w) → In a (set_of cidrs) ⊎ Refused a)
            × (In a (set_of cidrs)
                → Clear sys held follows name laws (set_of cidrs) a present
                → In a (held w)))
      → Ready cidrs v w
  Changed-Ready cidrs present v w shown changed = λ a. (
    λ m. elim ((changed a).0 m) [
      | inl n ↦ inl ((In-set_of a cidrs).0 n)
      | inr refused_it ↦ inr refused_it
    ],
    λ m safe. (changed a).1 ((In-set_of a cidrs).1 m) (λ c there gone.
        safe c ((shown c).1 there) (λ n.
          let present_too = (has_iff c (set_of cidrs)).1 ((In-set_of c cidrs).1 n) in
          absurd (ground arith))),
  )

  after_change :
      (cidrs present : List Text) (v u : W) (p : Result Text Unit × Gateway W)
      → held u ≡ held v
      → ((a : Text) → In a (held v) ↔ In a present)
      → Changed (set_of cidrs) present u p
      → HoldsWanted cidrs v (
          and_then p (λ _ g. and_then (run sys.exec (text "ip") (up_args name) g) (λ _. return tt)))
  after_change cidrs present v u (ok _, h) same shown changed =
      brought_up cidrs v h (Changed-Ready cidrs present v h.world shown changed)
  after_change cidrs present v u (err e, h) same shown keeps = λ a m _ _. keeps a (rw same m)

  -- What the code reads is what the interface holds.
  read_present :
      (v : W) (reply : Reply) (out : Text) (a : Text)
      → reply ≡ ok out
      → ShowsLines (held v) (split 10 out)
      → In a (held v) ↔ In a (present_addresses reply)
  read_present v reply out a is_ok shows =
      rw (is_ok, shown_addresses-lines (held v) (split 10 out) shows)
        ((In-set_of a (held v)).1, (In-set_of a (held v)).0)

  -- On a device that exists: when `setAddresses` returns, every address that the interface holds is
  -- wanted or is one whose removal fails while it is held, and it holds every wanted address that
  -- follows, as a secondary of its subnet, no unwanted one that was there. When it throws, every wanted
  -- address of that kind that was there still is.
  pub set_addresses-HoldsWanted :
      (cidrs : List Text) (g : Gateway W)
      → HoldsWanted cidrs g.world (set_addresses sys name cidrs g)
  unfolding set_addresses try_run
  set_addresses-HoldsWanted cidrs g =
      let (out, is_ok, shows) = laws.show g.world in
      let shown = sys.exec (text "ip") (show_args name) g.world in
      let same = laws.show_keeps g.world in
      let read = λ (a : Text). read_present g.world shown.0 out a is_ok shows in
      after_change cidrs (present_addresses shown.0) g.world shown.1 _ same read (
        change-Changed (set_of cidrs) (present_addresses shown.0) (record g { world = shown.1 })
          (λ a. rw same (read a)))
