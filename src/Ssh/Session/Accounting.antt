-- ===== src/Ssh/Session/Accounting.antt =====
-- What a session of nodejs/services/ssh_server.js leaves in the counters and in the registry.
use jump_host.Base.{
  ◌≤◌, ℕ, ◌+◌, ◌≡◌, refl, ap, ap₂, ◌⊎◌, inl, inr, Bool, true, false, Option, none, some, arith,
  ◌==◌, eq_refl, nat_eq, text_eq, Result, ok, err, Result-cases, Text, text,
}
use jump_host.Base.Maps.{get, get-delete}
use jump_host.Directory.Target.{Matched}
use jump_host.Audit.Event.{patch, finish}
use jump_host.Ssh.Metrics.{count_of, Done, all_done, one_if, one_if_le, bump_counts}
use jump_host.Ssh.Registry.{Live, add, remove}
use jump_host.Ssh.Session.{
  note_failure, Answers, Front, Clock, Server, Failure, settle, enter, host_slug_of, live_of,
}
use jump_host.Ssh.Session.Grammar.{Ended, on_close}

module _ {D : Type 0} (f : Front) (a : Answers D) (clock : Clock) where
  abbrev pub total : Server D → ℕ
  total s = count_of (text "total") s.counters

  abbrev pub fails : Server D → ℕ
  fails s = count_of (text "fail") s.counters

  -- The registry has an entry more, for the session.
  abbrev pub Enters : Server D → Server D → Type 0
  Enters s t = (live : Live) × (t.registry ≡ add s.event.id live s.registry)

  -- One of the two Redis calls after the connection fails.
  abbrev pub LateFailure : Type 0
  LateFailure = ((e : Text) × (a.marked ≡ err e)) ⊎ ((d : Done) × (a.bumped ≡ err d))

  -- One of the two Redis calls of the `catch` block fails.
  abbrev pub CatchFailure : Type 0
  CatchFailure = ((e : Text) × (a.closed ≡ err e)) ⊎ ((d : Done) × (a.noted ≡ err d))

  -- What the `try` block does to counters and registry: an entry for the session and its count;
  -- nothing; or an entry, and maybe its count, before a call of Redis fails.
  abbrev Block : Server D → Result Failure Unit × Server D → Type 0
  Block s (ok _, t) = Enters s t × (total t ≡ total s + 1) × (fails t ≡ fails s)
  Block s (err e, t) =
      ((t.counters ≡ s.counters) × (t.registry ≡ s.registry))
      ⊎ (Enters s t
          × LateFailure
          × (total s ≤ total t)
          × (total t ≤ total s + 1)
          × (fails t ≡ fails s))

  -- A state with the registry, the counters and the record's id of another.
  abbrev pub SameShared : Server D → Server D → Type 0
  SameShared s t = (t.registry ≡ s.registry) × (t.counters ≡ s.counters) × (t.event.id ≡ s.event.id)

  -- `settle`: what the block does once the entry is made.
  abbrev pub Settled : Server D → Result Failure Unit × Server D → Type 0
  Settled s (ok _, t) = Enters s t × (total t ≡ total s + 1) × (fails t ≡ fails s)
  Settled s (err e, t) =
      Enters s t × LateFailure × (total s ≤ total t) × (total t ≤ total s + 1) × (fails t ≡ fails s)

  pub settle-Settled :
      (m : Matched) (address : Option Text) (s t : Server D)
      → SameShared s t
      → Settled s (settle f a clock m (enter f a clock m address t))
  unfolding patch
  settle-Settled m address s t (reg, counters, id) =
      let entered : Enters s (enter f a clock m address t) =
        (live_of f a clock m address, ap₂ (λ i r. add i (live_of f a clock m address) r) id reg) in
      let same_total : total t ≡ total s = ap (count_of (text "total")) counters in
      let same_fails : fails t ≡ fails s = ap (count_of (text "fail")) counters in
      let counts = λ (d : Done).
        bump_counts d clock.day clock.now (some f.uid) (host_slug_of m) true t.counters in
      elim (Result-cases a.marked) [
        | inr (e, failed) ↦ rw failed (entered, inl (e, refl), omega arith, omega arith, same_fails)
        | inl (u, marked) ↦ elim (Result-cases a.bumped) [
          | inr (d, failed) ↦
              let (one, none_failed) = counts d in
              let at_most : one_if d.total ≤ 1 = one_if_le d.total in
              rw (marked, failed) (entered, inr (d, refl), omega arith, omega arith, omega arith)
          | inl (v, bumped) ↦
              let (one, none_failed) = counts all_done in
              rw (marked, bumped) (entered, omega arith, omega arith)
        ]
      ]

  -- What a session leaves: served, with an entry and one count; turned away without an entry, with one
  -- count as a failure; or Redis fails on the way.
  abbrev pub Served : Server D → Ended D → Type 0
  Served s e =
      (e.wired ≡ true)
      × (e.rejected ≡ none)
      × Enters s e.server
      × (total e.server ≡ total s + 1)
      × (fails e.server ≡ fails s)

  abbrev pub TurnedAway : Server D → Ended D → Type 0
  TurnedAway s e =
      (e.wired ≡ false)
      × (e.thrown ≡ false)
      × (e.server.registry ≡ s.registry)
      × (total e.server ≡ total s + 1)
      × (fails e.server ≡ fails s + 1)

  abbrev pub Interrupted : Server D → Ended D → Type 0
  Interrupted s e =
      (e.wired ≡ false)
      × (((e.server.registry ≡ s.registry) × CatchFailure) ⊎ (Enters s e.server × LateFailure))
      × (total s ≤ total e.server)
      × (total e.server ≤ total s + 2)
      × (fails s ≤ fails e.server)
      × (fails e.server ≤ fails s + 1)

  abbrev pub Accounts : Server D → Ended D → Type 0
  Accounts s e = Served s e ⊎ TurnedAway s e ⊎ Interrupted s e

  -- The `catch` block, where both calls go through and where one fails.
  abbrev pub Noted : Failure → Server D → Bool × Server D → Type 0
  Noted e t (noted, u) =
      (u.registry ≡ t.registry)
      × (total t ≤ total u)
      × (total u ≤ total t + 1)
      × (fails t ≤ fails u)
      × (fails u ≤ fails t + 1)
      × (((noted ≡ true) × (total u ≡ total t + 1) × (fails u ≡ fails t + 1))
          ⊎ ((noted ≡ false) × CatchFailure))

  pub note_failure-Noted : (e : Failure) (t : Server D) → Noted e t (note_failure f a clock e t)
  unfolding finish patch
  note_failure-Noted e t =
      let counts =
        λ (d : Done). bump_counts d clock.day clock.now (some f.uid) e.host_slug false t.counters in
      elim (Result-cases a.closed) [
        | inr (x, failed) ↦
            rw failed
              (refl, omega arith, omega arith, omega arith, omega arith, inr (refl, inl (x, refl)))
        | inl (v, closed) ↦ elim (Result-cases a.noted) [
          | inr (d, failed) ↦
              let (one, failure_too) = counts d in
              let few = one_if_le d.total in
              let few_fails = one_if_le d.fail in
              rw (closed, failed)
                (
                  refl,
                  omega arith,
                  omega arith,
                  omega arith,
                  omega arith,
                  inr (refl, inr (d, refl)),
                )
          | inl (w, noted) ↦
              let (one, failure_too) = counts all_done in
              rw (closed, noted)
                (
                  refl,
                  omega arith,
                  omega arith,
                  omega arith,
                  omega arith,
                  inl (refl, omega arith, omega arith),
                )
        ]
      ]

  -- When the upstream ends, the session is out of the registry, every other entry is as it was, and the
  -- event has an end and is a success.
  on_close_lem :
      (s : Server D)
      → (get s.event.id (on_close f a clock s).registry ≡ none)
        × ((id : Text)
            → (s.event.id == id) ≡ false
            → get id (on_close f a clock s).registry ≡ get id s.registry)
        × ((on_close f a clock s).event.success ≡ true)
        × ((on_close f a clock s).event.ended_at ≡ some clock.now)
  unfolding on_close finish patch remove
  on_close_lem s = (
    ground (arith, get-delete s.event.id s.event.id s.registry, eq_refl s.event.id),
    (λ id other. ground (arith, get-delete s.event.id id s.registry)),
    refl,
    refl,
  )
