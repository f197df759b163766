-- ===== src/Ssh/Session/Visits.antt =====
-- What a session with the picker, runTuiSession of nodejs/services/ssh_server.js, leaves in the counters
-- and in the registry.
use jump_host.Base.{
  ◌+◌, ◌≤◌, ◌≡◌, refl, ap, ◌∙◌, ◌⊎◌, inl, inr, Option, none, some, List, arith, nat_eq, text_eq,
  Result, ok, err, Option-cases, Text, text,
}
use jump_host.Directory.Host.{Host}
use jump_host.Directory.Target.{host, Endpoint, host_endpoint}
use jump_host.Audit.Event.{patch}
use jump_host.Ssh.Metrics.{count_of}
use jump_host.Ssh.Session.{
  plain, patched, unsaved, target_fields, Answers, Front, Clock, Server, Failure, failure, settle,
  enter,
}
use jump_host.Ssh.Session.Tui.{
  tui_noted, Outcome, served, turned_away, thrown, finish_fail, served_or_thrown, tui_dialled,
  tui_chosen, tui_listed, run_tui_session,
}
use jump_host.Ssh.Session.Accounting.{
  total, fails, Enters, LateFailure, CatchFailure, Settled, SameShared, settle-Settled,
  note_failure-Noted,
}

module _ {D : Type 0} (f : Front) (a : Answers D) (clock : Clock) where
  -- The record of the target cannot be written.
  abbrev pub TargetFailure : Type 0
  TargetFailure = (e : Text) × (a.targeted ≡ err e)

  -- An exception: a call of Redis has failed, and the session is counted at most once.
  abbrev pub Escaped : Server D → Server D → Type 0
  Escaped s t =
      (((t.registry ≡ s.registry) × (TargetFailure ⊎ CatchFailure f a clock))
        ⊎ (Enters f a clock s t × LateFailure f a clock))
      × (total f a clock s ≤ total f a clock t)
      × (total f a clock t ≤ total f a clock s + 1)
      × (fails f a clock s ≤ fails f a clock t)
      × (fails f a clock t ≤ fails f a clock s + 1)

  abbrev pub Accounted : Server D → Outcome × Server D → Type 0
  Accounted s (served, t) =
      Enters f a clock s t
      × (total f a clock t ≡ total f a clock s + 1)
      × (fails f a clock t ≡ fails f a clock s)
  Accounted s (turned_away _, t) =
      (t.registry ≡ s.registry)
      × (total f a clock t ≡ total f a clock s + 1)
      × (fails f a clock t ≡ fails f a clock s + 1)
  Accounted s (thrown, t) = Escaped s t

  finish_fail-Accounted :
      (e : Failure) (s t : Server D)
      → SameShared f a clock s t
      → Accounted s (finish_fail f a clock e t)
  finish_fail-Accounted e s t (registry, counters, _) =
      let (kept, t₁, t₂, f₁, f₂, ending) = note_failure-Noted f a clock e t in
      let same_total : total f a clock t ≡ total f a clock s =
        ap (count_of (text "total")) counters in
      let same_fails : fails f a clock t ≡ fails f a clock s =
        ap (count_of (text "fail")) counters in
      elim ending [
        | inl (noted, one, failure_too) ↦ rw noted (kept ∙ registry, omega arith, omega arith)
        | inr (missed, failed) ↦
            rw missed (
              inl (kept ∙ registry, inr failed),
              omega arith,
              omega arith,
              omega arith,
              omega arith,
            )
      ]

  tui_dialled-Accounted :
      (h : Host) (address : Option Text) (s t : Server D) (r : Result Failure Unit)
      → SameShared f a clock s t
      → Accounted s (tui_dialled f a clock h address (r, t))
  tui_dialled-Accounted h address s t (err e) same = finish_fail-Accounted e s t same
  tui_dialled-Accounted h address s t (ok u) same =
      by_settled (settle f a clock (host h) (enter f a clock (host h) address t))
        (settle-Settled f a clock (host h) address s t same)
    where
      by_settled :
          (p : Result Failure Unit × Server D)
          → Settled f a clock s p
          → Accounted s (served_or_thrown f a clock p)
      by_settled (ok u, v) settled = settled
      by_settled (err e, v) (entered, failed, t₁, t₂, none_failed) =
          (inr (entered, failed), t₁, t₂, omega arith, omega arith)

  -- What `note_target` leaves, by the answer of Redis.
  abbrev answered : Host → Endpoint → Server D → Result Text Unit → Result Failure Unit × Server D
  answered h e s (ok _) =
      (ok tt, patched f a clock (target_fields f a clock (host h) e.address e.port) s)
  answered h e s (err _) =
      (err plain, unsaved f a clock (target_fields f a clock (host h) e.address e.port) s)

  tui_noted-Accounted :
      (h : Host) (e : Endpoint) (s : Server D) (answer : Result Text Unit)
      → a.targeted ≡ answer
      → Accounted s (tui_noted f a clock h e.address (answered h e s answer))
  unfolding patch
  tui_noted-Accounted h e s (ok u) given =
      tui_dialled-Accounted h e.address s _ _ (refl, refl, refl)
  tui_noted-Accounted h e s (err m) given =
      (inl (refl, inl (m, given)), omega arith, omega arith, omega arith, omega arith)

  tui_chosen-Accounted : (h : Host) (s : Server D) → Accounted s (tui_chosen f a clock (some h) s)
  tui_chosen-Accounted h s =
      tui_noted-Accounted h (host_endpoint f.js h f.default_port) s a.targeted refl

  tui_listed-Accounted :
      (choice : List Host → Option Host) (s : Server D) (answer : Result Text (List Host))
      → Accounted s (tui_listed f a clock choice answer s)
  tui_listed-Accounted choice s (err e) =
      finish_fail-Accounted (failure (text "directory-unreachable") none none) s s
        (refl, refl, refl)
  tui_listed-Accounted choice s (ok hosts) = elim (Option-cases (choice hosts)) [
    | inl nothing ↦
        rw nothing
          (finish_fail-Accounted (failure (text "cancelled") none none) s s (refl, refl, refl))
    | inr (h, chosen) ↦ rw chosen (tui_chosen-Accounted h s)
  ]

  -- A session with the picker ends in one of three ways. It is served: it has an entry in the registry
  -- and is counted once, not as a failure. Its client is sent away: it has no entry and is counted once,
  -- as a failure. Or a call of Redis fails and the session ends with an exception: it is counted at most
  -- once, and its entry is left where that call comes after the upstream was reached.
  pub run_tui_session-Accounted :
      (choice : List Host → Option Host) (s : Server D)
      → Accounted s (run_tui_session f a clock choice s)
  unfolding run_tui_session
  run_tui_session-Accounted choice s = tui_listed-Accounted choice s a.hosts
