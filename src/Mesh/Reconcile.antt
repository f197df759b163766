-- ===== src/Mesh/Reconcile.antt =====
-- runReconcile of nodejs/services/mesh_state.js: passes that do not overlap.
use jump_host.Base.{
  ℕ, ◌+◌, ◌≤◌, ◌≡◌, refl, ap, inl, inr, not, Option, none, some, List, [], ◌∷◌, arith, ◌==◌,
  eq_refl, nat_eq, text_eq, length, filter, In,
}

-- `inFlight`, as the number of the pass that it is the promise of, and the passes that have begun and
-- not ended.
pub record Loop : Type 0 where
  pub in_flight : Option ℕ
  pub running : List ℕ
  pub started : ℕ

-- A call of `runReconcile`: the pass that its promise is of.
abbrev pub from_flight : Option ℕ → Loop → Loop × ℕ
from_flight (some pass) l = (l, pass)
from_flight none l = (
  record { in_flight = some l.started; running = l.started ∷ l.running; started = l.started + 1 },
  l.started,
)

unfoldable pub run_reconcile : Loop → Loop × ℕ
run_reconcile l = from_flight l.in_flight l

-- The `finally` of a pass.
unfoldable pub end_pass : ℕ → Loop → Loop
end_pass pass l = record {
  in_flight = none;
  running = filter (λ p. not (p == pass)) l.running;
  started = l.started;
}

-- What can happen: a tick or an explicit call, or the end of a pass that is running.
pub data Step : Loop → Loop → Type 0 where
  tick : (l : Loop) → Step l (run_reconcile l).0
  ended : (pass : ℕ) (l : Loop) → In pass l.running → Step l (end_pass pass l)

pub data Reachable : Loop → Type 0 where
  start : Reachable (record { in_flight = none; running = []; started = 0 })
  step : {l m : Loop} → Reachable l → Step l m → Reachable m

-- The pass in flight is the one that runs, and none runs otherwise.
abbrev pub Runs : Option ℕ → List ℕ → Type 0
Runs none running = running ≡ []
Runs (some p) running = running ≡ p ∷ []

abbrev pub IsSerial : Loop → Type 0
IsSerial l = Runs l.in_flight l.running

from_flight-IsSerial :
    (o : Option ℕ) (l : Loop) → o ≡ l.in_flight → IsSerial l → IsSerial (from_flight o l).0
from_flight-IsSerial (some p) l e h = h
from_flight-IsSerial none l e h = ap (◌∷◌ l.started) (rw (← e) at h)

ended_empty :
    (pass : ℕ) (o : Option ℕ) (running : List ℕ)
    → Runs o running
    → In pass running
    → filter (λ p. not (p == pass)) running ≡ []
unfolding filter
ended_empty pass none running h m = absurd (rw h at m)
ended_empty pass (some p) running h m =
    rw h (elim (rw h at m) [ inl same ↦ rw (same, eq_refl p) refl | inr no_more ↦ absurd no_more ])

step-IsSerial : {l m : Loop} → Step l m → IsSerial l → IsSerial m
unfolding run_reconcile end_pass
step-IsSerial (Step.tick l) h = from_flight-IsSerial l.in_flight l refl h
step-IsSerial (Step.ended pass l running) h = ended_empty pass l.in_flight l.running h running

Reachable-IsSerial : (l : Loop) → Reachable l → IsSerial l
Reachable-IsSerial l Reachable.start = refl
Reachable-IsSerial l (Reachable.step r s) = step-IsSerial s (Reachable-IsSerial _ r)

joined :
    (o : Option ℕ) (l : Loop)
    → o ≡ l.in_flight
    → IsSerial l
    → ((from_flight o l).0.running ≡ (from_flight o l).1 ∷ [])
joined (some p) l e h = rw (← e) at h
joined none l e h = ap (◌∷◌ l.started) (rw (← e) at h)

-- Whatever ticks, calls and ends of passes come before: at most one pass runs, and a call gives the
-- promise of the one pass that runs after it, whether the call has begun it or has found it.
pub run_reconcile-IsSerial :
    (l : Loop)
    → Reachable l
    → (length l.running ≤ 1) × ((run_reconcile l).0.running ≡ (run_reconcile l).1 ∷ [])
unfolding run_reconcile
run_reconcile-IsSerial l r =
    let serial = Reachable-IsSerial l r in
    (at_most_one l.in_flight l.running serial, joined l.in_flight l refl serial)
  where
    at_most_one : (o : Option ℕ) (running : List ℕ) → Runs o running → length running ≤ 1
    at_most_one none running h = rw h (omega arith)
    at_most_one (some p) running h = rw h (omega arith)
