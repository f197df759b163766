-- ===== src/Mesh/Steering/Reported.antt =====
-- applyExits of nodejs/services/exit_router.js: what becomes of each exit of the plan.
use jump_host.Base.{ℕ, ◌≡◌, ◌⊎◌, List, nat_eq, text_eq, Result, ok, err, In, All, Text}
use jump_host.Host.Shell.{Gateway, Action}
use jump_host.Host.Wg.{System}
use jump_host.Mesh.Exits
use jump_host.Mesh.Exits.{Exit}
use jump_host.Mesh.Steering.{Note, exit_note, Report}

-- The exit's interface is up, or the report has a note with it.
abbrev pub IsReported : List Text → List Note → Exit → Type 0
IsReported applied failed e = In e.iface applied ⊎ ((m : Text) × In (exit_note e.iface m) failed)

module _ {W : Type 0} (sys : System W) (probe tmp : Text) (polls : ℕ) where
  abbrev Reports : List Exit → Result Text (List Text × List Note) × Gateway W → Type 0
  Reports es (ok (applied, failed), h) = All (IsReported applied failed) es
  Reports es (err e, h) = ⊥

  -- A call that never throws.
  abbrev Returns : {A : Type 0} → Action W A → Type 0
  Returns {A} act = (g : Gateway W) → (a : A) × (h : Gateway W) × (act g ≡ (ok a, h))

  -- A call that returns a report in which every exit of the plan stands.
  abbrev pub TellsAll : List Exit → Result Text Report × Gateway W → Type 0
  TellsAll es (ok r, h) = All (IsReported r.applied r.failed) es
  TellsAll es (err e, h) = ⊥
