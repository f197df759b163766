-- ===== src/Host/Shell.antt =====
-- run and tryRun of nodejs/utils/wg_iface.js and nodejs/utils/net_router.js: commands of the host, and
-- what the two modules remember between calls.
use jump_host.Base.{
  ◌≡◌, refl, Bool, true, false, Option, none, some, List, [], ◌∷◌, ◌++◌, if◌then◌else◌, nat_eq,
  text_eq, Result, ok, err, Text, text,
}
use jump_host.Directory.Target.{includes}

-- An exception of `execFileSync`: what the command wrote to `stderr`, and whether the program itself
-- is missing.
pub record Failure : Type 0 where
  pub message : Text
  pub missing : Bool

abbrev pub Reply : Type 0
Reply = Result Failure Text

-- How the host, in a state of type `W`, answers a command.
abbrev pub Exec : Type 0 → Type 0
Exec W = Text → List Text → W → Reply × W

pub data Mode : Type 0 where
  kernel userspace : Mode

-- The host, with the variables `toolCache`, `kernelSupport` and `probes` of the two modules.
pub record Gateway (W : Type 0) : Type 0 where
  pub world : W
  pub tool_cache : Option (List Text)
  pub kernel_support : Option Bool
  pub probes : List (Text × Mode)

-- A call: it may throw, and what was done to the host stays done.
abbrev pub Action : Type 0 → Type 0 → Type 0
Action W A = Gateway W → Result Text A × Gateway W

module _ {W A : Type 0} where
  abbrev pub return : A → Action W A
  return a g = (ok a, g)

  abbrev pub throw : Text → Action W A
  throw e g = (err e, g)

  abbrev pub and_then :
      {B : Type 0} → Result Text A × Gateway W → (A → Action W B) → Result Text B × Gateway W
  and_then (ok a, g) f = f a g
  and_then (err e, g) f = (err e, g)

  -- `try { … } catch (err) { … }`
  abbrev pub or_catch : Result Text A × Gateway W → (Text → Action W A) → Result Text A × Gateway W
  or_catch (ok a, g) f = (ok a, g)
  or_catch (err e, g) f = f e g

infixl 5 ◌>>=◌ ◌>>◌
abbrev pub ◌>>=◌ : {W A B : Type 0} → Action W A → (A → Action W B) → Action W B
◌>>=◌ m f g = and_then (m g) f

abbrev pub ◌>>◌ : {W A B : Type 0} → Action W A → Action W B → Action W B
m >> k = m >>= λ _. k

abbrev pub catch : {W A : Type 0} → Action W A → (Text → Action W A) → Action W A
catch m f g = or_catch (m g) f

-- Only the state of the host changes.
abbrev pub reach_world : {W A : Type 0} → (W → A × W) → Gateway W → A × Gateway W
reach_world f g = let (a, w) = f g.world in (a, record g { world = w })

module _ {W : Type 0} (exec : Exec W) where
  unfoldable pub try_run : Text → List Text → Action W Reply
  try_run cmd args g = let (r, g') = reach_world (exec cmd args) g in (ok r, g')

  abbrev pub or_message : Reply → Action W Text
  or_message (ok out) = return out
  or_message (err e) = throw e.message

  unfoldable pub run : Text → List Text → Action W Text
  unfolding try_run
  run cmd args = do r ← try_run cmd args; or_message r

-- `res.ok`, `res.missing`, and the error of a failed reply.
abbrev pub succeeded : Reply → Bool
succeeded (ok _) = true
succeeded (err _) = false

abbrev pub is_missing : Reply → Bool
is_missing (ok _) = false
is_missing (err e) = e.missing

abbrev pub output : Reply → Text
output (ok out) = out
output (err _) = []

-- `!add.ok && !/File exists/.test(add.err)`, with the error to throw.
abbrev pub refused : Reply → Option Text
refused (ok _) = none
refused (err e) = if includes e.message (text "File exists") then none else some e.message

abbrev pub throw_if : {W : Type 0} → Option Text → Text → Action W Unit
throw_if none front = return tt
throw_if (some message) front = throw (front ++ message)

-- A loop over an array, for its effect.
unfoldable pub for_each : {W A : Type 0} → (A → Action W Unit) → List A → Action W Unit
for_each body [] = return tt
for_each body (a ∷ rest) = do body a; for_each body rest

pub and_then_assoc :
    {W A B C : Type 0} (p : Result Text A × Gateway W) (f : A → Action W B) (k : B → Action W C)
    → and_then (and_then p f) k ≡ and_then p (λ a g. and_then (f a g) k)
and_then_assoc (ok a, g) f k = refl
and_then_assoc (err e, g) f k = refl

pub and_then_cong :
    {W A B : Type 0} (p : Result Text A × Gateway W) (f k : A → Action W B)
    → ((a : A) (g : Gateway W) → f a g ≡ k a g)
    → and_then p f ≡ and_then p k
and_then_cong (ok a, g) f k h = h a g
and_then_cong (err e, g) f k h = refl
