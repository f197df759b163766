-- ===== src/Host/Wg.antt =====
-- nodejs/utils/wg_iface.js: the interface, its key, its addresses and routes.
pub mod Shown
mod Examples
pub mod Loops
pub mod Addresses
use jump_host.Base.{
  ℕ, zero, suc, ◌+◌, ◌-◌, ◌*◌, ◌/◌, ◌%◌, ◌^◌, ◌≤◌, ◌<◌, min, pred, ◌≡◌, refl, sym, ap, ap₂, ◌∙◌,
  subst, ◌≡⟨◌⟩◌, ◌∎, ◌≢◌, ◌↔◌, ◌⊎◌, inl, inr, Bool, true, false, not, ◌&&◌, ◌||◌, Option, none,
  some, List, [], ◌∷◌, ◌++◌, map, reverse, append-nil, append_assoc, map-append, arith, ltb, leb,
  if◌then◌else◌, ltb→lt, lt→ltb, leb→le, le→leb, tests, Bool-cases, Option-cases, Eq, ◌==◌, eq_iff,
  eq_refl, eq_of_ne, nat_eq, text_eq, text_beq, Result, ok, err, require, Result-cases, length,
  length-append, get_elem?, take, drop, length-take, take-append, drop-append, all, any, find,
  filter, In, All, All-In, All-from_members, In-append, Text, text, is_digit, is_lower, is_upper,
  split, join, Lacks, split_of_Lacks, split-append, split-Lacks, join-split, starts_with, index_of,
  starts_with_iff, split-join, all_iff, any_iff, find-eq-some, find-eq-none, In-filter,
  length-filter-le, All-imp, All-append, drop-nil, drop-add, take-append-drop,
}
use jump_host.Host.Shell.{
  Exec, Reply, Failure, Mode, kernel, userspace, Gateway, Action, return, throw, and_then, ◌>>=◌,
  ◌>>◌, try_run, run, succeeded, output, refused, throw_if, for_each,
}
use jump_host.Base.Maps.{get, put}
use jump_host.Host.Router.{is_blank}
use jump_host.Mesh.Exits.Readback.{is_space}
use jump_host.Host.Uplink.{after_word}
use jump_host.Base.Decimal.{decimal}

-- What the module uses of the system besides commands: a process that is left running, with its id,
-- and files.
pub record System (W : Type 0) : Type 0 where
  pub exec : Exec W
  pub spawn : Text → List Text → W → ℕ × W
  pub write_file : Text → Text → W → Result Text Unit × W
  pub unlink : Text → W → Result Text Unit × W

-- `new Set(xs)`, in the order of its loop.
unfoldable pub set_onto : List Text → List Text → List Text
set_onto seen [] = seen
set_onto seen (x ∷ xs) = set_onto (if any (λ y. y == x) seen then seen else seen ++ x ∷ []) xs

abbrev pub set_of : List Text → List Text
set_of xs = set_onto [] xs

-- `set.has(x)`
abbrev pub has : Text → List Text → Bool
has x xs = any (λ y. y == x) xs

-- The addresses in the output of `ip -o -4 addr show`.
abbrev pub if_matched : Option Text → List Text → List Text
if_matched none rest = rest
if_matched (some cidr) rest = cidr ∷ rest

unfoldable pub shown_addresses : List Text → List Text
shown_addresses [] = []
shown_addresses (line ∷ lines) = if_matched (after_word (text "inet") line) (shown_addresses lines)

abbrev pub present_addresses : Reply → List Text
present_addresses (ok out) = set_of (shown_addresses (split 10 out))
present_addresses (err _) = []

module _ {W : Type 0} (sys : System W) where
  open sys use {exec}

  abbrev remember_kernel : Bool → Action W Bool
  remember_kernel b g = (ok b, record g { kernel_support = some b })

  abbrev probe_del : Text → Bool → Action W Bool
  probe_del probe true = do
    try_run exec (text "ip") (text "link" ∷ text "del" ∷ text "dev" ∷ probe ∷ [])
    remember_kernel true
  probe_del probe false = remember_kernel false

  abbrev pub on_support : Text → Option Bool → Action W Bool
  on_support probe (some b) = return b
  on_support probe none = do
    add ←
        try_run exec (text "ip")
          (text "link" ∷ text "add" ∷ text "dev" ∷ probe ∷ text "type" ∷ text "wireguard" ∷ [])
    probe_del probe (succeeded add)

  -- `probe` is the name with the process id.
  unfoldable pub kernel_wireguard_available : Text → Action W Bool
  kernel_wireguard_available probe g = on_support probe g.kernel_support g

  unfoldable pub interface_exists : Text → Action W Bool
  interface_exists name = do
    r ← try_run exec (text "ip") (text "link" ∷ text "show" ∷ text "dev" ∷ name ∷ [])
    return (succeeded r)

  -- The polls that the clock leaves room for.
  unfoldable pub wait_for_interface : ℕ → Text → Action W Bool
  wait_for_interface zero name = return false
  wait_for_interface (suc polls) name =
      let later = wait_for_interface polls name in
      do there ← interface_exists name; elim there [ true ↦ return true | false ↦ later ]

  abbrev remember : Text → Mode → Option ℕ → Action W (Mode × Option ℕ)
  remember name mode pid g = (ok (mode, pid), record g { probes = put name mode g.probes })

  abbrev known_mode : Text → Action W (Mode × Option ℕ)
  known_mode name g = (ok (elim (get name g.probes) [ none ↦ kernel | some m ↦ m ], none), g)

  abbrev spawn_in : Text → List Text → Action W ℕ
  spawn_in cmd args g =
      let (pid, w) = sys.spawn cmd args g.world in (ok pid, record g { world = w })

  abbrev in_kernel : Text → Action W (Mode × Option ℕ)
  in_kernel name = do
    add ←
        try_run exec (text "ip")
          (text "link" ∷ text "add" ∷ text "dev" ∷ name ∷ text "type" ∷ text "wireguard" ∷ [])
    throw_if (refused add) (text "kernel WireGuard interface creation failed: ")
    remember name kernel none

  abbrev in_userspace : ℕ → Text → Action W (Mode × Option ℕ)
  in_userspace polls name = do
    pid ← spawn_in (text "wireguard-go") (name ∷ [])
    up ← wait_for_interface polls name
    throw_if (if up then none else some (name ++ text "' within timeout"))
        (text "wireguard-go did not bring up interface '")
    remember name userspace (some pid)

  abbrev make_interface : Text → ℕ → Text → Action W (Mode × Option ℕ)
  make_interface probe polls name = do
    supported ← kernel_wireguard_available probe
    elim supported [ true ↦ in_kernel name | false ↦ in_userspace polls name ]

  unfoldable pub ensure_interface : Text → ℕ → Text → Action W (Mode × Option ℕ)
  ensure_interface probe polls name = do
    there ← interface_exists name
    elim there [ true ↦ known_mode name | false ↦ make_interface probe polls name ]

  abbrev lift : (W → Result Text Unit × W) → Action W Unit
  lift f g = let (r, w) = f g.world in (r, record g { world = w })

  -- `try { … } finally { fs.unlinkSync(tmp) }`: an exception of the block comes back unless the
  -- removal throws another.
  abbrev finally : Result Text Unit → Result Text Unit → Result Text Unit
  finally body (ok _) = body
  finally body (err e) = err e

  abbrev with_cleanup : Action W Unit → Action W Unit → Action W Unit
  with_cleanup body cleanup g =
      let (r, g') = body g in let (c, g'') = cleanup g' in (finally r c, g'')

  -- The key goes by a file, `tmp`; a port of 0 is no port.
  unfoldable pub set_private_key : Text → Text → Text → ℕ → Action W Unit
  set_private_key tmp name key listen_port = do
    lift (sys.write_file tmp (key ++ 10 ∷ []))
    with_cleanup
        (do
          run exec (text "wg") (
              text "set"
              ∷ name
              ∷ text "private-key"
              ∷ tmp
              ∷ (if leb 1 listen_port then text "listen-port" ∷ decimal listen_port ∷ [] else []))
          return tt)
        (lift (sys.unlink tmp))

  abbrev pub add_address : Text → Text → Action W Unit
  add_address name cidr = do
    add ← try_run exec (text "ip") (text "addr" ∷ text "add" ∷ cidr ∷ text "dev" ∷ name ∷ [])
    throw_if (refused add) (text "failed to add " ++ cidr ++ text " to " ++ name ++ text ": ")

  abbrev pub del_address : Text → Text → Action W Unit
  del_address name cidr = do
    try_run exec (text "ip") (text "addr" ∷ text "del" ∷ cidr ∷ text "dev" ∷ name ∷ [])
    return tt

  abbrev unless : Bool → Action W Unit → Action W Unit
  unless true act = return tt
  unless false act = act

  -- The two loops, on the wanted and the present set.
  unfoldable pub change_addresses : Text → List Text → List Text → Action W Unit
  change_addresses name wanted present = do
    for_each (λ cidr. unless (has cidr present) (add_address name cidr)) wanted
    for_each (λ cidr. unless (has cidr wanted) (del_address name cidr)) present

  unfoldable pub set_addresses : Text → List Text → Action W Unit
  set_addresses name cidrs = do
    shown ←
        try_run exec (text "ip")
          (text "-o" ∷ text "-4" ∷ text "addr" ∷ text "show" ∷ text "dev" ∷ name ∷ [])
    change_addresses name (set_of cidrs) (present_addresses shown)
    run exec (text "ip") (text "link" ∷ text "set" ∷ text "up" ∷ text "dev" ∷ name ∷ [])
    return tt

  unfoldable pub set_address : Text → Text → Action W Unit
  set_address name cidr = set_addresses name (cidr ∷ [])

  abbrev pub add_route : Text → Text → Action W Bool
  add_route cidr dev = do
    add ← try_run exec (text "ip") (text "route" ∷ text "add" ∷ cidr ∷ text "dev" ∷ dev ∷ [])
    throw_if (refused add) (text "failed to add route " ++ cidr ++ text " via " ++ dev ++ text ": ")
    return (succeeded add)

  unfoldable pub ensure_route : Text → Text → Action W Bool
  ensure_route cidr dev = do
    existing ← try_run exec (text "ip") (text "route" ∷ text "show" ∷ cidr ∷ text "dev" ∷ dev ∷ [])
    elim (succeeded existing && not (is_blank (output existing))) [
      | true ↦ return false
      | false ↦ add_route cidr dev
    ]
