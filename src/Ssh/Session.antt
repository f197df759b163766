-- ===== src/Ssh/Session.antt =====
-- nodejs/services/ssh_server.js: onReady, and resolveAndConnect with the other steps that the sessions share,
-- over the audit record, the counters and nodejs/services/session_registry.js.
pub mod Accounting
mod Examples
pub mod Grammar
pub mod Tui
pub mod Visits
pub mod Granted
use jump_host.Base.{
  ℕ, zero, suc, ◌+◌, ◌-◌, ◌*◌, ◌/◌, ◌%◌, ◌^◌, ◌≤◌, ◌<◌, min, pred, ◌≡◌, refl, sym, ap, ap₂, ◌∙◌,
  subst, ◌≡⟨◌⟩◌, ◌∎, ◌≢◌, ◌↔◌, ◌⊎◌, inl, inr, Bool, true, false, not, ◌&&◌, ◌||◌, Option, none,
  some, List, [], ◌∷◌, ◌++◌, map, reverse, append-nil, append_assoc, map-append, arith, ltb, leb,
  if◌then◌else◌, ltb→lt, lt→ltb, leb→le, le→leb, tests, Bool-cases, Option-cases, Eq, ◌==◌, eq_iff,
  eq_refl, eq_of_ne, nat_eq, text_eq, text_beq, Result, ok, err, require, Result-cases, length,
  length-append, get_elem?, take, drop, length-take, take-append, drop-append, all, any, find,
  filter, In, All, All-In, All-from_members, In-append, Text, text, is_digit, is_lower, is_upper,
  split, join, Lacks, split_of_Lacks, split-append, split-Lacks, join-split, starts_with, index_of,
  starts_with_iff, split-join, all_iff, any_iff, find-eq-some, find-eq-none, In-filter,
  length-filter-le, All-imp, All-append, drop-nil, drop-add, take-append-drop,
}
use jump_host.Base.Maps.{get, put, delete}
use jump_host.Directory.Host.{Host, Platform, or_else}
use jump_host.Directory.Target.{Matched, host, raw, match_target, Endpoint, host_endpoint}
use jump_host.Audit.Index.{Redis}
use jump_host.Audit.Event
use jump_host.Audit.Event.{create, patch, finish, Fields}
use jump_host.Ssh.Registry.{Live, Registry, add, remove, list, count}
use jump_host.Ssh.Metrics.{Counters, Done, all_done, bump}
use jump_host.Ssh.Keys.{User, Ldap, Store, Dial, Connected, connect_after, reach}

-- `(conf.ssh && conf.ssh.maxSessions) || 100`
abbrev pub max_sessions : Option ℕ → ℕ
max_sessions none = 100
max_sessions (some n) = if n == 0 then 100 else n

-- Whether a client that is ready is served: else the connection ends.
unfoldable pub on_ready : Option ℕ → Registry → Bool
unfolding count
on_ready limit sessions = not (leb (max_sessions limit) (count sessions))

-- What `fail` throws, and an exception without a reason, whose fields are absent.
pub record Failure : Type 0 where
  pub reason : Text
  pub detail : Option Text
  pub host_slug : Option Text

abbrev pub plain : Failure
plain = record { reason = text "error"; detail = none; host_slug = none }

-- What the parts outside answer in a session. `targeted`, `marked` and `bumped` are Redis calls of the
-- `try` block, `closed` and `noted` the two of the `catch` block. A failed `bump` says which of its own
-- calls were carried out.
pub record Answers (D : Type 0) : Type 0 where
  pub hosts : Result Text (List Host)
  pub targeted : Result Text Unit
  pub marked : Result Text Unit
  pub bumped : Result Done Unit
  pub closed : Result Text Unit
  pub noted : Result Done Unit
  pub certificate : Option (Result Text Unit)
  pub ldap : Ldap D
  pub first : Dial
  pub second : Dial
  pub clears : Bool

-- The configuration, and what a session knows of its client.
pub record Front : Type 0 where
  pub js : Platform
  pub allow_raw_ips : Bool
  pub default_port : ℕ
  pub max_events : Option ℕ
  pub public_line : Text
  pub user : User
  pub uid : Text
  pub target : Text

pub record Clock : Type 0 where
  pub now : ℕ
  pub later : ℕ
  pub day : Text

-- The state that sessions share, and the event of this one.
pub record Server (D : Type 0) : Type 0 where
  pub registry : Registry
  pub counters : Counters
  pub event : Event.Event
  pub audit : Redis
  pub store : Store D

abbrev pub slug_of : Matched → Option Text
slug_of (host h) = h.slug
slug_of (raw a) = some (text "raw-ip")

-- The slug that a failure names: that of a host.
abbrev pub host_slug_of : Matched → Option Text
host_slug_of (host h) = h.slug
host_slug_of (raw a) = none

abbrev pub endpoint_of : Front → Matched → Endpoint
endpoint_of f (host h) = host_endpoint f.js h f.default_port
endpoint_of f (raw a) = record { address = some a; port = f.default_port }

abbrev pub failure : Text → Option Text → Option Text → Failure
failure reason detail slug = record { reason = reason; detail = detail; host_slug = slug }

-- `if (!endpoint.address) throw fail('no-address')`
abbrev pub with_address : Matched → Endpoint → Result Failure (Matched × Text × ℕ)
with_address m e = elim e.address [
  | none ↦ err (failure (text "no-address") none none)
  | some a ↦
      if leb 1 (length a) then ok (m, a, e.port) else err (failure (text "no-address") none none)
]

-- The target of the session: who it is, where it is. The exception of `matchTarget` has a code and no
-- reason.
unfoldable pub resolve : Front → Result Text (List Host) → Result Failure (Matched × Text × ℕ)
resolve f (err message) = err (failure (text "directory-unreachable") none none)
resolve f (ok hosts) = elim (match_target f.js f.target hosts f.allow_raw_ips) [
  | err _ ↦ err plain
  | ok m ↦ with_address m (endpoint_of f m)
]

module _ {D : Type 0} (f : Front) (a : Answers D) (clock : Clock) where
  -- `record.patch(…)`
  abbrev pub patched : (Event.Event → Event.Event) → Server D → Server D
  patched update s =
      let (e, r) = patch f.max_events update (s.event, s.audit) in record s { event = e; audit = r }

  -- `record.patch(…)` whose write fails: the event in memory is changed, and, as is taken here, nothing
  -- of it is stored.
  abbrev pub unsaved : (Event.Event → Event.Event) → Server D → Server D
  unsaved update s = record s { event = update s.event }

  -- `record.finish(…)`
  abbrev pub finished : (Event.Event → Event.Event) → Server D → Server D
  finished update s =
      let (e, r) = finish f.max_events clock.now clock.later update (s.event, s.audit) in
      record s { event = e; audit = r }

  abbrev pub bumped_with : Done → Option Text → Bool → Server D → Server D
  bumped_with d slug success s = record s {
    counters = bump d clock.day clock.now (some f.uid) slug success s.counters;
  }

  -- The certificate, or the key in the directory, and then the connection.
  abbrev pub provision : Store D → Result Text Connected × Store D
  provision s = elim a.certificate [
    | none ↦ reach a.ldap f.js.lower f.user f.public_line f.uid a.first a.second a.clears s
    | some answer ↦
        connect_after f.js.lower f.uid a.first a.second a.clears
          (elim answer [ ok _ ↦ ok false | err m ↦ err m ]) s
  ]

  abbrev pub key_failure : Text
  key_failure = elim a.certificate [
    | none ↦ text "key-inject-failed"
    | some _ ↦ text "pki-cert-failed"
  ]

  abbrev pub connected : Option Text → Result Text Connected → Result Failure Unit
  connected slug (err message) = err (failure key_failure (some message) slug)
  connected slug (ok c) = elim c.result [
    | ok _ ↦ ok tt
    | err message ↦ err (failure (text "upstream-unreachable") (some message) slug)
  ]

  abbrev pub of_plain : Result Text Unit → Result Failure Unit
  of_plain (ok _) = ok tt
  of_plain (err _) = err plain

  -- Where the session goes, in its record; a failed call of Redis has no reason.
  abbrev pub target_fields : Matched → Option Text → ℕ → Event.Event → Event.Event
  target_fields m address port e = record e {
    target_slug = slug_of m;
    target_addr = address;
    target_port = some port;
  }

  abbrev pub note_target : Matched → Option Text → ℕ → Server D → Result Failure Unit × Server D
  note_target m address port s = elim a.targeted [
    | ok _ ↦ (ok tt, patched (target_fields m address port) s)
    | err _ ↦ (err plain, unsaved (target_fields m address port) s)
  ]

  -- The upstream is dialled, with the state of the directory and its flags after it.
  abbrev pub dial : Option Text → Server D → Result Failure Unit × Server D
  dial slug s = let (r, store) = provision s.store in (connected slug r, record s { store = store })

  -- The rest of the `try` block once the upstream is there: the first Redis call that fails ends it.
  abbrev pub live_of : Matched → Option Text → Live
  live_of m address = record {
    started_at = clock.now;
    uid = f.uid;
    target = address;
    slug = slug_of m;
  }

  abbrev pub enter : Matched → Option Text → Server D → Server D
  enter m address s = record s { registry = add s.event.id (live_of m address) s.registry }

  abbrev pub settle : Matched → Server D → Result Failure Unit × Server D
  settle m s = elim a.marked [
    | err _ ↦ (err plain, unsaved (λ e. record e { success = true }) s)
    | ok _ ↦
        let saved = patched (λ e. record e { success = true }) s in
        elim a.bumped [
          | err d ↦ (err plain, bumped_with d (host_slug_of m) true saved)
          | ok _ ↦ (ok tt, bumped_with all_done (host_slug_of m) true saved)
        ]
  ]

  -- The `try` block of `runGrammar`.
  abbrev pub after_dial :
      Matched → Option Text → Result Failure Unit × Server D → Result Failure Unit × Server D
  after_dial m address (err e, s) = (err e, s)
  after_dial m address (ok _, s) = settle m (enter m address s)

  abbrev pub after_target :
      Matched → Option Text → Result Failure Unit × Server D → Result Failure Unit × Server D
  after_target m address (err e, s) = (err e, s)
  after_target m address (ok _, s) = after_dial m address (dial (host_slug_of m) s)

  abbrev pub after_resolve :
      Result Failure (Matched × Text × ℕ) → Server D → Result Failure Unit × Server D
  after_resolve (err e) s = (err e, s)
  after_resolve (ok (m, address, port)) s =
      after_target m (some address) (note_target m (some address) port s)

  abbrev pub failed_fields : Failure → Event.Event → Event.Event
  failed_fields e event = record event {
    success = false;
    fail_reason = e.reason;
    fail_detail = some e.detail;
  }

  -- `record.finish(…)` whose write fails.
  abbrev pub closed_unsaved : Failure → Server D → Server D
  closed_unsaved e s =
      let started = s.event.started_at in
      unsaved
        (λ event. record (failed_fields e event) {
          ended_at = some clock.now;
          duration_ms = some (clock.later - started);
        })
        s

  -- `record.finish` and `metrics.bump`, for a session that failed, and whether both went through: the
  -- first that fails ends it.
  abbrev pub note_failure : Failure → Server D → Bool × Server D
  note_failure e s = elim a.closed [
    | err _ ↦ (false, closed_unsaved e s)
    | ok _ ↦
        let ended = finished (failed_fields e) s in
        elim a.noted [
          | err d ↦ (false, bumped_with d e.host_slug false ended)
          | ok _ ↦ (true, bumped_with all_done e.host_slug false ended)
        ]
  ]
