-- ===== src/Ssh/Session/Tui.antt =====
-- nodejs/services/ssh_server.js: runTuiSession.
use jump_host.Base.{
  if◌then◌else◌, Option, none, some, List, nat_eq, text_eq, Result, ok, err, Text, text,
}
use jump_host.Directory.Host.{Host}
use jump_host.Directory.Target.{host, host_endpoint}
use jump_host.Ssh.Session.{
  Answers, Front, Clock, Server, Failure, failure, note_failure, settle, enter, dial, note_target,
}

-- How `runTuiSession` ends: served, failed with its client sent away, or with an exception.
pub data Outcome : Type 0 where
  served : Outcome
  turned_away : Text → Outcome
  thrown : Outcome

module _ {D : Type 0} (f : Front) (a : Answers D) (clock : Clock) where
  abbrev pub finish_fail : Failure → Server D → Outcome × Server D
  finish_fail e s =
      let (noted, after) = note_failure f a clock e s in
      (if noted then turned_away e.reason else thrown, after)

  abbrev pub served_or_thrown : Result Failure Unit × Server D → Outcome × Server D
  served_or_thrown (ok _, s) = (served, s)
  served_or_thrown (err e, s) = (thrown, s)

  abbrev pub tui_dialled : Host → Option Text → Result Failure Unit × Server D → Outcome × Server D
  tui_dialled h address (err e, s) = finish_fail e s
  tui_dialled h address (ok _, s) =
      served_or_thrown (settle f a clock (host h) (enter f a clock (host h) address s))

  abbrev pub tui_noted : Host → Option Text → Result Failure Unit × Server D → Outcome × Server D
  tui_noted h address (err e, s) = (thrown, s)
  tui_noted h address (ok _, s) = tui_dialled h address (dial f a clock h.slug s)

  abbrev pub tui_chosen : Option Host → Server D → Outcome × Server D
  tui_chosen none s = finish_fail (failure (text "cancelled") none none) s
  tui_chosen (some h) s =
      let e = host_endpoint f.js h f.default_port in
      tui_noted h e.address (note_target f a clock (host h) e.address e.port s)

  -- `choice` is what the picker gives for the accessible hosts.
  abbrev pub tui_listed :
      (List Host → Option Host) → Result Text (List Host) → Server D → Outcome × Server D
  tui_listed choice (err message) s =
      finish_fail (failure (text "directory-unreachable") none none) s
  tui_listed choice (ok hosts) s = tui_chosen (choice hosts) s

  unfoldable pub run_tui_session : (List Host → Option Host) → Server D → Outcome × Server D
  run_tui_session choice s = tui_listed choice a.hosts s
