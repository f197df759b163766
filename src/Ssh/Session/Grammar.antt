-- ===== src/Ssh/Session/Grammar.antt =====
-- nodejs/services/ssh_server.js: runGrammar, with what its client is told, and wireTeardown.
use jump_host.Base.{
  not, Bool, true, false, Option, none, some, if◌then◌else◌, ◌==◌, nat_eq, text_eq, Result, ok, err,
  Text, text,
}
use jump_host.Ssh.Registry.{remove}
use jump_host.Ssh.Session.{
  Answers, Front, Clock, Server, Failure, resolve, after_resolve, note_failure, finished,
}

-- `reasonMessage`
abbrev pub reason_message : Text → Text
reason_message reason =
    if reason == text "no-such-target"
    then text "no host you can access matches that target"
    else if reason == text "no-access"
    then text "you do not have access to that host"
    else if reason == text "directory-unreachable"
    then text "directory service unavailable"
    else if reason == text "upstream-unreachable"
    then text "could not reach the target host"
    else if reason == text "key-inject-failed"
    then text "could not provision your access key"
    else reason

-- How `runGrammar` leaves things: the message for the client, if it is turned away, whether the end of
-- the upstream is listened for, and whether the `catch` block throws in its turn.
pub record Ended (D : Type 0) : Type 0 where
  pub server : Server D
  pub rejected : Option Text
  pub wired : Bool
  pub thrown : Bool

module _ {D : Type 0} (f : Front) (a : Answers D) (clock : Clock) where
  abbrev pub conclude : Result Failure Unit × Server D → Ended D
  conclude (ok _, s) = record { server = s; rejected = none; wired = true; thrown = false }
  conclude (err e, s) =
      let (noted, after) = note_failure f a clock e s in
      record {
        server = after;
        rejected = some (reason_message e.reason);
        wired = false;
        thrown = not noted;
      }

  -- From the state whose event `audit.create` has just written.
  unfoldable pub run_grammar : Server D → Ended D
  run_grammar s = conclude (after_resolve f a clock (resolve f a.hosts) s)

  -- The listener for the upstream's end.
  unfoldable pub on_close : Server D → Server D
  on_close s =
      let gone = record s { registry = remove s.event.id s.registry } in
      finished f a clock (λ e. record e { success = true }) gone
