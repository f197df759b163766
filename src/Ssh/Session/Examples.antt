-- ===== src/Ssh/Session/Examples.antt =====
-- A session whose audit record cannot be written once its host is reached.
use jump_host.Base.{
  ◌≡◌, refl, Option, true, false, none, some, List, [], ◌∷◌, nat_eq, text_eq, ok, err, Text, text,
}
use jump_host.Directory.Samples.{ascii, inventory}
use jump_host.Audit.Event.{new_event}
use jump_host.Ssh.Keys.{User}
use jump_host.Ssh.Session.{Answers, Front, Clock, Server, on_ready}
use jump_host.Ssh.Registry.{count}
use jump_host.Directory.Host.{Host}
use jump_host.Picker.Keys.{Step, done, on, pick_host}
use jump_host.Ssh.Session.Tui.{run_tui_session}
use jump_host.Ssh.Session.Visits.{Accounted, run_tui_session-Accounted}

abbrev ann : User
ann = record { uid = text "ann"; dn = text "uid=ann"; ssh_public_keys = text "gate" ∷ [] }

abbrev front : Front
front = record {
  js = ascii;
  allow_raw_ips = false;
  default_port = 22;
  max_events = none;
  public_line = text "gate";
  user = ann;
  uid = text "ann";
  target = text "web01";
}

-- The record of the success cannot be written.
abbrev answers : Answers (List Text)
answers = record {
  hosts = ok inventory;
  targeted = ok tt;
  marked = err (text "redis");
  bumped = ok tt;
  closed = ok tt;
  noted = ok tt;
  certificate = none;
  ldap = record { add_ssh_key = λ d dn line. ok (line ∷ d) };
  first = ok tt;
  second = ok tt;
  clears = true;
}

abbrev clock : Clock
clock = record { now = 50; later = 50; day = text "2026-01-01" }

abbrev server : Server (List Text)
server = record {
  registry = [];
  counters = [];
  event = new_event (text "e1") 40 (record {
    uid = text "ann";
    auth_method = text "publickey";
    client_ip = none;
    mode = text "grammar";
  });
  audit = record { index = []; hashes = [] };
  store = record { directory = []; flags = [] };
}

-- The picker, where Enter is the one key.
abbrev picked : Step → Option Host
picked (done choice) = choice
picked (on st) = none

abbrev first_pick : List Host → Option Host
first_pick hosts = picked (pick_host ascii.lower hosts ((13 ∷ []) ∷ []))

run_tui_session-Accounted_example :
    Accounted front answers clock server (run_tui_session front answers clock first_pick server)
run_tui_session-Accounted_example = run_tui_session-Accounted front answers clock first_pick server

-- A full registry turns clients away.
full :
    on_ready (some 1) (
      (
        text "e1",
        record { started_at = 0; uid = text "ann"; target = some (text "10.1.0.7"); slug = none },
      )
      ∷ [])
    ≡ false
unfolding on_ready count
full = refl
