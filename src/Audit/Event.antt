-- ===== src/Audit/Event.antt =====
-- nodejs/models/audit_event.js: an event, its stored form, and the paged list.
use jump_host.Base.{
  min, ◌+◌, ℕ, ◌-◌, Bool, true, false, not, ◌&&◌, ◌||◌, Option, none, some, List, [], ◌∷◌, reverse,
  leb, if◌then◌else◌, ◌==◌, nat_eq, text_eq, length, take, drop, all, Text, text, is_digit,
}
use jump_host.Base.Int.{ℤ, pos, negsuc, ◌+ℤ◌, times}
use jump_host.Base.Decimal.{decimal, value}
use jump_host.Base.Maps.{get}
use jump_host.Audit.Index.{Member, Hash, Redis, write}

-- `none` is the empty text of a field that `create` fills so, or a value that is null or undefined.
-- `failDetail` is absent until `finish` names it.
pub record Event : Type 0 where
  pub id : Text
  pub ts : ℕ
  pub uid : Text
  pub auth_method : Text
  pub mode : Text
  pub target_slug : Option Text
  pub target_addr : Option Text
  pub target_port : Option ℕ
  pub channel : Text
  pub client_ip : Option Text
  pub success : Bool
  pub fail_reason : Text
  pub fail_detail : Option (Option Text)
  pub host_key_fp : Text
  pub started_at : ℕ
  pub ended_at : Option ℕ
  pub duration_ms : Option ℕ
  pub bytes_in : ℕ
  pub bytes_out : ℕ

-- The fields that the gateway gives to `create`.
pub record Fields : Type 0 where
  pub uid : Text
  pub auth_method : Text
  pub client_ip : Option Text
  pub mode : Text

-- The event of `create`, at its time and with its random id.
abbrev pub new_event : Text → ℕ → Fields → Event
new_event id ts f = record {
  id = id;
  ts = ts;
  uid = f.uid;
  auth_method = f.auth_method;
  mode = f.mode;
  target_slug = none;
  target_addr = none;
  target_port = none;
  channel = [];
  client_ip = f.client_ip;
  success = false;
  fail_reason = [];
  fail_detail = none;
  host_key_fp = [];
  started_at = ts;
  ended_at = none;
  duration_ms = none;
  bytes_in = 0;
  bytes_out = 0;
}

abbrev pub of_bool : Bool → Text
of_bool true = text "1"
of_bool false = text "0"

abbrev pub of_option : Option Text → Text
of_option none = []
of_option (some v) = v

abbrev pub of_number : Option ℕ → Text
of_number none = []
of_number (some n) = decimal n

abbrev detail_entry : Option (Option Text) → Hash
detail_entry none = []
detail_entry (some v) = (text "failDetail", of_option v) ∷ []

unfoldable pub serialize : Event → Hash
serialize e =
    (text "id", e.id)
    ∷ (text "ts", decimal e.ts)
    ∷ (text "uid", e.uid)
    ∷ (text "authMethod", e.auth_method)
    ∷ (text "mode", e.mode)
    ∷ (text "targetSlug", of_option e.target_slug)
    ∷ (text "targetAddr", of_option e.target_addr)
    ∷ (text "targetPort", of_number e.target_port)
    ∷ (text "channel", e.channel)
    ∷ (text "clientIp", of_option e.client_ip)
    ∷ (text "success", of_bool e.success)
    ∷ (text "failReason", e.fail_reason)
    ∷ (text "hostKeyFp", e.host_key_fp)
    ∷ (text "startedAt", decimal e.started_at)
    ∷ (text "endedAt", of_number e.ended_at)
    ∷ (text "durationMs", of_number e.duration_ms)
    ∷ (text "bytesIn", decimal e.bytes_in)
    ∷ (text "bytesOut", decimal e.bytes_out)
    ∷ detail_entry e.fail_detail

-- What `deserialize` returns: the fields of the hash, and those that it converts.
pub record Row : Type 0 where
  pub fields : Hash
  pub ts : Option ℕ
  pub success : Bool
  pub bytes_in : Option ℕ
  pub bytes_out : Option ℕ
  pub duration_ms : Option ℕ

-- `Number(v)`, at digits and at the empty text; `none` for any other text, and where `v` is absent.
abbrev pub number : Option Text → Option ℕ
number none = none
number (some v) = if all is_digit v then some (value v) else none

-- `Number(v || 0)`
abbrev pub number_or_zero : Option Text → Option ℕ
number_or_zero none = some 0
number_or_zero (some v) = number (some v)

abbrev pub is_word : Option Text → Text → Bool
is_word none w = false
is_word (some v) w = v == w

abbrev pub field : Text → Hash → Option Text
field k h = get k h

unfoldable pub deserialize : Option Hash → Option Row
deserialize none = none
deserialize (some h) = elim (field (text "id") h) [
  | none ↦ none
  | some id ↦
      if leb 1 (length id)
      then some (record {
        fields = h;
        ts = number (field (text "ts") h);
        success = is_word (field (text "success") h) (text "1");
        bytes_in = number_or_zero (field (text "bytesIn") h);
        bytes_out = number_or_zero (field (text "bytesOut") h);
        duration_ms =
            if is_word (field (text "durationMs") h) []
            then none
            else number (field (text "durationMs") h);
      })
      else none
]

-- The filters of `list`. A text that is absent or empty does not filter.
pub record Query : Type 0 where
  pub uid : Option Text
  pub target : Option Text
  pub status : Option Text

abbrev pub passes : Option Text → (Text → Bool) → Bool
passes none p = true
passes (some v) p = not (leb 1 (length v) && not (p v))

unfoldable pub matches : Query → Row → Bool
matches q e =
    passes q.uid (λ u. is_word (field (text "uid") e.fields) u)
    && passes q.target (λ t.
      is_word (field (text "targetSlug") e.fields) t
      || is_word (field (text "targetAddr") e.fields) t)
    && not (is_word q.status (text "success") && not e.success)
    && not (is_word q.status (text "fail") && e.success)

-- The loop over the ids.
unfoldable pub collect : Query → List (Text × Hash) → List Member → List Row
collect q hashes [] = []
collect q hashes (m ∷ ms) =
    let rest = collect q hashes ms in
    elim (deserialize (get m.id hashes)) [
      | none ↦ rest
      | some e ↦ if matches q e then e ∷ rest else rest
    ]

pub record Page : Type 0 where
  pub total : ℕ
  pub page : ℕ
  pub page_size : ℤ
  pub results : List Row

-- Where `slice` cuts: a negative index counts from the end.
abbrev pub cut_at : ℕ → ℤ → ℕ
cut_at count (pos n) = min n count
cut_at count (negsuc n) = count - (n + 1)

abbrev pub slice : List Row → ℤ → ℤ → List Row
slice xs start stop =
    let first = cut_at (length xs) start in take (cut_at (length xs) stop - first) (drop first xs)

-- `list`, at whole numbers: its one caller parses both, and gives no page below 0, but any page size up
-- to 200, negative ones too.
unfoldable pub list : ℕ → ℤ → Query → Redis → Page
list page page_size q r =
    let events = collect q r.hashes (reverse r.index) in
    let start = times page page_size in
    record {
      total = length events;
      page = page;
      page_size = page_size;
      results = slice events start (start +ℤ page_size);
    }

-- A handle's operations on its event, which it shares with its caller. An update is what
-- `Object.assign` does to the event.
unfoldable pub create : Option ℕ → Text → ℕ → Fields → Redis → Event × Redis
create max_events id ts f r =
    let event = new_event id ts f in (event, write max_events id ts (serialize event) r)

unfoldable pub patch : Option ℕ → (Event → Event) → Event × Redis → Event × Redis
patch max_events update (event, r) =
    let changed = update event in
    (changed, write max_events changed.id changed.ts (serialize changed) r)

-- `finish` reads the clock twice; a clock that is set back gives 0 for a negative duration.
unfoldable pub finish : Option ℕ → ℕ → ℕ → (Event → Event) → Event × Redis → Event × Redis
unfolding patch
finish max_events now later update h =
    let (event, r) = h in
    let started = event.started_at in
    patch max_events
      (λ e. record (update e) { ended_at = some now; duration_ms = some (later - started) })
      (event, r)
