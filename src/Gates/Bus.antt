-- ===== src/Gates/Bus.antt =====
-- nodejs/utils/model_events.js (emit), nodejs/utils/socket_pubsub.js, and record of nodejs/models/activity_event.js.
use jump_host.Base.{
  Bool, true, false, not, ◌&&◌, ◌||◌, Option, none, some, List, [], ◌∷◌, ◌++◌, leb, if◌then◌else◌,
  ◌==◌, nat_eq, text_eq, length, any, filter, Text, text, split, join,
}
use jump_host.Base.Maps.{get}
use jump_host.Directory.Host.{or_else}
use jump_host.Gates.Rights.{AuthConf, Identity, among, Socket}

-- A record's fields, as texts; a null or undefined field is absent.
abbrev pub Fields : Type 0
Fields = List (Text × Text)

pub record Event : Type 0 where
  pub model : Text
  pub action : Text
  pub pk : Text
  pub body : Option Fields

-- `emit`: the topic and the event that go to the bus.
unfoldable pub emit : Text → Text → Text → Option Fields → Text × Event
emit model action pk record_fields = (
  text "model:" ++ (model ++ b':' ∷ action),
  record {
    model = model;
    action = action;
    pk = pk;
    body = if action == text "delete" then none else record_fields;
  },
)

pub record Context : Type 0 where
  pub username : Option Text
  pub groups : List Text
  pub is_admin : Bool

unfoldable pub is_jump_admin : AuthConf → Context → Bool
is_jump_admin conf ctx =
    if ctx.is_admin
    then true
    else any (λ g. among conf.admin_groups g || among conf.jump_admin_groups g) ctx.groups

-- The gate of a model in READERS.
pub data Reader : Type 0 where
  api_token audit_event : Reader

unfoldable pub reader_of : Text → Option Reader
reader_of model =
    if model == text "ApiToken"
    then some api_token
    else if model == text "AuditEvent"
    then some audit_event
    else none

-- `!!self && !!owner && String(owner) === String(self)`
abbrev pub owns : Option Text → Option Text → Bool
owns none owner = false
owns (some self) none = false
owns (some self) (some owner) = leb 1 (length self) && leb 1 (length owner) && owner == self

abbrev pub created_by : Option Fields → Option Text
created_by none = none
created_by (some fields) = get (text "created_by") fields

unfoldable pub can_read : AuthConf → Reader → Context → Option Fields → Bool
can_read conf api_token ctx fields = owns ctx.username (created_by fields)
can_read conf audit_event ctx fields = is_jump_admin conf ctx

pub record Topic : Type 0 where
  pub model : Text
  pub action : Text
  pub pk : Option Text

-- `parts`, cut up.
abbrev pub topic_of_parts : List Text → Option Topic
topic_of_parts (kind ∷ model ∷ action ∷ rest) =
    if kind == text "model"
    then some (record {
      model = model;
      action = action;
      pk = if leb 1 (length rest) then some (join b':' rest) else none;
    })
    else none
topic_of_parts parts = none

unfoldable pub parse_topic : Text → Option Topic
parse_topic topic = topic_of_parts (split b':' topic)

abbrev pub name_of : Identity → Option Text
name_of u = or_else u.username u.uid

abbrev pub context_for_socket : Socket → Context
context_for_socket s = record {
  username = elim s.user [ none ↦ none | some u ↦ name_of u ];
  groups = s.groups;
  is_admin = s.is_admin;
}

-- Whether the socket is sent the event, in the loop of `attach`.
abbrev pub allowed : AuthConf → Reader → Event → Socket → Bool
allowed conf reader e s = elim s.user [
  | none ↦ false
  | some u ↦ can_read conf reader (context_for_socket s) e.body
]

-- The sockets that a message on the bus is sent to: the listener of `attach`.
unfoldable pub deliver : AuthConf → Text → Event → List Socket → List Socket
deliver conf topic e sockets = elim (parse_topic topic) [
  | none ↦ []
  | some t ↦ elim (reader_of t.model) [
    | none ↦ []
    | some reader ↦ filter (allowed conf reader e) sockets
  ]
]

-- A row of the history, with `[]` for an empty field.
pub record Row : Type 0 where
  pub model : Text
  pub action : Text
  pub target : Text
  pub actor : Text
  pub owner : Text

abbrev pub placeholders : List Text
placeholders = text "__NONE__" ∷ text "undefined" ∷ text "null" ∷ []

abbrev pub is_real : Text → Bool
is_real v = leb 1 (length v) && not (among placeholders v)

unfoldable pub pick_from : Fields → List Text → Text
pick_from fields [] = []
pick_from fields (f ∷ fs) =
    let rest = pick_from fields fs in
    elim (get f fields) [ none ↦ rest | some v ↦ if is_real v then v else rest ]

abbrev pub pick : Option Fields → List Text → Text
pick none names = []
pick (some fields) names = pick_from fields names

abbrev pub actor_fields : List Text
actor_fields = text "updated_by" ∷ text "created_by" ∷ text "actor" ∷ text "uid" ∷ []

abbrev pub owner_fields : List Text
owner_fields =
    text "created_by" ∷ text "uid" ∷ text "username" ∷ text "owner" ∷ text "requestedBy" ∷ []

-- `record`: the row to be stored, where the event has a model and an action.
unfoldable pub record_row : Event → Option Row
record_row e =
    if leb 1 (length e.model) && leb 1 (length e.action)
    then some (record {
      model = e.model;
      action = e.action;
      target = e.pk;
      actor = pick e.body actor_fields;
      owner = pick e.body owner_fields;
    })
    else none

-- `liveBus(ps).publish`: what is published, and the row of its history.
unfoldable pub publish : AuthConf → Text × Event → List Socket → List Socket × Option Row
publish conf (topic, e) sockets = elim (reader_of e.model) [
  | none ↦ ([], none)
  | some reader ↦ (deliver conf topic e sockets, record_row e)
]
