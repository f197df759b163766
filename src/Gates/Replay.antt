-- ===== src/Gates/Replay.antt =====
-- nodejs/routes/activity.js: who sees a row of the history, against who was sent the event.
use jump_host.Base.{
  ℕ, ◌≡◌, refl, sym, ap, ◌∙◌, Bool, true, false, ◌||◌, Option, none, some, List, [], ◌∷◌, ◌++◌,
  arith, ltb, leb, if◌then◌else◌, nat_eq, text_eq, text_beq, length, any, filter, Text, text, split,
  join, Lacks, split-append, join-split, split-cons,
}
use jump_host.Base.Maps.{get}
use jump_host.Gates.Rights.{AuthConf, Identity, Request, among, auth_io, is_admin, is_jump_admin}
use jump_host.Gates.Bus
use jump_host.Gates.Bus.{
  Fields, Event, emit, Context, Reader, api_token, audit_event, reader_of, owns, created_by,
  can_read, Topic, topic_of_parts, parse_topic, name_of, context_for_socket, allowed, deliver, Row,
  is_real, pick_from, pick, owner_fields, actor_fields, record_row, publish,
}

unfoldable pub context_for_request : AuthConf → Request → Context
context_for_request conf req =
    let admin = is_admin conf req in
    record {
      username = elim req.user [ none ↦ none | some u ↦ name_of u ];
      groups = req.groups;
      is_admin = admin;
    }

-- `{created_by: event.owner || undefined, …}`
abbrev pub owner_record : Row → Fields
owner_record r =
    if leb 1 (length r.owner) then (text "created_by", r.owner) ∷ (text "uid", r.owner) ∷ [] else []

unfoldable pub visible_to : AuthConf → Context → Row → Bool
visible_to conf ctx r = elim (reader_of r.model) [
  | none ↦ false
  | some reader ↦ can_read conf reader ctx (some (owner_record r))
]

-- The feed: the rows that pass, and how many of them are newer than the watermark.
unfoldable pub feed : AuthConf → Request → List (ℕ × Row) → ℕ → List (ℕ × Row) × ℕ
feed conf req rows seen_at =
    let events = filter (λ e. visible_to conf (context_for_request conf req) e.1) rows in
    (events, length (filter (λ e. ltb seen_at e.0) events))

any-or : (p q : Text → Bool) (xs : List Text) → any (λ g. p g || q g) xs ≡ (any p xs || any q xs)
unfolding any
any-or p q [] = refl
any-or p q (x ∷ xs) = ground (arith, any-or p q xs)

-- The gate of the socket and of the replay is the gate of the audit page: for a context with the
-- rights of a request, the two decide alike.
pub is_jump_admin-agrees :
    (conf : AuthConf) (req : Request)
    → Bus.is_jump_admin conf (context_for_request conf req) ≡ is_jump_admin conf req
unfolding Bus.is_jump_admin is_jump_admin context_for_request is_admin
is_jump_admin-agrees conf req =
    ground (arith, any-or (among conf.admin_groups) (among conf.jump_admin_groups) req.groups)

model-Lacks : Lacks b':' (text "model")
model-Lacks = (
  (λ e. absurd (ground (arith, e))),
  (
    (λ e. absurd (ground (arith, e))),
    (
      (λ e. absurd (ground (arith, e))),
      ((λ e. absurd (ground (arith, e))), ((λ e. absurd (ground (arith, e))), tt)),
    ),
  ),
)

topic_tail :
    (model action p : Text) (ps : List Text)
    → topic_of_parts (text "model" ∷ model ∷ action ∷ p ∷ ps)
      ≡ some (record { model = model; action = action; pk = some (join b':' (p ∷ ps)) })
unfolding text_beq
topic_tail model action p ps = ground arith

-- A topic with a key that may hold colons is read back.
parse_topic-printed :
    (model action pk : Text)
    → Lacks b':' model
    → Lacks b':' action
    → parse_topic (text "model:" ++ (model ++ b':' ∷ (action ++ b':' ∷ pk)))
      ≡ some (record { model = model; action = action; pk = some pk })
unfolding parse_topic
parse_topic-printed model action pk hm ha =
    let head =
      split-append b':' (text "model") (model ++ b':' ∷ (action ++ b':' ∷ pk)) model-Lacks in
    let (p, ps, cut) = split-cons b':' pk in
    let parts : split b':' (text "model:" ++ (model ++ b':' ∷ (action ++ b':' ∷ pk)))
        ≡ text "model" ∷ model ∷ action ∷ p ∷ ps =
      head
      ∙ ap (◌∷◌ (text "model")) (
          split-append b':' model (action ++ b':' ∷ pk) hm
          ∙ ap (◌∷◌ model) (split-append b':' action pk ha ∙ ap (◌∷◌ action) cut)) in
    let joined : join b':' (p ∷ ps) ≡ pk = ap (join b':') (sym cut) ∙ join-split b':' pk in
    ap topic_of_parts parts
    ∙ topic_tail model action p ps
    ∙ ap (λ x. some (record { model = model; action = action; pk = some x })) joined

-- A body names its creator by a text that is no placeholder; a deletion has no body.
abbrev pub NamesOwner : Option Fields → Type 0
NamesOwner none = Unit
NamesOwner (some fields) =
    (v : Text) × (get (text "created_by") fields ≡ some v) × (is_real v ≡ true)

real-nonempty : (v : Text) → is_real v ≡ true → leb 1 (length v) ≡ true
real-nonempty v h = ground arith

recovered :
    (r : Row) (b : Option Fields)
    → NamesOwner b
    → r.owner ≡ pick b owner_fields
    → created_by (some (owner_record r)) ≡ created_by b
unfolding get text_beq pick_from
recovered r none named e = rw e refl
recovered r (some fields) (v, there, real) e =
    let first : pick_from fields owner_fields ≡ v = rw (pick_from, there, real) refl in
    rw (e ∙ first, real-nonempty v real) (sym there)

row_of :
    (e : Event) (row : Row)
    → record_row e ≡ some row
    → (row.model ≡ e.model) × (row.owner ≡ pick e.body owner_fields)
unfolding record_row
row_of e row h = ground arith

same_context :
    (conf : AuthConf) (user : Identity) (groups : List Text)
    → context_for_request conf (record { user = some user; groups = groups })
      ≡ context_for_socket (auth_io conf user groups)
unfolding context_for_request auth_io
same_context conf user groups = refl

same_gate :
    (conf : AuthConf) (reader : Reader) (ctx : Context) (one other : Option Fields)
    → created_by one ≡ created_by other
    → can_read conf reader ctx one ≡ can_read conf reader ctx other
unfolding can_read
same_gate conf api_token ctx one other e = ap (owns ctx.username) e
same_gate conf audit_event ctx one other e = refl

visible_to-reader :
    (conf : AuthConf) (ctx : Context) (r : Row) (reader : Reader)
    → reader_of r.model ≡ some reader
    → visible_to conf ctx r ≡ can_read conf reader ctx (some (owner_record r))
unfolding visible_to
visible_to-reader conf ctx r reader found = ground arith

-- History is the same decision as the live delivery: a person whose socket is open sees the row of an
-- event in the feed exactly if the socket was sent the event, where a body names its creator.
pub visible_to-allowed :
    (conf : AuthConf) (user : Identity) (groups : List Text) (e : Event) (reader : Reader)
    (row : Row)
    → reader_of e.model ≡ some reader
    → record_row e ≡ some row
    → NamesOwner e.body
    → visible_to conf (context_for_request conf (record { user = some user; groups = groups })) row
      ≡ allowed conf reader e (auth_io conf user groups)
unfolding auth_io
visible_to-allowed conf user groups e reader row found recorded named =
    let (models, owners) = row_of e row recorded in
    let ctx = context_for_socket (auth_io conf user groups) in
    visible_to-reader conf _ row reader (ap reader_of models ∙ found)
    ∙ ap (λ x. can_read conf reader x (some (owner_record row))) (same_context conf user groups)
    ∙ same_gate conf reader ctx (some (owner_record row)) e.body (recovered row e.body named owners)
