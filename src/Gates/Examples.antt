-- ===== src/Gates/Examples.antt =====
-- A token of ann's, announced to ann and to bob.
use jump_host.Base.{
  ◌≡◌, refl, none, some, [], ◌∷◌, arith, nat_eq, text_eq, text_beq, any, filter, Text, text, split,
  Lacks,
}
use jump_host.Base.Maps.{get}
use jump_host.Gates.Rights
use jump_host.Gates.Rights.{AuthConf, Identity, Request, Socket, auth_io, is_admin, among}
use jump_host.Gates.Bus
use jump_host.Gates.Bus.{
  Fields, Event, emit, Context, Reader, api_token, reader_of, can_read, parse_topic, allowed,
  deliver, Row, record_row, pick_from, publish,
}
use jump_host.Gates.Replay.{
  context_for_request, visible_to, is_jump_admin-agrees, NamesOwner, visible_to-allowed,
}

abbrev conf : AuthConf
conf = record {
  admin_groups = text "admins" ∷ [];
  admin_users = [];
  jump_admin_groups = text "jump" ∷ [];
}

abbrev person : Text → Identity
person name = record { username = some name; uid = none }

abbrev token : Event
token = record {
  model = text "ApiToken";
  action = text "create";
  pk = text "t1";
  body = some ((text "created_by", text "ann") ∷ []);
}

abbrev row : Row
row = record {
  model = text "ApiToken";
  action = text "create";
  target = text "t1";
  actor = text "ann";
  owner = text "ann";
}

announced :
    emit (text "ApiToken") (text "create") (text "t1") token.body
    ≡ (text "model:ApiToken:create", token)
unfolding emit text_beq
announced = refl

-- The owner is sent the event; an administrator is not.
only_the_owner :
    deliver conf (text "model:ApiToken:create") token (
      auth_io conf (person (text "ann")) []
      ∷ auth_io conf (person (text "bob")) (text "admins" ∷ [])
      ∷ [])
    ≡ auth_io conf (person (text "ann")) [] ∷ []
unfolding deliver parse_topic reader_of can_read auth_io is_admin any filter get split text_beq
only_the_owner = refl

-- Nobody is sent the removal of a token, its owner included.
removal_unseen :
    deliver conf
      (text "model:ApiToken:delete")
      (emit (text "ApiToken") (text "delete") (text "t1") token.body).1
      (auth_io conf (person (text "ann")) [] ∷ [])
    ≡ []
unfolding emit deliver parse_topic reader_of can_read auth_io is_admin any filter get split text_beq
removal_unseen = refl

recorded : record_row token ≡ some row
unfolding record_row pick_from get any text_beq
recorded = refl

read_by : reader_of token.model ≡ some api_token
unfolding reader_of text_beq
read_by = refl

named : NamesOwner token.body
unfolding get any text_beq
named = (text "ann", refl, refl)

visible_to-allowed_example :
    visible_to conf
      (context_for_request conf (record { user = some (person (text "ann")); groups = [] }))
      row
    ≡ allowed conf api_token token (auth_io conf (person (text "ann")) [])
visible_to-allowed_example =
    visible_to-allowed conf (person (text "ann")) [] token api_token row read_by recorded named

is_jump_admin-agrees_example :
    Bus.is_jump_admin conf (
      context_for_request conf
        (record { user = some (person (text "bob")); groups = text "jump" ∷ [] }))
    ≡ Rights.is_jump_admin conf
        (record { user = some (person (text "bob")); groups = text "jump" ∷ [] })
is_jump_admin-agrees_example =
    is_jump_admin-agrees conf
      (record { user = some (person (text "bob")); groups = text "jump" ∷ [] })

m-Lacks : Lacks b':' (text "m")
m-Lacks = ((λ e. absurd (ground (arith, e))), tt)
