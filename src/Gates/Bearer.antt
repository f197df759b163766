-- ===== src/Gates/Bearer.antt =====
-- nodejs/middleware/auth.js: a request with an API token, once the token is checked.
use jump_host.Base.{◌≤◌, ◌≡◌, none, some, [], arith, nat_eq, text_eq, length, any, Text}
use jump_host.Gates.Rights.{AuthConf, Request, among, is_admin, is_jump_admin}

-- The identity of such a request: the token's creator, without groups.
unfoldable pub bearer_request : Text → Request
bearer_request creator = record {
  user = some (record { username = some creator; uid = none });
  groups = [];
}

-- A token has the rights of an administrator, and those of a jump administrator, exactly if its
-- creator is one of the administrators that the configuration names; groups never count.
bearer_request-is_admin :
    (conf : AuthConf) (creator : Text)
    → 1 ≤ length creator
    → (is_admin conf (bearer_request creator) ≡ among conf.admin_users creator)
      × (is_jump_admin conf (bearer_request creator) ≡ among conf.admin_users creator)
unfolding is_admin is_jump_admin bearer_request any
bearer_request-is_admin conf creator named = ground arith
