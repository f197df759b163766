-- ===== src/Gates/Rights.antt =====
-- nodejs/middleware/auth.js: isAdmin, isJumpAdmin, requireAdmin, requireJumpAdmin, and the end of authIO.
use jump_host.Base.{
  Bool, true, false, ◌&&◌, Option, none, some, List, leb, if◌then◌else◌, ◌==◌, nat_eq, text_eq,
  Result, ok, err, length, any, Text,
}

-- `conf.auth`, with `[]` for what is absent.
pub record AuthConf : Type 0 where
  pub admin_groups : List Text
  pub admin_users : List Text
  pub jump_admin_groups : List Text

pub record Identity : Type 0 where
  pub username : Option Text
  pub uid : Option Text

-- The part of a request that says who asks.
pub record Request : Type 0 where
  pub user : Option Identity
  pub groups : List Text

abbrev pub among : List Text → Text → Bool
among names name = any (λ n. n == name) names

abbrev pub username_of : Option Identity → Option Text
username_of none = none
username_of (some u) = u.username

abbrev pub is_admin_user : AuthConf → Option Text → Bool
is_admin_user conf none = false
is_admin_user conf (some name) = leb 1 (length name) && among conf.admin_users name

unfoldable pub is_admin : AuthConf → Request → Bool
is_admin conf req =
    if is_admin_user conf (username_of req.user)
    then true
    else any (λ g. among conf.admin_groups g) req.groups

unfoldable pub is_jump_admin : AuthConf → Request → Bool
is_jump_admin conf req =
    if is_admin conf req then true else any (λ g. among conf.jump_admin_groups g) req.groups

-- The error with status 403 and its message.
pub data Forbidden : Type 0 where
  admin_required jump_admin_required : Forbidden

unfoldable pub require_admin : AuthConf → Request → Result Forbidden Unit
require_admin conf req = if is_admin conf req then ok tt else err admin_required

unfoldable pub require_jump_admin : AuthConf → Request → Result Forbidden Unit
require_jump_admin conf req = if is_jump_admin conf req then ok tt else err jump_admin_required

-- A socket, as `authIO` leaves it.
pub record Socket : Type 0 where
  pub user : Option Identity
  pub groups : List Text
  pub is_admin : Bool

-- `authIO` with the identity and the groups of the token that was checked.
unfoldable pub auth_io : AuthConf → Identity → List Text → Socket
auth_io conf user groups =
    let admin = is_admin conf (record { user = some user; groups = groups }) in
    record { user = some user; groups = groups; is_admin = admin }
