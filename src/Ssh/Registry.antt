-- ===== src/Ssh/Registry.antt =====
-- nodejs/services/session_registry.js, the live sessions by the id of their audit record.
use jump_host.Base.{ℕ, Option, List, map, nat_eq, text_eq, length, Text}
use jump_host.Base.Maps.{put, delete}

-- A descriptor of the registry.
pub record Live : Type 0 where
  pub started_at : ℕ
  pub uid : Text
  pub target : Option Text
  pub slug : Option Text

-- `sessions`, by the id of the audit record.
abbrev pub Registry : Type 0
Registry = List (Text × Live)

unfoldable pub add : Text → Live → Registry → Registry
add id live sessions = put id live sessions

unfoldable pub remove : Text → Registry → Registry
remove id sessions = delete id sessions

unfoldable pub list : Registry → List Live
list sessions = map (λ e. e.1) sessions

unfoldable pub count : Registry → ℕ
count sessions = length sessions
