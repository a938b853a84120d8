-- ===== src/Events.antt =====
-- The events that the services emit: src/domains/auth/domain/events/auth.events.ts and
-- src/domains/user/domain/events/user.events.ts, by the name that they are emitted under. What
-- `EventEmitter2` is given is kept as a list, the latest event last.
use backend_boilerplate.Base.{Bool, List, String}
use backend_boilerplate.Users.{Role}

-- A value of a field of `UpdateUserDto`.
pub data Change : Type 0 where
  null : Change
  text : String → Change
  role : Role → Change
  flag : Bool → Change

pub data Event : Type 0 where
  user_login : (user_id email : String) → Event
  user_logout : (user_id email : String) → Event
  user_created : (user_id email : String) → Role → Event
  user_updated : (user_id email : String) → List (String × Change) → Event
  user_deleted : (user_id email : String) → Event
  user_password_changed : (user_id email : String) → Event
