-- ===== src/Users/Types.antt =====
-- The data of backend/users/repository.ts and the inputs of backend/users/service.ts. A role of an
-- input is one that is not blank once trimmed.
use restaurant_pos.Base.{ℕ, Option, List}
use restaurant_pos.Base.Text.{Text}
use restaurant_pos.Base.Table.{Table}
use restaurant_pos.Auth.Policy.{User, Role, UserStatus}
use restaurant_pos.Auth.Sessions.{Sessions}

-- `UserRecord`: the `AuthenticatedUser` that it extends is `account`.
pub record UserRecord : Type 0 where
  pub account : User
  pub username : Text
  pub email : Option Text
  pub password_hash : Option Text
  pub created_at : Option ℕ
  pub updated_at : Option ℕ

-- `PublicUserProfile`
pub record PublicUser : Type 0 where
  pub account : User
  pub username : Text
  pub email : Option Text
  pub created_at : Option ℕ
  pub updated_at : Option ℕ

pub data AccountAction : Type 0 where
  user_created user_updated password_changed user_activated user_deactivated : AccountAction
  login_failed login_succeeded : AccountAction

-- An entry of the audit log, with its actor and the user it is about, where there are any
pub record AccountEvent : Type 0 where
  pub action : AccountAction
  pub actor : Option ℕ
  pub subject : Option ℕ

pub record Accounts : Type 0 where
  pub users : Table UserRecord
  pub sessions : Sessions
  pub events : List AccountEvent

pub record StaffInput : Type 0 where
  pub id : Option ℕ
  pub username : Text
  pub email : Option Text
  pub password : Option Text
  pub roles : List Role
  pub branch : Option ℕ
  pub status : Option UserStatus

-- `Partial<StaffProfileInput>`; `some none` for a branch is a blank text, which clears it.
pub record StaffPatch : Type 0 where
  pub username : Option Text
  pub email : Option Text
  pub password : Option Text
  pub roles : Option (List Role)
  pub branch : Option (Option ℕ)
  pub status : Option UserStatus
