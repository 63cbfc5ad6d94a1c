-- ===== src/Users/Repository.antt =====
-- backend/users/repository.ts. The text that an id stands for, `toLowerCase` and Node's crypto are
-- parameters.
use restaurant_pos.Base.{ℕ, Bool, false, not, ◌&&◌, ◌||◌, Option, none, some, find, if◌then◌else◌}
use restaurant_pos.Base.Text.{Text, trim, same_text, is_blank_text}
use restaurant_pos.Base.Table.{get, put, values}
use restaurant_pos.Auth.Policy.{UserStatus}
use restaurant_pos.Auth.Sessions.{Hashes}
use restaurant_pos.Settings.Normalize.{given, first_of, non_blank}
use restaurant_pos.Users.Password.{Crypto}
use restaurant_pos.Users.Types.{UserRecord, PublicUser, Accounts}

-- What the operations take besides their input: the texts of ids, `toLowerCase`, Node's crypto and
-- the two reasons that revoked sessions get.
pub record Platform : Type 0 where
  pub text_of_id : ℕ → Text
  pub lower : Text → Text
  pub crypto : Crypto
  pub hashes : Hashes
  pub user_deactivated_reason : ℕ
  pub password_changed_reason : ℕ

abbrev pub trimmed : Option Text → Option Text
trimmed none = none
trimmed (some t) = non_blank (trim t)

-- `toPublicUser`
unfoldable pub to_public_user : UserRecord → PublicUser
to_public_user u = record {
  account = u.account;
  username = u.username;
  email = u.email;
  created_at = u.created_at;
  updated_at = u.updated_at;
}

module _ (p : Platform) where
  unfoldable pub normalize_user : UserRecord → UserRecord
  unfolding trim
  normalize_user u = record u {
    username = given (non_blank (trim u.username)) (p.text_of_id u.account.id);
    email = trimmed u.email;
  }

  unfoldable pub get_user_record_by_id : Accounts → ℕ → Option UserRecord
  unfolding normalize_user
  get_user_record_by_id a id = elim (get a.users id) [
    | none ↦ none
    | some u ↦ some (normalize_user u)
  ]

  abbrev named : Text → Option Text → Bool
  named identifier none = false
  named identifier (some t) = not (is_blank_text t) && same_text (p.lower t) identifier

  -- Whether the id, the user name or the e-mail address is the identifier
  unfoldable pub answers_to : Text → UserRecord → Bool
  unfolding normalize_user
  answers_to identifier u =
      let n = normalize_user u in
      named identifier (some (p.text_of_id n.account.id))
      || (named identifier (some n.username) || named identifier n.email)

  unfoldable pub get_user_record_by_login : Accounts → Text → Option UserRecord
  unfolding answers_to normalize_user trim
  get_user_record_by_login a identifier =
      let key = p.lower (trim identifier) in
      if is_blank_text key then none else elim (find (answers_to key) (values a.users)) [
        | none ↦ none
        | some u ↦ some (normalize_user u)
      ]

  abbrev created : Option UserRecord → Option ℕ
  created none = none
  created (some u) = u.created_at

  -- `saveUser`; the record that is stored
  unfoldable pub saved_user : Accounts → UserRecord → ℕ → UserRecord
  unfolding get_user_record_by_id normalize_user
  saved_user a u now = normalize_user (record u {
    created_at =
        some (given (first_of (created (get_user_record_by_id a u.account.id)) u.created_at) now);
    updated_at = some now;
  })

  unfoldable pub save_user : Accounts → UserRecord → ℕ → PublicUser × Accounts
  unfolding saved_user to_public_user
  save_user a u now =
      let n = saved_user a u now in
      (to_public_user n, record a { users = put a.users n.account.id n })

  unfoldable pub set_user_status : Accounts → ℕ → UserStatus → ℕ → Option PublicUser × Accounts
  unfolding get_user_record_by_id save_user
  set_user_status a id status now = elim (get_user_record_by_id a id) [
    | none ↦ (none, a)
    | some u ↦
        let (saved, b) =
          save_user a (record u { account = record (u.account) { status = status } }) now in
        (some saved, b)
  ]
