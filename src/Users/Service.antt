-- ===== src/Users/Service.antt =====
-- The operations of backend/users/service.ts, and `loginWithPassword` of backend/auth/service.ts. An
-- operation that throws has written nothing but an audit entry.
use restaurant_pos.Users.Repository.{
  Platform, trimmed, to_public_user, get_user_record_by_id, get_user_record_by_login, save_user,
  set_user_status,
}
use restaurant_pos.Base.{
  ℕ, ◌+◌, Bool, true, false, not, ◌&&◌, Option, none, some, List, [], ◌∷◌, leb, if◌then◌else◌,
  is_some,
}
use restaurant_pos.Base.Text.{Text, trim, is_blank_text}
use restaurant_pos.Base.Result.{
  Result, ok, err, and_then, check, or_error, forbidden, username_required, role_required,
  password_too_short, user_exists, user_not_found, invalid_credentials, account_inactive,
}
use restaurant_pos.Auth.Policy.{
  User, UserStatus, active, inactive, is_active, is_user_active, can, manage_staff,
}
use restaurant_pos.Auth.Sessions.{Sessions, open_session, revoke_user_sessions}
use restaurant_pos.Settings.Normalize.{given}
use restaurant_pos.Users.Password.{hash_password, verify_password}
use restaurant_pos.Users.Types.{
  UserRecord, PublicUser, AccountAction, Accounts, StaffInput, StaffPatch, user_created,
  user_updated, password_changed, user_activated, user_deactivated, login_failed, login_succeeded,
}

-- The `length` of a JavaScript string: a code point above 0xffff counts twice.
unfoldable pub string_length : Text → ℕ
string_length [] = 0
string_length (c ∷ cs) = (if leb 65536 c then 2 else 1) + string_length cs

abbrev pub event : AccountAction → Option ℕ → Option ℕ → Accounts → Accounts
event action actor subject a = record a {
  events = record { action = action; actor = actor; subject = subject } ∷ a.events;
}

abbrev pub is_empty {ℓ} : {A : Type ℓ} → List A → Bool
is_empty [] = true
is_empty (_ ∷ _) = false

abbrev pub long_enough : Option Text → Bool
long_enough none = false
long_enough (some t) = leb 8 (string_length t)

-- `password !== undefined && password.length < 8` does not hold.
abbrev pub allowed : Option Text → Bool
allowed none = true
allowed (some t) = leb 8 (string_length t)

-- `input.password` is given and not empty
abbrev pub sets_password : Option Text → Bool
sets_password none = false
sets_password (some t) = not (is_blank_text t)

module _ (p : Platform) where
  unfoldable pub create_staff_profile :
      User → StaffInput → ℕ → Text → ℕ → Accounts → Result (PublicUser × Accounts)
  unfolding trim string_length hash_password get_user_record_by_id save_user
  create_staff_profile actor input fresh salt now a =
      and_then (check (can actor manage_staff) forbidden) λ _.
        and_then (check (not (is_blank_text (trim input.username))) username_required) λ _.
          and_then (check (not (is_empty input.roles)) role_required) λ _.
            and_then (check (long_enough input.password) password_too_short) λ _.
              let id = given input.id fresh in
              and_then (check (not (is_some (get_user_record_by_id p a id))) user_exists) λ _.
                let (saved, b) =
                  save_user p a
                    (record {
                      account = record {
                        id = id;
                        branch = input.branch;
                        roles = input.roles;
                        status = given input.status active;
                      };
                      username = trim input.username;
                      email = trimmed input.email;
                      password_hash = some (hash_password p.crypto (given input.password []) salt);
                      created_at = none;
                      updated_at = none;
                    })
                    now in
                ok (saved, event user_created (some actor.id) (some id) b)

  -- The record that an update stores
  unfoldable pub patched_user : StaffPatch → Text → UserRecord → UserRecord
  unfolding trim hash_password
  patched_user input salt u = record u {
    account = record (u.account) {
      branch = given input.branch u.account.branch;
      roles = given input.roles u.account.roles;
      status = given input.status u.account.status;
    };
    username = given (trimmed input.username) u.username;
    email = if is_some input.email then trimmed input.email else u.email;
    password_hash =
        if sets_password input.password
        then some (hash_password p.crypto (given input.password []) salt)
        else u.password_hash;
  }

  abbrev pub same_status : UserStatus → UserStatus → Bool
  same_status active active = true
  same_status inactive inactive = true
  same_status _ _ = false

  -- The sessions that an update revokes: on deactivation, and on a new password
  unfoldable pub revoked_by : UserStatus → UserStatus → Bool → ℕ → ℕ → Sessions → Sessions
  unfolding revoke_user_sessions
  revoked_by was is new_password id now t =
      let t1 =
        if is_active was && not (is_active is)
        then revoke_user_sessions t id p.user_deactivated_reason now
        else t in
      if new_password then revoke_user_sessions t1 id p.password_changed_reason now else t1

  unfoldable pub update_staff_profile :
      User → ℕ → StaffPatch → Text → ℕ → Accounts → Result (PublicUser × Accounts)
  unfolding get_user_record_by_id patched_user string_length save_user revoked_by
  update_staff_profile actor id input salt now a =
      and_then (check (can actor manage_staff) forbidden) λ _.
        and_then (or_error (get_user_record_by_id p a id) user_not_found) λ u.
          let next = patched_user input salt u in
          and_then (check (not (is_blank_text next.username)) username_required) λ _.
            and_then (check (not (is_empty next.account.roles)) role_required) λ _.
              and_then (check (allowed input.password) password_too_short) λ _.
                let (saved, b) = save_user p a next now in
                let new_password = sets_password input.password in
                let c = record b {
                  sessions =
                      revoked_by u.account.status saved.account.status new_password id now
                        b.sessions;
                } in
                let d =
                  event (if new_password then password_changed else user_updated) (some actor.id)
                    (some id) c in
                ok (
                  saved,
                  (if same_status u.account.status saved.account.status
                      then d
                      else event
                          (if is_active saved.account.status
                            then user_activated
                            else user_deactivated)
                          (some actor.id) (some id) d),
                )

  abbrev pub noted : AccountAction → Option User → ℕ → Accounts → Accounts
  noted action none id a = a
  noted action (some actor) id a = event action (some actor.id) (some id) a

  unfoldable pub deactivate_user : ℕ → Option User → ℕ → Accounts → Option PublicUser × Accounts
  unfolding set_user_status revoke_user_sessions
  deactivate_user id actor now a =
      let (updated, b) = set_user_status p a id inactive now in
      elim updated [
        | none ↦ (none, b)
        | some u ↦ (
          some u,
          noted user_deactivated actor u.account.id (record b {
            sessions = revoke_user_sessions b.sessions id p.user_deactivated_reason now;
          }),
        )
      ]

  unfoldable pub activate_user : ℕ → Option User → ℕ → Accounts → Option PublicUser × Accounts
  unfolding set_user_status
  activate_user id actor now a =
      let (updated, b) = set_user_status p a id active now in
      elim updated [
        | none ↦ (none, b)
        | some u ↦ (some u, noted user_activated actor u.account.id b)
      ]

  -- `loginWithPassword` with the token that `createSessionToken` gives; an attempt that fails leaves
  -- an audit entry.
  unfoldable pub login_with_password :
      Text → Text → ℕ → ℕ → ℕ → Accounts → Result PublicUser × Accounts
  unfolding get_user_record_by_login verify_password is_user_active open_session to_public_user
  login_with_password identifier password token now ttl a =
      elim (get_user_record_by_login p a identifier) [
        | none ↦ (err invalid_credentials, event login_failed none none a)
        | some u ↦
            if not (verify_password p.crypto password u.password_hash)
            then (err invalid_credentials, event login_failed none none a)
            else if not (is_user_active u.account)
            then (
              err account_inactive,
              event login_failed (some u.account.id) (some u.account.id) a,
            )
            else (
              ok (to_public_user u),
              event login_succeeded (some u.account.id) (some u.account.id) (record a {
                sessions = open_session p.hashes a.sessions u.account token now ttl;
              }),
            )
      ]
