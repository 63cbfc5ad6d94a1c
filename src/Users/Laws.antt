-- ===== src/Users/Laws.antt =====
-- Staff accounts and their sessions: who is locked out.
use restaurant_pos.Base.{
  ℕ, ◌≡◌, ◌≢◌, refl, sym, ◌∙◌, ap, subst, inl, inr, ◌⊎◌, true, false, not, Option, none, some, ◌==◌,
  ==_iff, arith, Bool-cases, Option-cases,
}
use restaurant_pos.Base.Text.{Text, is_blank_text}
use restaurant_pos.Base.Table.{get, put, get-put_self, get-put_ne}
use restaurant_pos.Base.Result.{ok}
use restaurant_pos.Auth.Policy.{User, is_active, is_user_active, can, manage_staff}
use restaurant_pos.Auth.Sessions.{
  Sessions, authenticate, revoke_user_sessions, get_session_by_token,
}
use restaurant_pos.Auth.Sessions.Revocation.{IsKeyed, authenticate-revoke_user_sessions}
use restaurant_pos.Users.Types.{UserRecord, PublicUser, Accounts, StaffPatch}
use restaurant_pos.Users.Repository.{
  Platform, get_user_record_by_id, normalize_user, save_user, saved_user, to_public_user,
}
use restaurant_pos.Users.Service.{
  sets_password, patched_user, is_empty, allowed, update_staff_profile, revoked_by,
}

abbrev pub map_account : Option UserRecord → Option User
map_account none = none
map_account (some u) = some u.account

module _ (p : Platform) where
  -- `getUserById`, as `authenticateSessionToken` uses it
  abbrev pub account_of : Accounts → ℕ → Option User
  account_of a id = map_account (get_user_record_by_id p a id)

  -- `authenticateSessionToken` on the accounts
  abbrev pub authenticated : Accounts → ℕ → ℕ → ℕ → Option User
  authenticated a reason token now =
      (authenticate p.hashes (account_of a) reason a.sessions token now).0

  -- Each user stands under its id.
  unfoldable pub UsersKeyed : Accounts → Type 0
  UsersKeyed a = (id : ℕ) (u : UserRecord) → get a.users id ≡ some u → u.account.id ≡ id

  account_of-id :
      (a : Accounts) (id : ℕ) (u : User) → UsersKeyed a → account_of a id ≡ some u → u.id ≡ id
  unfolding get_user_record_by_id UsersKeyed normalize_user
  account_of-id a id u k h = elim (Option-cases (get a.users id)) [
    | inl e ↦ ground arith
    | inr (v, e) ↦ let own = k id v e in ground arith
  ]

  -- What an update that goes through did.
  record Updated (a : Accounts) (id now : ℕ) (input : StaffPatch) (saved : PublicUser)
      (b : Accounts) : Type 0 where
    was : UserRecord
    row : UserRecord
    found : get_user_record_by_id p a id ≡ some was
    own : row.account.id ≡ was.account.id
    users : b.users ≡ put a.users row.account.id row
    sessions :
        b.sessions
        ≡ revoked_by p was.account.status row.account.status
            (sets_password input.password)
            id
            now
            a.sessions
    account : saved.account ≡ row.account

  update_staff_profile-Updated :
      (actor : User) (id : ℕ) (input : StaffPatch) (salt : Text) (now : ℕ) (a b : Accounts)
      (saved : PublicUser)
      → update_staff_profile p actor id input salt now a ≡ ok (saved, b)
      → Updated a id now input saved b
  unfolding update_staff_profile save_user saved_user patched_user normalize_user to_public_user
  update_staff_profile-Updated actor id input salt now a b saved h =
      elim (Bool-cases (can actor manage_staff)) [
        | inr f ↦ ground arith
        | inl m ↦ elim (Option-cases (get_user_record_by_id p a id)) [
          | inl e ↦ ground arith
          | inr (u, e) ↦
              let next = patched_user p input salt u in
              elim (Bool-cases (not (is_blank_text next.username))) [
                | inr f ↦ ground arith
                | inl c1 ↦ elim (Bool-cases (not (is_empty next.account.roles))) [
                  | inr f ↦ ground arith
                  | inl c2 ↦ elim (Bool-cases (allowed input.password)) [
                    | inr f ↦ ground arith
                    | inl c3 ↦ record {
                      was = u;
                      row = saved_user p a next now;
                      found = e;
                      own = refl;
                      users = ground arith;
                      sessions = ground arith;
                      account = ground arith;
                    }
                  ]
                ]
              ]
        ]
      ]

  put-UsersKeyed :
      (a b : Accounts) (row : UserRecord)
      → UsersKeyed a
      → b.users ≡ put a.users row.account.id row
      → UsersKeyed b
  unfolding UsersKeyed
  put-UsersKeyed a b row k e j u h = elim (Bool-cases (j == row.account.id)) [
    | inl t ↦
        let same : j ≡ row.account.id = (==_iff j row.account.id).0 t in
        let at = get-put_self a.users row.account.id row in ground (arith, at)
    | inr f ↦
        let other = get-put_ne a.users j row.account.id row (ground arith) in k j u (ground arith)
  ]

  authenticated-active :
      (a : Accounts) (reason token now : ℕ) (v : User)
      → authenticated a reason token now ≡ some v
      → (i : ℕ) × (account_of a i ≡ some v) × (is_user_active v ≡ true)
  unfolding authenticate
  authenticated-active a reason token now v h =
      elim (Option-cases (get_session_by_token p.hashes a.sessions token)) [
        | inl e ↦ ground arith
        | inr (s, e) ↦ elim (Option-cases (account_of a s.user_id)) [
          | inl e1 ↦ ground arith
          | inr (u, e1) ↦ (s.user_id, ground arith, ground arith)
        ]
      ]

  -- A user whose stored row is inactive authenticates with no token.
  pub inactive_locked_out :
      (a : Accounts) (id reason token later : ℕ) (row : UserRecord) (v : User)
      → UsersKeyed a
      → get a.users id ≡ some row
      → is_active row.account.status ≡ false
      → authenticated a reason token later ≡ some v
      → v.id ≢ id
  unfolding get_user_record_by_id normalize_user is_user_active
  inactive_locked_out a id reason token later row v k at idle h same =
      let (i, found, act) = authenticated-active a reason token later v h in
      let own = account_of-id a i v k found in
      let here : account_of a id ≡ some v =
        subst (λ j. account_of a j ≡ some v) (sym own ∙ same) found in
      ground arith

  -- A user whose sessions were all revoked authenticates with no token.
  pub revoked_locked_out :
      (a : Accounts) (t : Sessions) (id cause at reason token later : ℕ) (v : User)
      → UsersKeyed a
      → IsKeyed t
      → a.sessions ≡ revoke_user_sessions t id cause at
      → authenticated a reason token later ≡ some v
      → v.id ≢ id
  revoked_locked_out a t id cause at reason token later v k keyed same h =
      authenticate-revoke_user_sessions p.hashes (account_of a) t id cause at reason token later v
        keyed (λ i w found. account_of-id a i w k found)
        (subst (λ z. (authenticate p.hashes (account_of a) reason z token later).0 ≡ some v) same h)

  -- Once a profile is updated with a new password, or so that its user is not active, no token that
  -- was given out before authenticates as that user, at any later time, where users and sessions
  -- stand under their ids.
  pub update_staff_profile-locks_out :
      (actor : User) (id : ℕ) (input : StaffPatch) (salt : Text) (now : ℕ) (a b : Accounts)
      (saved : PublicUser) (reason token later : ℕ) (v : User)
      → UsersKeyed a
      → IsKeyed a.sessions
      → update_staff_profile p actor id input salt now a ≡ ok (saved, b)
      → (sets_password input.password ≡ true) ⊎ (is_active saved.account.status ≡ false)
      → authenticated b reason token later ≡ some v
      → v.id ≢ id
  unfolding revoked_by get_user_record_by_id normalize_user
  update_staff_profile-locks_out actor id input salt now a b saved reason token later v k keyed h c
        at =
      let x = update_staff_profile-Updated actor id input salt now a b saved h in
      let users = put-UsersKeyed a b x.row k x.users in
      let own : x.was.account.id ≡ id =
        account_of-id a id x.was.account k (ap map_account x.found) in
      let here : get b.users id ≡ some x.row =
        ground (arith, get-put_self a.users x.row.account.id x.row, x.own, x.users, own) in
      elim (Bool-cases (is_active x.row.account.status)) [
        | inr idle ↦ inactive_locked_out b id reason token later x.row v users here idle at
        | inl act ↦
            let kept : sets_password input.password ≡ true = ground (arith, x.account, c) in
            let sessions : b.sessions
                ≡ revoke_user_sessions a.sessions id p.password_changed_reason now =
              ground (arith, x.sessions) in
            revoked_locked_out b a.sessions id p.password_changed_reason now reason token later v
              users keyed sessions at
      ]
