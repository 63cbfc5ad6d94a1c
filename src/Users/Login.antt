-- ===== src/Users/Login.antt =====
-- A login, and the token that it gives out.
use restaurant_pos.Base.{
  ℕ, ◌+◌, ◌<◌, ◌≡◌, refl, ◌∙◌, ap, inl, inr, true, Option, none, some, arith, Bool-cases,
  Option-cases,
}
use restaurant_pos.Base.Text.{Text}
use restaurant_pos.Base.Table.{get, get-put_self}
use restaurant_pos.Base.Result.{ok}
use restaurant_pos.Auth.Policy.{User, is_user_active}
use restaurant_pos.Auth.Sessions.{
  Session, Sessions, authenticate, open_session, get_session_by_token, save_session,
}
use restaurant_pos.Users.Password.{verify_password}
use restaurant_pos.Users.Types.{UserRecord, PublicUser, Accounts}
use restaurant_pos.Users.Repository.{
  Platform, get_user_record_by_id, get_user_record_by_login, to_public_user,
}
use restaurant_pos.Users.Service.{login_with_password}
use restaurant_pos.Users.Laws.{account_of, authenticated}

module _ (p : Platform) where
  session_authenticates :
      (g : ℕ → Option User) (t : Sessions) (token later reason : ℕ) (s : Session) (u : User)
      → get t (p.hashes.session_id_for_token token) ≡ some s
      → s.token_hash ≡ p.hashes.hash_session_token token
      → s.revoked_at ≡ none
      → later < s.expires_at
      → g s.user_id ≡ some u
      → is_user_active u ≡ true
      → (authenticate p.hashes g reason t token later).0 ≡ some u
  unfolding authenticate get_session_by_token
  session_authenticates g t token later reason s u at hash open_still before found act =
      ground arith

  account_of-users :
      (a b : Accounts) (id : ℕ) → b.users ≡ a.users → account_of p b id ≡ account_of p a id
  unfolding get_user_record_by_id
  account_of-users a b id same = ground arith

  -- A login that goes through was made with the password of the user that answers to the
  -- identifier, who is active; if the accounts have that user under its id, the token authenticates
  -- as that user until it ends.
  pub login_with_password-authenticates :
      (identifier password : Text) (token now ttl later reason : ℕ) (a b : Accounts)
      (u : PublicUser)
      → login_with_password p identifier password token now ttl a ≡ (ok u, b)
      → account_of p a u.account.id ≡ some u.account
      → later < now + ttl
      → ((r : UserRecord) × (get_user_record_by_login p a identifier ≡ some r)
          × (verify_password p.crypto password r.password_hash ≡ true)
          × (to_public_user r ≡ u))
        × (is_user_active u.account ≡ true)
        × (authenticated p b reason token later ≡ some u.account)
  unfolding login_with_password open_session save_session authenticate get_session_by_token
      to_public_user
  login_with_password-authenticates identifier password token now ttl later reason a b u h own
        before =
      elim (Option-cases (get_user_record_by_login p a identifier)) [
        | inl e ↦ ground arith
        | inr (r, e) ↦ elim (Bool-cases (verify_password p.crypto password r.password_hash)) [
          | inr f ↦ ground arith
          | inl t ↦ elim (Bool-cases (is_user_active r.account)) [
            | inr f ↦ ground arith
            | inl act ↦
                let same : r.account ≡ u.account = ground arith in
                let users : b.users ≡ a.users = ground arith in
                let session : Session = record {
                  id = p.hashes.session_id_for_token token;
                  user_id = r.account.id;
                  token_hash = p.hashes.hash_session_token token;
                  created_at = now;
                  expires_at = now + ttl;
                  last_seen_at = now;
                  revoked_at = none;
                  revoked_reason = none;
                } in
                let stored : get b.sessions (p.hashes.session_id_for_token token) ≡ some session =
                  ground (arith, get-put_self a.sessions session.id session) in
                (
                  (r, e, t, ground arith),
                  ground arith,
                  session_authenticates (account_of p b) b.sessions token later reason session
                      u.account stored refl refl before
                      (account_of-users a b r.account.id users
                        ∙ (ap (λ (z : User). account_of p a z.id) same ∙ own))
                      (ground arith),
                )
          ]
        ]
      ]
