-- ===== src/Tests/Access.antt =====
-- Permissions and login sessions at concrete inputs.
use restaurant_pos.Base.{
  ℕ, ◌≡◌, refl, ◌≢◌, ◌↔◌, Option, none, some, [], ◌∷◌, ◌==◌, arith, if◌then◌else◌,
}
use restaurant_pos.Auth.Policy.{
  User, Role, Action, active, can, grants, manager, superadmin, waitstaff, cashier, close_bill,
  void_prepared_items, manage_system, create_order,
}
use restaurant_pos.Auth.Guards.{next, protected, Admits, protected_iff}
use restaurant_pos.Auth.Sessions.{Hashes, Session, Sessions, authenticate, revoke_user_sessions}
use restaurant_pos.Auth.Sessions.Revocation.{authenticate-revoke_user_sessions}
use restaurant_pos.Tests.Data.{head_waiter, waiter}

abbrev users : ℕ → Option User
users i = if i == 5 then some head_waiter else if i == 6 then some waiter else none

protected_iff_example :
    (protected users create_order (some waiter) ≡ next (some waiter))
    ↔ Admits users create_order (some waiter) (some waiter)
protected_iff_example = protected_iff users create_order (some waiter) (some waiter)

abbrev login : Session
login = record {
  id = 50;
  user_id = 5;
  token_hash = 500;
  created_at = 0;
  expires_at = 1000;
  last_seen_at = 0;
  revoked_at = none;
  revoked_reason = none;
}

abbrev logins : Sessions
logins = (50, login) ∷ (60, record login { id = 60; user_id = 6; token_hash = 600 }) ∷ []

-- Two tables of hashes, for the tokens 5 and 6.
abbrev hashes : Hashes
hashes = record {
  hash_session_token = λ t. if t == 6 then 600 else 500;
  session_id_for_token = λ t. if t == 6 then 60 else 50;
}

users_own_ids : (i : ℕ) (w : User) → users i ≡ some w → w.id ≡ i
users_own_ids i w e = ground arith

authenticate-revoke_user_sessions_example : waiter.id ≢ 5
unfolding authenticate revoke_user_sessions restaurant_pos.Auth.Policy.is_user_active
authenticate-revoke_user_sessions_example =
    authenticate-revoke_user_sessions hashes users logins 5 0 100 9 6 200 waiter (refl, (refl, tt))
      users_own_ids refl
