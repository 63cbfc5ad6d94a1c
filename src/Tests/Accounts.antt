-- ===== src/Tests/Accounts.antt =====
-- Users and logins at concrete inputs.
use restaurant_pos.Base.{
  ℕ, ◌+◌, ◌≡◌, ◌≢◌, refl, Bool-cases, true, false, none, some, [], ◌∷◌, ◌==◌, inl, inr, arith,
  if◌then◌else◌,
}
use restaurant_pos.Base.Text.{Text, same_text, is_blank_text}
use restaurant_pos.Base.Table.{get}
use restaurant_pos.Base.Result.{Result, ok, err}
use restaurant_pos.Auth.Policy.{User, waitstaff, is_user_active}
use restaurant_pos.Users.Password.{
  Crypto, CryptoLaws, NoDollar, hash_password, verify_password, verify_password-hash_password,
  iterations_text, password_iterations,
}
use restaurant_pos.Users.Types.{UserRecord, PublicUser, Accounts, StaffPatch}
use restaurant_pos.Users.Repository.{Platform, get_user_record_by_login, to_public_user}
use restaurant_pos.Users.Service.{login_with_password, update_staff_profile}
use restaurant_pos.Users.Laws.{UsersKeyed, authenticated, update_staff_profile-locks_out}
use restaurant_pos.Users.Login.{login_with_password-authenticates}
use restaurant_pos.Tests.Data.{head_waiter, waiter}

-- A derivation that gives a key of one letter by the length of the password.
abbrev letters : Text → Text
letters [] = 97 ∷ []
letters (c ∷ cs) = 98 ∷ letters cs

letters-NoDollar : (t : Text) → NoDollar (letters t)
letters-NoDollar [] = ground arith
letters-NoDollar (c ∷ cs) = ((λ e. ground arith), letters-NoDollar cs)

filled : (t : Text) → is_blank_text (letters t) ≡ false
filled [] = refl
filled (c ∷ cs) = refl

abbrev crypto : Crypto
crypto = record {
  pbkdf2 = λ p s n k d. letters p;
  byte_length = λ t. 32;
  integer_of = λ t. if same_text t iterations_text then some password_iterations else none;
}

crypto-CryptoLaws : CryptoLaws crypto
crypto-CryptoLaws = record {
  no_dollar = λ p s d n k. letters-NoDollar p;
  key_length = λ p s d n. (refl, filled p);
  decimal = refl;
}

abbrev secret : Text
secret = 49 ∷ 50 ∷ 51 ∷ 52 ∷ 53 ∷ 54 ∷ 55 ∷ 56 ∷ []

verify_password-hash_password_example :
    verify_password crypto secret (some (hash_password crypto secret (65 ∷ []))) ≡ true
verify_password-hash_password_example =
    verify_password-hash_password crypto secret (65 ∷ []) crypto-CryptoLaws
      ((λ e. ground arith), tt) refl

abbrev platform : Platform
platform = record {
  text_of_id = λ n. n ∷ [];
  lower = λ t. t;
  crypto = crypto;
  hashes = record { hash_session_token = λ t. t + 500; session_id_for_token = λ t. t };
  user_deactivated_reason = 1;
  password_changed_reason = 2;
}

abbrev ann : UserRecord
ann = record {
  account = waiter;
  username = 97 ∷ 110 ∷ 110 ∷ [];
  email = none;
  password_hash = some (hash_password crypto secret (65 ∷ []));
  created_at = none;
  updated_at = none;
}

abbrev bob : UserRecord
bob = record ann { account = head_waiter; username = 98 ∷ 111 ∷ 98 ∷ [] }

abbrev accounts : Accounts
accounts = record { users = (6, ann) ∷ (5, bob) ∷ []; sessions = []; events = [] }

abbrev ann_login : Result PublicUser × Accounts
ann_login = login_with_password platform (97 ∷ 110 ∷ 110 ∷ []) secret 9 100 1000 accounts

login_with_password-authenticates_example :
    ((r : UserRecord) × (get_user_record_by_login platform accounts (97 ∷ 110 ∷ 110 ∷ []) ≡ some r)
      × (verify_password crypto secret r.password_hash ≡ true)
      × (to_public_user r ≡ to_public_user ann))
    × (is_user_active waiter ≡ true)
    × (authenticated platform ann_login.1 3 9 200 ≡ some waiter)
unfolding login_with_password hash_password restaurant_pos.Users.Repository.get_user_record_by_id
login_with_password-authenticates_example =
    login_with_password-authenticates platform (97 ∷ 110 ∷ 110 ∷ []) secret 9 100 1000 200 3
      accounts ann_login.1 (to_public_user ann) refl refl (omega arith)

-- Both log in; then the head waiter gives the waiter another password.
abbrev both : Accounts
both = (login_with_password platform (98 ∷ 111 ∷ 98 ∷ []) secret 8 110 1000 ann_login.1).1

abbrev other_password : StaffPatch
other_password = record {
  username = none;
  email = none;
  password = some (49 ∷ secret);
  roles = none;
  branch = none;
  status = none;
}

abbrev saved_of : Result (PublicUser × Accounts) → PublicUser × Accounts
saved_of (ok x) = x
saved_of (err e) = (to_public_user ann, both)

abbrev changed : PublicUser × Accounts
changed = saved_of (update_staff_profile platform head_waiter 6 other_password (66 ∷ []) 300 both)

rows_keyed :
    (x y u : UserRecord) (id : ℕ)
    → x.account.id ≡ 6
    → y.account.id ≡ 5
    → get ((6, x) ∷ (5, y) ∷ []) id ≡ some u
    → u.account.id ≡ id
rows_keyed x y u id e f h = elim (Bool-cases (6 == id)) [
  | inl t ↦ ground arith
  | inr n ↦ elim (Bool-cases (5 == id)) [ inl t ↦ ground arith | inr m ↦ absurd (ground arith) ]
]

accounts-UsersKeyed : UsersKeyed platform both
unfolding UsersKeyed login_with_password hash_password
accounts-UsersKeyed = λ id u e. rows_keyed ann bob u id refl refl e

update_staff_profile-locks_out_example : head_waiter.id ≢ 6
unfolding login_with_password hash_password update_staff_profile restaurant_pos.Auth.Policy.can
    restaurant_pos.Auth.Policy.grants restaurant_pos.Auth.Sessions.authenticate
update_staff_profile-locks_out_example =
    update_staff_profile-locks_out platform head_waiter 6 other_password (66 ∷ []) 300 both
      changed.1 changed.0 3 8 400 head_waiter accounts-UsersKeyed (refl, (refl, tt)) refl (inl refl)
      refl
