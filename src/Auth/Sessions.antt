-- ===== src/Auth/Sessions.antt =====
-- Login sessions: backend/auth/sessionRepository.ts and the session part of backend/auth/service.ts,
-- over the in-memory map. A token, its hash, a session id and a time are only compared, so each is a
-- number; the hash functions of Node's crypto module are parameters.
pub mod Revocation
use restaurant_pos.Base.{
  ℕ, ◌+◌, Bool, true, false, ◌&&◌, ◌||◌, Option, none, some, List, [], ◌∷◌, ◌==◌, leb, not,
  if◌then◌else◌, is_some,
}
use restaurant_pos.Base.Table.{Table, get, put}
use restaurant_pos.Auth.Policy.{User, is_user_active}

-- `AuthSessionRecord`
pub record Session : Type 0 where
  pub id : ℕ
  pub user_id : ℕ
  pub token_hash : ℕ
  pub created_at : ℕ
  pub expires_at : ℕ
  pub last_seen_at : ℕ
  pub revoked_at : Option ℕ
  pub revoked_reason : Option ℕ

-- Node's crypto: `hashSessionToken` and `sessionIdForToken`.
pub record Hashes : Type 0 where
  pub hash_session_token : ℕ → ℕ
  pub session_id_for_token : ℕ → ℕ

abbrev pub Sessions : Type 0
Sessions = Table Session

unfoldable pub save_session : Sessions → Session → Sessions
save_session t s = put t s.id s

unfoldable pub get_session_by_token : Hashes → Sessions → ℕ → Option Session
get_session_by_token h t token = elim (get t (h.session_id_for_token token)) [
  | none ↦ none
  | some s ↦ if s.token_hash == h.hash_session_token token then some s else none
]

unfoldable pub touch_session : Sessions → ℕ → ℕ → Sessions
unfolding save_session
touch_session t id at = elim (get t id) [
  | none ↦ t
  | some s ↦ if is_some s.revoked_at then t else save_session t (record s { last_seen_at = at })
]

abbrev or_else : Option ℕ → ℕ → Option ℕ
or_else none d = some d
or_else (some v) d = some v

unfoldable pub revoke_session : Sessions → ℕ → ℕ → ℕ → Sessions
unfolding save_session
revoke_session t id reason at = elim (get t id) [
  | none ↦ t
  | some s ↦ save_session t (record s {
    revoked_at = or_else s.revoked_at at;
    revoked_reason = or_else s.revoked_reason reason;
  })
]

-- The loop of `revokeUserSessions` over the sessions that were listed.
unfoldable pub revoke_each : List (ℕ × Session) → ℕ → ℕ → ℕ → Sessions → Sessions
unfolding save_session
revoke_each [] user reason at t = t
revoke_each ((_, s) ∷ rows) user reason at t = revoke_each rows user reason at (
    if s.user_id == user && not (is_some s.revoked_at)
    then save_session t (record s { revoked_at = some at; revoked_reason = some reason })
    else t)

unfoldable pub revoke_user_sessions : Sessions → ℕ → ℕ → ℕ → Sessions
unfolding revoke_each
revoke_user_sessions t user reason at = revoke_each t user reason at t

-- The session that `loginWithPassword` opens, once the password is verified and the user active.
unfoldable pub open_session : Hashes → Sessions → User → ℕ → ℕ → ℕ → Sessions
unfolding save_session
open_session h t u token now ttl = save_session t (record {
  id = h.session_id_for_token token;
  user_id = u.id;
  token_hash = h.hash_session_token token;
  created_at = now;
  expires_at = now + ttl;
  last_seen_at = now;
  revoked_at = none;
  revoked_reason = none;
})

-- The user and the sessions afterwards; the reason of an automatic revocation is `inactive_user`.
unfoldable pub authenticate :
    Hashes → (ℕ → Option User) → ℕ → Sessions → ℕ → ℕ → Option User × Sessions
unfolding get_session_by_token touch_session revoke_session
authenticate h get_user inactive_user t token now = elim (get_session_by_token h t token) [
  | none ↦ (none, t)
  | some s ↦
      if is_some s.revoked_at || leb s.expires_at now
      then (none, t)
      else elim (get_user s.user_id) [
        | none ↦ (none, revoke_session t s.id inactive_user now)
        | some u ↦
            if is_user_active u
            then (some u, touch_session t s.id now)
            else (none, revoke_session t s.id inactive_user now)
      ]
]

unfoldable pub logout : Hashes → ℕ → Sessions → ℕ → ℕ → Sessions
unfolding get_session_by_token revoke_session
logout h reason t token now = elim (get_session_by_token h t token) [
  | none ↦ t
  | some s ↦ if is_some s.revoked_at then t else revoke_session t s.id reason now
]
