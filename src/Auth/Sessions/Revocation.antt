-- ===== src/Auth/Sessions/Revocation.antt =====
-- What `revokeUserSessions` promises: no token of the user is good afterwards.
use restaurant_pos.Base.{
  ℕ, ◌≡◌, refl, ◌≢◌, ◌⊎◌, inl, inr, Bool, false, not, ◌&&◌, Option, none, some, List, [], ◌∷◌,
  arith, ◌==◌, ==_iff, is_some, Bool-cases, Option-cases, All,
}
use restaurant_pos.Base.Table.{get, put, get-put_self, get-put_ne}
use restaurant_pos.Auth.Policy.{User}
use restaurant_pos.Auth.Sessions.{
  Session, Sessions, Hashes, save_session, get_session_by_token, revoke_each, revoke_user_sessions,
  authenticate,
}

-- Every session is stored under its own id.
abbrev pub IsKeyed : Sessions → Type 0
IsKeyed t = All (λ (e : ℕ × Session). e.0 ≡ e.1.id) t

abbrev is_live_of : ℕ → Session → Bool
is_live_of user s = s.user_id == user && not (is_some s.revoked_at)

abbrev NotLive : ℕ → Option Session → Type 0
NotLive user none = Unit
NotLive user (some s) = is_live_of user s ≡ false

-- The session under `k` is dealt with, or still stands in the rows to come.
abbrev Covered : ℕ → List (ℕ × Session) → Sessions → ℕ → Type 0
Covered user rows t k = NotLive user (get t k) ⊎ (get rows k ≡ get t k)

Covered-skip :
    (user j k : ℕ) (s : Session) (rows : List (ℕ × Session)) (t : Sessions)
    → is_live_of user s ≡ false
    → Covered user ((j, s) ∷ rows) t k
    → Covered user rows t k
Covered-skip user j k s rows t idle (inl done) = inl done
Covered-skip user j k s rows t idle (inr same) = elim (Bool-cases (j == k)) [
  | inl here ↦ inl (rw (← same, here) idle)
  | inr there ↦ inr (rw there at same)
]

Covered-beyond :
    (user j k : ℕ) (s : Session) (rows : List (ℕ × Session)) (t : Sessions)
    → (j == k) ≡ false
    → Covered user ((j, s) ∷ rows) t k
    → Covered user rows t k
Covered-beyond user j k s rows t there (inl done) = inl done
Covered-beyond user j k s rows t there (inr same) = inr (rw there at same)

Covered-put :
    (user j k at reason : ℕ) (s : Session) (rows : List (ℕ × Session)) (t : Sessions)
    → j ≡ s.id
    → Covered user ((j, s) ∷ rows) t k
    → Covered user rows
        (put t s.id (record s { revoked_at = some at; revoked_reason = some reason }))
        k
Covered-put user j k at reason s rows t key c = elim (Bool-cases (s.id == k)) [
  | inl here ↦
      let same : k ≡ s.id = ground (arith, ==_iff s.id k) in
      inl (rw (same, get-put_self) (ground arith))
  | inr there ↦
      rw (get-put_ne t k s.id _ (λ same. absurd (ground arith)))
        (Covered-beyond user j k s rows t (rw key there) c)
]

revoke_each-Covered :
    (user reason at k : ℕ) (rows : List (ℕ × Session)) (t : Sessions)
    → IsKeyed rows
    → Covered user rows t k
    → NotLive user (get (revoke_each rows user reason at t) k)
unfolding revoke_each save_session
revoke_each-Covered user reason at k [] t keyed (inl done) = done
revoke_each-Covered user reason at k [] t keyed (inr gone) = rw (← gone) tt
revoke_each-Covered user reason at k ((j, s) ∷ rows) t keyed c =
    elim (Bool-cases (is_live_of user s)) [
      | inl live ↦ rw live (
          revoke_each-Covered user reason at k rows _ keyed.1
            (Covered-put user j k at reason s rows t keyed.0 c))
      | inr idle ↦ rw idle (
          revoke_each-Covered user reason at k rows t keyed.1
            (Covered-skip user j k s rows t idle c))
    ]

get-NotLive :
    (h : Hashes) (user : ℕ) (t : Sessions) (token : ℕ) (s : Session)
    → NotLive user (get t (h.session_id_for_token token))
    → get_session_by_token h t token ≡ some s
    → is_live_of user s ≡ false
unfolding get_session_by_token
get-NotLive h user t token s quiet e = elim (Option-cases (get t (h.session_id_for_token token))) [
  | inl gone ↦ ground arith
  | inr (r, found) ↦ let quiet' = rw found at quiet in ground arith
]

-- Once a user's sessions are revoked, no token at all authenticates as that user, at any later time.
pub authenticate-revoke_user_sessions :
    (h : Hashes) (get_user : ℕ → Option User) (t : Sessions)
    (user reason at inactive_user token now : ℕ) (v : User)
    → IsKeyed t
    → ((i : ℕ) (w : User) → get_user i ≡ some w → w.id ≡ i)
    → (authenticate h get_user inactive_user (revoke_user_sessions t user reason at) token now).0
      ≡ some v
    → v.id ≢ user
unfolding authenticate revoke_user_sessions
authenticate-revoke_user_sessions h get_user t user reason at inactive_user token now v keyed own
      e =
    let after : Sessions = revoke_each t user reason at t in
    elim (Option-cases (get_session_by_token h after token)) [
      | inl gone ↦ ground arith
      | inr (s, found) ↦
          let quiet =
            get-NotLive h user after token s
              (revoke_each-Covered user reason at _ t t keyed (inr refl)) found in
          ground (arith, quiet, own s.user_id v)
    ]
