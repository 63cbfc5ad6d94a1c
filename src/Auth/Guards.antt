-- ===== src/Auth/Guards.antt =====
-- backend/auth/middleware.ts: the guards in front of the routes.
use restaurant_pos.Base.{
  ℕ, ◌≡◌, refl, ◌↔◌, true, List, Option, none, some, arith, if◌then◌else◌, some_of, Option-cases,
  inl, inr,
}
use restaurant_pos.Auth.Policy.{User, Action, can, is_user_active}

-- What a guard does: it answers with a status code, or hands on to the next handler with the
-- request's user.
pub data Outcome : Type 0 where
  respond : ℕ → Outcome
  next : Option User → Outcome

unfoldable pub require_auth : Option User → Outcome
require_auth none = respond 401
require_auth (some u) = next (some u)

-- `latest` is what `getUserById` finds under the user's id.
unfoldable pub require_active_user : (ℕ → Option User) → Option User → Outcome
require_active_user get_user_by_id none = respond 401
require_active_user get_user_by_id (some u) = elim (get_user_by_id u.id) [
  | none ↦ respond 403
  | some latest ↦ if is_user_active latest then next (some latest) else respond 403
]

unfoldable pub authorize : Action → Option User → Outcome
authorize a none = respond 401
authorize a (some u) = if can u a then next (some u) else respond 403

unfoldable pub authorize_any : List Action → Option User → Outcome
authorize_any actions none = respond 401
authorize_any actions (some u) =
    if some_of (λ a. can u a) actions then next (some u) else respond 403

-- A route behind `requireActiveUser` and then `authorize`.
unfoldable pub protected : (ℕ → Option User) → Action → Option User → Outcome
protected get_user_by_id a request = elim (require_active_user get_user_by_id request) [
  | respond code ↦ respond code
  | next u ↦ authorize a u
]

-- What a protected handler needs of the request and of the user's current record.
abbrev pub Admits : (ℕ → Option User) → Action → Option User → Option User → Type 0
Admits get a request v =
    (u : User) × (latest : User) × (request ≡ some u)
    × (get u.id ≡ some latest)
    × (can latest a ≡ true)
    × (v ≡ some latest)

protected-Admits :
    (get : ℕ → Option User) (a : Action) (request v : Option User)
    → protected get a request ≡ next v
    → Admits get a request v
unfolding protected require_active_user authorize can
protected-Admits get a none v h = cc
protected-Admits get a (some u) v h = elim (Option-cases (get u.id)) [
  | inl gone ↦ ground arith
  | inr (latest, e) ↦ (u, latest, refl, e, ground arith, ground arith)
]

Admits-protected :
    (get : ℕ → Option User) (a : Action) (request v : Option User)
    → Admits get a request v
    → protected get a request ≡ next v
unfolding protected require_active_user authorize can
Admits-protected get a request v (u, latest, r, e, allowed, same) = rw (r, same) (ground arith)

-- A request reaches a handler behind `requireActiveUser` and `authorize` exactly when it carries a
-- user whose current record is found and may do the action; the handler then sees the current
-- record, whatever the request held.
pub protected_iff :
    (get : ℕ → Option User) (a : Action) (request v : Option User)
    → (protected get a request ≡ next v) ↔ Admits get a request v
protected_iff get a request v = (protected-Admits get a request v, Admits-protected get a request v)
