-- ===== src/Auth/Policy/Laws.antt =====
-- What the permission matrix grants, and what it can never grant.
use mathlib.Core.List.{◌++◌}
use restaurant_pos.Base.{
  ◌≡◌, refl, ◌↔◌, ◌⊎◌, inl, inr, Bool, true, false, List, [], ◌∷◌, arith, Bool-cases, some_of,
}
use restaurant_pos.Auth.Policy.{
  User, Role, Action, active, superadmin, waitstaff, manager, void_prepared_items, manage_system,
  close_bill, grants, has_permission, can,
}

-- An action is allowed exactly to an active user one of whose roles grants it; an inactive user is
-- refused whatever the roles are.
pub can_iff :
    (u : User) (a : Action)
    → (can u a ≡ true) ↔ ((u.status ≡ active) × (some_of (λ r. grants r a) u.roles ≡ true))
unfolding can has_permission
can_iff u a = ground arith

grants-void_prepared_items :
    (r : Role) → grants r void_prepared_items ≡ true → (r ≡ superadmin) ⊎ (r ≡ manager)
unfolding grants
grants-void_prepared_items superadmin h = inl refl
grants-void_prepared_items manager h = inr refl
grants-void_prepared_items _ h = cc

grants-manage_system : (r : Role) → grants r manage_system ≡ true → r ≡ superadmin
unfolding grants
grants-manage_system superadmin h = refl
grants-manage_system _ h = cc

-- Some role of the list has the property.
abbrev pub AnyRole : (Role → Type 0) → List Role → Type 0
AnyRole P [] = ⊥
AnyRole P (r ∷ rs) = P r ⊎ AnyRole P rs

some_of-AnyRole :
    (P : Role → Type 0) (p : Role → Bool) (rs : List Role)
    → ((r : Role) → p r ≡ true → P r)
    → some_of p rs ≡ true
    → AnyRole P rs
some_of-AnyRole P p [] f h = cc
some_of-AnyRole P p (r ∷ rs) f h = elim (Bool-cases (p r)) [
  | inl granted ↦ inl (f r granted)
  | inr denied ↦ inr (some_of-AnyRole P p rs f (rw denied at h))
]

-- Whoever may void prepared items is active and is a superadmin or a manager.
pub can_void_prepared_items :
    (u : User)
    → can u void_prepared_items ≡ true
    → (u.status ≡ active) × AnyRole (λ r. (r ≡ superadmin) ⊎ (r ≡ manager)) u.roles
can_void_prepared_items u h =
    let (on, granted) = (can_iff u void_prepared_items).0 h in
    (
      on,
      some_of-AnyRole _ (λ r. grants r void_prepared_items) u.roles grants-void_prepared_items
          granted,
    )

-- Whoever may manage the system is active and is a superadmin.
pub can_manage_system :
    (u : User)
    → can u manage_system ≡ true
    → (u.status ≡ active) × AnyRole (λ r. r ≡ superadmin) u.roles
can_manage_system u h =
    let (on, granted) = (can_iff u manage_system).0 h in
    (on, some_of-AnyRole _ (λ r. grants r manage_system) u.roles grants-manage_system granted)

has_permission-append :
    (a : Action) (rs qs : List Role)
    → some_of (λ r. grants r a) rs ≡ true
    → some_of (λ r. grants r a) (rs ++ qs) ≡ true
has_permission-append a [] qs h = cc
has_permission-append a (r ∷ rs) qs h = ground (arith, has_permission-append a rs qs)

-- A further role takes nothing away: what an active user may do, the same user may do with more
-- roles.
pub can_more_roles :
    (u : User) (qs : List Role) (a : Action)
    → can u a ≡ true
    → can (record u { roles = u.roles ++ qs }) a ≡ true
can_more_roles u qs a h =
    let (on, granted) = (can_iff u a).0 h in
    (can_iff (record u { roles = u.roles ++ qs }) a).1
      (on, has_permission-append a u.roles qs granted)

-- `docs/rbac-matrix.md` lets waiting staff close bills; the code does not, whatever the user is.
pub waitstaff_cannot_close : (u : User) → u.roles ≡ waitstaff ∷ [] → can u close_bill ≡ false
unfolding can has_permission grants
waitstaff_cannot_close u h = ground arith
