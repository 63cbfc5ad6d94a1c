-- ===== src/Tables/Destination.antt =====
-- The session that the orders of another one are moved to, in backend/tables/service.ts.
use restaurant_pos.Base.{
  ℕ, ◌≡◌, ◌≢◌, refl, sym, ◌∙◌, subst, inl, inr, true, Option, none, some, List, [], ◌∷◌, All, arith,
  Bool-cases, Option-cases, leb,
}
use restaurant_pos.Base.Table.{Among, IsMap, get, Among-get, select-Among}
use restaurant_pos.Store.{Store}
use restaurant_pos.Auth.Policy.{User}
use restaurant_pos.Tables.Types.{DiningTable, TableSession, is_open}
use restaurant_pos.Tables.Sessions.{open_sessions, is_open_at, new_session}
use restaurant_pos.Tables.Transfer.{earliest, destination_session, target_id}

earliest-All :
    (P : TableSession → Type 0) (xs : List TableSession) (x : TableSession)
    → All P xs
    → earliest xs ≡ some x
    → P x
earliest-All P [] x a h = cc
earliest-All P (y ∷ ys) x a h = elim (Option-cases (earliest ys)) [
  | inl e ↦ subst P (ground arith) a.0
  | inr (z, e) ↦ elim (Bool-cases (leb y.opened_at z.opened_at)) [
    | inl t ↦ subst P (ground arith) a.0
    | inr f ↦ earliest-All P ys x a.1 (ground arith)
  ]
]

-- The destination is a session of its own: the source is at another table.
destination-apart :
    (s : Store) (source x : TableSession) (branch table : ℕ)
    → IsMap s.sessions
    → ((k : ℕ) (z : TableSession) → get s.sessions k ≡ some z → z.id ≡ k)
    → get s.sessions source.id ≡ some source
    → source.table ≢ table
    → earliest (open_sessions s branch table) ≡ some x
    → (x.id ≢ source.id) × (x.table ≡ table) × (is_open x.status ≡ true)
destination-apart s source x branch table proper keyed at apart h =
    let (k, a, e) =
      earliest-All (λ v. (k : ℕ) × Among k v s.sessions × (is_open_at branch table v ≡ true))
        (open_sessions s branch table) x (select-Among (is_open_at branch table) s.sessions) h in
    let found = Among-get s.sessions k x proper a in
    let own = keyed k x found in
    let there : x.table ≡ table = ground arith in
    (
      (λ same.
          let again : get s.sessions source.id ≡ some x =
            subst (λ j. get s.sessions j ≡ some x) (sym own ∙ same) found in
          apart (ground arith)),
      there,
      ground arith,
    )

pub destination-facts :
    (user : User) (source : TableSession) (t : DiningTable) (existing : Option TableSession)
    (fresh now : ℕ) (s : Store)
    → IsMap s.sessions
    → ((k : ℕ) (z : TableSession) → get s.sessions k ≡ some z → z.id ≡ k)
    → get s.sessions source.id ≡ some source
    → source.table ≢ t.id
    → get s.sessions fresh ≡ none
    → earliest (open_sessions s source.branch t.id) ≡ existing
    → (target_id existing fresh ≢ source.id)
      × ((destination_session user source t existing fresh now).id ≡ target_id existing fresh)
      × ((destination_session user source t existing fresh now).table ≡ t.id)
      × (is_open (destination_session user source t existing fresh now).status ≡ true)
unfolding destination_session new_session
destination-facts user source t none fresh now s proper keyed at apart unused h =
    ((λ e. ground (arith, e)), refl, refl, refl)
destination-facts user source t (some x) fresh now s proper keyed at apart unused h =
    let (other, placed, opens) =
      destination-apart s source x source.branch t.id proper keyed at apart h in
    (other, refl, placed, opens)
