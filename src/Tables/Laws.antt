-- ===== src/Tables/Laws.antt =====
-- At most one open session for each table in each branch.
use restaurant_pos.Base.{
  if◌then◌else◌, ℕ, ◌+◌, ◌≤◌, ◌≡◌, refl, sym, ◌⊎◌, inl, inr, Bool, true, false, Option, none, some,
  List, [], ◌∷◌, select, length, arith, Bool-cases, Option-cases, leb,
}
use restaurant_pos.Base.Table.{Table, get, put, values}
use restaurant_pos.Store.{Store}
use restaurant_pos.Auth.Policy.{User, can, create_order}
use restaurant_pos.Tables.Types.{DiningTable, TableSession, is_active_table}
use restaurant_pos.Tables.Sessions.{
  open_table_session, open_sessions, is_open_at, or_own, save_session, new_session, is_empty,
}

count-put_fresh :
    (p : TableSession → Bool) (t : Table TableSession) (k : ℕ) (v : TableSession)
    → get t k ≡ none
    → length (select p (values (put t k v))) ≡ length (select p (values t)) + (if p v then 1 else 0)
count-put_fresh p [] k v h = ground arith
count-put_fresh p (e ∷ t) k v h = ground (arith, count-put_fresh p t k v)

pub count-put_not :
    (p : TableSession → Bool) (t : Table TableSession) (k : ℕ) (v : TableSession)
    → p v ≡ false
    → length (select p (values (put t k v))) ≤ length (select p (values t))
count-put_not p [] k v h = ground arith
count-put_not p (e ∷ t) k v h = ground (arith, count-put_not p t k v h)

-- Each table is stored under its id, and has at most one open session in a branch.
pub record OneOpen (s : Store) : Type 0 where
  pub keyed : (k : ℕ) (t : DiningTable) → get s.tables k ≡ some t → t.id ≡ k
  pub one : (branch table : ℕ) → length (open_sessions s branch table) ≤ 1

empty-length : (xs : List TableSession) → is_empty xs ≡ true → length xs ≡ 0
empty-length [] h = refl
empty-length (x ∷ xs) h = cc

abbrev pub stored : Store → TableSession → Store
stored s x = record s { sessions = put s.sessions x.id x }

-- How a session was opened.
pub record Opened (s : Store) (user : User) (table guests : ℕ) (given : Option ℕ) (id now : ℕ)
    : Type 0 where
  pub at_table : DiningTable
  pub found : get s.tables table ≡ some at_table
  pub free : is_empty (open_sessions s (or_own given at_table.branch) table) ≡ true
  pub after :
      (open_table_session user table guests given id now s).1
      ≡ stored s (new_session id (or_own given at_table.branch) at_table.id guests user.id now)

pub open_table_session_cases :
    (user : User) (table guests : ℕ) (given : Option ℕ) (id now : ℕ) (s : Store)
    → ((open_table_session user table guests given id now s).1 ≡ s)
      ⊎ Opened s user table guests given id now
unfolding open_table_session save_session new_session
open_table_session_cases user table guests given id now s =
    elim (Bool-cases (can user create_order)) [
      | inr f ↦ inl (ground arith)
      | inl a ↦ elim (Option-cases (get s.tables table)) [
        | inl e ↦ inl (ground arith)
        | inr (t, e) ↦ elim (Bool-cases (is_active_table t.status)) [
          | inr f ↦ inl (ground arith)
          | inl b ↦ elim (Bool-cases (is_empty (open_sessions s (or_own given t.branch) table))) [
            | inr f ↦ inl (ground arith)
            | inl c ↦ elim (Bool-cases (leb 1 guests)) [
              | inr f ↦ inl (ground arith)
              | inl d ↦ inr (record { at_table = t; found = e; free = c; after = ground arith })
            ]
          ]
        ]
      ]
    ]

pub opened-OneOpen :
    (s : Store) (x : TableSession)
    → OneOpen s
    → get s.sessions x.id ≡ none
    → is_empty (open_sessions s x.branch x.table) ≡ true
    → OneOpen (stored s x)
opened-OneOpen s x h fresh free = record {
  keyed = h.keyed;
  one = λ branch table. elim (Bool-cases (is_open_at branch table x)) [
    | inr f ↦
        omega
          (arith, count-put_not (is_open_at branch table) s.sessions x.id x f, h.one branch table)
    | inl t ↦
        let none_there : length (open_sessions s x.branch x.table) ≡ 0 = empty-length _ free in
        let same_branch : x.branch ≡ branch = ground arith in
        let same_table : x.table ≡ table = ground arith in
        let none_here : length (open_sessions s branch table) ≡ 0 =
          rw (sym same_branch, sym same_table) none_there in
        let counted = count-put_fresh (is_open_at branch table) s.sessions x.id x fresh in
        ground (arith, counted, none_here)
  ];
}
