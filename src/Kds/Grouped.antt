-- ===== src/Kds/Grouped.antt =====
-- Where the snapshot of the whole board shows an item.
use restaurant_pos.Base.{
  ℕ, ◌≡◌, refl, ◌∙◌, ap, subst, inl, inr, Bool, true, false, ◌&&◌, ◌||◌, Option, none, List, [],
  ◌∷◌, ◌++◌, eq_refl, leb, length, select, map, some_of, All, if◌then◌else◌, arith, Bool-cases,
}
use mathlib.Core.List.{append_assoc}
use restaurant_pos.Settings.Types.{Settings}
use restaurant_pos.Orders.Types.{Station}
use restaurant_pos.Kds.Types.{ItemState}
use restaurant_pos.Kds.Board.{Board, has_key}
use restaurant_pos.Kds.Snapshot.{
  View, TicketGroup, same_station, shown_states, station_ids, insert_state, sort_states, group_of,
  get_kds_snapshot, ticket,
}
use restaurant_pos.Kds.Tickets.{
  tally, hits-unseen, same_station_refl, station_ids-once, get_kds_snapshot_whole,
}

-- Each ticket of the group is of its station.
abbrev pub OfStation : TicketGroup → Type 0
OfStation z = All (λ t. same_station t.state.prep_station z.prep_station ≡ true) z.items

-- The group is that of the state's station, and has a ticket of its order item.
abbrev pub shows : ItemState → TicketGroup → Bool
shows x z =
    same_station x.prep_station z.prep_station
    && some_of (λ t. has_key x.order x.item t.state) z.items

module _ (P : ItemState → Type 0) where
  All-insert_state :
      (x : ItemState) (xs : List ItemState) → P x → All P xs → All P (insert_state x xs)
  unfolding insert_state
  All-insert_state x [] p h = (p, tt)
  All-insert_state x (y ∷ ys) p h =
      let later = All-insert_state x ys p h.1 in
      pick (leb x.order_created_at y.order_created_at) later
    where
      pick :
          (b : Bool)
          → All P (insert_state x ys)
          → All P (if b then x ∷ y ∷ ys else y ∷ insert_state x ys)
      pick true later = (p, h)
      pick false later = (h.0, later)

  All-sort_states : (xs : List ItemState) → All P xs → All P (sort_states xs)
  unfolding sort_states
  All-sort_states [] h = tt
  All-sort_states (x ∷ xs) h = All-insert_state x (sort_states xs) h.0 (All-sort_states xs h.1)

  All-tickets :
      (now : ℕ) (xs : List ItemState) → All P xs → All (λ t. P t.state) (map (ticket now) xs)
  All-tickets now [] h = tt
  All-tickets now (x ∷ xs) h = (h.0, All-tickets now xs h.1)

All-chosen : (p : ItemState → Bool) (xs : List ItemState) → All (λ x. p x ≡ true) (select p xs)
All-chosen p [] = tt
All-chosen p (x ∷ xs) = pick (p x) refl (All-chosen p xs)
  where
    pick :
        (b : Bool)
        → p x ≡ b
        → All (λ z. p z ≡ true) (select p xs)
        → All (λ z. p z ≡ true) (if b then x ∷ select p xs else select p xs)
    pick true e rest = (e, rest)
    pick false e rest = rest

group_of-OfStation :
    (now : ℕ) (shown : List ItemState) (g : Station) → OfStation (group_of now shown g)
unfolding group_of
group_of-OfStation now shown g =
    let chosen = select (λ (x : ItemState). same_station x.prep_station g) shown in
    All-tickets (λ x. same_station x.prep_station g ≡ true) now (sort_states chosen)
      (All-sort_states (λ x. same_station x.prep_station g ≡ true) chosen
        (All-chosen (λ x. same_station x.prep_station g) shown))

groups-OfStation :
    (now : ℕ) (shown : List ItemState) (hs : List Station)
    → All OfStation (map (group_of now shown) hs)
groups-OfStation now shown [] = tt
groups-OfStation now shown (h ∷ hs) =
    (group_of-OfStation now shown h, groups-OfStation now shown hs)

module _ (q : ItemState → Bool) where
  insert_state-some :
      (x : ItemState) (xs : List ItemState) → some_of q (insert_state x xs) ≡ (q x || some_of q xs)
  unfolding insert_state
  insert_state-some x [] = refl
  insert_state-some x (y ∷ ys) = let later = insert_state-some x ys in ground arith

  sort_states-some : (xs : List ItemState) → some_of q (sort_states xs) ≡ some_of q xs
  unfolding sort_states
  sort_states-some [] = refl
  sort_states-some (x ∷ xs) =
      insert_state-some x (sort_states xs) ∙ ap (λ b. q x || b) (sort_states-some xs)

  tickets-some :
      (now : ℕ) (xs : List ItemState)
      → some_of (λ t. q t.state) (map (ticket now) xs) ≡ some_of q xs
  tickets-some now [] = refl
  tickets-some now (x ∷ xs) = ap (λ b. q x || b) (tickets-some now xs)

has_key_refl : (x : ItemState) → has_key x.order x.item x ≡ true
has_key_refl x = let o = eq_refl x.order in let i = eq_refl x.item in ground arith

chosen-some :
    (x : ItemState) (before rest : List ItemState) (h : Station)
    → same_station x.prep_station h ≡ true
    → some_of
        (has_key x.order x.item)
        (select (λ (y : ItemState). same_station y.prep_station h) (before ++ (x ∷ rest)))
      ≡ true
chosen-some x [] rest h e = let own = has_key_refl x in ground arith
chosen-some x (y ∷ before) rest h e =
    let later = chosen-some x before rest h e in
    elim (Bool-cases (same_station y.prep_station h)) [
      | inl t ↦ ground arith
      | inr f ↦ ground arith
    ]

seen-some :
    (x : ItemState) (before rest : List ItemState)
    → some_of (λ (y : ItemState). same_station x.prep_station y.prep_station) (before ++ (x ∷ rest))
      ≡ true
seen-some x [] rest = let own = same_station_refl x.prep_station in ground arith
seen-some x (y ∷ before) rest = let later = seen-some x before rest in ground arith

group_of-shows :
    (now : ℕ) (x : ItemState) (before rest : List ItemState) (h : Station)
    → same_station x.prep_station h ≡ true
    → shows x (group_of now (before ++ (x ∷ rest)) h) ≡ true
unfolding group_of
group_of-shows now x before rest h e =
    let chosen = select (λ (y : ItemState). same_station y.prep_station h) (before ++ (x ∷ rest)) in
    let q = has_key x.order x.item in
    let there =
      tickets-some q now (sort_states chosen)
      ∙ sort_states-some q chosen
      ∙ chosen-some x before rest h e in
    ground arith

groups-show :
    (now : ℕ) (x : ItemState) (before rest : List ItemState) (hs : List Station)
    → some_of (same_station x.prep_station) hs ≡ true
    → some_of (shows x) (map (group_of now (before ++ (x ∷ rest))) hs) ≡ true
groups-show now x before rest [] e = absurd (ground arith)
groups-show now x before rest (h ∷ hs) e = elim (Bool-cases (same_station x.prep_station h)) [
  | inl t ↦ let here = group_of-shows now x before rest h t in ground arith
  | inr f ↦ let later = groups-show now x before rest hs (ground arith) in ground arith
]

all_shown :
    (s : Settings) (now : ℕ) (before rest : List ItemState)
    → let shown = before ++ rest in
      All (λ x. some_of (shows x) (map (group_of now shown) (station_ids s none shown)) ≡ true) rest
all_shown s now before [] = tt
all_shown s now before (x ∷ rest) =
    let shown = before ++ (x ∷ rest) in
    let once = station_ids-once s shown x (seen-some x before rest) in
    (
      elim (Bool-cases (some_of (same_station x.prep_station) (station_ids s none shown))) [
        | inl t ↦ groups-show now x before rest (station_ids s none shown) t
        | inr f ↦
            let unseen = hits-unseen x.prep_station (station_ids s none shown) f in
            absurd (ground arith)
      ],
      subst
          (λ z.
            All (λ y. some_of (shows y) (map (group_of now z) (station_ids s none z)) ≡ true) rest)
          (append_assoc before (x ∷ []) rest) (all_shown s now (before ++ (x ∷ [])) rest),
    )

-- In the snapshot of all stations each ticket is in a group of its own station, each state of the
-- branch and the view has a ticket in the group of its station, and there are as many tickets as such
-- states.
pub get_kds_snapshot_groups :
    (s : Settings) (view : View) (branch : Option ℕ) (now : ℕ) (b : Board)
    → All OfStation (get_kds_snapshot s none view branch now b)
      × All
          (λ x. some_of (shows x) (get_kds_snapshot s none view branch now b) ≡ true)
          (shown_states none view branch b)
      × (tally (get_kds_snapshot s none view branch now b)
          ≡ length (shown_states none view branch b))
unfolding get_kds_snapshot
get_kds_snapshot_groups s view branch now b =
    let shown = shown_states none view branch b in
    (
      groups-OfStation now shown (station_ids s none shown),
      all_shown s now [] shown,
      get_kds_snapshot_whole s view branch now b,
    )
