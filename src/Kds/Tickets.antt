-- ===== src/Kds/Tickets.antt =====
-- The number of tickets in the snapshot of the whole board.
use restaurant_pos.Base.{
  ℕ, suc, ◌+◌, ◌≤◌, ◌≡◌, refl, sym, ◌∙◌, ap, subst, inl, inr, Bool, true, false, Option, none, List,
  [], ◌∷◌, ◌++◌, ==_iff, eq_refl, length, select, map, some_of, arith, Bool-cases,
}
use restaurant_pos.Settings.Types.{Settings}
use restaurant_pos.Orders.Types.{Station, kitchen, bar, station}
use restaurant_pos.Kds.Types.{ItemState}
use restaurant_pos.Kds.Board.{Board}
use restaurant_pos.Kds.Snapshot.{
  View, TicketGroup, same_station, shown_states, add_station, add_all, station_ids, insert_state,
  sort_states, group_of, configured, get_kds_snapshot, ticket,
}

-- The number of tickets of a snapshot
unfoldable pub tally : List TicketGroup → ℕ
tally [] = 0
tally (z ∷ zs) = length z.items + tally zs

same_station-eq : (g h : Station) → same_station g h ≡ true → g ≡ h
same_station-eq kitchen kitchen e = refl
same_station-eq bar bar e = refl
same_station-eq (station a) (station b) e = ap station ((==_iff a b).0 e)
same_station-eq kitchen bar e = absurd (ground arith)
same_station-eq kitchen (station b) e = absurd (ground arith)
same_station-eq bar kitchen e = absurd (ground arith)
same_station-eq bar (station b) e = absurd (ground arith)
same_station-eq (station a) kitchen e = absurd (ground arith)
same_station-eq (station a) bar e = absurd (ground arith)

pub same_station_refl : (g : Station) → same_station g g ≡ true
same_station_refl kitchen = refl
same_station_refl bar = refl
same_station_refl (station a) = eq_refl a

abbrev one_if : Bool → ℕ
one_if true = 1
one_if false = 0

-- How often a station is among the groups
pub hits : Station → List Station → ℕ
hits g [] = 0
hits g (h ∷ hs) = one_if (same_station g h) + hits g hs

hits-append : (g : Station) (hs is : List Station) → hits g (hs ++ is) ≡ hits g hs + hits g is
unfolding hits
hits-append g [] is = ground arith
hits-append g (h ∷ hs) is = let rest = hits-append g hs is in ground arith

pub hits-unseen :
    (g : Station) (hs : List Station) → some_of (same_station g) hs ≡ false → hits g hs ≡ 0
unfolding hits
hits-unseen g [] e = refl
hits-unseen g (h ∷ hs) e = elim (Bool-cases (same_station g h)) [
  | inl t ↦ absurd (ground arith)
  | inr f ↦ let rest = hits-unseen g hs (ground arith) in ground arith
]

hits-seen : (g : Station) (hs : List Station) → some_of (same_station g) hs ≡ true → 1 ≤ hits g hs
unfolding hits
hits-seen g [] e = absurd (ground arith)
hits-seen g (h ∷ hs) e = elim (Bool-cases (same_station g h)) [
  | inl t ↦ ground arith
  | inr f ↦ let rest = hits-seen g hs (ground arith) in ground arith
]

added-once :
    (g h : Station) (hs : List Station)
    → hits g hs ≤ 1
    → hits h hs ≡ 0
    → hits g (hs ++ (h ∷ [])) ≡ hits g hs + hits g (h ∷ [])
    → (hits g (hs ++ (h ∷ [])) ≤ 1)
      × (hits g hs ≤ hits g (hs ++ (h ∷ [])))
      × (same_station g h ≡ true → hits g (hs ++ (h ∷ [])) ≡ 1)
unfolding hits
added-once g h hs least unseen more = elim (Bool-cases (same_station g h)) [
  | inr f ↦ (ground arith, ground arith, (λ e. absurd (ground arith)))
  | inl t ↦
      let none_yet : hits g hs ≡ 0 =
        subst (λ z. hits z hs ≡ 0) (sym (same_station-eq g h t)) unseen in
      (ground arith, ground arith, (λ e. ground arith))
]

-- Adding a station gives it one group, and every other station as many as before.
add_station-once :
    (g h : Station) (hs : List Station)
    → hits g hs ≤ 1
    → (hits g (add_station h hs) ≤ 1)
      × (hits g hs ≤ hits g (add_station h hs))
      × (same_station g h ≡ true → hits g (add_station h hs) ≡ 1)
unfolding add_station
add_station-once g h hs least = elim (Bool-cases (some_of (same_station h) hs)) [
  | inl t ↦
      let seen = hits-seen h hs t in
      let kept : add_station h hs ≡ hs = ground arith in
      subst
        (λ z. (hits g z ≤ 1) × (hits g hs ≤ hits g z) × (same_station g h ≡ true → hits g z ≡ 1))
        (sym kept)
        (
          least,
          ground arith,
          (λ e.
              let here : 1 ≤ hits g hs =
                subst (λ z. 1 ≤ hits z hs) (sym (same_station-eq g h e)) seen in
              ground arith),
        )
  | inr f ↦
      let unseen = hits-unseen h hs f in
      let longer : add_station h hs ≡ hs ++ (h ∷ []) = ground arith in
      let more = hits-append g hs (h ∷ []) in
      subst
        (λ z. (hits g z ≤ 1) × (hits g hs ≤ hits g z) × (same_station g h ≡ true → hits g z ≡ 1))
        (sym longer) (added-once g h hs least unseen more)
]

add_all-once :
    (g : Station) (gs hs : List Station)
    → hits g hs ≤ 1
    → (1 ≤ hits g hs → hits g (add_all gs hs) ≡ 1)
      × (some_of (same_station g) gs ≡ true → hits g (add_all gs hs) ≡ 1)
unfolding add_all
add_all-once g [] hs least = ((λ e. ground arith), (λ e. absurd (ground arith)))
add_all-once g (h ∷ gs) hs least =
    let (still, more, here) = add_station-once g h hs least in
    let (kept, later) = add_all-once g gs (add_station h hs) still in
    (
      (λ e. kept (ground arith)),
      (λ e. elim (Bool-cases (same_station g h)) [
        | inl t ↦ let one = here t in kept (ground arith)
        | inr f ↦ later (ground arith)
      ]),
    )

-- Some station of a list of states
map_station-seen :
    (g : Station) (xs : List ItemState) (before after : List Station)
    → some_of (λ (x : ItemState). same_station g x.prep_station) xs ≡ true
    → some_of (same_station g) (before ++ (map (λ x. x.prep_station) xs ++ after)) ≡ true
map_station-seen g [] [] after e = absurd (ground arith)
map_station-seen g (x ∷ xs) [] after e = elim (Bool-cases (same_station g x.prep_station)) [
  | inl t ↦ ground arith
  | inr f ↦ let rest = map_station-seen g xs [] after (ground arith) in ground arith
]
map_station-seen g xs (h ∷ before) after e =
    let rest = map_station-seen g xs before after e in ground arith

length-insert_state :
    (x : ItemState) (xs : List ItemState) → length (insert_state x xs) ≡ suc (length xs)
unfolding insert_state
length-insert_state x [] = refl
length-insert_state x (y ∷ ys) = let rest = length-insert_state x ys in ground arith

length-sort_states : (xs : List ItemState) → length (sort_states xs) ≡ length xs
unfolding sort_states
length-sort_states [] = refl
length-sort_states (x ∷ xs) =
    length-insert_state x (sort_states xs) ∙ ap suc (length-sort_states xs)

length-tickets : (now : ℕ) (xs : List ItemState) → length (map (ticket now) xs) ≡ length xs
length-tickets now [] = refl
length-tickets now (x ∷ xs) = ap suc (length-tickets now xs)

-- How many groups the states stand in, together
weight : List ItemState → List Station → ℕ
weight [] hs = 0
weight (x ∷ xs) hs = hits x.prep_station hs + weight xs hs

weight-cons :
    (g : Station) (hs : List Station) (xs : List ItemState)
    → weight xs (g ∷ hs)
      ≡ length (select (λ (x : ItemState). same_station x.prep_station g) xs) + weight xs hs
unfolding weight hits
weight-cons g hs [] = ground arith
weight-cons g hs (x ∷ xs) =
    let rest = weight-cons g hs xs in
    elim (Bool-cases (same_station x.prep_station g)) [
      | inl t ↦ ground arith
      | inr f ↦ ground arith
    ]

weight-nil : (xs : List ItemState) → weight xs [] ≡ 0
unfolding weight hits
weight-nil [] = refl
weight-nil (x ∷ xs) = let rest = weight-nil xs in ground arith

tally_groups :
    (now : ℕ) (xs : List ItemState) (hs : List Station)
    → tally (map (group_of now xs) hs) ≡ weight xs hs
unfolding tally group_of
tally_groups now xs [] = sym (weight-nil xs)
tally_groups now xs (g ∷ hs) =
    let chosen = select (λ (x : ItemState). same_station x.prep_station g) xs in
    let rest = tally_groups now xs hs in
    let split = weight-cons g hs xs in
    let here = length-tickets now (sort_states chosen) ∙ length-sort_states chosen in ground arith

weight-once :
    (xs ys : List ItemState) (hs : List Station)
    → ((x : ItemState)
        → some_of (λ (y : ItemState). same_station x.prep_station y.prep_station) ys ≡ true
        → hits x.prep_station hs ≡ 1)
    → ((x : ItemState)
        → some_of (λ (y : ItemState). same_station x.prep_station y.prep_station) xs ≡ true
        → some_of (λ (y : ItemState). same_station x.prep_station y.prep_station) ys ≡ true)
    → weight xs hs ≡ length xs
unfolding weight
weight-once [] ys hs once within = refl
weight-once (x ∷ xs) ys hs once within =
    let self = same_station_refl x.prep_station in
    let one = once x (within x (ground arith)) in
    let rest = weight-once xs ys hs once (λ z e. within z (ground arith)) in ground arith

-- Each state that is shown has its station among the groups, once.
pub station_ids-once :
    (s : Settings) (shown : List ItemState) (x : ItemState)
    → some_of (λ (y : ItemState). same_station x.prep_station y.prep_station) shown ≡ true
    → hits x.prep_station (station_ids s none shown) ≡ 1
unfolding station_ids hits
station_ids-once s shown x e =
    (add_all-once x.prep_station
        (configured s ++ (map (λ (y : ItemState). y.prep_station) shown ++ [])) [] (ground arith)).1
      (map_station-seen x.prep_station shown (configured s) [] e)

-- The snapshot of all stations has as many tickets as the board has states of the branch and the view.
pub get_kds_snapshot_whole :
    (s : Settings) (view : View) (branch : Option ℕ) (now : ℕ) (b : Board)
    → tally (get_kds_snapshot s none view branch now b) ≡ length (shown_states none view branch b)
unfolding get_kds_snapshot
get_kds_snapshot_whole s view branch now b =
    let shown = shown_states none view branch b in
    let hs = station_ids s none shown in
    tally_groups now shown hs
    ∙ weight-once shown shown hs (λ x e. station_ids-once s shown x e) (λ x e. e)
