-- ===== src/Kds/Snapshot.antt =====
-- `getKdsSnapshot` of backend/kds/service.ts: the tickets by station.
use restaurant_pos.Base.{
  ℕ, ◌-◌, ◌/◌, Bool, true, false, ◌&&◌, Option, none, some, List, [], ◌∷◌, ◌++◌, ◌==◌, leb,
  if◌then◌else◌, select, some_of, map,
}
use restaurant_pos.Settings.Types.{Settings}
use restaurant_pos.Orders.Types.{Station, kitchen, bar, station}
use restaurant_pos.Orders.Build.{station_of_id}
use restaurant_pos.Kds.Types.{ItemState, queued, preparing, ready, served, is_prepared}
use restaurant_pos.Kds.Board.{Board}

-- `KdsView`
pub data View : Type 0 where
  active_view history_view all_view : View

-- `KdsTicketItem`
pub record Ticket : Type 0 where
  pub state : ItemState
  pub elapsed_seconds : ℕ

pub record TicketGroup : Type 0 where
  pub prep_station : Station
  pub items : List Ticket

abbrev pub same_station : Station → Station → Bool
same_station kitchen kitchen = true
same_station bar bar = true
same_station (station a) (station b) = a == b
same_station _ _ = false

unfoldable pub matches_kds_view : View → ItemState → Bool
matches_kds_view all_view x = true
matches_kds_view history_view x = is_prepared x.progress
matches_kds_view active_view x = elim x.progress [
  | queued ↦ true
  | preparing ↦ true
  | ready ↦ false
  | served ↦ false
]

abbrev at_branch : Option ℕ → ItemState → Bool
at_branch none x = true
at_branch (some b) x = x.branch == b

abbrev pub at_station : Option Station → ItemState → Bool
at_station none x = true
at_station (some g) x = same_station x.prep_station g

-- What the snapshot is about
unfoldable pub shown_states : Option Station → View → Option ℕ → Board → List ItemState
unfolding matches_kds_view
shown_states only view branch b =
    select (λ x. at_branch branch x && (at_station only x && matches_kds_view view x)) b.items

-- `stationIds.add`
unfoldable pub add_station : Station → List Station → List Station
add_station g ids = if some_of (same_station g) ids then ids else ids ++ (g ∷ [])

unfoldable pub add_all : List Station → List Station → List Station
unfolding add_station
add_all [] ids = ids
add_all (g ∷ gs) ids = add_all gs (add_station g ids)

abbrev given_station : Option Station → List Station
given_station none = []
given_station (some g) = g ∷ []

-- `listPrepStations()`
abbrev pub configured : Settings → List Station
configured s = map (λ x. station_of_id x.id) (select (λ x. x.enabled) s.prep_stations)

unfoldable pub station_ids : Settings → Option Station → List ItemState → List Station
unfolding add_all
station_ids s only shown =
    add_all (configured s ++ (map (λ x. x.prep_station) shown ++ given_station only)) []

-- The sort is stable, by the time of the order.
unfoldable pub insert_state : ItemState → List ItemState → List ItemState
insert_state x [] = x ∷ []
insert_state x (y ∷ ys) =
    let later = insert_state x ys in
    if leb x.order_created_at y.order_created_at then x ∷ y ∷ ys else y ∷ later

unfoldable pub sort_states : List ItemState → List ItemState
unfolding insert_state
sort_states [] = []
sort_states (x ∷ xs) = insert_state x (sort_states xs)

-- The times are in milliseconds.
abbrev pub ticket : ℕ → ItemState → Ticket
ticket now x = record { state = x; elapsed_seconds = (now - x.order_created_at) / 1000 }

unfoldable pub group_of : ℕ → List ItemState → Station → TicketGroup
unfolding sort_states
group_of now shown g = record {
  prep_station = g;
  items = map (ticket now) (sort_states (select (λ x. same_station x.prep_station g) shown));
}

abbrev pub wanted : Option Station → List TicketGroup → List TicketGroup
wanted none groups = groups
wanted (some g) groups = select (λ z. same_station z.prep_station g) groups

unfoldable pub get_kds_snapshot :
    Settings → Option Station → View → Option ℕ → ℕ → Board → List TicketGroup
unfolding shown_states station_ids group_of
get_kds_snapshot s only view branch now b =
    let shown = shown_states only view branch b in
    wanted only (map (group_of now shown) (station_ids s only shown))
