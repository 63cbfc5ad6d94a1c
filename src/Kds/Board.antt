-- ===== src/Kds/Board.antt =====
-- The item states and the progress history of backend/kds/repository.ts, and `syncOrderIntoKds` and
-- `updateKdsItemProgressImpl` of backend/kds/service.ts. The events to subscribers are left out.
use restaurant_pos.Base.{
  ℕ, ◌+◌, Bool, true, false, not, ◌&&◌, ◌||◌, Option, none, some, List, [], ◌∷◌, ◌++◌, ◌==◌, leb,
  if◌then◌else◌, select, find, some_of, map,
}
use restaurant_pos.Base.Text.{Text}
use restaurant_pos.Base.Result.{check, or_error, forbidden, kds_item_not_found}
use restaurant_pos.Store.{Store, M, pure, gets, lift, modify, ◌>>=◌, ◌>>◌}
use restaurant_pos.Auth.Policy.{User, can, transition_order_status}
use restaurant_pos.Orders.Types.{
  Order, OrderItem, OrderStatus, pending, in_preparation, completed, is_cancelled, Station, kitchen,
  bar,
}
use restaurant_pos.Kds.Types.{
  Progress, queued, preparing, ready, served, HistoryEvent, reached, is_cancellation, ItemState,
  HistoryRow,
}

pub record Board : Type 0 where
  pub items : List ItemState
  pub history : List HistoryRow

abbrev pub has_key : ℕ → ℕ → ItemState → Bool
has_key order item x = x.order == order && x.item == item

-- `getKdsItemState`
abbrev pub get_state : Board → ℕ → ℕ → Option ItemState
get_state b order item = find (has_key order item) b.items

abbrev pub put_item : List ItemState → ItemState → List ItemState
put_item [] x = x ∷ []
put_item (y ∷ ys) x = if has_key x.order x.item y then x ∷ ys else y ∷ put_item ys x

-- `upsertKdsItemState`
unfoldable pub upsert_state : ItemState → Board → Board
upsert_state x b = record b { items = put_item b.items x }

-- `removeKdsItemState`: the keys of a `Map` are unique, so every row with the key goes.
unfoldable pub remove_state : ℕ → ℕ → Board → Board
remove_state order item b = record b { items = select (λ x. not (has_key order item x)) b.items }

-- `recordProgress`
unfoldable pub record_progress : ℕ → ℕ → ℕ → Station → HistoryEvent → ℕ → Board → Board
record_progress branch order item prep_station event at b = record b {
  history =
      b.history
      ++ (record {
        branch = branch;
        order = order;
        item = item;
        prep_station = prep_station;
        event = event;
        at = at;
      })
        ∷ [];
}

-- The characters of `toLowerCase()` that matter here: the ASCII letters and the Kelvin sign.
abbrev lower : ℕ → ℕ
lower x = if leb 65 x && leb x 90 then x + 32 else if x == 8490 then 107 else x

abbrev starts_with : Text → Text → Bool
starts_with [] text = true
starts_with (p ∷ ps) [] = false
starts_with (p ∷ ps) (x ∷ xs) = p == x && starts_with ps xs

abbrev includes : Text → Text → Bool
includes p [] = starts_with p []
includes p (x ∷ xs) = starts_with p (x ∷ xs) || includes p xs

-- The words that send an item to the bar: `bar`, `drink` and `cocktail`.
abbrev word_bar : Text
word_bar = 98 ∷ 97 ∷ 114 ∷ []

abbrev word_drink : Text
word_drink = 100 ∷ 114 ∷ 105 ∷ 110 ∷ 107 ∷ []

abbrev word_cocktail : Text
word_cocktail = 99 ∷ 111 ∷ 99 ∷ 107 ∷ 116 ∷ 97 ∷ 105 ∷ 108 ∷ []

unfoldable pub station_for_item : OrderItem → Station
station_for_item i = elim i.prep_station [
  | some x ↦ x
  | none ↦
      let text = map lower i.label in
      if includes word_bar text || (includes word_drink text || includes word_cocktail text)
      then bar
      else kitchen
]

unfoldable pub default_progress : OrderStatus → Progress
default_progress pending = queued
default_progress in_preparation = preparing
default_progress completed = ready
default_progress _ = served

abbrev is_queued : Progress → Bool
is_queued queued = true
is_queued _ = false

abbrev pub progress_or : Option ItemState → Progress → Progress
progress_or none p = p
progress_or (some x) y = x.progress

-- The states of the order whose item is gone: each leaves a cancellation.
unfoldable pub drop_states : Order → ℕ → List ItemState → Board → Board
unfolding record_progress remove_state
drop_states o now [] b = b
drop_states o now (x ∷ xs) b = drop_states o now xs (
    remove_state o.id x.item
      (record_progress o.branch o.id x.item x.prep_station HistoryEvent.cancelled now b))

abbrev pub is_stale : Order → ItemState → Bool
is_stale o x = x.order == o.id && not (some_of (λ i. i.id == x.item) o.items)

-- What a new item writes to the history.
unfoldable pub announce : Order → OrderItem → Station → Option ItemState → ℕ → Board → Board
unfolding record_progress default_progress
announce o i prep_station (some x) now b = b
announce o i prep_station none now b =
    let queued_row =
      record_progress o.branch o.id i.id prep_station (reached queued) o.created_at b in
    let p = default_progress o.status in
    if not (is_queued p) && not (is_cancelled o.status)
    then record_progress o.branch o.id i.id prep_station (reached p) now queued_row
    else queued_row

-- A cancelled order writes one cancellation for each item.
unfoldable pub announce_cancellation : Order → OrderItem → Station → ℕ → Board → Board
unfolding record_progress
announce_cancellation o i prep_station now b =
    if is_cancelled o.status
      && not
          (some_of (λ r. r.item == i.id && (r.order == o.id && is_cancellation r.event)) b.history)
    then record_progress o.branch o.id i.id prep_station HistoryEvent.cancelled now b
    else b

-- The state that is stored: an item that is already on the board keeps its progress.
abbrev pub row_of : Order → ℕ → OrderItem → Option ItemState → ItemState
row_of o now i existing = record {
  branch = o.branch;
  order = o.id;
  item = i.id;
  order_created_at = o.created_at;
  prep_station = station_for_item i;
  quantity = i.quantity;
  progress = progress_or existing (default_progress o.status);
  updated_at = now;
}

unfoldable pub sync_item : Order → ℕ → OrderItem → Board → Board
unfolding station_for_item announce announce_cancellation upsert_state default_progress
sync_item o now i b =
    let existing = get_state b o.id i.id in
    let prep_station = station_for_item i in
    upsert_state (row_of o now i existing)
      (announce_cancellation o i prep_station now (announce o i prep_station existing now b))

unfoldable pub sync_items : Order → ℕ → List OrderItem → Board → Board
unfolding sync_item
sync_items o now [] b = b
sync_items o now (i ∷ is) b = sync_items o now is (sync_item o now i b)

-- `syncOrderIntoKds`
unfoldable pub sync_board : Order → ℕ → Board → Board
unfolding drop_states sync_items
sync_board o now b = sync_items o now o.items (drop_states o now (select (is_stale o) b.items) b)

abbrev pub board_of : Store → Board
board_of s = record { items = s.kds_items; history = s.kds_history }

abbrev with_board : Board → Store → Store
with_board b s = record s { kds_items = b.items; kds_history = b.history }

unfoldable pub sync_order_into_kds : Order → ℕ → M (Unit {0})
sync_order_into_kds o now = modify (λ s. with_board (sync_board o now (board_of s)) s)

abbrev same_progress : Progress → Progress → Bool
same_progress queued queued = true
same_progress preparing preparing = true
same_progress ready ready = true
same_progress served served = true
same_progress _ _ = false

-- The new progress on the board: a history row only where it changes.
unfoldable pub advance : ItemState → Progress → ℕ → Board → Board
unfolding record_progress upsert_state
advance x p now b =
    let noted =
      if same_progress x.progress p
      then b
      else record_progress x.branch x.order x.item x.prep_station (reached p) now b in
    upsert_state (record x { progress = p; updated_at = now }) noted

unfoldable pub update_kds_item_progress : User → ℕ → ℕ → Progress → ℕ → M ItemState
unfolding advance
update_kds_item_progress user order item p now = do
  lift (check (can user transition_order_status) forbidden)
  found ← gets (λ s. get_state (board_of s) order item)
  x ← lift (or_error found kds_item_not_found)
  modify (λ s. with_board (advance x p now (board_of s)) s)
  pure (record x { progress = p; updated_at = now })
