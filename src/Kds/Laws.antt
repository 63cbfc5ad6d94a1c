-- ===== src/Kds/Laws.antt =====
-- What the board shows after an order is synchronized.
use restaurant_pos.Base.{
  ℕ, ◌≡◌, refl, ◌≢◌, ◌∙◌, inl, inr, true, false, none, some, ◌==◌, select, some_of, Bool-cases,
  Option-cases,
}
use restaurant_pos.Orders.Types.{Order}
use restaurant_pos.Kds.Types.{ItemState}
use restaurant_pos.Kds.Board.{
  Board, get_state, drop_states, is_stale, sync_board, default_progress, progress_or,
}
use restaurant_pos.Kds.Steps.{
  has_item, drop_states-other, drop_states-none, drop_states-gone, stale-other, stale-elsewhere,
  stale-absent,
}
use restaurant_pos.Kds.Items.{
  sync_items-elsewhere, sync_items-absent, sync_items-keeps, sync_items-adds,
}

-- Synchronizing an order leaves the states of other orders as they are.
pub sync_board_elsewhere :
    (o : Order) (now : ℕ) (b : Board) (order item : ℕ)
    → o.id ≢ order
    → get_state (sync_board o now b) order item ≡ get_state b order item
unfolding sync_board
sync_board_elsewhere o now b order item ne =
    let stale = select (is_stale o) b.items in
    sync_items-elsewhere o now o.items (drop_states o now stale b) order item ne
    ∙ drop_states-other o now stale b order item (stale-elsewhere o stale order item ne)

-- After an order is synchronized, each of its items is on the board: with the progress that the
-- kitchen gave it if it was there, and otherwise with the one that the order's status stands for.
pub sync_board_shows :
    (o : Order) (now : ℕ) (b : Board) (item : ℕ)
    → has_item o item ≡ true
    → (x : ItemState) × (get_state (sync_board o now b) o.id item ≡ some x)
      × (x.progress ≡ progress_or (get_state b o.id item) (default_progress o.status))
unfolding sync_board
sync_board_shows o now b item has =
    let stale = select (is_stale o) b.items in
    let b' = drop_states o now stale b in
    let kept = drop_states-other o now stale b o.id item (stale-other o b.items item has) in
    elim (Option-cases (get_state b o.id item)) [
      | inl e ↦
          let (x, g, p) = sync_items-adds o now o.items b' item has (kept ∙ e) in (x, g, rw e p)
      | inr (y, e) ↦
          let (x, g, p) = sync_items-keeps o now o.items b' item y.progress (y, kept ∙ e, refl) in
          (x, g, rw e p)
    ]

-- After an order is synchronized, the board has no state of an item that the order lost.
pub sync_board_drops :
    (o : Order) (now : ℕ) (b : Board) (item : ℕ)
    → has_item o item ≡ false
    → get_state (sync_board o now b) o.id item ≡ none
unfolding sync_board
sync_board_drops o now b item lacks =
    let stale = select (is_stale o) b.items in
    sync_items-absent o now o.items (drop_states o now stale b) item lacks
    ∙ elim (Bool-cases (some_of (λ x. x.item == item) stale)) [
      | inl t ↦ drop_states-gone o now stale b item t
      | inr f ↦ drop_states-none o now stale b item (stale-absent o b.items item lacks f)
    ]
