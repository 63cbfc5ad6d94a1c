-- ===== src/Inventory/Ledger.antt =====
-- `appendStockMovement`, `getCurrentBalance`, the recipes, the deduction guards and the policies of
-- backend/inventory/service.ts, over the in-memory ledger.
use restaurant_pos.Base.{
  ℕ, ◌+◌, ◌-◌, ◌*◌, ◌/◌, Bool, false, not, ◌&&◌, ◌||◌, Option, none, some, List, [], ◌∷◌, ◌==◌, leb,
  if◌then◌else◌, find, select, some_of, is_some,
}
use restaurant_pos.Base.Int.{ℤ, pos, negsuc, pos_part, neg_part, ◌+ℤ◌, ltb_ℤ}
use restaurant_pos.Base.Result.{
  inventory_item_not_found, zero_quantity, receiving_reference_required, insufficient_stock,
  forbidden, check, or_error, amount_not_positive,
}
use restaurant_pos.Auth.Policy.{User, can, adjust_stock}
use restaurant_pos.Inventory.Types.{
  Trigger, trigger_number, MovementType, is_restock, MovementId, keyed, fresh, InventoryItem,
  Movement, Recipe, Stock,
}
use restaurant_pos.Store.{M, Store, pure, gets, lift, modify, ◌>>=◌, ◌>>◌, stock_adjusted}

-- Millionths of a unit to thousandths: `Math.round(x * 1000) / 1000`, half up.
unfoldable pub round3 : ℤ → ℤ
round3 (pos n) = pos ((n + 500) / 1000)
round3 (negsuc n) = if leb 500 n then negsuc ((n + 500) / 1000 - 1) else pos 0

-- A balance in thousandths as millionths.
unfoldable pub to_millionths : ℤ → ℤ
to_millionths (pos n) = pos (1000 * n)
to_millionths (negsuc n) = negsuc (1000 * n + 999)

abbrev pub sum_deltas : List Movement → ℤ
sum_deltas [] = pos 0
sum_deltas (m ∷ ms) = m.delta +ℤ sum_deltas ms

abbrev pub movements_of : ℕ → List Movement → List Movement
movements_of item ms = select (λ m. m.item == item) ms

-- `getCurrentBalance`
unfoldable pub current_balance : Stock → ℕ → ℤ
unfolding round3
current_balance s item = round3 (sum_deltas (movements_of item s.movements))

abbrev pub same_id : MovementId → MovementId → Bool
same_id (keyed a b t c) (keyed a' b' t' c') =
    a == a' && (b == b' && (trigger_number t == trigger_number t' && c == c'))
same_id (fresh a) (fresh a') = a == a'
same_id _ _ = false

-- `movementLedger.set(record.id, record)`
unfoldable pub put_movement : List Movement → Movement → List Movement
put_movement [] m = m ∷ []
put_movement (x ∷ xs) m = if same_id x.id m.id then m ∷ xs else x ∷ put_movement xs m

-- `StockMovementInput`; the reason texts are only stored.
pub record MovementInput : Type 0 where
  pub item : ℕ
  pub kind : MovementType
  pub delta : ℤ
  pub reference : Option ℕ
  pub receiving : Option ℕ
  pub unit_cost : Option ℕ
  pub key : Option MovementId

abbrev pub first_some : Option ℕ → Option ℕ → Option ℕ
first_some none b = b
first_some (some a) b = some a

abbrev abs : ℤ → ℕ
abs z = pos_part z + neg_part z

abbrev is_zero : ℤ → Bool
is_zero z = abs z == 0

-- The guards of `appendStockMovement`, in its order, on the item that was found.
unfoldable pub check_movement : Stock → MovementInput → Bool × Bool × Bool
unfolding round3 to_millionths
check_movement s input = (
  not (is_zero input.delta),
  not (is_restock input.kind && not (is_some input.receiving) && not (is_some input.reference)),
  not (ltb_ℤ (round3 (to_millionths (current_balance s input.item) +ℤ input.delta)) (pos 0))
      || s.allow_negative,
)

-- `Math.round(Math.abs(quantityDelta) * unitCost * 100) / 100`: cents, from millionths of a unit.
cost_of : ℤ → Option ℕ → Option ℕ
cost_of delta none = none
cost_of delta (some c) = some ((abs delta * c + 500_000) / 1_000_000)

or_fresh : Option MovementId → ℕ → MovementId
or_fresh none n = fresh n
or_fresh (some k) n = k

unfoldable pub movement_row : InventoryItem → MovementInput → Option ℕ → ℕ → ℕ → Movement
unfolding cost_of or_fresh
movement_row item input actor now new_id = record {
  id = or_fresh input.key new_id;
  item = input.item;
  kind = input.kind;
  delta = input.delta;
  reference = input.reference;
  receiving = first_some input.receiving input.reference;
  unit_cost = first_some input.unit_cost item.unit_cost;
  total_cost = cost_of input.delta input.unit_cost;
  actor = actor;
  created_at = now;
}

unfoldable pub with_movement : Movement → Store → Store
with_movement m s = record s {
  stock = record (s.stock) { movements = put_movement s.stock.movements m };
  audit =
      record {
        action = stock_adjusted;
        actor = m.actor;
        subject = m.item;
        amount = 0;
        at = m.created_at;
      }
      ∷ s.audit;
}

unfoldable pub append_stock_movement : MovementInput → Option ℕ → ℕ → ℕ → M Movement
unfolding check_movement movement_row with_movement
append_stock_movement input actor now new_id = do
  item ← (λ s.
      lift (or_error (find (λ i. i.id == input.item) s.stock.items) inventory_item_not_found) s)
  guards ← gets (λ s. check_movement s.stock input)
  lift (check guards.0 zero_quantity)
  lift (check guards.1 receiving_reference_required)
  lift (check guards.2 insufficient_stock)
  let row = movement_row item input actor now new_id
  modify (with_movement row)
  pure row

unfoldable pub set_deduction_trigger_policy : User → Trigger → M Trigger
set_deduction_trigger_policy user policy = do
  lift (check (can user adjust_stock) forbidden)
  modify (λ s. record s { stock = record (s.stock) { trigger_policy = policy } })
  pure policy

unfoldable pub set_negative_stock_policy : User → Bool → M Bool
set_negative_stock_policy user allow = do
  lift (check (can user adjust_stock) forbidden)
  modify (λ s. record s { stock = record (s.stock) { allow_negative = allow } })
  pure allow

-- `recipeRows.set(record.id, record)`: the id is that of the menu item and the inventory item.
unfoldable pub put_recipe : List Recipe → Recipe → List Recipe
put_recipe [] r = r ∷ []
put_recipe (x ∷ xs) r =
    if x.menu_item == r.menu_item && x.inventory_item == r.inventory_item
    then r ∷ xs
    else x ∷ put_recipe xs r

-- `per_unit` is a raw input in tenths of a thousandth, positive and rounded to thousandths.
unfoldable pub save_recipe : ℕ → ℕ → ℤ → M Recipe
save_recipe menu_item inventory_item per_unit = do
  lift (check (ltb_ℤ (pos 0) per_unit) amount_not_positive)
  (λ s.
      lift (or_error (find (λ i. i.id == inventory_item) s.stock.items) inventory_item_not_found) s)
  let row : Recipe = record {
    menu_item = menu_item;
    inventory_item = inventory_item;
    per_unit = (pos_part per_unit + 5) / 10;
  }
  modify (λ s. record s { stock = record (s.stock) { recipes = put_recipe s.stock.recipes row } })
  pure row

abbrev pub recipes_for : Stock → ℕ → List Recipe
recipes_for s menu_item = select (λ r. r.menu_item == menu_item) s.recipes

-- `getCompletedInventoryDeduction`: the guard's id is that of the order item and the trigger.
unfoldable pub is_deducted : Stock → ℕ → Trigger → Bool
is_deducted s order_item t =
    some_of (λ d. d.order_item == order_item && trigger_number d.trigger == trigger_number t)
      s.deductions

unfoldable pub mark_deducted : ℕ → ℕ → Trigger → Store → Store
mark_deducted order order_item t s = record s {
  stock = record (s.stock) {
    deductions =
        (record { order = order; order_item = order_item; trigger = t }) ∷ s.stock.deductions;
  };
}
