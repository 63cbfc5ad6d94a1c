-- ===== src/Inventory/Master.antt =====
-- `createInventoryMasterItem`, `listInventoryWithBalances` and `listLowStockAlerts` of
-- backend/inventory/service.ts. `toLowerCase` is a parameter: nothing depends on its table.
use restaurant_pos.Base.{
  ℕ, Bool, not, Option, none, some, List, [], ◌∷◌, ◌++◌, ◌==◌, find, if◌then◌else◌, is_some, select,
}
use restaurant_pos.Base.Int.{ℤ, pos, negsuc, leb_ℤ, ◌+ℤ◌}
use restaurant_pos.Base.Text.{Text, trim, same_text, is_blank_text}
use restaurant_pos.Base.Result.{
  Result, ok, err, check, name_required, sku_exists, negative_quantity,
}
use restaurant_pos.Inventory.Types.{InventoryItem, Stock, restock}
use restaurant_pos.Inventory.Ledger.{append_stock_movement, current_balance}
use restaurant_pos.Store.{M, pure, gets, lift, modify, ◌>>=◌, ◌>>◌}

-- `InventoryItemInput`; the opening stock is in millionths, the threshold in thousandths.
pub record MasterInput : Type 0 where
  pub branch : ℕ
  pub sku : Text
  pub name : Text
  pub unit : Text
  pub minimum_threshold : ℤ
  pub current_stock : ℤ
  pub unit_cost : Option ℕ

-- `normalizeText`
unfoldable pub normalize_text : Text → Result Text
unfolding trim
normalize_text value =
    let normalized = trim value in
    if is_blank_text normalized then err name_required else ok normalized

-- `validateNonNegative`
unfoldable pub validate_non_negative : ℤ → Result ℕ
validate_non_negative (pos n) = ok n
validate_non_negative (negsuc n) = err negative_quantity

module _ (lower : Text → Text) where
  abbrev pub has_sku : Text → InventoryItem → Bool
  has_sku sku i = same_text (lower (trim i.sku)) (lower (trim sku))

  unfoldable pub inventory_item_by_sku : Stock → Text → Option InventoryItem
  inventory_item_by_sku s sku = find (has_sku sku) s.items

  -- The opening stock is one restock movement, received as `opening:${item.id}`.
  unfoldable pub create_inventory_master_item : MasterInput → ℕ → ℕ → ℕ → M InventoryItem
  unfolding normalize_text validate_non_negative inventory_item_by_sku append_stock_movement
  create_inventory_master_item input new_id movement_id now = do
    sku ← lift (normalize_text input.sku)
    name ← lift (normalize_text input.name)
    unit ← lift (normalize_text input.unit)
    threshold ← lift (validate_non_negative input.minimum_threshold)
    opening ← lift (validate_non_negative input.current_stock)
    duplicate ← gets (λ s. inventory_item_by_sku s.stock sku)
    lift (check (not (is_some duplicate)) sku_exists)
    let item : InventoryItem = record {
      id = new_id;
      branch = input.branch;
      sku = sku;
      name = name;
      unit = unit;
      minimum_threshold = threshold;
      unit_cost = input.unit_cost;
    }
    modify (λ s. record s { stock = record (s.stock) { items = s.stock.items ++ (item ∷ []) } })
    if opening == 0
        then pure item
        else (append_stock_movement
              (record {
                item = new_id;
                kind = restock;
                delta = pos opening;
                reference = none;
                receiving = some new_id;
                unit_cost = input.unit_cost;
                key = none;
              })
              none now movement_id
            >> pure item)

-- An item with its balance
unfoldable pub with_balances : Stock → List InventoryItem → List (InventoryItem × ℤ)
unfolding current_balance
with_balances s [] = []
with_balances s (i ∷ is) = (i, current_balance s i.id) ∷ with_balances s is

unfoldable pub list_inventory_with_balances : Stock → ℕ → List (InventoryItem × ℤ)
unfolding with_balances
list_inventory_with_balances s branch = with_balances s (select (λ i. i.branch == branch) s.items)

pub data Severity : Type 0 where
  warning critical : Severity

-- `LowStockAlert`
pub record Alert : Type 0 where
  pub item : InventoryItem
  pub balance : ℤ
  pub severity : Severity

-- `currentBalance <= minimumThreshold * 0.5` is critical.
unfoldable pub alerts_among : List (InventoryItem × ℤ) → List Alert
alerts_among [] = []
alerts_among ((i, b) ∷ rest) =
    let more = alerts_among rest in
    if leb_ℤ b (pos i.minimum_threshold)
    then record {
      item = i;
      balance = b;
      severity = if leb_ℤ (b +ℤ b) (pos i.minimum_threshold) then critical else warning;
    }
      ∷ more
    else more

unfoldable pub list_low_stock_alerts : Stock → ℕ → List Alert
unfolding alerts_among list_inventory_with_balances
list_low_stock_alerts s branch = alerts_among (list_inventory_with_balances s branch)
