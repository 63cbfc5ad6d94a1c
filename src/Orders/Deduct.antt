-- ===== src/Orders/Deduct.antt =====
-- The stock that an order takes: `deductionTriggerForStatus`, `getInventoryRequirementsForOrderItem`,
-- `assertInventoryDeductionCanComplete` and `deductInventoryForOrder` of backend/orders/service.ts.
use restaurant_pos.Base.{
  ℕ, ◌+◌, ◌*◌, Bool, true, false, Option, none, some, List, [], ◌∷◌, map, if◌then◌else◌,
}
use restaurant_pos.Base.Int.{pos, ltb_ℤ, ◌+ℤ◌, sub_ℕ}
use restaurant_pos.Base.Table.{Table, get, put}
use restaurant_pos.Base.Result.{Result, ok, err, and_then, insufficient_stock, missing_recipe}
use restaurant_pos.Store.{M, pure, gets, lift, modify, ◌>>=◌, ◌>>◌}
use restaurant_pos.Inventory.Types.{
  Stock, Recipe, Trigger, on_in_preparation, on_completed, sale_deduction, keyed,
}
use restaurant_pos.Inventory.Ledger.{
  MovementInput, append_stock_movement, current_balance, round3, to_millionths, recipes_for,
  is_deducted, mark_deducted,
}
use restaurant_pos.Orders.Types.{Order, OrderItem, OrderStatus, in_preparation, completed}

unfoldable pub deduction_trigger : Trigger → OrderStatus → Option Trigger
deduction_trigger on_in_preparation in_preparation = some on_in_preparation
deduction_trigger on_completed completed = some on_completed
deduction_trigger _ _ = none

-- An inventory item and a quantity in millionths
abbrev pub Requirement : Type 0
Requirement = ℕ × ℕ

abbrev of_recipe : ℕ → Recipe → Requirement
of_recipe quantity r = (r.inventory_item, quantity * r.per_unit)

-- The first argument is `isMenuInventoryLinkEnabled()`.
unfoldable pub requirements : Bool → Stock → OrderItem → Result (List Requirement)
requirements false s i = ok []
requirements true s i = elim (recipes_for s i.menu_item) [
  | r ∷ rs ↦ ok (map (of_recipe i.quantity) (r ∷ rs))
  | [] ↦ elim i.inventory_item [
    | some x ↦ ok ((x, i.quantity * 1000) ∷ [])
    | none ↦ err missing_recipe
  ]
]

abbrev or_zero : Option ℕ → ℕ
or_zero none = 0
or_zero (some n) = n

abbrev add_requirements : Table ℕ → List Requirement → Table ℕ
add_requirements t [] = t
add_requirements t ((item, q) ∷ rs) = add_requirements (put t item (or_zero (get t item) + q)) rs

-- `requiredByInventoryItem`, over the items that were not deducted yet
unfoldable pub required_by_item :
    Bool → Stock → Trigger → List OrderItem → Table ℕ → Result (Table ℕ)
unfolding requirements is_deducted
required_by_item link s t [] sums = ok sums
required_by_item link s t (i ∷ is) sums = elim (is_deducted s i.id t) [
  | true ↦ required_by_item link s t is sums
  | false ↦
      and_then (requirements link s i) λ rs. required_by_item link s t is (add_requirements sums rs)
]

unfoldable pub check_balances : Stock → Table ℕ → Result (Unit {0})
unfolding round3 to_millionths current_balance
check_balances s [] = ok tt
check_balances s ((item, q) ∷ rs) =
    if ltb_ℤ (round3 (to_millionths (current_balance s item) +ℤ sub_ℕ 0 q)) (pos 0)
    then err insufficient_stock
    else check_balances s rs

unfoldable pub can_complete : Bool → Stock → Trigger → Order → Result (Unit {0})
unfolding required_by_item check_balances
can_complete link s t o =
    and_then (required_by_item link s t o.items [])
      λ sums. elim s.allow_negative [ true ↦ ok tt | false ↦ check_balances s sums ]

abbrev pub deduction_of : Order → OrderItem → Trigger → Requirement → MovementInput
deduction_of o i t (item, q) = record {
  item = item;
  kind = sale_deduction;
  delta = sub_ℕ 0 q;
  reference = some o.id;
  receiving = none;
  unit_cost = none;
  key = some (keyed o.id i.id t item);
}

-- A movement for each requirement of one item, in order
unfoldable pub deduct_requirements :
    Order → OrderItem → Trigger → ℕ → ℕ → List Requirement → M (Unit {0})
unfolding append_stock_movement
deduct_requirements o i t actor now [] = pure tt
deduct_requirements o i t actor now (r ∷ rs) = do
  append_stock_movement (deduction_of o i t r) (some actor) now 0
  deduct_requirements o i t actor now rs

unfoldable pub deduct_item : Bool → Order → Trigger → ℕ → ℕ → OrderItem → M (Unit {0})
unfolding requirements deduct_requirements mark_deducted is_deducted
deduct_item link o t actor now i = do
  done ← gets (λ s. is_deducted s.stock i.id t)
  elim done [
    | true ↦ pure tt
    | false ↦ do
      stock ← gets (λ s. s.stock)
      rs ← lift (requirements link stock i)
      deduct_requirements o i t actor now rs
      modify (mark_deducted o.id i.id t)
  ]

unfoldable pub deduct_items : Bool → Order → Trigger → ℕ → ℕ → List OrderItem → M (Unit {0})
unfolding deduct_item
deduct_items link o t actor now [] = pure tt
deduct_items link o t actor now (i ∷ is) = do
  deduct_item link o t actor now i
  deduct_items link o t actor now is
