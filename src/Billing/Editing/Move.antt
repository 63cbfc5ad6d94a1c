-- ===== src/Billing/Editing/Move.antt =====
-- `transferUnpaidBill` of backend/billing/service.ts.
use restaurant_pos.Base.{
  ℕ, Bool, true, not, Option, none, some, List, [], ◌++◌, ◌==◌, map, select, some_of,
}
use restaurant_pos.Base.Table.{get}
use restaurant_pos.Store.{M, pure, gets, lift, ◌>>=◌, ◌>>◌}
use restaurant_pos.Billing.Types.{Bill, void, Split, Splits, LineItem, TableOrderItem, map_splits}
use restaurant_pos.Billing.Lines.{calculate_line_item}
use restaurant_pos.Billing.Update.{update_bill, assert_bill_editable}
use restaurant_pos.Billing.Access.{save_bill}

abbrev add_lines : Split → List LineItem → Split
add_lines x ls = record x { line_items = x.line_items ++ ls }

-- The lines of the two bills, split by split.
unfoldable pub joined : Splits → Splits → Splits
joined x y = record {
  split_a = add_lines x.split_a y.split_a.line_items;
  split_b = add_lines x.split_b y.split_b.line_items;
  split_c = add_lines x.split_c y.split_c.line_items;
}

abbrev is_known : Splits → TableOrderItem → Bool
is_known s i =
    some_of (λ l. l.order_item == i.id)
      (s.split_a.line_items ++ (s.split_b.line_items ++ s.split_c.line_items))

-- Ordered items that no split has yet go to split A.
unfoldable pub add_unassigned : Splits → List TableOrderItem → Splits
add_unassigned s items = record s {
  split_a =
      add_lines s.split_a (map (calculate_line_item true) (select (λ i. not (is_known s i)) items));
}

-- The bill of the destination session: that of the destination, or the source's under a new id.
unfoldable pub moved_bill : Option Bill → Option Bill → ℕ → ℕ → Option Bill
unfolding joined
moved_bill none none session id = none
moved_bill (some x) none session id = some (record x { id = id; session = session })
moved_bill none (some y) session id = some (record y { session = session })
moved_bill (some x) (some y) session id =
    some (record y { session = session; splits = joined y.splits x.splits })

abbrev clear_split : Split → Split
clear_split x = record x { line_items = [] }

-- The source keeps its bill, void and without lines.
unfoldable pub close_source : Option Bill → ℕ → M (Unit {0})
unfolding save_bill
close_source none now = pure tt
close_source (some x) now = do
  emptied ← lift (update_bill now (record x { splits = map_splits clear_split x.splits }))
  save_bill (record emptied { state = void })
  pure tt

unfoldable pub transfer_unpaid_bill : ℕ → ℕ → List TableOrderItem → ℕ → ℕ → M (Unit {0})
unfolding save_bill moved_bill add_unassigned close_source
transfer_unpaid_bill source destination items id now = do
  from ← gets (λ s. get s.bills source)
  onto ← gets (λ s. get s.bills destination)
  lift (assert_bill_editable from)
  lift (assert_bill_editable onto)
  elim (moved_bill from onto destination id) [
    | none ↦ pure tt
    | some x ↦ do
      final ← lift (update_bill now (record x { splits = add_unassigned x.splits items }))
      save_bill final
      close_source from now
  ]
