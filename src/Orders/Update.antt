-- ===== src/Orders/Update.antt =====
-- `updateOrderWithVersionCheck` of backend/orders/repository.ts, and what the order operations of
-- backend/orders/service.ts share.
use restaurant_pos.Base.{ℕ, ◌+◌, Bool, true, none, some, List, [], ◌∷◌, ◌++◌, ◌==◌}
use restaurant_pos.Base.Table.{get, put}
use restaurant_pos.Base.Result.{Result, check, or_error, order_not_found, version_conflict}
use restaurant_pos.Store.{M, pure, lift, modify, ◌>>=◌, ◌>>◌}
use restaurant_pos.Auth.Policy.{User}
use restaurant_pos.Orders.Types.{Order, OrderItem, ChangeEntry}

-- `getOrderById`, where the caller throws if there is none
unfoldable pub load_order : ℕ → M Order
load_order id s = lift (or_error (get s.orders id) order_not_found) s

abbrev pub bumped : ℕ → ℕ → Order → Order
bumped version now o = record o { version = version + 1; updated_at = now }

-- The change is refused when the order is no longer at the version that the caller saw.
unfoldable pub update_order : ℕ → ℕ → (Order → Result Order) → ℕ → M Order
unfolding load_order
update_order id expected mutate now = do
  current ← load_order id
  lift (check (current.version == expected) version_conflict)
  draft ← lift (mutate current)
  let next = bumped current.version now draft
  modify (λ s. record s { orders = put s.orders id next })
  pure next

-- `recalcSubtotal`
abbrev pub recalc_subtotal : List OrderItem → ℕ
recalc_subtotal [] = 0
recalc_subtotal (i ∷ is) = i.line_total + recalc_subtotal is

abbrev pub log_change : ChangeEntry → Order → Order
log_change e o = record o { change_log = o.change_log ++ (e ∷ []) }

-- The test of `assertBranchMatch`
abbrev pub branch_matches : User → ℕ → Bool
branch_matches user branch = elim user.branch [ none ↦ true | some x ↦ x == branch ]
