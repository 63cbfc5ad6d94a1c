-- ===== src/Inventory/Balance.antt =====
-- What a stock movement does to the balances, and how far below zero it can leave one.
use restaurant_pos.Base.{
  ℕ, ◌+◌, ◌≤◌, ◌≡◌, refl, inl, inr, true, false, not, Option, List, [], ◌∷◌, arith, ◌==◌, ==_iff,
  if◌then◌else◌, some_of, find, Bool-cases, Option-cases, subst,
}
use restaurant_pos.Base.Int.{ℤ, pos, negsuc, pos_part, neg_part, ◌+ℤ◌, ltb_ℤ, int_laws}
use restaurant_pos.Base.Result.{ok}
use restaurant_pos.Store.{Store}
use restaurant_pos.Inventory.Types.{Movement, Stock}
use restaurant_pos.Inventory.Ledger.{
  round3, to_millionths, sum_deltas, movements_of, current_balance, same_id, put_movement,
  MovementInput, check_movement, movement_row, with_movement, append_stock_movement,
}

-- The exact sum of an item's movements, in millionths.
abbrev pub stock_sum : Stock → ℕ → ℤ
stock_sum s item = sum_deltas (movements_of item s.movements)

-- No movement is stored under the id.
abbrev pub IsNew : List Movement → Movement → Type 0
IsNew ms m = some_of (λ x. same_id x.id m.id) ms ≡ false

put_movement-sum :
    (ms : List Movement) (m : Movement) (item : ℕ)
    → IsNew ms m
    → sum_deltas (movements_of item (put_movement ms m)) ≡ (
        if m.item == item
        then sum_deltas (movements_of item ms) +ℤ m.delta
        else sum_deltas (movements_of item ms))
unfolding put_movement
put_movement-sum [] m item new = elim (Bool-cases (m.item == item)) [
  | inl hit ↦ rw hit (omega int_laws)
  | inr miss ↦ rw miss refl
]
put_movement-sum (x ∷ xs) m item new =
    let apart : same_id x.id m.id ≡ false = ground arith in
    let ih = put_movement-sum xs m item (ground arith) in
    rw apart (elim (Bool-cases (m.item == item)) [
      | inl hit ↦ elim (Bool-cases (x.item == item)) [
        | inl counted ↦ rw (hit, counted, rw hit at ih) (omega int_laws)
        | inr other ↦ rw (hit, other, rw hit at ih) refl
      ]
      | inr miss ↦ elim (Bool-cases (x.item == item)) [
        | inl counted ↦ rw (miss, counted, rw miss at ih) refl
        | inr other ↦ rw (miss, other, rw miss at ih) refl
      ]
    ])

-- Everything that a successful movement has passed and done.
pub record Moved (input : MovementInput) (m : Movement) (s s' : Store) : Type 0 where
  pub of_item : m.item ≡ input.item
  pub of_delta : m.delta ≡ input.delta
  pub stored : s'.stock.movements ≡ put_movement s.stock.movements m
  pub covered : (check_movement s.stock input).2 ≡ true

pub append_stock_movement-Moved :
    (input : MovementInput) (actor : Option ℕ) (now new_id : ℕ) (s s' : Store) (m : Movement)
    → append_stock_movement input actor now new_id s ≡ (ok m, s')
    → Moved input m s s'
unfolding append_stock_movement movement_row with_movement
append_stock_movement-Moved input actor now new_id s s' m h =
    elim (Option-cases (find (λ i. i.id == input.item) s.stock.items)) [
      | inl gone ↦ ground arith
      | inr (item, found) ↦ ground arith
    ]

to_millionths-round3 :
    (z : ℤ)
    → let t = to_millionths (round3 z) in
      (pos_part t + neg_part z ≤ pos_part z + neg_part t + 500)
      × (pos_part z + neg_part t ≤ pos_part t + neg_part z + 500)
unfolding to_millionths round3
to_millionths-round3 (pos n) = ground arith
to_millionths-round3 (negsuc n) = ground arith

round3_nonneg : (z : ℤ) → not (ltb_ℤ (round3 z) (pos 0)) ≡ true → neg_part z ≤ pos_part z + 500
unfolding round3
round3_nonneg (pos n) h = omega arith
round3_nonneg (negsuc n) h = ground arith

-- The exact sum of the item's movements is at least minus one thousandth of a unit.
abbrev pub NotBelow : Stock → ℕ → Type 0
NotBelow s item = neg_part (stock_sum s item) ≤ pos_part (stock_sum s item) + 1000

covered-NotBelow :
    (s : Stock) (input : MovementInput)
    → s.allow_negative ≡ false
    → (check_movement s input).2 ≡ true
    → let after = stock_sum s input.item +ℤ input.delta in neg_part after ≤ pos_part after + 1000
unfolding check_movement current_balance
covered-NotBelow s input strict passed =
    let before = stock_sum s input.item in
    let candidate = to_millionths (round3 before) +ℤ input.delta in
    let tested : not (ltb_ℤ (round3 candidate) (pos 0)) ≡ true = ground arith in
    omega (int_laws, to_millionths-round3 before, round3_nonneg candidate tested)

Moved-sum :
    (input : MovementInput) (m : Movement) (s s' : Store) (item : ℕ)
    → Moved input m s s'
    → IsNew s.stock.movements m
    → stock_sum s'.stock item ≡ (
        if input.item == item
        then stock_sum s.stock item +ℤ input.delta
        else stock_sum s.stock item)
Moved-sum input m s s' item moved new =
    rw (← moved.of_item, ← moved.of_delta, moved.stored)
      (put_movement-sum s.stock.movements m item new)

-- A stock movement that is recorded under a new id adds exactly its quantity to the sum of its own
-- item and changes no other item's.
pub append_stock_movement_sum :
    (input : MovementInput) (actor : Option ℕ) (now new_id item : ℕ) (s s' : Store) (m : Movement)
    → append_stock_movement input actor now new_id s ≡ (ok m, s')
    → IsNew s.stock.movements m
    → stock_sum s'.stock item ≡ (
        if input.item == item
        then stock_sum s.stock item +ℤ input.delta
        else stock_sum s.stock item)
append_stock_movement_sum input actor now new_id item s s' m h new =
    Moved-sum input m s s' item (append_stock_movement-Moved input actor now new_id s s' m h) new

-- While negative stock is not allowed, a movement that is recorded under a new id leaves every item's
-- exact sum at minus one thousandth of a unit or more if it was so before, whatever is rounded.
pub append_stock_movement-NotBelow :
    (input : MovementInput) (actor : Option ℕ) (now new_id item : ℕ) (s s' : Store) (m : Movement)
    → append_stock_movement input actor now new_id s ≡ (ok m, s')
    → IsNew s.stock.movements m
    → s.stock.allow_negative ≡ false
    → NotBelow s.stock item
    → NotBelow s'.stock item
append_stock_movement-NotBelow input actor now new_id item s s' m h new strict sound =
    let moved = append_stock_movement-Moved input actor now new_id s s' m h in
    let total = Moved-sum input m s s' item moved new in
    elim (Bool-cases (input.item == item)) [
      | inl hit ↦
          let same : input.item ≡ item = ground (arith, ==_iff input.item item) in
          let floor = covered-NotBelow s.stock input strict moved.covered in
          rw (rw hit at total) (
            subst
              (λ k.
                neg_part (stock_sum s.stock k +ℤ input.delta)
                ≤ pos_part (stock_sum s.stock k +ℤ input.delta) + 1000)
              same floor)
      | inr miss ↦ rw (rw miss at total) sound
    ]
