-- ===== src/Kds/Steps.antt =====
-- What each step of a synchronization does to the board.
use restaurant_pos.Base.{
  subst, if◌then◌else◌, ℕ, ◌≡◌, refl, ◌≢◌, sym, ◌∙◌, ap, inl, inr, Bool, true, false, not, ◌&&◌,
  Option, none, some, List, [], ◌∷◌, ◌==◌, ==_iff, select, find, some_of, arith, Bool-cases,
}
use restaurant_pos.Orders.Types.{Order, OrderItem, Station}
use restaurant_pos.Kds.Types.{ItemState}
use restaurant_pos.Kds.Board.{
  Board, has_key, get_state, put_item, upsert_state, remove_state, record_progress, drop_states,
  is_stale, announce, announce_cancellation, sync_item, default_progress, progress_or, row_of,
  station_for_item, row_of, station_for_item,
}

pub put_item_self :
    (xs : List ItemState) (x : ItemState) → find (has_key x.order x.item) (put_item xs x) ≡ some x
put_item_self [] x = ground arith
put_item_self (y ∷ ys) x = ground (arith, put_item_self ys x)

pub put_item-other :
    (xs : List ItemState) (x : ItemState) (order item : ℕ)
    → has_key order item x ≡ false
    → find (has_key order item) (put_item xs x) ≡ find (has_key order item) xs
put_item-other [] x order item h = ground arith
put_item-other (y ∷ ys) x order item h = ground (arith, put_item-other ys x order item h)

pub select-other :
    (xs : List ItemState) (p q order item : ℕ)
    → (p == order && q == item) ≡ false
    → find (has_key order item) (select (λ x. not (has_key p q x)) xs)
      ≡ find (has_key order item) xs
select-other [] p q order item h = refl
select-other (y ∷ ys) p q order item h = ground (arith, select-other ys p q order item h)

pub select-gone :
    (xs : List ItemState) (order item : ℕ)
    → find (has_key order item) (select (λ x. not (has_key order item x)) xs) ≡ none
select-gone [] order item = refl
select-gone (y ∷ ys) order item = ground (arith, select-gone ys order item)

module _ (o : Order) (now : ℕ) where
  pub announced-items :
      (i : OrderItem) (st : Station) (e : Option ItemState) (b : Board)
      → (announce_cancellation o i st now (announce o i st e now b)).items ≡ b.items
  unfolding announce announce_cancellation record_progress
  announced-items i st e b = ground arith

  pub sync_item-other :
      (i : OrderItem) (b : Board) (order item : ℕ)
      → (o.id == order && i.id == item) ≡ false
      → get_state (sync_item o now i b) order item ≡ get_state b order item
  unfolding sync_item upsert_state
  sync_item-other i b order item h =
      put_item-other _ _ order item h ∙ ap (find (has_key order item)) (announced-items i _ _ b)

  pub sync_item_self :
      (i : OrderItem) (b : Board)
      → (x : ItemState) × (get_state (sync_item o now i b) o.id i.id ≡ some x)
        × (x.progress ≡ progress_or (get_state b o.id i.id) (default_progress o.status))
        × (x.quantity ≡ i.quantity)
  unfolding sync_item upsert_state
  sync_item_self i b =
      let st = station_for_item i in
      let e = get_state b o.id i.id in
      (
        row_of o now i e,
        put_item_self (announce_cancellation o i st now (announce o i st e now b)).items
            (row_of o now i e),
        refl,
        refl,
      )

  pub drop_states-other :
      (xs : List ItemState) (b : Board) (order item : ℕ)
      → some_of (λ x. o.id == order && x.item == item) xs ≡ false
      → get_state (drop_states o now xs b) order item ≡ get_state b order item
  unfolding drop_states remove_state record_progress
  drop_states-other [] b order item h = refl
  drop_states-other (x ∷ xs) b order item h =
      drop_states-other xs _ order item (ground arith)
      ∙ select-other b.items o.id x.item order item (ground arith)

  pub drop_states-none :
      (xs : List ItemState) (b : Board) (item : ℕ)
      → get_state b o.id item ≡ none
      → get_state (drop_states o now xs b) o.id item ≡ none
  unfolding drop_states remove_state record_progress
  drop_states-none [] b item h = h
  drop_states-none (x ∷ xs) b item h =
      drop_states-none xs _ item (elim (Bool-cases (x.item == item)) [
        | inl t ↦ rw (sym ((==_iff x.item item).0 t)) (select-gone b.items o.id x.item)
        | inr f ↦ select-other b.items o.id x.item o.id item (ground (arith, f)) ∙ h
      ])

  pub drop_states-gone :
      (xs : List ItemState) (b : Board) (item : ℕ)
      → some_of (λ x. x.item == item) xs ≡ true
      → get_state (drop_states o now xs b) o.id item ≡ none
  unfolding drop_states remove_state record_progress
  drop_states-gone [] b item h = cc
  drop_states-gone (x ∷ xs) b item h = elim (Bool-cases (x.item == item)) [
    | inl t ↦
        drop_states-none xs _ item
          (rw (sym ((==_iff x.item item).0 t)) (select-gone b.items o.id x.item))
    | inr f ↦ drop_states-gone xs _ item (ground arith)
  ]

abbrev pub has_item : Order → ℕ → Bool
has_item o item = some_of (λ i. i.id == item) o.items

pub stale-other :
    (o : Order) (xs : List ItemState) (item : ℕ)
    → has_item o item ≡ true
    → some_of (λ x. o.id == o.id && x.item == item) (select (is_stale o) xs) ≡ false
stale-other o [] item h = refl
stale-other o (x ∷ xs) item h = elim (Bool-cases (is_stale o x)) [
  | inr f ↦ rw f (stale-other o xs item h)
  | inl t ↦ elim (Bool-cases (x.item == item)) [
    | inr g ↦ rw t (ground (arith, stale-other o xs item h))
    | inl g ↦
        let has : has_item o x.item ≡ true =
          subst (λ j. has_item o j ≡ true) (sym ((==_iff x.item item).0 g)) h in
        ground (arith, has)
  ]
]

pub stale-elsewhere :
    (o : Order) (xs : List ItemState) (order item : ℕ)
    → o.id ≢ order
    → some_of (λ x. o.id == order && x.item == item) xs ≡ false
stale-elsewhere o [] order item h = refl
stale-elsewhere o (x ∷ xs) order item h = ground (arith, stale-elsewhere o xs order item h)

pub stale-absent :
    (o : Order) (xs : List ItemState) (item : ℕ)
    → has_item o item ≡ false
    → some_of (λ x. x.item == item) (select (is_stale o) xs) ≡ false
    → find (has_key o.id item) xs ≡ none
stale-absent o [] item h k = refl
stale-absent o (x ∷ xs) item h k = elim (Bool-cases (is_stale o x)) [
  | inr f ↦ elim (Bool-cases (x.item == item)) [
    | inr g ↦ ground (
      arith,
      stale-absent o xs item h (
          subst
            (λ c.
              some_of (λ x. x.item == item)
                (if c then x ∷ select (is_stale o) xs else select (is_stale o) xs)
              ≡ false)
            f k),
    )
    | inl g ↦
        let lacks : has_item o x.item ≡ false =
          subst (λ j. has_item o j ≡ false) (sym ((==_iff x.item item).0 g)) h in
        ground (
          arith,
          lacks,
          stale-absent o xs item h (
              subst
                (λ c.
                  some_of (λ x. x.item == item)
                    (if c then x ∷ select (is_stale o) xs else select (is_stale o) xs)
                  ≡ false)
                f k),
        )
  ]
  | inl t ↦ ground (arith, stale-absent o xs item h)
]
