-- ===== src/Kds/Items.antt =====
-- What the synchronization of all items of an order does to the board.
use restaurant_pos.Base.{
  subst, ℕ, ◌≡◌, refl, ◌≢◌, ◌∙◌, ap, inl, inr, true, false, none, some, List, [], ◌∷◌, ◌==◌, ==_iff,
  some_of, arith, Bool-cases,
}
use restaurant_pos.Orders.Types.{Order, OrderItem}
use restaurant_pos.Kds.Types.{ItemState, Progress}
use restaurant_pos.Kds.Board.{
  Board, get_state, sync_item, sync_items, default_progress, progress_or,
}
use restaurant_pos.Kds.Steps.{sync_item_self, sync_item-other}

module _ (o : Order) (now : ℕ) where
  pub sync_items-elsewhere :
      (is : List OrderItem) (b : Board) (order item : ℕ)
      → o.id ≢ order
      → get_state (sync_items o now is b) order item ≡ get_state b order item
  unfolding sync_items
  sync_items-elsewhere [] b order item h = refl
  sync_items-elsewhere (i ∷ is) b order item h =
      sync_items-elsewhere is _ order item h ∙ sync_item-other o now i b order item (ground arith)

  pub sync_items-absent :
      (is : List OrderItem) (b : Board) (item : ℕ)
      → some_of (λ i. i.id == item) is ≡ false
      → get_state (sync_items o now is b) o.id item ≡ get_state b o.id item
  unfolding sync_items
  sync_items-absent [] b item h = refl
  sync_items-absent (i ∷ is) b item h =
      sync_items-absent is _ item (ground arith)
      ∙ sync_item-other o now i b o.id item (ground arith)

  -- A state on the board stays there with its progress.
  pub sync_items-keeps :
      (is : List OrderItem) (b : Board) (item : ℕ) (p : Progress)
      → ((x : ItemState) × (get_state b o.id item ≡ some x) × (x.progress ≡ p))
      → (x : ItemState) × (get_state (sync_items o now is b) o.id item ≡ some x) × (x.progress ≡ p)
  unfolding sync_items
  sync_items-keeps [] b item p h = h
  sync_items-keeps (i ∷ is) b item p (x, g, e) =
      sync_items-keeps is _ item p (elim (Bool-cases (i.id == item)) [
        | inr f ↦ (x, sync_item-other o now i b o.id item (ground arith) ∙ g, e)
        | inl t ↦
            let (y, at_y, py, _) = sync_item_self o now i b in
            let same : i.id ≡ item = (==_iff i.id item).0 t in
            (
              y,
              subst (λ j. get_state (sync_item o now i b) o.id j ≡ some y) same at_y,
              py
                  ∙ (ap (λ z. progress_or z (default_progress o.status))
                        (ap (get_state b o.id) same ∙ g)
                      ∙ e),
            )
      ])

  -- An item that is not on the board yet comes on it with the order's progress.
  pub sync_items-adds :
      (is : List OrderItem) (b : Board) (item : ℕ)
      → some_of (λ i. i.id == item) is ≡ true
      → get_state b o.id item ≡ none
      → (x : ItemState) × (get_state (sync_items o now is b) o.id item ≡ some x)
        × (x.progress ≡ default_progress o.status)
  unfolding sync_items
  sync_items-adds [] b item h g = cc
  sync_items-adds (i ∷ is) b item h g = elim (Bool-cases (i.id == item)) [
    | inr f ↦
        sync_items-adds is _ item (ground arith)
          (sync_item-other o now i b o.id item (ground arith) ∙ g)
    | inl t ↦
        let (y, at_y, py, _) = sync_item_self o now i b in
        let same : i.id ≡ item = (==_iff i.id item).0 t in
        sync_items-keeps is _ item (default_progress o.status) (
          y,
          subst (λ j. get_state (sync_item o now i b) o.id j ≡ some y) same at_y,
          py ∙ ap (λ z. progress_or z (default_progress o.status)) (ap (get_state b o.id) same ∙ g),
        )
  ]
