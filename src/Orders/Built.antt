-- ===== src/Orders/Built.antt =====
-- What an order item that was built from the menu says of the menu.
use restaurant_pos.Base.{
  ℕ, ◌≡◌, refl, subst, inl, inr, Bool, true, false, ◌&&◌, ◌≤◌, some, List, [], ◌∷◌, ◌==◌, ==_iff,
  All, arith, Bool-cases, Option-cases,
}
use restaurant_pos.Base.Int.{ℤ, pos}
use restaurant_pos.Base.Text.{Text}
use restaurant_pos.Base.Result.{Result-cases, ok, ok-injective}
use restaurant_pos.Auth.Policy.{User, can, manage_menu}
use restaurant_pos.Menu.Types.{Menu, MenuItem, Category}
use restaurant_pos.Menu.Repository.{item_by_id, category_by_id}
use restaurant_pos.Orders.Types.{OrderItem}
use restaurant_pos.Orders.Build.{
  OrderMenuItemInput, build_order_item_from_menu, build_order_items_from_menu,
  item_from_menu_record, assert_valid_quantity, assert_authorized_unavailable_override,
  gives_reason,
}
use restaurant_pos.Orders.Priced.{LinePriced}

abbrev pub is_offered : MenuItem → Category → Bool
is_offered i c = i.is_available && (i.is_active && c.is_active)

-- How an item was built.
pub record Built (text_of_id : ℕ → Text) (user : User) (branch : ℕ) (m : Menu)
    (input : OrderMenuItemInput) (y : OrderItem) : Type 0 where
  pub row : MenuItem
  pub group : Category
  pub quantity : ℕ
  pub found : item_by_id m input.menu_item ≡ some row
  pub in_group : category_by_id m row.category ≡ some group
  pub of_branch : (row.branch ≡ branch) × (group.branch ≡ branch)
  pub positive : 1 ≤ quantity
  pub ordered : input.quantity ≡ pos quantity
  pub overridden :
      is_offered row group ≡ false
      → (input.allow_unavailable_override ≡ true)
        × (can user manage_menu ≡ true)
        × (gives_reason input.override_reason ≡ true)
  pub gives : item_from_menu_record text_of_id row input quantity ≡ y

assert_valid_quantity-eq-ok :
    (z : ℤ) (q : ℕ) → assert_valid_quantity z ≡ ok q → (1 ≤ q) × (z ≡ pos q)
unfolding assert_valid_quantity
assert_valid_quantity-eq-ok z q h = (ground arith, ground arith)

override-eq-ok :
    (user : User) (input : OrderMenuItemInput) (u : Unit {0})
    → assert_authorized_unavailable_override user input ≡ ok u
    → (input.allow_unavailable_override ≡ true)
      × (can user manage_menu ≡ true)
      × (gives_reason input.override_reason ≡ true)
unfolding assert_authorized_unavailable_override
override-eq-ok user input u h = elim (Bool-cases input.allow_unavailable_override) [
  | inr f ↦ ground arith
  | inl a ↦ elim (Bool-cases (can user manage_menu)) [
    | inr f ↦ ground arith
    | inl b ↦ elim (Bool-cases (gives_reason input.override_reason)) [
      | inr f ↦ ground arith
      | inl c ↦ (a, b, c)
    ]
  ]
]

module _ (text_of_id : ℕ → Text) (user : User) (branch : ℕ) (m : Menu) where
  pub build_order_item-Built :
      (input : OrderMenuItemInput) (y : OrderItem)
      → build_order_item_from_menu text_of_id user branch m input ≡ ok y
      → Built text_of_id user branch m input y
  unfolding build_order_item_from_menu
  build_order_item-Built input y h = elim (Result-cases (assert_valid_quantity input.quantity)) [
    | inr (z, e) ↦ ground arith
    | inl (q, e) ↦ elim (Option-cases (item_by_id m input.menu_item)) [
      | inl e1 ↦ ground arith
      | inr (i, e1) ↦ elim (Bool-cases (i.branch == branch)) [
        | inr f ↦ ground arith
        | inl b1 ↦ elim (Option-cases (category_by_id m i.category)) [
          | inl e2 ↦ ground arith
          | inr (c, e2) ↦ elim (Bool-cases (c.branch == branch)) [
            | inr f ↦ ground arith
            | inl b2 ↦
                let (least, ordered) = assert_valid_quantity-eq-ok input.quantity q e in
                elim (Result-cases (assert_authorized_unavailable_override user input)) [
                  | inl (u, g) ↦ record {
                    row = i;
                    group = c;
                    quantity = q;
                    found = e1;
                    in_group = e2;
                    of_branch = ((==_iff i.branch branch).0 b1, (==_iff c.branch branch).0 b2);
                    positive = least;
                    ordered = ordered;
                    overridden = λ _. override-eq-ok user input u g;
                    gives = ground arith;
                  }
                  | inr (z, g) ↦ elim (Bool-cases (is_offered i c)) [
                    | inr f ↦ ground arith
                    | inl t ↦ record {
                      row = i;
                      group = c;
                      quantity = q;
                      found = e1;
                      in_group = e2;
                      of_branch = ((==_iff i.branch branch).0 b1, (==_iff c.branch branch).0 b2);
                      positive = least;
                      ordered = ordered;
                      overridden = λ f. absurd (ground arith);
                      gives = ground arith;
                    }
                  ]
                ]
          ]
        ]
      ]
    ]
  ]

  build_order_item-LinePriced :
      (input : OrderMenuItemInput) (y : OrderItem)
      → build_order_item_from_menu text_of_id user branch m input ≡ ok y
      → LinePriced y
  unfolding item_from_menu_record LinePriced
  build_order_item-LinePriced input y h =
      let b = build_order_item-Built input y h in subst LinePriced b.gives refl

  pub build_order_items-LinePriced :
      (inputs : List OrderMenuItemInput) (ys : List OrderItem)
      → build_order_items_from_menu text_of_id user branch m inputs ≡ ok ys
      → All LinePriced ys
  unfolding build_order_items_from_menu
  build_order_items-LinePriced [] ys h = subst (All LinePriced) (ok-injective h) tt
  build_order_items-LinePriced (input ∷ inputs) ys h =
      elim (Result-cases (build_order_item_from_menu text_of_id user branch m input)) [
        | inr (z, e) ↦ ground arith
        | inl (y, e) ↦
            elim (Result-cases (build_order_items_from_menu text_of_id user branch m inputs)) [
              | inr (z, g) ↦ ground arith
              | inl (zs, g) ↦
                  let same : y ∷ zs ≡ ys = ground arith in
                  subst (All LinePriced) same (
                    build_order_item-LinePriced input y e,
                    build_order_items-LinePriced inputs zs g,
                  )
            ]
      ]
