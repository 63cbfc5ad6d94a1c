-- ===== src/Orders/Spared.antt =====
-- An item that an edit may not reduce is still there afterwards.
use restaurant_pos.Base.{
  ℕ, ◌≡◌, sym, subst, inl, inr, Bool, true, false, not, ◌&&◌, ◌||◌, List, [], ◌∷◌, ◌++◌, ◌==◌,
  ==_iff, eq_refl, leb, All, select, every, some_of, arith, Bool-cases, Option-cases,
}
use mathlib.Core.List.{append_assoc}
use restaurant_pos.Base.Result.{Result-cases, ok}
use restaurant_pos.Auth.Policy.{User}
use restaurant_pos.Kds.Board.{Board}
use restaurant_pos.Orders.Types.{Order, OrderItem, is_completed, is_delivered}
use restaurant_pos.Orders.Cancel.{shows_prepared}
use restaurant_pos.Orders.Build.{assert_valid_quantity}
use restaurant_pos.Orders.Edit.{
  EditInput, ModifyInput, lowers, is_reduced, reduces_no_prepared, add_each, modify_item,
  modify_first, with_modified, modify_each, remove_each, apply_edit,
}

-- The order or the kitchen says that the item was prepared.
abbrev pub prepared : Board → Order → OrderItem → Bool
prepared b o i = (is_completed o.status || is_delivered o.status) || shows_prepared b o.id i

-- The item is among the items, in at least its quantity.
abbrev pub holds : OrderItem → List OrderItem → Bool
holds i js = some_of (λ j. j.id == i.id && leb i.quantity j.quantity) js

holds-append :
    (i : OrderItem) (js ks : List OrderItem) → holds i js ≡ true → holds i (js ++ ks) ≡ true
holds-append i [] ks h = absurd (ground arith)
holds-append i (j ∷ js) ks h = elim (Bool-cases (j.id == i.id && leb i.quantity j.quantity)) [
  | inl t ↦ ground arith
  | inr f ↦ let rest = holds-append i js ks (ground arith) in ground arith
]

holds-later :
    (i : OrderItem) (js ks : List OrderItem) → holds i ks ≡ true → holds i (js ++ ks) ≡ true
holds-later i [] ks h = h
holds-later i (j ∷ js) ks h = let rest = holds-later i js ks h in ground arith

leb_refl : (n : ℕ) → leb n n ≡ true
leb_refl n = ground arith

holds-each : (before js : List OrderItem) → All (λ i. holds i (before ++ js) ≡ true) js
holds-each before [] = tt
holds-each before (j ∷ js) = (
  holds-later j before (j ∷ js)
      (let e = eq_refl j.id in let l = leb_refl j.quantity in ground arith),
  subst (λ z. All (λ i. holds i z ≡ true) js) (append_assoc before (j ∷ []) js)
      (holds-each (before ++ (j ∷ [])) js),
)

module _ (i : OrderItem) where
  add_each-holds :
      (user : User) (now : ℕ) (is : List OrderItem) (o : Order)
      → holds i o.items ≡ true
      → holds i (add_each user now is o).items ≡ true
  unfolding add_each
  add_each-holds user now [] o h = h
  add_each-holds user now (j ∷ is) o h =
      add_each-holds user now is _ (holds-append i o.items (j ∷ []) h)

  modify_item-holds :
      (p : ModifyInput) (j k : OrderItem)
      → lowers i p ≡ false
      → j.id ≡ p.item
      → j.id ≡ i.id
      → modify_item p j ≡ ok k
      → leb i.quantity j.quantity ≡ true
      → (k.id ≡ i.id) × (leb i.quantity k.quantity ≡ true)
  unfolding modify_item assert_valid_quantity
  modify_item-holds p j k f at own h least = elim (Option-cases p.quantity) [
    | inl e ↦ (ground arith, ground arith)
    | inr (z, e) ↦ (ground arith, ground arith)
  ]

  modify_item-id : (p : ModifyInput) (j k : OrderItem) → modify_item p j ≡ ok k → k.id ≡ j.id
  unfolding modify_item
  modify_item-id p j k h = ground arith

  modify_first-holds :
      (p : ModifyInput) (js ks : List OrderItem)
      → lowers i p ≡ false
      → modify_first p js ≡ ok ks
      → holds i js ≡ true
      → holds i ks ≡ true
  unfolding modify_first
  modify_first-holds p [] ks f h k = absurd (ground arith)
  modify_first-holds p (j ∷ js) ks f h k = elim (Bool-cases (j.id == p.item)) [
    | inl t ↦ elim (Result-cases (modify_item p j)) [
      | inr (z, e) ↦ ground arith
      | inl (m, e) ↦
          let same : m ∷ js ≡ ks = ground arith in
          subst (λ z. holds i z ≡ true) same
            (elim (Bool-cases (j.id == i.id && leb i.quantity j.quantity)) [
              | inr g ↦ ground arith
              | inl g ↦
                  let own : j.id ≡ i.id = (==_iff j.id i.id).0 (ground arith) in
                  let (ids, least) =
                    modify_item-holds p j m f ((==_iff j.id p.item).0 t) own e (ground arith) in
                  let here = eq_refl i.id in
                  subst (λ n. (n == i.id && leb i.quantity m.quantity || holds i js) ≡ true)
                    (sym ids) (ground arith)
            ])
    ]
    | inr t ↦ elim (Result-cases (modify_first p js)) [
      | inr (z, e) ↦ ground arith
      | inl (ms, e) ↦
          let same : j ∷ ms ≡ ks = ground arith in
          subst (λ z. holds i z ≡ true) same
            (elim (Bool-cases (j.id == i.id && leb i.quantity j.quantity)) [
              | inl g ↦ ground arith
              | inr g ↦ let rest = modify_first-holds p js ms f e (ground arith) in ground arith
            ])
    ]
  ]

  modify_each-holds :
      (user : User) (input : EditInput) (now : ℕ) (ps : List ModifyInput) (o d : Order)
      → some_of (lowers i) ps ≡ false
      → modify_each user input now ps o ≡ ok d
      → holds i o.items ≡ true
      → holds i d.items ≡ true
  unfolding modify_each
  modify_each-holds user input now [] o d f h k = ground arith
  modify_each-holds user input now (p ∷ ps) o d f h k =
      elim (Result-cases (modify_first p o.items)) [
        | inr (z, e) ↦ ground arith
        | inl (is, e) ↦
            modify_each-holds user input now ps (with_modified user input now p is o) d
              (ground arith) (ground arith) (modify_first-holds p o.items is (ground arith) e k)
      ]

  select-holds :
      (ids : List ℕ) (js : List OrderItem)
      → some_of (λ id. id == i.id) ids ≡ false
      → holds i js ≡ true
      → holds i (select (λ j. not (some_of (λ id. id == j.id) ids)) js) ≡ true
  select-holds ids [] f h = absurd (ground arith)
  select-holds ids (j ∷ js) f h = elim (Bool-cases (j.id == i.id && leb i.quantity j.quantity)) [
    | inl g ↦
        let own : j.id ≡ i.id = (==_iff j.id i.id).0 (ground arith) in
        let spared : some_of (λ id. id == j.id) ids ≡ false =
          subst (λ n. some_of (λ id. id == n) ids ≡ false) (sym own) f in
        ground arith
    | inr g ↦
        let rest = select-holds ids js f (ground arith) in
        elim (Bool-cases (some_of (λ id. id == j.id) ids)) [
          | inl t ↦ ground arith
          | inr t ↦ ground arith
        ]
  ]

  apply_edit-holds :
      (user : User) (input : EditInput) (added : List OrderItem) (now : ℕ) (o d : Order)
      → is_reduced input i ≡ false
      → apply_edit user input added now o ≡ ok d
      → holds i o.items ≡ true
      → holds i d.items ≡ true
  unfolding apply_edit remove_each is_reduced
  apply_edit-holds user input added now o d f h k =
      elim (Result-cases
        (modify_each user input now input.modify_items (add_each user now added o))) [
          | inr (z, e) ↦ ground arith
          | inl (m, e) ↦
              let kept =
                modify_each-holds user input now input.modify_items (add_each user now added o) m
                  (ground arith) e (add_each-holds user now added o k) in
              let spared = select-holds input.remove_items m.items (ground arith) kept in
              let items : select (λ j. not (some_of (λ id. id == j.id) input.remove_items)) m.items
                  ≡ d.items =
                ground arith in
              subst (λ z. holds i z ≡ true) items spared
        ]

-- Every item that was prepared is in the draft, in at least its quantity.
pub apply_edit-spares :
    (user : User) (input : EditInput) (added : List OrderItem) (now : ℕ) (b : Board) (o d : Order)
    → reduces_no_prepared input b o ≡ true
    → apply_edit user input added now o ≡ ok d
    → All (λ i. prepared b o i ≡ true → holds i d.items ≡ true) o.items
unfolding reduces_no_prepared
apply_edit-spares user input added now b o d e h = go o.items e (holds-each [] o.items)
  where
    go :
        (is : List OrderItem)
        → every (λ i. not (is_reduced input i && prepared b o i)) is ≡ true
        → All (λ i. holds i o.items ≡ true) is
        → All (λ i. prepared b o i ≡ true → holds i d.items ≡ true) is
    go [] e a = tt
    go (i ∷ is) e a = (
      (λ p. apply_edit-holds i user input added now o d (ground arith) h a.0),
      go is (ground arith) a.1,
    )

abbrev spare : List ℕ → List OrderItem → List OrderItem
spare ids js = select (λ j. not (some_of (λ id. id == j.id) ids)) js

dropped :
    (ids : List ℕ) (j : OrderItem) (js : List OrderItem)
    → some_of (λ id. id == j.id) ids ≡ true
    → spare ids (j ∷ js) ≡ spare ids js
dropped ids j js e = ground arith

chosen :
    (ids : List ℕ) (j : OrderItem) (js : List OrderItem)
    → some_of (λ id. id == j.id) ids ≡ false
    → spare ids (j ∷ js) ≡ j ∷ spare ids js
chosen ids j js e = ground arith

unselected :
    (ids : List ℕ) (js : List OrderItem)
    → All
        (λ j. some_of (λ id. id == j.id) ids ≡ false)
        (select (λ j. not (some_of (λ id. id == j.id) ids)) js)
unselected ids [] = tt
unselected ids (j ∷ js) =
    let rest = unselected ids js in
    elim (Bool-cases (some_of (λ id. id == j.id) ids)) [
      | inl t ↦
          subst (All (λ j. some_of (λ id. id == j.id) ids ≡ false)) (sym (dropped ids j js t)) rest
      | inr f ↦
          subst (All (λ j. some_of (λ id. id == j.id) ids ≡ false)) (sym (chosen ids j js f))
            (f, rest)
    ]

-- No item that was to be removed is in the draft.
pub apply_edit-removes :
    (user : User) (input : EditInput) (added : List OrderItem) (now : ℕ) (o d : Order)
    → apply_edit user input added now o ≡ ok d
    → All (λ j. some_of (λ id. id == j.id) input.remove_items ≡ false) d.items
unfolding apply_edit remove_each
apply_edit-removes user input added now o d h =
    elim (Result-cases
      (modify_each user input now input.modify_items (add_each user now added o))) [
        | inr (z, e) ↦ ground arith
        | inl (m, e) ↦
            let items : select (λ j. not (some_of (λ id. id == j.id) input.remove_items)) m.items
                ≡ d.items =
              ground arith in
            subst (All (λ j. some_of (λ id. id == j.id) input.remove_items ≡ false)) items
              (unselected input.remove_items m.items)
      ]
