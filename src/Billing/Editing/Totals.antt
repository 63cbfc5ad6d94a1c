-- ===== src/Billing/Editing/Totals.antt =====
-- What the operations on a bill's items leave of its total.
use restaurant_pos.Base.{
  ℕ, ◌≡◌, refl, ◌∙◌, sym, ap, true, List, [], ◌∷◌, ◌++◌, map, All, All-append,
}
use restaurant_pos.Billing.Types.{Bill, Pricing, Splits, SplitLabel, a, b, c, TableOrderItem}
use restaurant_pos.Billing.Lines.{calculate_line_item}
use restaurant_pos.Billing.Lines.Laws.{IsLine, calculate_line_item-IsLine}
use restaurant_pos.Billing.Splits.Whole.{split_due, whole_due, all_lines, split_due-eq-whole_due}
use restaurant_pos.Billing.Editing.Items.{merged, new_bill, new_split, ItemsBySplit, all_items}

append-nil : {A : Type 0} (xs : List A) → xs ++ [] ≡ xs
append-nil [] = refl
append-nil (x ∷ xs) = ap (λ t. x ∷ t) (append-nil xs)

map-append : {A B : Type 0} (f : A → B) (xs ys : List A) → map f (xs ++ ys) ≡ map f xs ++ map f ys
map-append f [] ys = refl
map-append f (x ∷ xs) ys = ap (λ t. f x ∷ t) (map-append f xs ys)

-- Each line of the splits adds up.
pub record Lined (s : Splits) : Type 0 where
  pub split_a : All IsLine s.split_a.line_items
  pub split_b : All IsLine s.split_b.line_items
  pub split_c : All IsLine s.split_c.line_items

merged-all_lines : (x : Bill) (t : SplitLabel) → all_lines (merged x t).splits ≡ all_lines x.splits
unfolding merged
merged-all_lines x a = append-nil (all_lines x.splits)
merged-all_lines x b = append-nil (all_lines x.splits)
merged-all_lines x c = refl

all_lines-IsLine : (s : Splits) → Lined s → All IsLine (all_lines s)
all_lines-IsLine s l =
    All-append IsLine s.split_a.line_items _ l.split_a
      (All-append IsLine s.split_b.line_items _ l.split_b l.split_c)

merged-Lined : (x : Bill) (t : SplitLabel) → Lined x.splits → Lined (merged x t).splits
unfolding merged
merged-Lined x a l = record { split_a = all_lines-IsLine x.splits l; split_b = tt; split_c = tt }
merged-Lined x b l = record { split_a = tt; split_b = all_lines-IsLine x.splits l; split_c = tt }
merged-Lined x c l = record { split_a = tt; split_b = tt; split_c = all_lines-IsLine x.splits l }

-- Merging the splits into one does not change what the bill comes to.
pub merged-split_due :
    (p : Pricing) (x : Bill) (target : SplitLabel)
    → Lined x.splits
    → split_due p (merged x target).splits ≡ split_due p x.splits
merged-split_due p x target l =
    let m = merged-Lined x target l in
    split_due-eq-whole_due p (merged x target).splits m.split_a m.split_b m.split_c
    ∙ (ap (whole_due p) (merged-all_lines x target)
        ∙ sym (split_due-eq-whole_due p x.splits l.split_a l.split_b l.split_c))

lines-IsLine : (items : List TableOrderItem) → All IsLine (map (calculate_line_item true) items)
lines-IsLine [] = tt
lines-IsLine (i ∷ is) = (calculate_line_item-IsLine true i, lines-IsLine is)

-- A new bill comes to the price of its items taken together, however they are dealt to the splits.
pub new_bill-split_due :
    (p : Pricing) (items : ItemsBySplit) (id branch session now : ℕ)
    → split_due p (new_bill p items id branch session now).splits
      ≡ whole_due p (map (calculate_line_item true) (all_items items))
unfolding new_bill new_split
new_bill-split_due p items id branch session now =
    split_due-eq-whole_due p _ (lines-IsLine items.items_a) (lines-IsLine items.items_b)
      (lines-IsLine items.items_c)
    ∙ ap (whole_due p) (
        sym (
          map-append (calculate_line_item true) items.items_a (items.items_b ++ items.items_c)
          ∙ ap (λ t. map (calculate_line_item true) items.items_a ++ t)
              (map-append (calculate_line_item true) items.items_b items.items_c)))
