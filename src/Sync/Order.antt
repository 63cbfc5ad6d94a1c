-- ===== src/Sync/Order.antt =====
-- The order of versions: by instant, source and canonical text.
use restaurant_pos.Base.{
  ℕ, ◌≡◌, refl, inl, inr, Bool, true, false, ◌&&◌, ◌||◌, Option, none, some, [], ◌∷◌, ◌==◌, ltb,
  if◌then◌else◌, arith, Bool-cases,
}
use restaurant_pos.Base.Text.{Text, same_text, same_text_refl}
use restaurant_pos.Sync.Versions.{
  Version, text_gt, source_priority, compare_states, compare_menu_versions, receive,
  apply_menu_version, outcome_of,
}

text_gt_irrefl : (a : Text) → text_gt a a ≡ false
unfolding text_gt
text_gt_irrefl [] = refl
text_gt_irrefl (c ∷ cs) = ground (arith, text_gt_irrefl cs)

text_gt_trans : (a b c : Text) → text_gt a b ≡ true → text_gt b c ≡ true → text_gt a c ≡ true
unfolding text_gt
text_gt_trans [] b c h k = cc
text_gt_trans (x ∷ a) [] c h k = cc
text_gt_trans (x ∷ a) (y ∷ b) [] h k = refl
text_gt_trans (x ∷ a) (y ∷ b) (z ∷ c) h k = ground (arith, text_gt_trans a b c)

text_gt-eq : (a b : Text) → text_gt a b ≡ false → text_gt b a ≡ false → a ≡ b
unfolding text_gt
text_gt-eq [] [] h k = refl
text_gt-eq [] (y ∷ b) h k = cc
text_gt-eq (x ∷ a) [] h k = cc
text_gt-eq (x ∷ a) (y ∷ b) h k = ground (arith, text_gt-eq a b)

abbrev at_or_zero : Option ℕ → ℕ
at_or_zero none = 0
at_or_zero (some i) = i

-- Whether `x` comes after `y`
pub after : Version → Version → Bool
after x y =
    ltb (at_or_zero y.at) (at_or_zero x.at)
    || (at_or_zero x.at == at_or_zero y.at
        && (ltb (source_priority y.source) (source_priority x.source)
            || (source_priority x.source == source_priority y.source && text_gt x.state y.state)))

pub after_irrefl : (x : Version) → after x x ≡ false
unfolding after
after_irrefl x = ground (arith, text_gt_irrefl x.state)

pub after_trans : (x y z : Version) → after x y ≡ true → after y z ≡ true → after x z ≡ true
unfolding after
after_trans x y z h k = ground (arith, text_gt_trans x.state y.state z.state)

pub after-eq : (x y : Version) → after x y ≡ false → after y x ≡ false → x.state ≡ y.state
unfolding after
after-eq x y h k = ground (arith, text_gt-eq x.state y.state)

-- The comparison of two versions with instants and different texts
pub after_lem :
    (x y : Version) (i j : ℕ)
    → x.at ≡ some i
    → y.at ≡ some j
    → same_text x.state y.state ≡ false
    → receive x (some y) ≡ some (if after x y then x else y)
unfolding after receive apply_menu_version compare_menu_versions compare_states outcome_of
after_lem x y i j e k d = elim (Bool-cases (ltb j i)) [
  | inl a ↦ ground arith
  | inr a ↦ elim (Bool-cases (ltb i j)) [
    | inl b ↦ ground arith
    | inr b ↦ elim (Bool-cases (ltb (source_priority y.source) (source_priority x.source))) [
      | inl c ↦ ground arith
      | inr c ↦ elim (Bool-cases (ltb (source_priority x.source) (source_priority y.source))) [
        | inl f ↦ ground arith
        | inr f ↦ elim (Bool-cases (text_gt x.state y.state)) [
          | inl g ↦ ground arith
          | inr g ↦ ground arith
        ]
      ]
    ]
  ]
]

-- A version that is there already changes nothing.
pub receive_known : (x : Version) (i : ℕ) → x.at ≡ some i → receive x (some x) ≡ some x
unfolding receive apply_menu_version compare_menu_versions compare_states outcome_of
receive_known x i e = ground (arith, same_text_refl x.state)
