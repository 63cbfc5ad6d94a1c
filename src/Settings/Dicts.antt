-- ===== src/Settings/Dicts.antt =====
-- The laws of objects with text keys.
use restaurant_pos.Base.{
  ◌≡◌, inl, inr, ◌⊎◌, true, some, List, [], ◌∷◌, ◌++◌, is_some, some_of, arith, Bool-cases,
}
use restaurant_pos.Base.Text.{Text, same_text, same_text_refl}
use restaurant_pos.Settings.Types.{Dict}
use restaurant_pos.Settings.Normalize.{lookup, assign}

module _ {V : Type 0} where
  pub lookup-assign_self : (d : Dict V) (k : Text) (v : V) → lookup (assign d k v) k ≡ some v
  unfolding lookup assign
  lookup-assign_self [] k v = ground (arith, same_text_refl k)
  lookup-assign_self ((j, w) ∷ d) k v = elim (Bool-cases (same_text j k)) [
    | inl t ↦ ground arith
    | inr f ↦ ground (arith, lookup-assign_self d k v)
  ]

  pub lookup-assign_keeps :
      (d : Dict V) (k j : Text) (v : V)
      → is_some (lookup d j) ≡ true
      → is_some (lookup (assign d k v) j) ≡ true
  unfolding lookup assign
  lookup-assign_keeps [] k j v h = cc
  lookup-assign_keeps ((i, w) ∷ d) k j v h = elim (Bool-cases (same_text i k)) [
    | inl t ↦ elim (Bool-cases (same_text i j)) [ inl s ↦ ground arith | inr s ↦ ground arith ]
    | inr f ↦ elim (Bool-cases (same_text i j)) [
      | inl s ↦ ground arith
      | inr s ↦ ground (arith, lookup-assign_keeps d k j v)
    ]
  ]

  -- What is looked up after an assignment is the value assigned, or was there before.
  pub lookup-assign_cases :
      (d : Dict V) (k j : Text) (v w : V)
      → lookup (assign d k v) j ≡ some w
      → (v ≡ w) ⊎ (lookup d j ≡ some w)
  unfolding lookup assign
  lookup-assign_cases [] k j v w h = elim (Bool-cases (same_text k j)) [
    | inl t ↦ inl (ground arith)
    | inr f ↦ ground arith
  ]
  lookup-assign_cases ((i, u) ∷ d) k j v w h = elim (Bool-cases (same_text i k)) [
    | inl t ↦ elim (Bool-cases (same_text i j)) [
      | inl s ↦ inl (ground arith)
      | inr s ↦ inr (ground arith)
    ]
    | inr f ↦ elim (Bool-cases (same_text i j)) [
      | inl s ↦ inr (ground arith)
      | inr s ↦ elim (lookup-assign_cases d k j v w (ground arith)) [
        | inl a ↦ inl a
        | inr b ↦ inr (ground arith)
      ]
    ]
  ]

pub within_append :
    (k : Text) (xs ys : List Text)
    → some_of (same_text k) ys ≡ true
    → some_of (same_text k) (xs ++ ys) ≡ true
within_append k [] ys h = h
within_append k (x ∷ xs) ys h = ground (arith, within_append k xs ys h)
