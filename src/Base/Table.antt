-- ===== src/Base/Table.antt =====
-- A JavaScript `Map` with number keys, in insertion order.
use Prim.Native.Nat.{ℕ}
use mathlib.Core.Path.{◌≡◌, refl, sym, subst, ◌∙◌}
use mathlib.Core.Bool.{Bool, true, false}
use mathlib.Core.Logic.{◌≢◌, ◌⊎◌, inl, inr}
use mathlib.Core.List.{List, [], ◌∷◌}
use mathlib.Core.Option.{Option, none, some}
use native.Mathlib.Omega.{arith}
use restaurant_pos.Base.Lists.{find, select, All, All-weaken}
use restaurant_pos.Base.Tests.{◌==◌, ==_iff, Bool-cases, if◌then◌else◌}

abbrev pub Table {ℓ} : Type ℓ → Type ℓ
Table V = List (ℕ × V)

module _ {ℓ} {V : Type ℓ} where
  -- `map.get(k)`
  abbrev pub get : Table V → ℕ → Option V
  get [] k = none
  get ((j, v) ∷ t) k = if j == k then some v else get t k

  -- `map.set(k, v)`
  abbrev pub put : Table V → ℕ → V → Table V
  put [] k v = (k, v) ∷ []
  put ((j, w) ∷ t) k v = if j == k then (j, v) ∷ t else (j, w) ∷ put t k v

  -- `map.delete(k)`
  abbrev pub remove : Table V → ℕ → Table V
  remove [] k = []
  remove ((j, w) ∷ t) k = if j == k then t else (j, w) ∷ remove t k

  -- `[...map.values()]`
  abbrev pub values : Table V → List V
  values [] = []
  values ((_, v) ∷ t) = v ∷ values t

  pub get-put_self : (t : Table V) (k : ℕ) (v : V) → get (put t k v) k ≡ some v
  get-put_self [] k v = ground arith
  get-put_self (e ∷ t) k v = ground (arith, get-put_self t k v)

  pub get-put_ne : (t : Table V) (j k : ℕ) (v : V) → j ≢ k → get (put t k v) j ≡ get t j
  get-put_ne [] j k v h = ground arith
  get-put_ne (e ∷ t) j k v h = ground (arith, get-put_ne t j k v h)

-- The entry of a key and a value stands in the table.
pub data Among {ℓ} {V : Type ℓ} (k : ℕ) (v : V) : Table V → Type ℓ where
  here : {t : Table V} → Among k v ((k, v) ∷ t)
  there : {e : ℕ × V} {t : Table V} → Among k v t → Among k v (e ∷ t)

module _ {ℓ} {V : Type ℓ} where
  pub get-Among : (t : Table V) (k : ℕ) (v : V) → get t k ≡ some v → Among k v t
  get-Among [] k v h = cc
  get-Among ((j, w) ∷ t) k v h = elim (Bool-cases (j == k)) [
    | inl e ↦
        let same : (j, w) ≡ (k, v) = ground (arith, (==_iff j k).0 e) in
        subst (λ x. Among k v (x ∷ t)) (sym same) here
    | inr f ↦ there (get-Among t k v (ground arith))
  ]

  Among-cases :
      (i j : ℕ) (u w : V) (t : Table V) → Among j w ((i, u) ∷ t) → ((i ≡ j) × (u ≡ w)) ⊎ Among j w t
  Among-cases i j u w t here = inl (refl, refl)
  Among-cases i j u w t (there a) = inr a

  put_here :
      (b : Bool) (i k j : ℕ) (u v w : V) (t r : Table V)
      → (i == k) ≡ b
      → (Among j w r → ((k ≡ j) × (v ≡ w)) ⊎ Among j w t)
      → Among j w (if b then (i, v) ∷ t else (i, u) ∷ r)
      → ((k ≡ j) × (v ≡ w)) ⊎ Among j w ((i, u) ∷ t)
  put_here true i k j u v w t r e rest a = elim (Among-cases i j v w t a) [
    | inl (h, g) ↦ inl (sym ((==_iff i k).0 e) ∙ h, g)
    | inr h ↦ inr (there h)
  ]
  put_here false i k j u v w t r e rest a = elim (Among-cases i j u w r a) [
    | inl (h, g) ↦
        let same : (j, w) ≡ (i, u) = ground arith in inr (subst (λ x. Among j w (x ∷ t)) same here)
    | inr h ↦ elim (rest h) [ inl x ↦ inl x | inr y ↦ inr (there y) ]
  ]

  pub put-Among :
      (t : Table V) (k j : ℕ) (v w : V) → Among j w (put t k v) → ((k ≡ j) × (v ≡ w)) ⊎ Among j w t
  put-Among [] k j v w a = Among-cases k j v w [] a
  put-Among ((i, u) ∷ t) k j v w a =
      put_here (i == k) i k j u v w t (put t k v) refl (put-Among t k j v w) a

  pub find-none-Among :
      (p : V → Bool) (t : Table V) (k : ℕ) (v : V)
      → find p (values t) ≡ none
      → Among k v t
      → p v ≡ false
  find-none-Among p [] k v h a = elim a [ ]
  find-none-Among p ((j, w) ∷ t) k v h here = ground arith
  find-none-Among p ((j, w) ∷ t) k v h (there a) = find-none-Among p t k v (ground arith) a

  -- What `find` returns passes the test and is an entry.
  pub find-Among :
      (p : V → Bool) (t : Table V) (v : V)
      → find p (values t) ≡ some v
      → (k : ℕ) × Among k v t × (p v ≡ true)
  find-Among p [] v h = cc
  find-Among p ((j, w) ∷ t) v h = elim (Bool-cases (p w)) [
    | inl e ↦
        let same : w ≡ v = ground arith in
        subst (λ x. (k : ℕ) × Among k x ((j, w) ∷ t) × (p x ≡ true)) same (j, here, e)
    | inr f ↦ let (k, a, q) = find-Among p t v (ground arith) in (k, there a, q)
  ]

  -- What holds of the selected values holds of each entry that is selected.
  pub All-select-get {κ} :
      (p : V → Bool) (Q : V → Type κ) (t : Table V) (k : ℕ) (v : V)
      → All Q (select p (values t))
      → get t k ≡ some v
      → p v ≡ true
      → Q v
  All-select-get p Q [] k v a g e = cc
  All-select-get p Q ((j, w) ∷ t) k v a g e = elim (Bool-cases (j == k)) [
    | inl h ↦
        let same : w ≡ v = ground arith in
        let chosen : select p (values ((j, w) ∷ t)) ≡ w ∷ select p (values t) = ground arith in
        subst Q same (subst (All Q) chosen a).0
    | inr f ↦ All-select-get p Q t k v (rest (p w) refl a) (ground arith) e
  ]
    where
      rest :
          (b : Bool)
          → p w ≡ b
          → All Q (if b then w ∷ select p (values t) else select p (values t))
          → All Q (select p (values t))
      rest true _ a = a.1
      rest false _ a = a

  -- A `Map` has each key once.
  abbrev pub IsMap : Table V → Type ℓ
  IsMap [] = Unit
  IsMap ((k, v) ∷ t) = (get t k ≡ none) × IsMap t

  pub Among-get : (t : Table V) (k : ℕ) (v : V) → IsMap t → Among k v t → get t k ≡ some v
  Among-get [] k v h a = elim a [ ]
  Among-get ((j, w) ∷ t) k v h here = ground arith
  Among-get ((j, w) ∷ t) k v h (there a) =
      let later = Among-get t k v h.1 a in let first = h.0 in ground arith

  pub remove-gone : (t : Table V) (k : ℕ) → IsMap t → get (remove t k) k ≡ none
  remove-gone [] k h = refl
  remove-gone ((j, w) ∷ t) k h = let later = remove-gone t k h.1 in let first = h.0 in ground arith

  -- What `select` picks are entries that pass the test.
  pub select-Among :
      (p : V → Bool) (t : Table V)
      → All (λ v. (k : ℕ) × Among k v t × (p v ≡ true)) (select p (values t))
  select-Among p [] = tt
  select-Among p ((j, w) ∷ t) =
      let later =
        All-weaken (λ v. (k : ℕ) × Among k v t × (p v ≡ true))
          (λ v. (k : ℕ) × Among k v ((j, w) ∷ t) × (p v ≡ true)) (select p (values t))
          (λ v x. (x.0, there x.1, x.2)) (select-Among p t) in
      pick (p w) refl later
    where
      pick :
          (b : Bool)
          → p w ≡ b
          → All (λ v. (k : ℕ) × Among k v ((j, w) ∷ t) × (p v ≡ true)) (select p (values t))
          → All
              (λ v. (k : ℕ) × Among k v ((j, w) ∷ t) × (p v ≡ true))
              (if b then w ∷ select p (values t) else select p (values t))
      pick true e a = ((j, here, e), a)
      pick false e a = a
