-- ===== src/Money/Allocate/Conserve.antt =====
-- The parts of an allocation add up to the total.
use restaurant_pos.Base.{
  ℕ, zero, suc, sym, ◌∙◌, ◌==◌, ◌||◌, inl, inr, Bool-cases, ◌+◌, ◌-◌, ◌*◌, ◌%◌, ◌≤◌, ◌<◌, ◌≡◌, refl,
  List, [], ◌∷◌, map, arith, sum, length, All,
}
use restaurant_pos.Money.Allocate.{
  Entry, floors, entries, bump, entry_at, hand_out, sort, allocate_amount,
}
use restaurant_pos.Money.Allocate.Order.{remainders, sort-All, sort_sizes}

pub floors-remainders :
    (cents total i : ℕ) (bs : List ℕ)
    → total * sum (floors cents total bs) + remainders (entries cents total i bs) ≡ cents * sum bs
unfolding floors entries
floors-remainders cents total i [] = omega arith
floors-remainders cents total i (b ∷ bs) = grind (arith, floors-remainders cents total (i + 1) bs)

pub floors-le : (cents : ℕ) (bs : List ℕ) → 0 < sum bs → sum (floors cents (sum bs) bs) ≤ cents
floors-le cents bs h = grind (arith, floors-remainders cents (sum bs) 0 bs)

pub length-floors : (cents total : ℕ) (bs : List ℕ) → length (floors cents total bs) ≡ length bs
unfolding floors
length-floors cents total [] = refl
length-floors cents total (b ∷ bs) = omega (arith, length-floors cents total bs)

pub length-entries :
    (cents total i : ℕ) (bs : List ℕ) → length (entries cents total i bs) ≡ length bs
unfolding entries
length-entries cents total i [] = refl
length-entries cents total i (b ∷ bs) = omega (arith, length-entries cents total (i + 1) bs)

entries-in_range :
    (cents total i n : ℕ) (bs : List ℕ)
    → i + length bs ≤ n
    → All (λ e. e.index < n) (entries cents total i bs)
unfolding entries
entries-in_range cents total i n [] h = tt
entries-in_range cents total i n (b ∷ bs) h =
    (omega arith, entries-in_range cents total (i + 1) n bs (omega arith))

entry_at-All :
    (P : Entry → Type 0) (es : List Entry) (i : ℕ) → i < length es → All P es → P (entry_at es i)
unfolding entry_at
entry_at-All P [] i h a = elim h [ ]
entry_at-All P (e ∷ es) zero h a = a.0
entry_at-All P (e ∷ es) (suc i) h a = entry_at-All P es i (omega arith) a.1

pub bump_sizes :
    (xs : List ℕ) (i : ℕ)
    → i < length xs
    → (sum (bump xs i) ≡ sum xs + 1) × (length (bump xs i) ≡ length xs)
unfolding bump
bump_sizes [] i h = elim h [ ]
bump_sizes (x ∷ xs) zero h = omega arith
bump_sizes (x ∷ xs) (suc i) h = omega (arith, bump_sizes xs i (omega arith))

pub hand_out-sum :
    (es : List Entry) (i left n : ℕ) (xs : List ℕ)
    → 0 < length es
    → n ≡ length xs
    → All (λ e. e.index < n) es
    → (sum (hand_out es i left xs) ≡ sum xs + left) × (length (hand_out es i left xs) ≡ n)
unfolding hand_out
hand_out-sum es i zero n xs p same h = omega arith
hand_out-sum es i (suc left) n xs p same h =
    let j = i % length es in
    let inside : (entry_at es j).index < n = entry_at-All (λ e. e.index < n) es j (grind arith) h in
    let (total, count) = bump_sizes xs (entry_at es j).index (omega arith) in
    let (total', count') =
      hand_out-sum es (i + 1) left n (bump xs (entry_at es j).index) p (omega arith) h in
    (omega arith, omega arith)

pub zeros :
    (bs : List ℕ) → let out : List ℕ = map (λ _. 0) bs in (sum out ≡ 0) × (length out ≡ length bs)
zeros [] = (refl, refl)
zeros (b ∷ bs) = omega (arith, zeros bs)

sum-pos-length : (bs : List ℕ) → 0 < sum bs → 0 < length bs
sum-pos-length [] h = h
sum-pos-length (b ∷ bs) h = omega arith

-- A total over bases that are not all zero is split into as many parts as there are bases, and the
-- parts sum to it.
pub allocate_amount-sum :
    (cents : ℕ) (bs : List ℕ)
    → 0 < sum bs
    → (sum (allocate_amount cents bs) ≡ cents) × (length (allocate_amount cents bs) ≡ length bs)
unfolding allocate_amount
allocate_amount-sum cents bs h = elim (Bool-cases (cents == 0 || sum bs == 0)) [
  | inl idle ↦ rw idle ((zeros bs).0 ∙ ground arith, (zeros bs).1)
  | inr busy ↦ rw busy (total_and_count)
]
  where
    es : List Entry
    es = entries cents (sum bs) 0 bs

    total_and_count :
        let out =
          hand_out
            (sort es)
            0
            (cents - sum (floors cents (sum bs) bs))
            (floors cents (sum bs) bs) in
        (sum out ≡ cents) × (length out ≡ length bs)
    total_and_count =
        let (total, count) =
          hand_out-sum (sort es) 0 (cents - sum (floors cents (sum bs) bs)) (length bs)
            (floors cents (sum bs) bs)
            (omega (arith, sort_sizes es, length-entries cents (sum bs) 0 bs, sum-pos-length bs h))
            (sym (length-floors cents (sum bs) bs))
            (sort-All (λ e. e.index < length bs) es
              (entries-in_range cents (sum bs) 0 (length bs) bs (omega arith))) in
        (omega (arith, floors-le cents bs h), count)
