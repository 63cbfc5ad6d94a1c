-- ===== src/Money/Allocate/Bound.antt =====
-- No part of an allocation exceeds its base, when the total does not exceed the sum of the bases.
use restaurant_pos.Base.{
  ℕ, zero, suc, ◌+◌, ◌-◌, ◌*◌, ◌/◌, ◌%◌, ◌≤◌, ◌<◌, ◌≡◌, refl, ap, ◌∙◌, ◌≢◌, inl, inr, List, [], ◌∷◌,
  arith, ◌==◌, ◌||◌, if◌then◌else◌, Bool-cases, sum, length, get_or, All, All-take, All-weaken,
  All-both, map, take, drop,
}
use restaurant_pos.Money.Allocate.{
  Entry, floors, entries, bump, entry_at, hand_out, sort, allocate_amount,
}
use restaurant_pos.Money.Allocate.Order.{
  remainders, sort-All, sort_sizes, sort-Falling, Apart, sort-Apart, first_positive,
  remainders-lt-length,
}
use restaurant_pos.Money.Allocate.Conserve.{floors-remainders, floors-le}

-- The hand-out over the entries themselves.
bump_all : List Entry → List ℕ → List ℕ
bump_all [] xs = xs
bump_all (e ∷ es) xs = bump_all es (bump xs e.index)

drop-entry_at :
    (es : List Entry) (i : ℕ) → i < length es → drop i es ≡ entry_at es i ∷ drop (suc i) es
unfolding entry_at
drop-entry_at [] i h = elim h [ ]
drop-entry_at (e ∷ es) zero h = refl
drop-entry_at (e ∷ es) (suc i) h = drop-entry_at es i (omega arith)

hand_out-bump_all :
    (es : List Entry) (left i : ℕ) (xs : List ℕ)
    → i + left ≤ length es
    → hand_out es i left xs ≡ bump_all (take left (drop i es)) xs
unfolding hand_out bump_all
hand_out-bump_all es zero i xs h = refl
hand_out-bump_all es (suc left) i xs h =
    let here : i % length es ≡ i = grind arith in
    let next : i + 1 ≡ suc i = omega arith in
    rw (here, drop-entry_at es i (omega arith), next)
      (hand_out-bump_all es left (suc i) (bump xs (entry_at es i).index) (omega arith))

get_or-bump :
    (xs : List ℕ) (i j : ℕ)
    → get_or (bump xs i) j 0 ≤ (if i == j then get_or xs j 0 + 1 else get_or xs j 0)
unfolding bump
get_or-bump [] i j = ground arith
get_or-bump (x ∷ xs) zero zero = ground arith
get_or-bump (x ∷ xs) zero (suc j) = ground arith
get_or-bump (x ∷ xs) (suc i) zero = ground arith
get_or-bump (x ∷ xs) (suc i) (suc j) = ground (arith, get_or-bump xs i j)

get_or-bump_self : (xs : List ℕ) (i : ℕ) → get_or (bump xs i) i 0 ≤ get_or xs i 0 + 1
get_or-bump_self xs i = ground (arith, get_or-bump xs i i)

get_or-bump_ne : (xs : List ℕ) (i j : ℕ) → j ≢ i → get_or (bump xs i) j 0 ≤ get_or xs j 0
get_or-bump_ne xs i j h = ground (arith, get_or-bump xs i j)

-- There is room for one more at the position of the entry.
abbrev Room : List ℕ → List ℕ → Entry → Type 0
Room xs bs e = get_or xs e.index 0 < get_or bs e.index 0

bump-Room :
    (xs bs : List ℕ) (i : ℕ) (es : List Entry)
    → All (λ e. e.index ≢ i) es
    → All (Room xs bs) es
    → All (Room (bump xs i) bs) es
bump-Room xs bs i [] ne h = tt
bump-Room xs bs i (e ∷ es) ne h =
    (omega (arith, get_or-bump_ne xs i e.index ne.0), bump-Room xs bs i es ne.1 h.1)

bump_all-le :
    (es : List Entry) (xs bs : List ℕ)
    → ((k : ℕ) → get_or xs k 0 ≤ get_or bs k 0)
    → All (Room xs bs) es
    → Apart es
    → (k : ℕ) → get_or (bump_all es xs) k 0 ≤ get_or bs k 0
unfolding bump_all
bump_all-le [] xs bs le room apart k = le k
bump_all-le (e ∷ es) xs bs le room apart k =
    bump_all-le es (bump xs e.index) bs
      (λ j. elim (Bool-cases (e.index == j)) [
        | inl same ↦ grind (arith, room.0, get_or-bump xs e.index j, le j)
        | inr other ↦ grind (arith, get_or-bump xs e.index j, le j)
      ])
      (bump-Room xs bs e.index es apart.0 room.1) apart.1 k

take-Apart : (n : ℕ) (es : List Entry) → Apart es → Apart (take n es)
take-Apart zero es h = tt
take-Apart (suc n) [] h = tt
take-Apart (suc n) (e ∷ es) h = (All-take (λ x. x.index ≢ e.index) n es h.0, take-Apart n es h.1)

get_or-floors :
    (cents total : ℕ) (bs : List ℕ) (k : ℕ)
    → get_or (floors cents total bs) k 0 ≡ cents * get_or bs k 0 / total
unfolding floors
get_or-floors cents total [] k = grind arith
get_or-floors cents total (b ∷ bs) zero = refl
get_or-floors cents total (b ∷ bs) (suc k) = get_or-floors cents total bs k

-- The entry's remainder is that of the base at its position, counted from `i`.
abbrev Describes : ℕ → ℕ → ℕ → List ℕ → Entry → Type 0
Describes cents total i bs e =
    (i ≤ e.index) × (e.remainder ≡ cents * get_or bs (e.index - i) 0 % total)

entries-Describes :
    (cents total i : ℕ) (bs : List ℕ) → All (Describes cents total i bs) (entries cents total i bs)
unfolding entries
entries-Describes cents total i [] = tt
entries-Describes cents total i (b ∷ bs) = (
  (omega arith, rw (sub_self i) refl),
  All-weaken (Describes cents total (i + 1) bs) (Describes cents total i (b ∷ bs))
      (entries cents total (i + 1) bs) (λ e d. (omega arith, rw (sub_step e.index i d.0) d.1))
      (entries-Describes cents total (i + 1) bs),
)
  where
    sub_self : (n : ℕ) → n - n ≡ 0
    sub_self n = omega arith

    sub_step : (n m : ℕ) → m + 1 ≤ n → n - m ≡ suc (n - (m + 1))
    sub_step n m h = omega arith

entries-Apart : (cents total i : ℕ) (bs : List ℕ) → Apart (entries cents total i bs)
unfolding entries
entries-Apart cents total i [] = tt
entries-Apart cents total i (b ∷ bs) = (
  All-weaken (Describes cents total (i + 1) bs) (λ e. e.index ≢ i) (entries cents total (i + 1) bs)
      (λ e d. omega arith) (entries-Describes cents total (i + 1) bs),
  entries-Apart cents total (i + 1) bs,
)

floor-lt :
    (cents total b : ℕ) → 0 < total → cents ≤ total → 0 < cents * b % total → cents * b / total < b
floor-lt cents total b p h r = grind arith

floor-le : (cents total b : ℕ) → 0 < total → cents ≤ total → cents * b / total ≤ b
floor-le cents total b p h = grind arith

left_over : (c f r t : ℕ) → f ≤ c → t * f + r ≡ c * t → r ≡ (c - f) * t
left_over c f r t h e = grind arith

at_zero : (bs : List ℕ) (i : ℕ) → get_or bs (i - 0) 0 ≡ get_or bs i 0
at_zero bs i = ap (λ j. get_or bs j 0) (omega arith)

module _ (cents : ℕ) (bs : List ℕ) (positive : 0 < sum bs) where
  abbrev total : ℕ
  total = sum bs

  abbrev left : ℕ
  left = cents - sum (floors cents total bs)

  abbrev ordered : List Entry
  ordered = sort (entries cents total 0 bs)

  rests-lt : (i : ℕ) (xs : List ℕ) → All (λ e. e.remainder < total) (entries cents total i xs)
  rests-lt i xs =
      All-weaken (Describes cents total i xs) (λ e. e.remainder < total) (entries cents total i xs)
        (λ e d. rw (d.1) (grind arith)) (entries-Describes cents total i xs)

  rests-left : remainders ordered ≡ left * total
  rests-left =
      (sort_sizes (entries cents total 0 bs)).1
      ∙ left_over cents (sum (floors cents total bs)) _ total (floors-le cents bs positive)
          (floors-remainders cents total 0 bs)

  ordered-lt : All (λ e. e.remainder < total) ordered
  ordered-lt = sort-All (λ e. e.remainder < total) (entries cents total 0 bs) (rests-lt 0 bs)

  left-le : 0 + left ≤ length ordered
  left-le = grind (arith, rests-left, remainders-lt-length total ordered ordered-lt)

  first : List Entry
  first = take left ordered

  first-positive : All (λ e. 0 < e.remainder) first
  unfolding first
  first-positive =
      first_positive left total total ordered positive
        (sort-Falling total (entries cents total 0 bs) (
          All-weaken (λ e. e.remainder < total) (λ e. e.remainder ≤ total)
            (entries cents total 0 bs) (λ e h. omega arith) (rests-lt 0 bs)))
        ordered-lt (omega (arith, rests-left))

  first-Room : cents ≤ total → All (Room (floors cents total bs) bs) first
  unfolding first
  first-Room h =
      All-weaken (λ e. Describes cents total 0 bs e × (0 < e.remainder))
        (Room (floors cents total bs) bs) first
        (λ e d. rw (get_or-floors cents total bs e.index) (
          floor-lt cents total (get_or bs e.index 0) positive h
            (rw (← at_zero bs e.index) (rw d.0.1 at d.1))))
        (All-both (Describes cents total 0 bs) (λ e. 0 < e.remainder) first
          (All-take (Describes cents total 0 bs) left ordered (
            sort-All (Describes cents total 0 bs) (entries cents total 0 bs)
              (entries-Describes cents total 0 bs)))
          first-positive)

  hand_out-le :
      cents ≤ total
      → (k : ℕ) → get_or (hand_out ordered 0 left (floors cents total bs)) k 0 ≤ get_or bs k 0
  unfolding first
  hand_out-le h k = rw (hand_out-bump_all ordered left 0 (floors cents total bs) left-le) (
      bump_all-le first (floors cents total bs) bs
        (λ j. rw (get_or-floors cents total bs j) (floor-le cents total (get_or bs j 0) positive h))
        (first-Room h)
        (take-Apart left ordered
          (sort-Apart (entries cents total 0 bs) (entries-Apart cents total 0 bs)))
        k)

zeros-get_or : (bs : List ℕ) (k : ℕ) → get_or {A = ℕ} (map (λ b. 0) bs) k 0 ≡ 0
zeros-get_or [] k = refl
zeros-get_or (b ∷ bs) zero = refl
zeros-get_or (b ∷ bs) (suc k) = zeros-get_or bs k

-- No part of an allocation exceeds the base at its position, when the total does not exceed the sum
-- of the bases: a discount never takes more from a split than the split holds.
pub allocate_amount-le :
    (cents : ℕ) (bs : List ℕ)
    → cents ≤ sum bs
    → (k : ℕ) → get_or (allocate_amount cents bs) k 0 ≤ get_or bs k 0
unfolding allocate_amount
allocate_amount-le cents bs h k = elim (Bool-cases (cents == 0 || sum bs == 0)) [
  | inl idle ↦ rw (idle, zeros-get_or bs k) (omega arith)
  | inr busy ↦ rw busy (hand_out-le cents bs (ground arith) h k)
]
