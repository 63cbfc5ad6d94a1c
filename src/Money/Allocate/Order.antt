-- ===== src/Money/Allocate/Order.antt =====
-- The order in which `allocateAmount` hands out the cents that are left: by falling remainder, with
-- every position once.
use restaurant_pos.Base.{
  ℕ, zero, suc, ◌+◌, ◌*◌, ◌≤◌, ◌<◌, ◌≡◌, refl, ◌≢◌, inl, inr, List, [], ◌∷◌, arith, Bool-cases,
  length, All, take,
}
use restaurant_pos.Money.Allocate.{Entry, before, insert, sort}

abbrev pub remainders : List Entry → ℕ
remainders [] = 0
remainders (e ∷ es) = e.remainder + remainders es

pub insert-All :
    (P : Entry → Type 0) (e : Entry) (es : List Entry) → P e → All P es → All P (insert e es)
unfolding insert
insert-All P e [] p h = (p, tt)
insert-All P e (x ∷ xs) p h = elim (Bool-cases (before e x)) [
  | inl first ↦ rw first (p, h)
  | inr later ↦ rw later (h.0, insert-All P e xs p h.1)
]

pub sort-All : (P : Entry → Type 0) (es : List Entry) → All P es → All P (sort es)
unfolding sort
sort-All P [] h = tt
sort-All P (e ∷ es) h = insert-All P e (sort es) h.0 (sort-All P es h.1)

insert_sizes :
    (e : Entry) (es : List Entry)
    → (length (insert e es) ≡ suc (length es))
      × (remainders (insert e es) ≡ e.remainder + remainders es)
unfolding insert
insert_sizes e [] = (refl, refl)
insert_sizes e (x ∷ xs) = ground (arith, insert_sizes e xs)

pub sort_sizes :
    (es : List Entry) → (length (sort es) ≡ length es) × (remainders (sort es) ≡ remainders es)
unfolding sort
sort_sizes [] = (refl, refl)
sort_sizes (e ∷ es) = ground (arith, insert_sizes e (sort es), sort_sizes es)

-- Remainders fall along the list, from `m` on.
abbrev pub Falling : ℕ → List Entry → Type 0
Falling m [] = Unit {0}
Falling m (e ∷ es) = (e.remainder ≤ m) × Falling e.remainder es

insert-Falling :
    (m : ℕ) (e : Entry) (es : List Entry) → e.remainder ≤ m → Falling m es → Falling m (insert e es)
unfolding insert before
insert-Falling m e [] h f = (h, tt)
insert-Falling m e (x ∷ xs) h f = ground (arith, insert-Falling x.remainder e xs)

pub sort-Falling : (m : ℕ) (es : List Entry) → All (λ e. e.remainder ≤ m) es → Falling m (sort es)
unfolding sort
sort-Falling m [] h = tt
sort-Falling m (e ∷ es) h = insert-Falling m e (sort es) h.0 (sort-Falling m es h.1)

-- No position stands twice in the list.
abbrev pub Apart : List Entry → Type 0
Apart [] = Unit {0}
Apart (e ∷ es) = All (λ x. x.index ≢ e.index) es × Apart es

insert-Apart :
    (e : Entry) (es : List Entry) → All (λ x. x.index ≢ e.index) es → Apart es → Apart (insert e es)
unfolding insert
insert-Apart e [] new h = (tt, tt)
insert-Apart e (x ∷ xs) new h = elim (Bool-cases (before e x)) [
  | inl first ↦ rw first (new, h)
  | inr later ↦ rw later (
    insert-All (λ y. y.index ≢ x.index) e xs (λ same. new.0 (cc)) h.0,
    insert-Apart e xs new.1 h.1,
  )
]

pub sort-Apart : (es : List Entry) → Apart es → Apart (sort es)
unfolding sort
sort-Apart [] h = tt
sort-Apart (e ∷ es) h =
    insert-Apart e (sort es) (sort-All (λ x. x.index ≢ e.index) es h.0) (sort-Apart es h.1)

Falling-zero : (es : List Entry) → Falling 0 es → remainders es ≡ 0
Falling-zero [] f = refl
Falling-zero (e ∷ es) f =
    let zero_head : e.remainder ≡ 0 = omega arith in
    let tail_zero = Falling-zero es (rw zero_head at f.1) in omega arith

-- When the remainders sum to `left` totals, the first `left` of them are positive.
pub first_positive :
    (left total m : ℕ) (es : List Entry)
    → 0 < total
    → Falling m es
    → All (λ e. e.remainder < total) es
    → left * total ≤ remainders es
    → All (λ e. 0 < e.remainder) (take left es)
first_positive zero total m es p f h s = tt
first_positive (suc k) total m [] p f h s = tt
first_positive (suc k) total m (e ∷ es) p f h s =
    (head e.remainder refl, first_positive k total e.remainder es p f.1 h.1 (grind arith))
  where
    head : (r : ℕ) → e.remainder ≡ r → 0 < e.remainder
    head zero z = absurd (grind (arith, Falling-zero es (rw z at f.1)))
    head (suc r) z = omega arith

pub remainders-lt-length :
    (total : ℕ) (es : List Entry)
    → All (λ e. e.remainder < total) es
    → remainders es ≤ length es * total
remainders-lt-length total [] h = omega arith
remainders-lt-length total (e ∷ es) h = grind (arith, remainders-lt-length total es h.1)
