-- ===== src/Money/Allocate.antt =====
-- `allocateAmount` of backend/billing/service.ts: a total split over bases by largest remainder.
-- The quotients are exact here, where the source adds 1e-9 to a float before it takes the floor.
pub mod Order
pub mod Conserve
pub mod Bound
use restaurant_pos.Base.{
  ℕ, zero, suc, ◌+◌, ◌-◌, ◌*◌, ◌/◌, ◌%◌, Bool, ◌&&◌, ◌||◌, List, [], ◌∷◌, map, ltb, ◌==◌,
  if◌then◌else◌, sum, length,
}

-- An element of `priority`: the remainder is the numerator over the sum of the bases.
pub record Entry : Type 0 where
  pub index : ℕ
  pub remainder : ℕ

no_entry : Entry
no_entry = record { index = 0; remainder = 0 }

-- `b.remainder - a.remainder || a.index - b.index` is negative.
pub before : Entry → Entry → Bool
before a b = ltb b.remainder a.remainder || (a.remainder == b.remainder && ltb a.index b.index)

pub insert : Entry → List Entry → List Entry
insert e [] = e ∷ []
insert e (x ∷ xs) = if before e x then e ∷ x ∷ xs else x ∷ insert e xs

pub sort : List Entry → List Entry
unfolding insert
sort [] = []
sort (e ∷ es) = insert e (sort es)

pub floors : ℕ → ℕ → List ℕ → List ℕ
floors cents total [] = []
floors cents total (b ∷ bs) = cents * b / total ∷ floors cents total bs

pub entries : ℕ → ℕ → ℕ → List ℕ → List Entry
entries cents total i [] = []
entries cents total i (b ∷ bs) =
    record { index = i; remainder = cents * b % total } ∷ entries cents total (i + 1) bs

-- `allocated[i]++`
pub bump : List ℕ → ℕ → List ℕ
bump [] i = []
bump (x ∷ xs) zero = suc x ∷ xs
bump (x ∷ xs) (suc i) = x ∷ bump xs i

pub entry_at : List Entry → ℕ → Entry
unfolding no_entry
entry_at [] i = no_entry
entry_at (e ∷ es) zero = e
entry_at (e ∷ es) (suc i) = entry_at es i

-- The loop over `i`, with the rounds that are left.
pub hand_out : List Entry → ℕ → ℕ → List ℕ → List ℕ
hand_out priority i zero allocated = allocated
hand_out priority i (suc left) allocated =
    hand_out priority (i + 1) left (bump allocated (entry_at priority (i % length priority)).index)

unfoldable pub allocate_amount : ℕ → List ℕ → List ℕ
unfolding floors entries bump entry_at hand_out sort before
allocate_amount cents bases =
    let total = sum bases in
    let allocated = floors cents total bases in
    if cents == 0 || total == 0
    then map (λ _. 0) bases
    else hand_out (sort (entries cents total 0 bases)) 0 (cents - sum allocated) allocated
