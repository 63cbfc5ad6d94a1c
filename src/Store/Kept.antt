-- ===== src/Store/Kept.antt =====
-- What an operation keeps of the store, whether or not it goes through: the rules by which a
-- property of the store passes through the steps of a `do` block.
use restaurant_pos.Base.{◌≡◌, refl}
use restaurant_pos.Base.Result.{Result, ok, err}
use restaurant_pos.Store.{M, Store, lift, modify, ◌>>=◌, ◌>>◌}

module _ (P : Store → Type 0) where
  unfoldable pub Keeps : {A : Type 0} → M A → Type 0
  Keeps m = (s : Store) → P s → P (m s).1

  pub Keeps-read : {A : Type 0} (r : Store → Result A) → Keeps (λ s. lift (r s) s)
  unfolding Keeps
  Keeps-read r s h = h

  pub Keeps-bind :
      {A B : Type 0} (m : M A) (f : A → M B) → Keeps m → ((a : A) → Keeps (f a)) → Keeps (m >>= f)
  unfolding Keeps
  Keeps-bind {A = A} {B = B} m f k l s h = go (m s) (k s h)
    where
      go :
          (r : Result A × Store)
          → P r.1
          → (let next : Result B × Store = elim r.0 [ ok a ↦ f a r.1 | err e ↦ (err e, r.1) ] in
              P next.1)
      go (ok a, t) p = l a t p
      go (err e, t) p = p

  pub Keeps-then : {A B : Type 0} (m : M A) (k : M B) → Keeps m → Keeps k → Keeps (m >> k)
  Keeps-then m k a b = Keeps-bind m (λ _. k) a (λ _. b)

  -- A step that only computes: what follows may use what was computed.
  pub Keeps-lift :
      {A B : Type 0} (r : Result A) (f : A → M B)
      → ((a : A) → r ≡ ok a → Keeps (f a))
      → Keeps (lift r >>= f)
  unfolding Keeps
  Keeps-lift (ok a) f k s h = k a refl s h
  Keeps-lift (err e) f k s h = h

  pub Keeps-modify : (f : Store → Store) → ((s : Store) → P s → P (f s)) → Keeps (modify f)
  unfolding Keeps
  Keeps-modify f k s h = k s h
