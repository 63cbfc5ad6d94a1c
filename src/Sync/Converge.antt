-- ===== src/Sync/Converge.antt =====
-- Both sides end with the same version, in whatever order they were sent what there is.
use restaurant_pos.Base.{
  ◌≡◌, refl, sym, ◌∙◌, ap, subst, inl, inr, Bool, true, false, Option, none, some, List, [], ◌∷◌,
  All, is_some, if◌then◌else◌, arith, Bool-cases, Option-cases,
}
use restaurant_pos.Base.Text.{Text, same_text, same_text-eq}
use restaurant_pos.Sync.Versions.{
  Version, compare_menu_versions, receive, receive_all, apply_menu_version, outcome_of,
}
use restaurant_pos.Sync.Order.{after, after_irrefl, after_trans, after-eq, after_lem, receive_known}

-- The versions of one record: each has an instant, and is what its canonical text says.
module _ (version_of : Text → Version) where
  unfoldable pub IsVersion : Version → Type 0
  IsVersion x = (is_some x.at ≡ true) × (version_of x.state ≡ x)

  abbrev OfVersions : Option Version → Type 0
  OfVersions none = Unit
  OfVersions (some x) = IsVersion x

  same_state : (x y : Version) → IsVersion x → IsVersion y → x.state ≡ y.state → x ≡ y
  unfolding IsVersion
  same_state x y h k e = sym h.1 ∙ (ap version_of e ∙ k.1)

  -- The version that comes last is stored.
  receive-some :
      (x y : Version)
      → IsVersion x
      → IsVersion y
      → receive x (some y) ≡ some (if after x y then x else y)
  unfolding IsVersion
  receive-some x y h k = elim (Option-cases x.at) [
    | inl e ↦ absurd (ground (arith, h.0))
    | inr (i, e) ↦ elim (Option-cases y.at) [
      | inl e1 ↦ absurd (ground (arith, k.0))
      | inr (j, e1) ↦ elim (Bool-cases (same_text x.state y.state)) [
        | inl s ↦
            let same : x ≡ y = same_state x y h k (same_text-eq x.state y.state s) in
            let idle = after_irrefl x in
            let chosen : some (if after x x then x else x) ≡ some x = ground arith in
            subst (λ z. receive x (some z) ≡ some (if after x z then x else z)) same
              (receive_known x i e ∙ sym chosen)
        | inr d ↦ after_lem x y i j e e1 d
      ]
    ]
  ]

  last-IsVersion :
      (x y : Version) → IsVersion x → IsVersion y → IsVersion (if after x y then x else y)
  last-IsVersion x y h k = pick (after x y)
    where
      pick : (b : Bool) → IsVersion (if b then x else y)
      pick true = h
      pick false = k

  abbrev last : Version → Version → Version
  last x y = if after x y then x else y

  -- The last of three does not depend on the order of two.
  last-swap :
      (x y z : Version)
      → IsVersion x
      → IsVersion y
      → IsVersion z
      → last x (last y z) ≡ last y (last x z)
  last-swap x y z h k l =
      let xy = after_trans x y z in
      let yx = after_trans y x z in
      let xzy = after_trans x z y in
      let yzx = after_trans y z x in
      let xyx = after_trans x y x in
      let idle = after_irrefl x in
      elim (Bool-cases (after x y)) [
        | inl a ↦ ground arith
        | inr a ↦ elim (Bool-cases (after y x)) [
          | inl b ↦ ground arith
          | inr b ↦ let same = same_state x y h k (after-eq x y a b) in ground arith
        ]
      ]

  last_comm : (x y : Version) → IsVersion x → IsVersion y → last x y ≡ last y x
  last_comm x y h k =
      let xyx = after_trans x y x in
      let idle = after_irrefl x in
      elim (Bool-cases (after x y)) [
        | inl a ↦ ground arith
        | inr a ↦ elim (Bool-cases (after y x)) [
          | inl b ↦ ground arith
          | inr b ↦ let same = same_state x y h k (after-eq x y a b) in ground arith
        ]
      ]

  receive-none : (x : Version) → receive x none ≡ some x
  unfolding receive apply_menu_version compare_menu_versions outcome_of
  receive-none x = refl

  receive-swap :
      (x y : Version) (old : Option Version)
      → IsVersion x
      → IsVersion y
      → OfVersions old
      → receive x (receive y old) ≡ receive y (receive x old)
  receive-swap x y none h k l =
      ap (receive x) (receive-none y)
      ∙ (receive-some x y h k
          ∙ (ap some (last_comm x y h k)
              ∙ (sym (receive-some y x k h) ∙ sym (ap (receive y) (receive-none x)))))
  receive-swap x y (some z) h k l =
      ap (receive x) (receive-some y z k l)
      ∙ (receive-some x (last y z) h (last-IsVersion y z k l)
          ∙ (ap some (last-swap x y z h k l)
              ∙ (sym (receive-some y (last x z) k (last-IsVersion x z h l))
                  ∙ sym (ap (receive y) (receive-some x z h l)))))

  receive-OfVersions :
      (x : Version) (old : Option Version)
      → IsVersion x
      → OfVersions old
      → OfVersions (receive x old)
  receive-OfVersions x none h l = subst OfVersions (sym (receive-none x)) h
  receive-OfVersions x (some z) h l =
      subst OfVersions (sym (receive-some x z h l)) (last-IsVersion x z h l)

  -- The same versions in another order
  pub data Reordered : List Version → List Version → Type 0 where
    done : Reordered [] []
    keep : (x : Version) {xs ys : List Version} → Reordered xs ys → Reordered (x ∷ xs) (x ∷ ys)
    swap : (x y : Version) (xs : List Version) → Reordered (x ∷ y ∷ xs) (y ∷ x ∷ xs)
    both : {xs ys zs : List Version} → Reordered xs ys → Reordered ys zs → Reordered xs zs

  All-reordered : {xs ys : List Version} → Reordered xs ys → All IsVersion xs → All IsVersion ys
  All-reordered done h = h
  All-reordered (keep x r) h = (h.0, All-reordered r h.1)
  All-reordered (swap x y xs) h = (h.1.0, (h.0, h.1.1))
  All-reordered (both r q) h = All-reordered q (All-reordered r h)

  -- Two sides that start from the same version of a record, and are sent the same versions in
  -- whatever orders, store the same version in the end, where each version has an instant and is
  -- what its canonical text says.
  pub receive_all-reordered :
      (xs ys : List Version) (old : Option Version)
      → Reordered xs ys
      → All IsVersion xs
      → OfVersions old
      → receive_all xs old ≡ receive_all ys old
  unfolding receive_all
  receive_all-reordered xs ys old r h l = go r old h l
    where
      go :
          {xs ys : List Version}
          → Reordered xs ys
          → (old : Option Version) → All IsVersion xs
          → OfVersions old
          → receive_all xs old ≡ receive_all ys old
      go done old h l = refl
      go (keep x r) old h l = go r (receive x old) h.1 (receive-OfVersions x old h.0 l)
      go (swap x y xs) old h l = ap (receive_all xs) (receive-swap y x old h.1.0 h.0 l)
      go (both r q) old h l = go r old h l ∙ go q old (All-reordered r h) l

  -- A version that is delivered twice counts once.
  pub receive-again :
      (x : Version) (old : Option Version)
      → IsVersion x
      → OfVersions old
      → receive x (receive x old) ≡ receive x old
  receive-again x none h l =
      ap (receive x) (receive-none x)
      ∙ (receive-some x x h h ∙ (ap some (ground (arith, after_irrefl x)) ∙ sym (receive-none x)))
  receive-again x (some z) h l =
      let xzx = after_trans x z x in
      let idle = after_irrefl x in
      ap (receive x) (receive-some x z h l)
      ∙ (receive-some x (last x z) h (last-IsVersion x z h l)
          ∙ (ap some (ground arith) ∙ sym (receive-some x z h l)))
