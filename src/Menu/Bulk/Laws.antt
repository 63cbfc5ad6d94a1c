-- ===== src/Menu/Bulk/Laws.antt =====
-- What a bulk import promises: rows that are apart and priced, and tokens that are spent once.
use restaurant_pos.Base.{
  ℕ, ltb, ◌≡◌, ◌≢◌, ◌∙◌, ap, subst, inl, inr, true, false, Option, none, List, [], ◌∷◌, ◌++◌, All,
  All-append, All-weaken, some_of, arith, Bool-cases, Option-cases,
}
use restaurant_pos.Base.Int.{ℤ, pos}
use restaurant_pos.Base.Text.{Text, same_text, same_text_refl}
use restaurant_pos.Base.Table.{Table, IsMap, get, remove, remove-gone}
use restaurant_pos.Base.Result.{Result-cases, err, token_invalid}
use restaurant_pos.Store.{Store}
use restaurant_pos.Auth.Policy.{User}
use restaurant_pos.Settings.Normalize.{Locale}
use restaurant_pos.Menu.Types.{Source}
use restaurant_pos.Menu.Bulk.Validator.{
  SourceRow, ImportRow, Checked, check_row, check_rows, validate_bulk_upload_rows, identity_of,
  is_valid_price, is_taken, row_of, price_of,
}
use restaurant_pos.Menu.Bulk.Categories.{TokenRecord, Imported, owns}
use restaurant_pos.Menu.Bulk.Import.{import_rows}
use restaurant_pos.Menu.Bulk.Confirm.{confirm_bulk_import}

module _ (lower : Text → Text) (number_of_text : Text → Option ℤ) where
  abbrev identity : ImportRow → Text
  identity r = identity_of lower r.category r.name

  -- No two rows have the same category and name, but for case.
  pub Apart : List ImportRow → Type 0
  Apart [] = Unit
  Apart (r ∷ rs) = All (λ q. identity q ≢ identity r) rs × Apart rs

  abbrev Known : List Text → ImportRow → Type 0
  Known ids q = some_of (same_text (identity q)) ids ≡ true

  pub Priced : ImportRow → Type 0
  Priced r = is_valid_price (pos r.price) ≡ true

  record Sound (c : Checked) : Type 0 where
    apart : Apart c.rows
    known : All (Known c.identities) c.rows
    priced : All Priced c.rows

  Apart-append :
      (rs : List ImportRow) (r : ImportRow)
      → Apart rs
      → All (λ q. identity r ≢ identity q) rs
      → Apart (rs ++ (r ∷ []))
  unfolding Apart
  Apart-append [] r h k = (tt, tt)
  Apart-append (q ∷ qs) r h k = (
    All-append (λ z. identity z ≢ identity q) qs (r ∷ []) h.0 (k.0, tt),
    Apart-append qs r h.1 k.1,
  )

  unseen :
      (ids : List Text) (r q : ImportRow)
      → some_of (same_text (identity r)) ids ≡ false
      → Known ids q
      → identity r ≢ identity q
  unseen ids r q f h e = ground (arith, subst (λ t. some_of (same_text t) ids ≡ false) e f)

  -- What a row that is taken says of itself
  taken_facts :
      (r : SourceRow) (ids : List Text)
      → is_taken lower number_of_text r ids ≡ true
      → (some_of (same_text (identity (row_of lower number_of_text r))) ids ≡ false)
        × Priced (row_of lower number_of_text r)
  unfolding is_taken row_of is_valid_price Priced
  taken_facts r ids h = elim (Option-cases (price_of lower number_of_text r.price)) [
    | inl e ↦ ground arith
    | inr (z, e) ↦ elim (Bool-cases (is_valid_price z)) [
      | inr f ↦ ground arith
      | inl v ↦ (ground arith, ground arith)
    ]
  ]

  check_row-Sound :
      (r : SourceRow) (c : Checked) → Sound c → Sound (check_row lower number_of_text r c)
  unfolding check_row
  check_row-Sound r c h = elim (Bool-cases (is_taken lower number_of_text r c.identities)) [
    | inr f ↦
        let rows : c.rows ≡ (check_row lower number_of_text r c).rows = ground arith in
        let ids : c.identities ≡ (check_row lower number_of_text r c).identities = ground arith in
        record {
          apart = subst Apart rows h.apart;
          known =
              subst (λ qs. All (Known (check_row lower number_of_text r c).identities) qs) rows
                (subst (λ z. All (Known z) c.rows) ids h.known);
          priced = subst (All Priced) rows h.priced;
        }
    | inl t ↦
        let q = row_of lower number_of_text r in
        let (new, price) = taken_facts r c.identities t in
        let rows : c.rows ++ (q ∷ []) ≡ (check_row lower number_of_text r c).rows = ground arith in
        let ids : identity q ∷ c.identities ≡ (check_row lower number_of_text r c).identities =
          ground arith in
        let other =
          All-weaken (Known c.identities) (λ z. identity q ≢ identity z) c.rows
            (λ z k. unseen c.identities q z new k) h.known in
        let older =
          All-weaken (Known c.identities) (Known (identity q ∷ c.identities)) c.rows
            (λ z k. ground arith) h.known in
        let here : Known (identity q ∷ c.identities) q =
          ground (arith, same_text_refl (identity q)) in
        record {
          apart = subst Apart rows (Apart-append c.rows q h.apart other);
          known =
              subst (λ qs. All (Known (check_row lower number_of_text r c).identities) qs) rows
                (subst (λ z. All (Known z) (c.rows ++ (q ∷ []))) ids
                  (All-append (Known (identity q ∷ c.identities)) c.rows (q ∷ []) older
                    (here, tt)));
          priced = subst (All Priced) rows (All-append Priced c.rows (q ∷ []) h.priced (price, tt));
        }
  ]

  check_rows-Sound :
      (rs : List SourceRow) (c : Checked) → Sound c → Sound (check_rows lower number_of_text rs c)
  unfolding check_rows
  check_rows-Sound [] c h = h
  check_rows-Sound (r ∷ rs) c h = check_rows-Sound rs _ (check_row-Sound r c h)

  -- Whatever the workbook holds, no two rows that are taken have the same category and name but for
  -- case, and each has a price that a menu item may have.
  pub validate_bulk_upload_rows-Apart :
      (rs : List SourceRow)
      → Apart (validate_bulk_upload_rows lower number_of_text rs).rows
        × All Priced (validate_bulk_upload_rows lower number_of_text rs).rows
  unfolding validate_bulk_upload_rows Apart
  validate_bulk_upload_rows-Apart rs =
      let s =
        check_rows-Sound rs (record { rows = []; errors = []; identities = [] })
          (record { apart = tt; known = tt; priced = tt }) in
      (s.apart, s.priced)

module _ (lower : Text → Text) (sku_of : ℕ → Text) (l : Locale) where
  spent :
      (user : User) (token branch now : ℕ) (source : Source) (tokens : Table TokenRecord)
      (s : Imported) (st : Store)
      → (confirm_bulk_import lower sku_of l user token branch source now tokens s st).1
        ≡ remove tokens token
  unfolding confirm_bulk_import
  spent user token branch now source tokens s st = elim (Option-cases (get tokens token)) [
    | inl e ↦ ground arith
    | inr (r, e) ↦ elim (Bool-cases (ltb r.expires_at now)) [
      | inl t ↦ ground arith
      | inr f ↦ elim (Bool-cases (owns user branch source r)) [
        | inr f ↦ ground arith
        | inl o ↦ elim (Result-cases (import_rows lower sku_of l user r now s st).0) [
          | inl (z, e1) ↦ ground arith
          | inr (z, e1) ↦ ground arith
        ]
      ]
    ]
  ]

  unknown :
      (user : User) (token branch now : ℕ) (source : Source) (tokens : Table TokenRecord)
      (s : Imported) (st : Store)
      → get tokens token ≡ none
      → (confirm_bulk_import lower sku_of l user token branch source now tokens s st).0
          ≡ err token_invalid
        × (confirm_bulk_import lower sku_of l user token branch source now tokens s st).2 ≡ s
        × (confirm_bulk_import lower sku_of l user token branch source now tokens s st).3 ≡ st
  unfolding confirm_bulk_import
  unknown user token branch now source tokens s st e = (ground arith, ground arith, ground arith)

  -- A preview token is spent by its first confirmation, whatever that comes to: a second one, by
  -- whomever, is refused and changes neither the menu, the settings nor the store, where no token has
  -- two records.
  pub confirm_bulk_import_once :
      (user other : User) (token branch again now later : ℕ) (source elsewhere : Source)
      (tokens : Table TokenRecord) (s : Imported) (st : Store)
      → IsMap tokens
      → let (_, left, s1, st1) =
          confirm_bulk_import lower sku_of l user token branch source now tokens s st in
        ((confirm_bulk_import lower sku_of l other token again elsewhere later left s1 st1).0
          ≡ err token_invalid)
        × ((confirm_bulk_import lower sku_of l other token again elsewhere later left s1 st1).2
            ≡ s1)
        × ((confirm_bulk_import lower sku_of l other token again elsewhere later left s1 st1).3
            ≡ st1)
  confirm_bulk_import_once user other token branch again now later source elsewhere tokens s st
        proper =
      let r = confirm_bulk_import lower sku_of l user token branch source now tokens s st in
      unknown other token again later elsewhere r.1 r.2 r.3 (
        ap (λ t. get t token) (spent user token branch now source tokens s st)
        ∙ remove-gone tokens token proper)
