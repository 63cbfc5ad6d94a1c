-- ===== src/Menu/Bulk/Validator.antt =====
-- `validateBulkUploadRows` of backend/menu/bulkImport/validator.ts. `toLocaleLowerCase` and `Number`
-- on a text are parameters; `Number` gives tenths of a cent, or `none` for what is not finite.
use restaurant_pos.Base.{
  ℕ, Bool, true, false, not, ◌&&◌, ◌||◌, Option, none, some, List, [], ◌∷◌, ◌++◌, leb,
  if◌then◌else◌, some_of,
}
use restaurant_pos.Base.Int.{ℤ, pos, negsuc, pos_part}
use restaurant_pos.Base.Text.{Text, trim, same_text, is_blank_text}
use restaurant_pos.Menu.Price.{price_max, has_two_places}

-- The price cell of a row; the other cells are the texts that `String(value ?? '')` gives.
pub data PriceCell : Type 0 where
  no_price : PriceCell
  price_text : Text → PriceCell
  price_number : ℤ → PriceCell

pub record SourceRow : Type 0 where
  pub row_number : ℕ
  pub name : Text
  pub category : Text
  pub station : Text
  pub price : PriceCell

-- `BulkImportRow`; the price is in tenths of a cent.
pub record ImportRow : Type 0 where
  pub row_number : ℕ
  pub name : Text
  pub category : Text
  pub station : Text
  pub price : ℕ

pub data Field : Type 0 where
  name_field category_field station_field price_field : Field

-- `BulkImportValidationError`, without the value and the text of the message
pub record RowError : Type 0 where
  pub row_number : ℕ
  pub field : Field

abbrev pub is_missing : PriceCell → Bool
is_missing no_price = true
is_missing (price_text t) = is_blank_text (trim t)
is_missing (price_number z) = false

-- The price is not negative, at most 999999.99 and has two decimal places.
unfoldable pub is_valid_price : ℤ → Bool
unfolding has_two_places
is_valid_price (negsuc n) = false
is_valid_price (pos n) = leb n price_max && has_two_places n

abbrev pub valid_option : Option ℤ → Bool
valid_option none = false
valid_option (some z) = is_valid_price z

abbrev pub cents_of : Option ℤ → ℕ
cents_of none = 0
cents_of (some z) = pos_part z

abbrev pub error_if : Bool → ℕ → Field → List RowError
error_if true row field = record { row_number = row; field = field } ∷ []
error_if false row field = []

-- The rows that were taken, the errors, and the identities of the rows taken
pub record Checked : Type 0 where
  pub rows : List ImportRow
  pub errors : List RowError
  pub identities : List Text

-- The category and the name with a zero between them
abbrev pub identity_of : (Text → Text) → Text → Text → Text
identity_of lower category name = lower category ++ (0 ∷ lower name)

module _ (lower : Text → Text) (number_of_text : Text → Option ℤ) where
  abbrev pub price_of : PriceCell → Option ℤ
  price_of no_price = none
  price_of (price_text t) = number_of_text (trim t)
  price_of (price_number z) = some z

  -- The row as it is taken
  unfoldable pub row_of : SourceRow → ImportRow
  unfolding trim
  row_of r = record {
    row_number = r.row_number;
    name = trim r.name;
    category = trim r.category;
    station = trim r.station;
    price = cents_of (price_of r.price);
  }

  abbrev pub is_named_row : ImportRow → Bool
  is_named_row q = not (is_blank_text q.name) && not (is_blank_text q.category)

  -- Whether a row before had the category and the name
  abbrev pub is_seen : List Text → ImportRow → Bool
  is_seen ids q = some_of (same_text (identity_of lower q.category q.name)) ids

  unfoldable pub is_taken : SourceRow → List Text → Bool
  unfolding row_of is_valid_price
  is_taken r ids =
      let q = row_of r in
      is_named_row q
      && (not (is_blank_text q.station) && (not (is_seen ids q) && valid_option (price_of r.price)))

  unfoldable pub errors_of : SourceRow → List Text → List RowError
  unfolding row_of is_valid_price trim
  errors_of r ids =
      let q = row_of r in
      error_if (is_blank_text q.name) r.row_number name_field
      ++ (error_if (is_blank_text q.category) r.row_number category_field
          ++ (error_if (is_blank_text q.station) r.row_number station_field
              ++ (error_if (is_missing r.price || not (valid_option (price_of r.price)))
                    r.row_number price_field
                  ++ error_if (is_named_row q && is_seen ids q) r.row_number name_field)))

  unfoldable pub check_row : SourceRow → Checked → Checked
  unfolding row_of is_taken errors_of
  check_row r c =
      let errors = c.errors ++ errors_of r c.identities in
      let q = row_of r in
      if is_taken r c.identities
      then record {
        rows = c.rows ++ (q ∷ []);
        errors = errors;
        identities = identity_of lower q.category q.name ∷ c.identities;
      }
      else record c { errors = errors }

  unfoldable pub check_rows : List SourceRow → Checked → Checked
  unfolding check_row
  check_rows [] c = c
  check_rows (r ∷ rs) c = check_rows rs (check_row r c)

  unfoldable pub validate_bulk_upload_rows : List SourceRow → Checked
  unfolding check_rows
  validate_bulk_upload_rows rs = check_rows rs (record { rows = []; errors = []; identities = [] })
