-- ===== src/Menu/Bulk/Categories.antt =====
-- The rows that an import has taken in, and the categories that it makes for them: `TokenRecord`,
-- `uniqueInOrder` and the first part of `importRows` of backend/menu/bulkImport/service.ts.
use restaurant_pos.Base.{
  ℕ, suc, Bool, true, false, ◌&&◌, none, some, List, [], ◌∷◌, ◌==◌, if◌then◌else◌, some_of, select,
  map,
}
use restaurant_pos.Base.Int.{ℤ, pos, ◌+ℤ◌, ltb_ℤ}
use restaurant_pos.Base.Text.{Text, trim, same_text}
use restaurant_pos.Base.Result.{Result, ok, err}
use restaurant_pos.Auth.Policy.{User}
use restaurant_pos.Settings.Types.{Settings}
use restaurant_pos.Settings.Normalize.{lookup, assign}
use restaurant_pos.Settings.Types.{Dict}
use restaurant_pos.Menu.Types.{
  Menu, Category, Context, Source, local_pos, cloud_manager, CategoryInput,
}
use restaurant_pos.Menu.Repository.{list_categories}
use restaurant_pos.Menu.Admin.{admin_create_category}
use restaurant_pos.Menu.Bulk.Validator.{ImportRow}

-- `TokenRecord`
pub record TokenRecord : Type 0 where
  pub source : Source
  pub user : ℕ
  pub branch : ℕ
  pub rows : List ImportRow
  pub expires_at : ℕ

-- `TOKEN_TTL_MS`
abbrev pub token_ttl : ℕ
token_ttl = 600_000

-- The state that the import works on, with the number of the next fresh id
pub record Imported : Type 0 where
  pub menu : Menu
  pub settings : Settings
  pub next_id : ℕ

abbrev same_source : Source → Source → Bool
same_source local_pos local_pos = true
same_source cloud_manager cloud_manager = true
same_source _ _ = false

abbrev pub owns : User → ℕ → Source → TokenRecord → Bool
owns user branch source r = r.user == user.id && (r.branch == branch && same_source r.source source)

module _ (lower : Text → Text) where
  -- `normalized`
  abbrev pub normalized : Text → Text
  normalized t = lower (trim t)

  -- `uniqueInOrder`
  unfoldable pub unique_in_order : List Text → List Text → List Text
  unfolding trim
  unique_in_order seen [] = []
  unique_in_order seen (t ∷ ts) =
      let later = unique_in_order (normalized t ∷ seen) ts in
      let same = unique_in_order seen ts in
      if some_of (same_text (normalized t)) seen then same else t ∷ later

  -- `new Map(rows.map((row) => [normalized(row.name), row]))`
  unfoldable pub by_name : List Category → Dict Category → Dict Category
  unfolding assign trim
  by_name [] d = d
  by_name (c ∷ cs) d = by_name cs (assign d (normalized c.name) c)

  abbrev pub greatest : List Category → ℤ → ℤ
  greatest [] z = z
  greatest (c ∷ cs) z = greatest cs (if ltb_ℤ z c.sort_order then c.sort_order else z)

  abbrev pub new_category : ℕ → Text → ℤ → CategoryInput
  new_category branch name order = record {
    branch = some branch;
    name = name;
    sort_order = some order;
    is_active = some true;
  }

  -- The categories that the rows name and the branch has not; a category that fails leaves the ones
  -- before it in the menu.
  unfoldable pub create_categories :
      Context → ℕ → ℕ → List Text → ℤ → Dict Category → Imported → Result (Dict Category) × Imported
  unfolding lookup assign admin_create_category trim
  create_categories x branch now [] order known s = (ok known, s)
  create_categories x branch now (name ∷ names) order known s =
      let next = order +ℤ pos 1 in
      elim (lookup known (normalized name)) [
        | some c ↦ create_categories x branch now names order known s
        | none ↦
            elim (admin_create_category lower x (new_category branch name next) branch s.next_id now
              s.menu) [
                | err e ↦ (err e, s)
                | ok made ↦
                    create_categories x branch now names next
                      (assign known (normalized name) made.0)
                      (record s { menu = made.1; next_id = suc s.next_id })
              ]
      ]

  unfoldable pub import_categories :
      Context → TokenRecord → ℕ → Imported → Result (Dict Category) × Imported
  unfolding list_categories by_name create_categories unique_in_order
  import_categories x r now s =
      let rows = select (λ c. c.branch == r.branch) (list_categories s.menu) in
      create_categories x r.branch now (unique_in_order [] (map (λ q. q.category) r.rows))
        (greatest rows (pos 0)) (by_name (select (λ c. c.is_active) rows) []) s
