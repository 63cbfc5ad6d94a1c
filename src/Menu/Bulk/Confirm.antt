-- ===== src/Menu/Bulk/Confirm.antt =====
-- `previewBulkImport` and `confirmBulkImport` of backend/menu/bulkImport/service.ts: what was imported
-- is put back when a row fails.
use restaurant_pos.Base.{ℕ, ◌+◌, not, Option, none, some, List, [], ◌∷◌, ltb, if◌then◌else◌}
use restaurant_pos.Base.Int.{ℤ}
use restaurant_pos.Base.Text.{Text}
use restaurant_pos.Base.Table.{Table, get, put, remove}
use restaurant_pos.Base.Result.{Result, ok, err, token_invalid, token_not_owned}
use restaurant_pos.Store.{Store}
use restaurant_pos.Auth.Policy.{User}
use restaurant_pos.Settings.Types.{Settings}
use restaurant_pos.Settings.Normalize.{Locale}
use restaurant_pos.Settings.Whole.{settings_input}
use restaurant_pos.Settings.Stations.{update_pos_operational_settings}
use restaurant_pos.Menu.Types.{Source}
use restaurant_pos.Menu.Bulk.Validator.{SourceRow, Checked, validate_bulk_upload_rows}
use restaurant_pos.Menu.Bulk.Categories.{TokenRecord, Imported, token_ttl, owns}
use restaurant_pos.Menu.Bulk.Import.{import_rows}

module _ (lower : Text → Text) where
  module _ (sku_of : ℕ → Text) where
    abbrev or_current : Settings → Result Settings → Settings
    or_current s (ok t) = t
    or_current s (err e) = s

    -- What the `catch` of `importRows` puts back into the state that the import left: the snapshot of the
    -- menu, and the earlier settings as an update of those in force
    unfoldable pub restored : Locale → Imported → Imported → Imported
    unfolding update_pos_operational_settings
    restored l before failed = record failed {
      menu = before.menu;
      settings =
          or_current failed.settings
            (update_pos_operational_settings l (settings_input before.settings) failed.settings);
    }

    -- `confirmBulkImport`: the token is spent whatever follows.
    unfoldable pub confirm_bulk_import :
        Locale
        → User
        → ℕ
        → ℕ
        → Source
        → ℕ
        → Table TokenRecord
        → Imported
        → Store
        → Result (Unit {0}) × Table TokenRecord × Imported × Store
    unfolding import_rows restored
    confirm_bulk_import l user token branch source now tokens s st =
        let left = remove tokens token in
        elim (get tokens token) [
          | none ↦ (err token_invalid, left, s, st)
          | some r ↦
              if ltb r.expires_at now
              then (err token_invalid, left, s, st)
              else if not (owns user branch source r)
              then (err token_not_owned, left, s, st)
              else (let (result, s1, after) = import_rows lower sku_of l user r now s st in
                  elim result [
                    | ok _ ↦ (ok tt, left, s1, after)
                    | err e ↦ (err e, left, restored l s s1, after)
                  ])
        ]

-- The token of a preview: one is given out only for a workbook without errors.
unfoldable pub preview_bulk_import :
    (Text → Text)
    → (Text → Option ℤ)
    → User
    → ℕ
    → Source
    → List SourceRow
    → ℕ
    → ℕ
    → Table TokenRecord
    → Checked × Table TokenRecord
unfolding validate_bulk_upload_rows
preview_bulk_import lower number_of_text user branch source rows token now tokens =
    let checked = validate_bulk_upload_rows lower number_of_text rows in
    elim checked.errors [
      | _ ∷ _ ↦ (checked, tokens)
      | [] ↦ (
        checked,
        put tokens token (record {
          source = source;
          user = user.id;
          branch = branch;
          rows = checked.rows;
          expires_at = now + token_ttl;
        }),
      )
    ]
