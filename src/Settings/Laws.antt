-- ===== src/Settings/Laws.antt =====
-- What holds of settings that were updated: their printers, and what is printed where.
use restaurant_pos.Base.{All, false, ◌||◌, ◌≤◌, ◌≡◌, true, some, List, is_some}
use restaurant_pos.Base.Text.{Text}
use restaurant_pos.Settings.Types.{Dict, Printer, Settings}
use restaurant_pos.Settings.Normalize.{lookup}
use restaurant_pos.Settings.Inherited.{is_inherited}

-- A port that exists, and one to ten copies
pub IsUsable : Printer → Type 0
IsUsable x = (1 ≤ x.network_port) × (x.network_port ≤ 65535) × (1 ≤ x.copies) × (x.copies ≤ 10)

abbrev pub AllUsable : Dict Printer → Type 0
AllUsable d = (k : Text) (x : Printer) → lookup d k ≡ some x → IsUsable x

-- Each name that is assigned is that of a printer, or one that every object inherits.
abbrev pub AllAssigned : Dict Printer → Dict Text → Type 0
AllAssigned printers d =
    (operation name : Text)
    → lookup d operation ≡ some name
    → (is_some (lookup printers name) || is_inherited name) ≡ true

-- No key is a name that every object inherits.
abbrev pub NoneInherited : List Text → Type 0
NoneInherited = All (λ k. is_inherited k ≡ false)
