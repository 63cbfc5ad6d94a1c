-- ===== src/Settings/Normalize.antt =====
-- How backend/config/posSettings.ts makes settings of an input and the settings in force. The
-- printer that the environment configures for a station is a parameter, as is
-- the order that `localeCompare` puts names in.
use restaurant_pos.Base.{
  ℕ, ◌+◌, ◌/◌, Bool, ◌&&◌, Option, none, some, List, [], ◌∷◌, leb, if◌then◌else◌,
}
use restaurant_pos.Base.Int.{ℤ, pos, negsuc}
use restaurant_pos.Base.Text.{Text, trim, same_text, is_blank_text}
use restaurant_pos.Base.Result.{Result, ok, err, and_then, check, rate_out_of_range}
use restaurant_pos.Settings.Types.{
  Printer, PrinterInput, NumberInput, absent, not_integer, integer, Dict, Tax,
}

-- What the code takes from the environment and the locale.
pub record Locale : Type 0 where
  pub default_printer : Text → Text → Printer
  pub receipt_printer : Printer
  pub name_before : Text → Text → Bool

abbrev pub receipt : Text
receipt = 114 ∷ 101 ∷ 99 ∷ 101 ∷ 105 ∷ 112 ∷ 116 ∷ []

abbrev pub given {ℓ} : {A : Type ℓ} → Option A → A → A
given none d = d
given (some a) d = a

abbrev pub first_of {ℓ} : {A : Type ℓ} → Option A → Option A → Option A
first_of none b = b
first_of (some a) b = some a

-- `String(x ?? '')`
abbrev pub text_of : Option Text → Text
text_of o = given o []

abbrev pub non_blank : Text → Option Text
non_blank t = if is_blank_text t then none else some t

unfoldable pub clean_text : Option Text → Text → Text
unfolding trim
clean_text value fallback = given (non_blank (trim (text_of value))) fallback

unfoldable pub optional_text : Option Text → Option Text → Option Text
unfolding trim
optional_text value fallback = non_blank (trim (text_of (first_of value fallback)))

-- `Math.round(rate * 100) / 100` on ten-thousandths
abbrev pub to_hundredths : ℕ → ℕ
to_hundredths n = (n + 50) / 100

unfoldable pub normalize_service_charge : Option ℤ → ℕ → Result ℕ
normalize_service_charge none fallback = ok fallback
normalize_service_charge (some (negsuc n)) fallback = err rate_out_of_range
normalize_service_charge (some (pos n)) fallback =
    and_then (check (leb n 1_000_000) rate_out_of_range) λ _. ok (to_hundredths n)

unfoldable pub normalize_tax : Option Bool → Option ℤ → Tax → Result Tax
normalize_tax enabled none fallback =
    ok (record { enabled = given enabled fallback.enabled; rate = fallback.rate })
normalize_tax enabled (some (negsuc n)) fallback = err rate_out_of_range
normalize_tax enabled (some (pos n)) fallback =
    ok (record { enabled = given enabled fallback.enabled; rate = to_hundredths n })

-- `Number.isInteger(x) && low <= x && x <= high ? x : otherwise`
unfoldable pub bounded : NumberInput → ℕ → ℕ → ℕ → ℕ → ℕ
bounded absent fallback low high otherwise =
    if leb low fallback && leb fallback high then fallback else otherwise
bounded not_integer fallback low high otherwise = otherwise
bounded (integer (negsuc n)) fallback low high otherwise = otherwise
bounded (integer (pos n)) fallback low high otherwise =
    if leb low n && leb n high then n else otherwise

unfoldable pub normalize_printer : PrinterInput → Printer → Printer
unfolding clean_text optional_text bounded
normalize_printer input fallback = record {
  enabled = given input.enabled fallback.enabled;
  printer_id = clean_text input.printer_id fallback.printer_id;
  display_name = clean_text input.display_name fallback.display_name;
  connection_type = given input.connection_type fallback.connection_type;
  windows_printer_name = optional_text input.windows_printer_name fallback.windows_printer_name;
  network_address = optional_text input.network_address fallback.network_address;
  network_port = bounded input.network_port fallback.network_port 1 65535 9100;
  copies = bounded input.copies fallback.copies 1 10 1;
  auto_print = given input.auto_print fallback.auto_print;
}

abbrev pub no_printer_input : PrinterInput
no_printer_input = record {
  enabled = none;
  printer_id = none;
  display_name = none;
  connection_type = none;
  windows_printer_name = none;
  network_address = none;
  network_port = absent;
  copies = absent;
  auto_print = none;
}

module _ {V : Type 0} where
  unfoldable pub lookup : Dict V → Text → Option V
  lookup [] k = none
  lookup ((j, v) ∷ d) k = if same_text j k then some v else lookup d k

  unfoldable pub assign : Dict V → Text → V → Dict V
  assign [] k v = (k, v) ∷ []
  assign ((j, w) ∷ d) k v = if same_text j k then (j, v) ∷ d else (j, w) ∷ assign d k v

  abbrev pub keys : Dict V → List Text
  keys [] = []
  keys ((k, _) ∷ d) = k ∷ keys d
