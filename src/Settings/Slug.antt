-- ===== src/Settings/Slug.antt =====
-- `slugifyStationId` of backend/config/posSettings.ts.
use restaurant_pos.Base.{
  ℕ, ◌+◌, ◌-◌, Bool, true, false, not, ◌&&◌, ◌||◌, [], ◌∷◌, ◌==◌, leb, if◌then◌else◌, take,
}
use mathlib.Core.List.{reverse}
use restaurant_pos.Base.Text.{Text, trim}

abbrev pub dash : ℕ
dash = 45

abbrev pub is_slug_char : ℕ → Bool
is_slug_char c = (leb 97 c && leb c 122) || (leb 48 c && leb c 57)

-- `toLowerCase` as far as the pattern below tells its results apart: the code points other than
-- A to Z whose lower case has a letter of a to z are the Kelvin sign and the dotted I.
unfoldable pub lower_slug : Text → Text
lower_slug [] = []
lower_slug (c ∷ cs) =
    let rest = lower_slug cs in
    if leb 65 c && leb c 90
    then (c + 32) ∷ rest
    else if c == 8490
    then 107 ∷ rest
    else if c == 304
    then 105 ∷ 775 ∷ rest
    else c ∷ rest

-- `.replace(/[^a-z0-9]+/g, '-')`; the flag says that the run before was replaced already.
unfoldable pub hyphenate : Bool → Text → Text
hyphenate in_run [] = []
hyphenate in_run (c ∷ cs) =
    let after_run = hyphenate true cs in
    let after_char = hyphenate false cs in
    if is_slug_char c then c ∷ after_char else if in_run then after_run else dash ∷ after_run

unfoldable pub drop_dashes : Text → Text
drop_dashes [] = []
drop_dashes (c ∷ cs) = if c == dash then drop_dashes cs else c ∷ cs

-- `.replace(/^-+|-+$/g, '')`
unfoldable pub strip_dashes : Text → Text
unfolding drop_dashes
strip_dashes s = reverse (drop_dashes (reverse (drop_dashes s)))

unfoldable pub slugify_station_id : Text → Text
unfolding lower_slug hyphenate strip_dashes trim
slugify_station_id s = take 48 (strip_dashes (hyphenate false (lower_slug (trim s))))

-- `id.replace(/-/g, ' ').replace(/\b\w/g, (letter) => letter.toUpperCase())` on the text of an id, which
-- has only a to z, 0 to 9 and dashes; the flag says that a letter or a digit came before.
unfoldable pub title_of : Bool → Text → Text
title_of in_word [] = []
title_of in_word (c ∷ cs) =
    let in_text = title_of true cs in
    let after_space = title_of false cs in
    if c == dash
    then 32 ∷ after_space
    else if leb 97 c && (leb c 122 && not in_word)
    then (c - 32) ∷ in_text
    else c ∷ in_text
