-- ===== src/Sync/Versions.antt =====
-- `compareMenuVersions`, and what `applyMenuVersion` stores, of backend/sync/service.ts. A version is
-- a payload by what the code reads of it: the instant of `Date.parse`, where it is one, the source, and
-- the text of `canonicalJson`, as UTF-16 code units. The database is a lookup of the stored version.
use restaurant_pos.Base.{
  ℕ, Bool, true, false, ◌&&◌, ◌||◌, Option, none, some, List, [], ◌∷◌, ◌==◌, ltb, if◌then◌else◌,
}
use restaurant_pos.Base.Text.{Text, same_text}
use restaurant_pos.Base.Result.{Result, ok, err, and_then, no_timestamp}

-- `updatedSource`; an unknown or missing one is `other_source`.
pub data VersionSource : Type 0 where
  from_cloud from_pos other_source : VersionSource

pub record Version : Type 0 where
  pub at : Option ℕ
  pub source : VersionSource
  pub state : Text

pub data Comparison : Type 0 where
  newer stale equal : Comparison

unfoldable pub source_priority : VersionSource → ℕ
source_priority from_cloud = 2
source_priority from_pos = 1
source_priority other_source = 0

-- `a > b` on texts
unfoldable pub text_gt : Text → Text → Bool
text_gt [] t = false
text_gt (c ∷ cs) [] = true
text_gt (c ∷ cs) (d ∷ ds) = let rest = text_gt cs ds in ltb d c || (c == d && rest)

-- The comparison of two versions of one instant
unfoldable pub compare_states : Version → Version → Comparison
unfolding source_priority text_gt
compare_states x y =
    if same_text x.state y.state
    then equal
    else if ltb (source_priority y.source) (source_priority x.source)
    then newer
    else if ltb (source_priority x.source) (source_priority y.source)
    then stale
    else if text_gt x.state y.state
    then newer
    else stale

-- The incoming version must have an instant; a stored one without an instant gives way.
unfoldable pub compare_menu_versions : Version → Option Version → Result Comparison
unfolding compare_states
compare_menu_versions x none = ok newer
compare_menu_versions x (some y) = elim x.at [
  | none ↦ err no_timestamp
  | some i ↦ elim y.at [
    | none ↦ ok newer
    | some j ↦ ok (if ltb j i then newer else if ltb i j then stale else compare_states x y)
  ]
]

pub data Outcome : Type 0 where
  applied stale_ignored already_processed : Outcome

unfoldable pub outcome_of : Comparison → Outcome
outcome_of newer = applied
outcome_of stale = stale_ignored
outcome_of equal = already_processed

abbrev stored_after : Outcome → Version → Option Version → Option Version
stored_after applied x old = some x
stored_after stale_ignored x old = old
stored_after already_processed x old = old

-- The outcome, and the version that is stored afterwards
unfoldable pub apply_menu_version : Version → Option Version → Result (Outcome × Option Version)
unfolding compare_menu_versions outcome_of
apply_menu_version x old =
    and_then (compare_menu_versions x old) λ c. ok (outcome_of c, stored_after (outcome_of c) x old)

-- What a side stores after it was sent the versions of one record, in order; a version that is refused
-- changes nothing.
abbrev pub kept_after : Option Version → Result (Outcome × Option Version) → Option Version
kept_after old (ok (_, v)) = v
kept_after old (err e) = old

unfoldable pub receive : Version → Option Version → Option Version
unfolding apply_menu_version
receive x old = kept_after old (apply_menu_version x old)

unfoldable pub receive_all : List Version → Option Version → Option Version
unfolding receive
receive_all [] old = old
receive_all (x ∷ xs) old = receive_all xs (receive x old)
