-- ===== src/Settings/Inherited.antt =====
-- The names that every JavaScript object inherits from `Object.prototype`: a plain object that is
-- asked for one of them answers with the inherited value, which is truthy.
use restaurant_pos.Base.{Bool, List, [], ◌∷◌, some_of}
use restaurant_pos.Base.Text.{Text, same_text}

abbrev inherited_names : List Text
inherited_names =
    (95 ∷ 95 ∷ 112 ∷ 114 ∷ 111 ∷ 116 ∷ 111 ∷ 95 ∷ 95 ∷ [])
    ∷ (99 ∷ 111 ∷ 110 ∷ 115 ∷ 116 ∷ 114 ∷ 117 ∷ 99 ∷ 116 ∷ 111 ∷ 114 ∷ [])
    ∷ (95 ∷ 95 ∷ 100 ∷ 101 ∷ 102 ∷ 105 ∷ 110 ∷ 101 ∷ 71 ∷ 101 ∷ 116 ∷ 116 ∷ 101 ∷ 114 ∷ 95 ∷ 95
        ∷ [])
    ∷ (95 ∷ 95 ∷ 100 ∷ 101 ∷ 102 ∷ 105 ∷ 110 ∷ 101 ∷ 83 ∷ 101 ∷ 116 ∷ 116 ∷ 101 ∷ 114 ∷ 95 ∷ 95
        ∷ [])
    ∷ (95 ∷ 95 ∷ 108 ∷ 111 ∷ 111 ∷ 107 ∷ 117 ∷ 112 ∷ 71 ∷ 101 ∷ 116 ∷ 116 ∷ 101 ∷ 114 ∷ 95 ∷ 95
        ∷ [])
    ∷ (95 ∷ 95 ∷ 108 ∷ 111 ∷ 111 ∷ 107 ∷ 117 ∷ 112 ∷ 83 ∷ 101 ∷ 116 ∷ 116 ∷ 101 ∷ 114 ∷ 95 ∷ 95
        ∷ [])
    ∷ (104 ∷ 97 ∷ 115 ∷ 79 ∷ 119 ∷ 110 ∷ 80 ∷ 114 ∷ 111 ∷ 112 ∷ 101 ∷ 114 ∷ 116 ∷ 121 ∷ [])
    ∷ (105 ∷ 115 ∷ 80 ∷ 114 ∷ 111 ∷ 116 ∷ 111 ∷ 116 ∷ 121 ∷ 112 ∷ 101 ∷ 79 ∷ 102 ∷ [])
    ∷ (112 ∷ 114 ∷ 111 ∷ 112 ∷ 101 ∷ 114 ∷ 116 ∷ 121 ∷ 73 ∷ 115 ∷ 69 ∷ 110 ∷ 117 ∷ 109 ∷ 101 ∷ 114
        ∷ 97 ∷ 98 ∷ 108 ∷ 101 ∷ [])
    ∷ (116 ∷ 111 ∷ 76 ∷ 111 ∷ 99 ∷ 97 ∷ 108 ∷ 101 ∷ 83 ∷ 116 ∷ 114 ∷ 105 ∷ 110 ∷ 103 ∷ [])
    ∷ (116 ∷ 111 ∷ 83 ∷ 116 ∷ 114 ∷ 105 ∷ 110 ∷ 103 ∷ [])
    ∷ (118 ∷ 97 ∷ 108 ∷ 117 ∷ 101 ∷ 79 ∷ 102 ∷ [])
    ∷ []

unfoldable pub is_inherited : Text → Bool
is_inherited k = some_of (same_text k) inherited_names
