-- ===== src/Common/Text.antt =====
-- The functions of Go's packages strings and unicode that the sources use, on native texts.
pub mod Trim
use Prim.Native.Nat.{ℕ, zero, suc}
use Prim.Native.Char.{code}
use Prim.Native.String
use Prim.Native.String.{String, [], ◌∷◌}
use mathlib.Core.List.{List}
use mathlib.Core.Option.{Option, none, some}
use mathlib.Core.Path.{◌≡◌, refl}
use mathlib.Core.Bool.{Bool, true, false, ◌&&◌, ◌||◌}
use app_catalogo.Common.Tests.{leb, ◌==◌, if◌then◌else◌}

-- unicode.IsSpace
unfoldable pub is_space : ℕ → Bool
is_space c =
    leb 9 c && leb c 13
    || (c == 32
        || (c == 133
            || (c == 160
                || (c == 5760
                    || (leb 8192 c && leb c 8202
                        || (c == 8232
                            || (c == 8233 || (c == 8239 || (c == 8287 || c == 12288)))))))))

abbrev pub is_empty : String → Bool
is_empty [] = true
is_empty (c ∷ s) = false

unfoldable pub trim_left : String → String
trim_left [] = []
trim_left (c ∷ s) = let rest = trim_left s in if is_space (code c) then rest else c ∷ s

unfoldable pub trim_right : String → String
trim_right [] = []
trim_right (c ∷ s) =
    let rest = trim_right s in if is_empty rest && is_space (code c) then [] else c ∷ rest

-- strings.TrimSpace
unfoldable pub trim_space : String → String
unfolding trim_left trim_right
trim_space s = trim_right (trim_left s)

trim_test : trim_space "\t  a b\n " ≡ "a b"
unfolding trim_space is_space
trim_test = refl

abbrev pub add_word : String → List String → List String
add_word w ws = if is_empty w then ws else List.◌∷◌ w ws

-- The word at the front of a text, which may go on to the left, and the words after it.
unfoldable pub split_words : String → String × List String
split_words [] = ([], List.[])
split_words (c ∷ s) =
    let (word, words) = split_words s in
    if is_space (code c) then ([], add_word word words) else (c ∷ word, words)

-- strings.Fields
unfoldable pub fields : String → List String
unfolding split_words
fields s = add_word (split_words s).0 (split_words s).1

abbrev pub join_rest : String → List String → String
join_rest sep List.[] = []
join_rest sep (List.◌∷◌ w ws) = String.◌++◌ sep (String.◌++◌ w (join_rest sep ws))

-- strings.Join
unfoldable pub join_words : String → List String → String
join_words sep List.[] = []
join_words sep (List.◌∷◌ w ws) = String.◌++◌ w (join_rest sep ws)

fields_test : fields " ab  c\td " ≡ List.◌∷◌ "ab" (List.◌∷◌ "c" (List.◌∷◌ "d" List.[]))
unfolding fields is_space
fields_test = refl

join_test : join_words ", " (fields "ab c d") ≡ "ab, c, d"
unfolding fields join_words is_space
join_test = refl

-- unicode.IsControl
unfoldable pub is_control : ℕ → Bool
is_control c = leb c 31 || (leb 127 c && leb c 159)

-- utf8.RuneCountInString
abbrev pub rune_count : String → ℕ
rune_count [] = 0
rune_count (c ∷ s) = suc (rune_count s)

-- string([]rune(s)[:n]), for n no more than the runes of s.
abbrev pub take_runes : ℕ → String → String
take_runes zero s = []
take_runes (suc n) [] = []
take_runes (suc n) (c ∷ s) = c ∷ take_runes n s

-- strings.Map with a function that drops the control characters.
unfoldable pub drop_controls : String → String
drop_controls [] = []
drop_controls (c ∷ s) = let rest = drop_controls s in if is_control (code c) then rest else c ∷ rest

unfoldable pub strip_prefix : String → String → Option String
strip_prefix [] s = some s
strip_prefix (p ∷ prefix) [] = none
strip_prefix (p ∷ prefix) (c ∷ s) =
    let rest = strip_prefix prefix s in if code p == code c then rest else none

-- strings.TrimPrefix
unfoldable pub trim_prefix : String → String → String
trim_prefix s prefix = elim (strip_prefix prefix s) [ none ↦ s | some rest ↦ rest ]

trim_prefix_test : trim_prefix "Bearer abc" "Bearer " ≡ "abc"
unfolding trim_prefix strip_prefix
trim_prefix_test = refl

-- strings.Contains(s, sub)
unfoldable pub contains : String → String → Bool
contains [] sub = elim (strip_prefix sub []) [ none ↦ false | some rest ↦ true ]
contains (c ∷ s) sub = elim (strip_prefix sub (c ∷ s)) [ none ↦ contains s sub | some rest ↦ true ]

-- The cut of the runes that a code names at the right end of a text.
unfoldable pub trim_right_code : ℕ → String → String
trim_right_code n [] = []
trim_right_code n (c ∷ s) =
    let rest = trim_right_code n s in if is_empty rest && code c == n then [] else c ∷ rest

unfoldable pub trim_left_code : ℕ → String → String
trim_left_code n [] = []
trim_left_code n (c ∷ s) = let rest = trim_left_code n s in if code c == n then rest else c ∷ s

-- TRIM of SQL, which cuts blanks.
unfoldable pub trim_blanks : String → String
unfolding trim_left_code trim_right_code
trim_blanks s = trim_right_code 32 (trim_left_code 32 s)
