-- ===== src/Protocol/Labels.antt =====
-- internal/protocolv2/types.go: key labels and notes, byte by byte.
pub mod Canonical
mod Tests
use revaulter.Base.{
  ℕ, ◌+◌, Text, is_empty, length, Bool, true, false, ◌&&◌, ◌||◌, Option, none, some, List, [], ◌∷◌,
  leb, ltb, ◌==◌, if◌then◌else◌,
}

abbrev pub is_lower : ℕ → Bool
is_lower c = leb 97 c && leb c 122

abbrev pub is_upper : ℕ → Bool
is_upper c = leb 65 c && leb c 90

abbrev pub is_digit : ℕ → Bool
is_digit c = leb 48 c && leb c 57

-- `_`, `-`, `.` and `+`
abbrev pub is_label_mark : ℕ → Bool
is_label_mark c = (c == 95) || ((c == 45) || ((c == 46) || (c == 43)))

-- The switch of NormalizeAndValidateKeyLabel
abbrev pub label_byte : ℕ → Option ℕ
label_byte c =
    if is_lower c
    then some c
    else if is_upper c
    then some (c + 32)
    else if is_digit c
    then some c
    else if is_label_mark c
    then some c
    else none

abbrev pub cons_byte : Option ℕ → Option Text → Option Text
cons_byte none t = none
cons_byte (some c) none = none
cons_byte (some c) (some t) = some (c ∷ t)

-- Its loop
unfoldable pub label_bytes : Text → Option Text
label_bytes [] = some []
label_bytes (c ∷ s) = cons_byte (label_byte c) (label_bytes s)

-- NormalizeAndValidateKeyLabel: `none` is `"", false`.
unfoldable pub normalize_key_label : Text → Option Text
unfolding label_bytes
normalize_key_label label =
    if is_empty label || ltb 24 (length label) then none else label_bytes label

-- The space, `.`, `/`, `_` and `-`
abbrev pub is_note_mark : ℕ → Bool
is_note_mark c = (c == 32) || ((c == 46) || ((c == 47) || ((c == 95) || (c == 45))))

-- ValidateNote
unfoldable pub validate_note : Text → Bool
validate_note [] = true
validate_note (c ∷ s) =
    let rest = validate_note s in
    if is_upper c || (is_lower c || is_digit c)
    then rest
    else if is_note_mark c
    then rest
    else false
