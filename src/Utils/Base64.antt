-- ===== src/Utils/Base64.antt =====
-- internal/utils/base64.go, and the two unpadded encodings of encoding/base64 that it calls.
pub mod RoundTrip
pub mod Again
mod Tests
use revaulter.Base.{
  ℕ, ◌+◌, ◌-◌, ◌*◌, ◌/◌, ◌%◌, Text, is_empty, Bool, true, false, ◌&&◌, ◌||◌, Option, none, some,
  List, [], ◌∷◌, map, ltb, leb, ◌==◌, if◌then◌else◌,
}

-- base64.RawURLEncoding and base64.RawStdEncoding
pub data Alphabet : Type 0 where
  url standard : Alphabet

abbrev pub char_62 : Alphabet → ℕ
char_62 url = b'-'
char_62 standard = b'+'

abbrev pub char_63 : Alphabet → ℕ
char_63 url = b'_'
char_63 standard = b'/'

-- A digit of six bits, as a character …
unfoldable pub encode_digit : Alphabet → ℕ → ℕ
encode_digit al v =
    if ltb v 26
    then v + 65
    else if ltb v 52
    then v + 71
    else if ltb v 62
    then v - 4
    else if v == 62
    then char_62 al
    else char_63 al

-- … and back.
unfoldable pub decode_digit : Alphabet → ℕ → Option ℕ
decode_digit al c =
    if leb 65 c && leb c 90
    then some (c - 65)
    else if leb 97 c && leb c 122
    then some (c - 71)
    else if leb 48 c && leb c 57
    then some (c + 4)
    else if c == char_62 al
    then some 62
    else if c == char_63 al
    then some 63
    else none

-- Three bytes in four digits; a last byte or two in two or three.
unfoldable pub digits_of : Text → List ℕ
digits_of [] = []
digits_of (a ∷ []) = (a / 4) ∷ (a % 4 * 16) ∷ []
digits_of (a ∷ b ∷ []) = (a / 4) ∷ (a % 4 * 16 + b / 16) ∷ (b % 16 * 4) ∷ []
digits_of (a ∷ b ∷ c ∷ s) =
    (a / 4) ∷ (a % 4 * 16 + b / 16) ∷ (b % 16 * 4 + c / 64) ∷ (c % 64) ∷ digits_of s

abbrev pub cons₃ : ℕ → ℕ → ℕ → Option Text → Option Text
cons₃ a b c none = none
cons₃ a b c (some s) = some (a ∷ b ∷ c ∷ s)

-- One digit alone is refused, and what is left of the last digit is not looked at.
unfoldable pub bytes_of : List ℕ → Option Text
bytes_of [] = some []
bytes_of (a ∷ []) = none
bytes_of (a ∷ b ∷ []) = some ((a * 4 + b / 16) ∷ [])
bytes_of (a ∷ b ∷ c ∷ []) = some ((a * 4 + b / 16) ∷ (b % 16 * 16 + c / 4) ∷ [])
bytes_of (a ∷ b ∷ c ∷ d ∷ s) =
    cons₃ (a * 4 + b / 16) (b % 16 * 16 + c / 4) (c % 4 * 64 + d) (bytes_of s)

abbrev pub cons_digit : Option ℕ → Option (List ℕ) → Option (List ℕ)
cons_digit none t = none
cons_digit (some d) none = none
cons_digit (some d) (some t) = some (d ∷ t)

-- The decoder skips carriage returns and line feeds, wherever they stand.
unfoldable pub read_digits : Alphabet → Text → Option (List ℕ)
read_digits al [] = some []
read_digits al (c ∷ s) =
    let rest = read_digits al s in
    if (c == 13) || (c == 10) then rest else cons_digit (decode_digit al c) rest

-- EncodeToString
unfoldable pub encode : Alphabet → Text → Text
encode al s = map (encode_digit al) (digits_of s)

abbrev pub then_bytes : Option (List ℕ) → Option Text
then_bytes none = none
then_bytes (some ds) = bytes_of ds

-- DecodeString: `none` is an error.
unfoldable pub decode : Alphabet → Text → Option Text
decode al s = then_bytes (read_digits al s)

-- strings.TrimRight(s, "=")
unfoldable pub trim_padding : Text → Text
trim_padding [] = []
trim_padding (c ∷ s) =
    let rest = trim_padding s in if (c == b'=') && is_empty rest then [] else c ∷ rest

-- What DecodeBase64String returns: a nil slice, a slice, or an error.
pub data Decoded : Type 0 where
  nil : Decoded
  slice : Text → Decoded
  invalid : Decoded

abbrev pub or_else : Option Text → Option Text → Decoded
or_else (some b) o = slice b
or_else none (some b) = slice b
or_else none none = invalid

-- DecodeBase64String
unfoldable pub decode_base64_string : Text → Decoded
decode_base64_string s =
    if is_empty s
    then nil
    else or_else (decode url (trim_padding s)) (decode standard (trim_padding s))
