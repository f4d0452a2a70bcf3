-- ===== src/Utils/Base64/Tests.antt =====
-- Encodings of a few bytes, and the round trip at one of them.
use revaulter.Base.{Text, bytes, ◌≡◌, ◌≢◌, refl, none, some, [], ◌∷◌, ◌++◌, arith}
use revaulter.Utils.Base64.{
  url, standard, slice, encode, decode, digits_of, encode_digit, read_digits, bytes_of,
  decode_digit, trim_padding, decode_base64_string,
}
use revaulter.Utils.Base64.RoundTrip.{IsBytes, padding, decode_base64_string-encode}

encode_url : encode url (251 ∷ 255 ∷ 97 ∷ []) ≡ bytes "-_9h"
unfolding encode digits_of encode_digit
encode_url = refl

decode_lines : decode standard (bytes "+/\n9h") ≡ some (251 ∷ 255 ∷ 97 ∷ [])
unfolding decode read_digits bytes_of decode_digit
decode_lines = refl

decode_one : decode url (bytes "A") ≡ none
unfolding decode read_digits bytes_of decode_digit
decode_one = refl

-- Padding alone is not empty, and has no bytes.
decode_padding : decode_base64_string (bytes "==") ≡ slice []
unfolding decode_base64_string trim_padding decode read_digits bytes_of
decode_padding = refl

abbrev three : Text
three = 251 ∷ 255 ∷ 97 ∷ []

three-IsBytes : IsBytes three
three-IsBytes = (omega arith, (omega arith, (omega arith, tt)))

nonempty : three ≢ []
nonempty e = cc

decode_base64_string-encode_example :
    decode_base64_string (encode standard three ++ padding 1) ≡ slice three
decode_base64_string-encode_example =
    decode_base64_string-encode standard three 1 three-IsBytes nonempty
