-- ===== src/Utils/Base64/RoundTrip.antt =====
-- What is encoded is decoded to what it was (internal/utils/base64.go).
use revaulter.Base.{
  ℕ, zero, suc, ◌<◌, ◌≢◌, ◌⊎◌, inl, inr, Text, is_empty, ◌≡◌, refl, false, none, some, List, [],
  ◌∷◌, ◌++◌, map, All, arith, ltb, ◌==◌, if◌then◌else◌, Bool-cases,
}
use revaulter.Utils.Base64.{
  Alphabet, url, standard, encode_digit, decode_digit, digits_of, bytes_of, read_digits, encode,
  decode, trim_padding, slice, or_else, decode_base64_string,
}

abbrev pub IsBytes : Text → Type 0
IsBytes = All (λ (b : ℕ). b < 256)

abbrev pub AreDigits : List ℕ → Type 0
AreDigits = All (λ (d : ℕ). d < 64)

decode_digit-encode_digit :
    (al : Alphabet) (v : ℕ) → v < 64 → decode_digit al (encode_digit al v) ≡ some v
unfolding decode_digit encode_digit
decode_digit-encode_digit url v h = ground arith
decode_digit-encode_digit standard v h = ground arith

-- A digit is neither padding nor a line break.
encode_digit_plain :
    (al : Alphabet) (v : ℕ)
    → v < 64
    → ((encode_digit al v == 13) ≡ false)
      × ((encode_digit al v == 10) ≡ false)
      × ((encode_digit al v == b'=') ≡ false)
unfolding encode_digit
encode_digit_plain url v h = (ground arith, ground arith, ground arith)
encode_digit_plain standard v h = (ground arith, ground arith, ground arith)

digits_of-AreDigits : (s : Text) → IsBytes s → AreDigits (digits_of s)
unfolding digits_of
digits_of-AreDigits [] h = tt
digits_of-AreDigits (a ∷ []) h = (omega arith, (omega arith, tt))
digits_of-AreDigits (a ∷ b ∷ []) h = (omega arith, (omega arith, (omega arith, tt)))
digits_of-AreDigits (a ∷ b ∷ c ∷ s) h =
    (omega arith, (omega arith, (omega arith, (omega arith, digits_of-AreDigits s h.1.1.1))))

bytes_of-digits_of : (s : Text) → IsBytes s → bytes_of (digits_of s) ≡ some s
unfolding digits_of bytes_of
bytes_of-digits_of [] h = refl
bytes_of-digits_of (a ∷ []) h = ground arith
bytes_of-digits_of (a ∷ b ∷ []) h = ground arith
bytes_of-digits_of (a ∷ b ∷ c ∷ s) h = ground (arith, bytes_of-digits_of s h.1.1.1)

read_digits-encode :
    (al : Alphabet) (ds : List ℕ)
    → AreDigits ds
    → read_digits al (map (encode_digit al) ds) ≡ some ds
unfolding read_digits
read_digits-encode al [] h = refl
read_digits-encode al (d ∷ ds) h = ground (
  arith,
  encode_digit_plain al d h.0,
  decode_digit-encode_digit al d h.0,
  read_digits-encode al ds h.1,
)

-- The URL decoder on the standard encoding: it fails at a `+` or a `/`, and else agrees.
decode_url_standard :
    (d : ℕ)
    → d < 64
    → decode_digit url (encode_digit standard d) ≡ (if ltb d 62 then some d else none)
unfolding decode_digit encode_digit
decode_url_standard d h = ground arith

read_url_standard :
    (ds : List ℕ)
    → AreDigits ds
    → (read_digits url (map (encode_digit standard) ds) ≡ none)
      ⊎ (read_digits url (map (encode_digit standard) ds) ≡ some ds)
unfolding read_digits
read_url_standard [] h = inr refl
read_url_standard (d ∷ ds) h =
    let plain = encode_digit_plain standard d h.0 in
    let one = decode_url_standard d h.0 in
    elim (Bool-cases (ltb d 62)) [
      | inr e ↦ inl (ground arith)
      | inl e ↦ elim (read_url_standard ds h.1) [
        | inl q ↦ inl (ground arith)
        | inr q ↦ inr (ground arith)
      ]
    ]

-- `=`, n times
abbrev pub padding : ℕ → Text
padding zero = []
padding (suc n) = b'=' ∷ padding n

trim_padding-padding : (n : ℕ) → trim_padding (padding n) ≡ []
unfolding trim_padding
trim_padding-padding zero = refl
trim_padding-padding (suc n) = ground (arith, trim_padding-padding n)

trim_padding-encode :
    (al : Alphabet) (n : ℕ) (ds : List ℕ)
    → AreDigits ds
    → trim_padding (map (encode_digit al) ds ++ padding n) ≡ map (encode_digit al) ds
unfolding trim_padding
trim_padding-encode al n [] h = trim_padding-padding n
trim_padding-encode al n (d ∷ ds) h =
    ground (arith, encode_digit_plain al d h.0, trim_padding-encode al n ds h.1)

encode_nonempty :
    (al : Alphabet) (s : Text) (p : Text) → s ≢ [] → is_empty (encode al s ++ p) ≡ false
unfolding encode digits_of
encode_nonempty al [] p h = absurd (h refl)
encode_nonempty al (a ∷ []) p h = refl
encode_nonempty al (a ∷ b ∷ []) p h = refl
encode_nonempty al (a ∷ b ∷ c ∷ s) p h = refl

decode-encode : (al : Alphabet) (s : Text) → IsBytes s → decode al (encode al s) ≡ some s
unfolding decode encode
decode-encode al s h =
    rw (read_digits-encode al (digits_of s) (digits_of-AreDigits s h)) (bytes_of-digits_of s h)

url_first : (s : Text) → IsBytes s → or_else (decode url (encode standard s)) (some s) ≡ slice s
unfolding decode encode
url_first s h = elim (read_url_standard (digits_of s) (digits_of-AreDigits s h)) [
  | inl e ↦ rw e
  | inr e ↦ rw e (rw (bytes_of-digits_of s h))
]

decoded :
    (al : Alphabet) (s : Text)
    → IsBytes s
    → or_else (decode url (encode al s)) (decode standard (encode al s)) ≡ slice s
decoded url s h = rw (decode-encode url s h)
decoded standard s h = rw (decode-encode standard s h) (url_first s h)

-- DecodeBase64String reads back every non-empty sequence of bytes from either encoding, with any
-- number of padding characters.
pub decode_base64_string-encode :
    (al : Alphabet) (s : Text) (n : ℕ)
    → IsBytes s
    → s ≢ []
    → decode_base64_string (encode al s ++ padding n) ≡ slice s
unfolding decode_base64_string
decode_base64_string-encode al s n h e =
    rw (encode_nonempty al s (padding n) e) (rw (trimmed) (decoded al s h))
  where
    trimmed : trim_padding (encode al s ++ padding n) ≡ encode al s
    trimmed = unfold encode in trim_padding-encode al n (digits_of s) (digits_of-AreDigits s h)
