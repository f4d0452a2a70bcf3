-- ===== src/Utils/Base64/Again.antt =====
-- What the decoders answer with, and that encoding it again changes nothing more
-- (internal/utils/base64.go).
use revaulter.Base.{
  ℕ, ◌+◌, ◌*◌, ◌/◌, ◌%◌, ◌<◌, ◌≢◌, inl, inr, Text, is_empty, ◌≡◌, refl, sym, ap, ◌∙◌, ◌||◌, Option,
  none, some, List, [], ◌∷◌, ◌++◌, arith, ◌==◌, Bool-cases, Option-cases,
}
use revaulter.Utils.Base64.{
  Alphabet, url, standard, decode_digit, bytes_of, cons_digit, read_digits, encode, decode,
  digits_of, trim_padding, nil, slice, or_else, decode_base64_string, then_bytes,
}
use revaulter.Utils.Base64.RoundTrip.{IsBytes, AreDigits, decode_base64_string-encode}

decode_digit-lt : (al : Alphabet) (c d : ℕ) → decode_digit al c ≡ some d → d < 64
unfolding decode_digit
decode_digit-lt url c d h = ground arith
decode_digit-lt standard c d h = ground arith

cons_digit-AreDigits :
    (al : Alphabet) (c : ℕ) (o : Option (List ℕ)) (ds : List ℕ)
    → ((es : List ℕ) → o ≡ some es → AreDigits es)
    → cons_digit (decode_digit al c) o ≡ some ds
    → AreDigits ds
cons_digit-AreDigits al c o ds h e = elim (Option-cases (decode_digit al c)) [
  | inl q ↦ let x : none ≡ some ds = sym (ap (λ z. cons_digit z o) q) ∙ e in cc
  | inr (d, q) ↦ with_rest o h (sym (ap (λ z. cons_digit z o) q) ∙ e) (decode_digit-lt al c d q)
]
  where
    with_rest :
        {d : ℕ} (o : Option (List ℕ))
        → ((es : List ℕ) → o ≡ some es → AreDigits es)
        → cons_digit (some d) o ≡ some ds
        → d < 64
        → AreDigits ds
    with_rest none h e l = cc
    with_rest {d = d} (some es) h e l = let same : d ∷ es ≡ ds = cc in rw (← same) (l, h es refl)

read_digits-AreDigits :
    (al : Alphabet) (s : Text) (ds : List ℕ) → read_digits al s ≡ some ds → AreDigits ds
unfolding read_digits
read_digits-AreDigits al [] ds e = let same : [] ≡ ds = cc in rw (← same) tt
read_digits-AreDigits al (c ∷ s) ds e = elim (Bool-cases ((c == 13) || (c == 10))) [
  | inl q ↦ read_digits-AreDigits al s ds (ground arith)
  | inr q ↦
      cons_digit-AreDigits al c (read_digits al s) ds (λ es. read_digits-AreDigits al s es)
        (ground arith)
]

bytes_of-IsBytes : (ds : List ℕ) (s : Text) → AreDigits ds → bytes_of ds ≡ some s → IsBytes s
unfolding bytes_of
bytes_of-IsBytes [] s h e = let same : [] ≡ s = cc in rw (← same) tt
bytes_of-IsBytes (a ∷ []) s h e = cc
bytes_of-IsBytes (a ∷ b ∷ []) s h e =
    let same : (a * 4 + b / 16) ∷ [] ≡ s = cc in rw (← same) (omega arith, tt)
bytes_of-IsBytes (a ∷ b ∷ c ∷ []) s h e =
    let same : (a * 4 + b / 16) ∷ (b % 16 * 16 + c / 4) ∷ [] ≡ s = cc in
    rw (← same) (omega arith, (omega arith, tt))
bytes_of-IsBytes (a ∷ b ∷ c ∷ d ∷ ds) s h e = elim (Option-cases (bytes_of ds)) [
  | inl q ↦ absurd (ground arith)
  | inr (t, q) ↦
      let same : (a * 4 + b / 16) ∷ (b % 16 * 16 + c / 4) ∷ (c % 4 * 64 + d) ∷ t ≡ s =
        ground arith in
      rw (← same) (omega arith, (omega arith, (omega arith, bytes_of-IsBytes ds t h.1.1.1.1 q)))
]

decode-IsBytes : (al : Alphabet) (s b : Text) → decode al s ≡ some b → IsBytes b
unfolding decode
decode-IsBytes al s b e = elim (Option-cases (read_digits al s)) [
  | inl q ↦ let x : none ≡ some b = sym (ap then_bytes q) ∙ e in cc
  | inr (ds, q) ↦
      bytes_of-IsBytes ds b (read_digits-AreDigits al s ds q) (sym (ap then_bytes q) ∙ e)
]

or_else-IsBytes :
    (x y : Option Text) (b : Text)
    → ((c : Text) → x ≡ some c → IsBytes c)
    → ((c : Text) → y ≡ some c → IsBytes c)
    → or_else x y ≡ slice b
    → IsBytes b
or_else-IsBytes (some c) y b h k e = let same : c ≡ b = cc in rw (← same) (h c refl)
or_else-IsBytes none (some c) b h k e = let same : c ≡ b = cc in rw (← same) (k c refl)
or_else-IsBytes none none b h k e = cc

-- DecodeBase64String answers with bytes.
pub decode_base64_string-IsBytes : (s b : Text) → decode_base64_string s ≡ slice b → IsBytes b
unfolding decode_base64_string
decode_base64_string-IsBytes s b e = elim (Bool-cases (is_empty s)) [
  | inl q ↦ let x : nil ≡ slice b = sym (rw q) ∙ e in cc
  | inr q ↦
      or_else-IsBytes (decode url (trim_padding s)) (decode standard (trim_padding s)) b
        (λ c. decode-IsBytes url (trim_padding s) c)
        (λ c. decode-IsBytes standard (trim_padding s) c) (ground arith)
]

append_nil : (s : Text) → s ++ [] ≡ s
append_nil [] = refl
append_nil (c ∷ s) = ap (λ z. c ∷ z) (append_nil s)

encode_empty : (al : Alphabet) → encode al [] ≡ []
unfolding encode digits_of
encode_empty al = refl

-- What is decoded, from whichever form, and encoded again is not empty, is decoded to the same.
pub decode_base64_string_again :
    (s b : Text)
    → decode_base64_string s ≡ slice b
    → encode url b ≢ []
    → decode_base64_string (encode url b) ≡ slice b
decode_base64_string_again s b e n =
    ap decode_base64_string (sym (append_nil (encode url b)))
    ∙ decode_base64_string-encode url b 0 (decode_base64_string-IsBytes s b e)
        (λ q. n (ap (encode url) q ∙ encode_empty url))
