-- ===== src/Protocol/Algorithms.antt =====
-- internal/protocolv2/types.go: the names of algorithms, with strings.ToUpper and strings.ToLower as
-- far as a comparison with an ASCII name sees them.
pub mod Canonical
mod Tests
use revaulter.Base.{
  ℕ, ◌+◌, ◌-◌, Text, bytes, same, Bool, true, false, ◌&&◌, ◌||◌, Option, none, some, List, [], ◌∷◌,
  leb, ltb, ◌==◌, if◌then◌else◌,
}

abbrev pub cons_char : ℕ → Option Text → Option Text
cons_char c none = none
cons_char c (some s) = some (c ∷ s)

abbrev pub upper_char : ℕ → ℕ
upper_char c = if leb 97 c && leb c 122 then c - 32 else c

abbrev pub lower_char : ℕ → ℕ
lower_char c = if leb 65 c && leb c 90 then c + 32 else c

-- strings.ToUpper where its result is ASCII: besides the ASCII letters, ı (U+0131) has the upper case
-- I, and ſ (U+017F) has S.
unfoldable pub to_upper : Text → Option Text
to_upper [] = some []
to_upper (c ∷ []) = if ltb c 128 then some (upper_char c ∷ []) else none
to_upper (c ∷ d ∷ s) =
    let rest = cons_char (upper_char c) (to_upper (d ∷ s)) in
    let dotless_i = cons_char b'I' (to_upper s) in
    let long_s = cons_char b'S' (to_upper s) in
    if ltb c 128
    then rest
    else if (c == 196) && (d == 177)
    then dotless_i
    else if (c == 197) && (d == 191)
    then long_s
    else none

-- strings.ToLower where its result is ASCII: İ (U+0130) has the lower case i, and K (U+212A) has k.
unfoldable pub to_lower : Text → Option Text
to_lower [] = some []
to_lower (c ∷ []) = if ltb c 128 then some (lower_char c ∷ []) else none
to_lower (c ∷ d ∷ []) =
    if ltb c 128
    then cons_char (lower_char c) (if ltb d 128 then some (lower_char d ∷ []) else none)
    else if (c == 196) && (d == 176)
    then some (b'i' ∷ [])
    else none
to_lower (c ∷ d ∷ e ∷ s) =
    let rest = cons_char (lower_char c) (to_lower (d ∷ e ∷ s)) in
    let dotted_i = cons_char b'i' (to_lower (e ∷ s)) in
    let kelvin = cons_char b'k' (to_lower s) in
    if ltb c 128
    then rest
    else if (c == 196) && (d == 176)
    then dotted_i
    else if (c == 226) && ((d == 132) && (e == 170))
    then kelvin
    else none

abbrev pub is_text : Option Text → Text → Bool
is_text none t = false
is_text (some s) t = same s t

-- NormalizeSigningAlgorithm: `none` is `"", false`.
unfoldable pub normalize_signing_algorithm : Text → Option Text
normalize_signing_algorithm alg =
    let upper = to_upper alg in
    if is_text upper (bytes "ES256")
    then some (bytes "ES256")
    else if is_text upper (bytes "ED25519")
    then some (bytes "Ed25519")
    else if is_text upper (bytes "ED25519PH")
    then some (bytes "Ed25519ph")
    else none

-- IsSupportedEncryptionAlgorithm
unfoldable pub is_supported_encryption_algorithm : Text → Bool
is_supported_encryption_algorithm alg =
    let lower = to_lower alg in
    is_text lower (bytes "a256gcm")
    || (is_text lower (bytes "aes-256-gcm")
        || (is_text lower (bytes "aes256gcm")
            || (is_text lower (bytes "c20p")
                || (is_text lower (bytes "chacha20-poly1305")
                    || is_text lower (bytes "chacha20poly1305")))))
