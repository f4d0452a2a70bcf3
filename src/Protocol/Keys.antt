-- ===== src/Protocol/Keys.antt =====
-- internal/protocolv2/jwk.go and the envelope's Validate in types.go: what a public transport key and
-- a response envelope must look like.
mod Tests
use revaulter.Base.{
  ℕ, Text, bytes, same, is_empty, length, Bool, true, false, ◌||◌, not, Option, none, some, ◌==◌,
  if◌then◌else◌,
}
use revaulter.Base.Results.{Result, ok, err}
use revaulter.Utils.Base64.{Decoded, nil, slice, invalid, url, decode, decode_base64_string}
use revaulter.Protocol.Envelope.{Jwk, ResponseEnvelope}

-- The errors of a key, in the order of the checks.
pub data KeyError : Type 0 where
  bad_kty bad_crv missing_coordinate private_member extra_member bad_x bad_y : KeyError

-- What decodeB64URL256, or decodeB64URLFixed, makes of n bytes.
abbrev pub of_length : ℕ → Option Text → Option Text
of_length n none = none
of_length n (some b) = if length b == n then some b else none

-- decodeB64URL256
unfoldable pub decode_b64url_256 : Text → Option Text
decode_b64url_256 s = of_length 32 (decode url s)

abbrev pub is_none {ℓ} : {A : Type ℓ} → Option A → Bool
is_none none = true
is_none (some a) = false

-- ECP256PublicJWK.ValidatePublic
unfoldable pub validate_public : Jwk → Option KeyError
validate_public j =
    if not (same j.kty (bytes "EC"))
    then some bad_kty
    else if not (same j.crv (bytes "P-256"))
    then some bad_crv
    else if is_empty j.x || is_empty j.y
    then some missing_coordinate
    else if not (is_empty j.d)
    then some private_member
    else if not (is_empty j.kid) || (not (is_empty j.alg) || not (is_empty j.key_use))
    then some extra_member
    else if is_none (decode_b64url_256 j.x)
    then some bad_x
    else if is_none (decode_b64url_256 j.y)
    then some bad_y
    else none

abbrev pub transport_alg : Text
transport_alg = bytes "ecdh-p256+mlkem768+a256gcm"

-- The errors of a response envelope, in the order of the checks.
pub data EnvelopeError : Type 0 where
  unsupported_transport_alg : EnvelopeError
  bad_key : KeyError → EnvelopeError
  missing_mlkem_ciphertext bad_mlkem_ciphertext : EnvelopeError
  missing_nonce_or_ciphertext bad_nonce bad_ciphertext : EnvelopeError

abbrev pub is_invalid : Decoded → Bool
is_invalid nil = false
is_invalid (slice b) = false
is_invalid invalid = true

-- ResponseEnvelope.Validate, past the check of the key
abbrev pub validate_fields : ResponseEnvelope → Option KeyError → Option EnvelopeError
validate_fields env (some e) = some (bad_key e)
validate_fields env none =
    if is_empty env.mlkem_ciphertext
    then some missing_mlkem_ciphertext
    else if is_invalid (decode_base64_string env.mlkem_ciphertext)
    then some bad_mlkem_ciphertext
    else if is_empty env.nonce || is_empty env.ciphertext
    then some missing_nonce_or_ciphertext
    else if is_invalid (decode_base64_string env.nonce)
    then some bad_nonce
    else if is_invalid (decode_base64_string env.ciphertext)
    then some bad_ciphertext
    else none

-- ResponseEnvelope.Validate
unfoldable pub validate_envelope : ResponseEnvelope → Option EnvelopeError
validate_envelope env =
    if not (same env.transport_alg transport_alg)
    then some unsupported_transport_alg
    else validate_fields env (validate_public env.browser_ephemeral_public_key)
