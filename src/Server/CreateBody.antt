-- ===== src/Server/CreateBody.antt =====
-- validateV2CreateBody (internal/server/routes-request.go), on RequestCreateBody of
-- internal/protocolv2/types.go.
pub mod Normal
mod Tests
use revaulter.Base.{
  ℕ, Text, bytes, same, is_empty, length, Bool, true, false, ◌&&◌, ◌||◌, not, Option, none, some,
  ltb, if◌then◌else◌,
}
use revaulter.Base.Results.{Result, ok, err}
use revaulter.Utils.Base64.{Decoded, nil, slice, invalid, url, encode, decode_base64_string}
use revaulter.Protocol.Envelope.{Jwk}
use revaulter.Protocol.Keys.{KeyError, validate_public, transport_alg}
use revaulter.Protocol.Labels.{normalize_key_label, validate_note}
use revaulter.Protocol.Algorithms.{normalize_signing_algorithm, is_supported_encryption_algorithm}

pub record RequestCreateBody : Type 0 where
  pub key_label : Text
  pub algorithm : Text
  pub timeout : Text
  pub note : Text
  pub request_enc_alg : Text
  pub cli_ephemeral_public_key : Jwk
  pub mlkem_ciphertext : Text
  pub encrypted_payload_nonce : Text
  pub encrypted_payload : Text

-- The errors, in the order of the checks.
pub data BodyError : Type 0 where
  invalid_operation missing_key_label bad_key_label missing_algorithm long_algorithm : BodyError
  unsupported_signing_algorithm unsupported_encryption_algorithm : BodyError
  bad_note long_note unsupported_request_enc_alg : BodyError
  bad_key : KeyError → BodyError
  bad_mlkem_ciphertext bad_encrypted_payload_nonce bad_encrypted_payload : BodyError

infixl 5 ◌>>=◌
abbrev pub ◌>>=◌ {ℓ κ} :
    {A : Type ℓ} {B : Type κ} → Result BodyError A → (A → Result BodyError B) → Result BodyError B
ok a >>= f = f a
err e >>= f = err e

abbrev pub check : Bool → BodyError → Result BodyError (Unit {0})
check true e = ok tt
check false e = err e

abbrev pub or_error {ℓ} : {A : Type ℓ} → BodyError → Option A → Result BodyError A
or_error e none = err e
or_error e (some a) = ok a

abbrev pub no_error : Option KeyError → Result BodyError (Unit {0})
no_error none = ok tt
no_error (some e) = err (bad_key e)

-- `err != nil || decoded == nil` is refused, and else the bytes are encoded again.
abbrev pub encode_again : Decoded → Option Text
encode_again nil = none
encode_again (slice b) = some (encode url b)
encode_again invalid = none

unfoldable pub normalize_base64 : Text → Option Text
normalize_base64 s = encode_again (decode_base64_string s)

abbrev pub is_encryption : Text → Bool
is_encryption op = same op (bytes "encrypt") || same op (bytes "decrypt")

abbrev pub is_operation : Text → Bool
is_operation op = is_encryption op || same op (bytes "sign")

-- The algorithm that is stored: canonical for a signature, and else as it came.
unfoldable pub check_algorithm : Text → Text → Result BodyError Text
check_algorithm op alg =
    if same op (bytes "sign")
    then or_error unsupported_signing_algorithm (normalize_signing_algorithm alg)
    else if is_encryption op && not (is_supported_encryption_algorithm alg)
    then err unsupported_encryption_algorithm
    else ok alg

-- validateV2CreateBody: the body as it has rewritten it
unfoldable pub validate_v2_create_body :
    Text → RequestCreateBody → Result BodyError RequestCreateBody
validate_v2_create_body op b = do
  ok_op ← check (is_operation op) invalid_operation
  some_label ← check (not (is_empty b.key_label)) missing_key_label
  label ← or_error bad_key_label (normalize_key_label b.key_label)
  some_alg ← check (not (is_empty b.algorithm)) missing_algorithm
  short_alg ← check (not (ltb 64 (length b.algorithm))) long_algorithm
  alg ← check_algorithm op b.algorithm
  good_note ← check (not (not (is_empty b.note) && not (validate_note b.note))) bad_note
  short_note ← check (not (ltb 80 (length b.note))) long_note
  enc ← check (same b.request_enc_alg transport_alg) unsupported_request_enc_alg
  key ← no_error (validate_public b.cli_ephemeral_public_key)
  ciphertext ← or_error bad_mlkem_ciphertext (normalize_base64 b.mlkem_ciphertext)
  nonce ← or_error bad_encrypted_payload_nonce (normalize_base64 b.encrypted_payload_nonce)
  payload ← or_error bad_encrypted_payload (normalize_base64 b.encrypted_payload)
  ok (record b {
    key_label = label;
    algorithm = alg;
    mlkem_ciphertext = ciphertext;
    encrypted_payload_nonce = nonce;
    encrypted_payload = payload;
  })
