-- ===== src/Protocol/SigningJwk.antt =====
-- internal/protocolv2/signing_jwk.go and validateSigningJWKAndPEM of
-- internal/server/routes-signing-keys.go: the public keys that a browser sends.
use revaulter.Base.{
  Text, bytes, same, is_empty, length, Bool, ◌&&◌, ◌||◌, not, Option, none, some, ◌==◌, ◌∷◌, ◌++◌,
  if◌then◌else◌,
}
use revaulter.Base.Results.{Result, ok, err}
use revaulter.Utils.Base64.{url, decode, encode}
use revaulter.Protocol.Keys.{of_length, is_none, decode_b64url_256}

-- ECP256SigningJWK; an Ed25519SigningJWK is one whose `y` is empty.
pub record SigningJwk : Type 0 where
  pub kty : Text
  pub crv : Text
  pub x : Text
  pub y : Text
  pub alg : Text
  pub key_use : Text
  pub kid : Text
  pub d : Text

-- What x509.ParsePKIXPublicKey finds: a key with a method ECDH, which may fail or give a key on a
-- curve with its bytes; an Ed25519 key; or another one.
pub data PkixKey : Type 0 where
  convertible : Option (Bool × Text) → PkixKey
  ed25519 : Text → PkixKey
  other : PkixKey

-- What the standard library does for these functions.
pub record Crypto : Type 0 where
  -- json.Unmarshal into either of the two records, and json.Marshal
  pub unmarshal_ec : Text → Option SigningJwk
  pub unmarshal_ed : Text → Option SigningJwk
  pub marshal_ec : SigningJwk → Text
  pub marshal_ed : SigningJwk → Text
  -- pem.Decode: the type and the bytes of the first block
  pub pem_decode : Text → Option (Text × Text)
  pub parse_pkix : Text → Option PkixKey
  -- ecdh.P256().NewPublicKey accepts these bytes
  pub on_p256 : Text → Bool
  pub sha256 : Text → Text

pub data JwkError : Type 0 where
  bad_json bad_kty bad_crv missing_coordinate private_member bad_alg bad_use bad_x bad_y : JwkError
  no_pem_block bad_pem_type bad_pkix not_p256 wrong_key_type bad_length off_curve : JwkError
  missing_jwk missing_pem mismatch unsupported_algorithm : JwkError

abbrev pub is_other_than : Text → Text → Bool
is_other_than s t = not (is_empty s) && not (same s t)

-- ECP256SigningJWK.ValidateSigningKey
unfoldable pub validate_ec : SigningJwk → Option JwkError
validate_ec j =
    if not (same j.kty (bytes "EC"))
    then some bad_kty
    else if not (same j.crv (bytes "P-256"))
    then some bad_crv
    else if is_empty j.x || is_empty j.y
    then some missing_coordinate
    else if not (is_empty j.d)
    then some private_member
    else if is_other_than j.alg (bytes "ES256")
    then some bad_alg
    else if is_other_than j.key_use (bytes "sig")
    then some bad_use
    else if is_none (decode_b64url_256 j.x)
    then some bad_x
    else if is_none (decode_b64url_256 j.y)
    then some bad_y
    else none

-- Ed25519SigningJWK.ValidateSigningKey
unfoldable pub validate_ed : SigningJwk → Option JwkError
validate_ed j =
    if not (same j.kty (bytes "OKP"))
    then some bad_kty
    else if not (same j.crv (bytes "Ed25519"))
    then some bad_crv
    else if is_empty j.x
    then some missing_coordinate
    else if not (is_empty j.d)
    then some private_member
    else if is_other_than j.alg (bytes "EdDSA")
    then some bad_alg
    else if is_other_than j.key_use (bytes "sig")
    then some bad_use
    else if is_none (of_length 32 (decode url j.x))
    then some bad_x
    else none

-- What a value is, once the check of it has found no error.
abbrev pub unless {ℓ} : {A : Type ℓ} → Option JwkError → A → Result JwkError A
unless none a = ok a
unless (some e) a = err e

abbrev pub or_error {ℓ} : {A : Type ℓ} → JwkError → Option A → Result JwkError A
or_error e none = err e
or_error e (some a) = ok a

infixl 5 ◌>>=◌
abbrev pub ◌>>=◌ {ℓ κ} :
    {A : Type ℓ} {B : Type κ} → Result JwkError A → (A → Result JwkError B) → Result JwkError B
ok a >>= f = f a
err e >>= f = err e

module _ (c : Crypto) where
  -- ParseECP256SigningJWK
  unfoldable pub parse_ec_jwk : Text → Result JwkError SigningJwk
  parse_ec_jwk raw = do j ← or_error bad_json (c.unmarshal_ec raw); unless (validate_ec j) j

  -- ParseEd25519SigningJWK
  unfoldable pub parse_ed_jwk : Text → Result JwkError SigningJwk
  parse_ed_jwk raw = do j ← or_error bad_json (c.unmarshal_ed raw); unless (validate_ed j) j

  -- The PEM block and the key in it, which both parsers begin with.
  abbrev pub pkix_block : Text × Text → Result JwkError PkixKey
  pkix_block (kind, body) =
      if same kind (bytes "PUBLIC KEY")
      then or_error bad_pkix (c.parse_pkix body)
      else err bad_pem_type

  abbrev pub p256_bytes : PkixKey → Result JwkError Text
  p256_bytes (convertible none) = err not_p256
  p256_bytes (convertible (some (is_p256, raw))) = if is_p256 then ok raw else err not_p256
  p256_bytes (ed25519 raw) = err wrong_key_type
  p256_bytes other = err wrong_key_type

  -- ParseECP256SigningPEM
  unfoldable pub parse_ec_pem : Text → Result JwkError Text
  parse_ec_pem pem = do
    block ← or_error no_pem_block (c.pem_decode pem)
    key ← pkix_block block
    p256_bytes key

  abbrev pub ed25519_bytes : PkixKey → Result JwkError Text
  ed25519_bytes (convertible k) = err wrong_key_type
  ed25519_bytes (ed25519 raw) = if length raw == 32 then ok raw else err bad_length
  ed25519_bytes other = err wrong_key_type

  -- ParseEd25519SigningPEM
  unfoldable pub parse_ed_pem : Text → Result JwkError Text
  parse_ed_pem pem = do
    block ← or_error no_pem_block (c.pem_decode pem)
    key ← pkix_block block
    ed25519_bytes key

  -- ECP256SigningJWK.ToECDHPublicKey: the bytes of the key
  unfoldable pub to_ecdh_public_key : SigningJwk → Result JwkError Text
  to_ecdh_public_key j = do
    x ← or_error bad_x (decode_b64url_256 j.x)
    y ← or_error bad_y (decode_b64url_256 j.y)
    if c.on_p256 (4 ∷ (x ++ y)) then ok (4 ∷ (x ++ y)) else err off_curve

  -- Ed25519SigningJWK.ToPublicKey
  unfoldable pub to_public_key : SigningJwk → Result JwkError Text
  to_public_key j = do
    valid ← unless (validate_ed j) j
    or_error bad_x (of_length 32 (decode url j.x))

  -- ECP256SigningJWK.Thumbprint
  unfoldable pub thumbprint_ec : SigningJwk → Result JwkError Text
  thumbprint_ec j =
      let canonical =
        bytes "{\"crv\":\""
        ++ (j.crv
            ++ (bytes "\",\"kty\":\""
                ++ (j.kty
                    ++ (bytes "\",\"x\":\""
                        ++ (j.x ++ (bytes "\",\"y\":\"" ++ (j.y ++ bytes "\"}"))))))) in
      unless (validate_ec j) (encode url (c.sha256 canonical))

  -- Ed25519SigningJWK.Thumbprint
  unfoldable pub thumbprint_ed : SigningJwk → Result JwkError Text
  thumbprint_ed j =
      let canonical =
        bytes "{\"crv\":\""
        ++ (j.crv
            ++ (bytes "\",\"kty\":\""
                ++ (j.kty ++ (bytes "\",\"x\":\"" ++ (j.x ++ bytes "\"}"))))) in
      unless (validate_ed j) (encode url (c.sha256 canonical))

  -- The two cases of the switch: the key's id and its canonical JSON
  unfoldable pub validate_es256 : Text → Text → Result JwkError (Text × Text)
  validate_es256 jwk pem = do
    j ← parse_ec_jwk jwk
    raw ← parse_ec_pem pem
    pub_bytes ← to_ecdh_public_key j
    kid ← (if same pub_bytes raw then thumbprint_ec j else err mismatch)
    ok (kid, c.marshal_ec j)

  unfoldable pub validate_ed25519 : Text → Text → Result JwkError (Text × Text)
  validate_ed25519 jwk pem = do
    j ← parse_ed_jwk jwk
    raw ← parse_ed_pem pem
    pub_bytes ← to_public_key j
    kid ← (if same pub_bytes raw then thumbprint_ed j else err mismatch)
    ok (kid, c.marshal_ed j)

  -- validateSigningJWKAndPEM
  unfoldable pub validate_signing_jwk_and_pem : Text → Text → Text → Result JwkError (Text × Text)
  validate_signing_jwk_and_pem algorithm jwk pem =
      if is_empty jwk
      then err missing_jwk
      else if is_empty pem
      then err missing_pem
      else if same algorithm (bytes "ES256")
      then validate_es256 jwk pem
      else if same algorithm (bytes "Ed25519") || same algorithm (bytes "Ed25519ph")
      then validate_ed25519 jwk pem
      else err unsupported_algorithm
