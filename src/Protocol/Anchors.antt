-- ===== src/Protocol/Anchors.antt =====
-- The keys and signatures of the hybrid anchor (internal/protocolv2/jwk_p384.go and anchor.go, and
-- parseAnchorPubkeys and parseHybridSignatures of internal/server/routes-auth.go).
mod Tests
use revaulter.Base.{
  ℕ, ◌*◌, ◌^◌, Text, bytes, same, is_empty, length, take, drop, split, Bool, true, false, ◌&&◌,
  ◌||◌, not, Option, none, some, List, [], ◌∷◌, ◌++◌, ◌==◌, ltb, if◌then◌else◌,
}
use revaulter.Base.Results.{Result, ok, err}
use revaulter.Utils.Base64.{url, decode}
use revaulter.Protocol.Envelope.{Jwk}
use revaulter.Protocol.Keys.{of_length, is_none}

-- What the standard library and the ML-DSA package do for anchors.
pub record AnchorCrypto : Type 0 where
  -- ecdsa.ParseUncompressedPublicKey accepts these bytes on P-384
  pub on_p384 : Text → Bool
  pub sha384 : Text → Text
  -- ecdsa.Verify, on a key's bytes, a digest, r and s
  pub ecdsa_verify : Text → Text → Text → Text → Bool
  -- mldsa.NewPublicKey accepts these bytes
  pub is_mldsa87_key : Text → Bool
  -- mldsa.Verify, on a key's bytes, a message and a signature
  pub mldsa_verify : Text → Text → Text → Bool

pub data AnchorError : Type 0 where
  missing_es384 missing_mldsa87 wrong_lines missing_separator wrong_key : AnchorError
  bad_kty bad_crv missing_coordinate private_member extra_member bad_x bad_y off_curve : AnchorError
  bad_mldsa87 empty_signature bad_signature : AnchorError

abbrev pub unless {ℓ} :
    {A : Type ℓ} → Option AnchorError → Result AnchorError A → Result AnchorError A
unless none a = a
unless (some e) a = err e

abbrev pub or_error {ℓ} : {A : Type ℓ} → AnchorError → Option A → Result AnchorError A
or_error e none = err e
or_error e (some a) = ok a

infixl 5 ◌>>=◌
abbrev pub ◌>>=◌ {ℓ κ} :
    {A : Type ℓ} {B : Type κ}
    → Result AnchorError A
    → (A → Result AnchorError B)
    → Result AnchorError B
ok a >>= f = f a
err e >>= f = err e

-- strings.Cut at the first separator
abbrev pub cons_key : ℕ → Option (Text × Text) → Option (Text × Text)
cons_key c none = none
cons_key c (some (key, value)) = some (c ∷ key, value)

unfoldable pub cut : ℕ → Text → Option (Text × Text)
cut sep [] = none
cut sep (c ∷ s) = let rest = cut sep s in if c == sep then some ([], s) else cons_key c rest

-- One line `key=value` of a canonical body
unfoldable pub value_of : Text → Text → Result AnchorError Text
value_of key line = elim (cut b'=' line) [
  | none ↦ err missing_separator
  | some (k, value) ↦ if same k key then ok value else err wrong_key
]

abbrev pub values_of_lines : List Text → List Text → Result AnchorError (List Text)
values_of_lines [] [] = ok []
values_of_lines [] (line ∷ lines) = err wrong_lines
values_of_lines (key ∷ keys) [] = err wrong_lines
values_of_lines (key ∷ keys) (line ∷ lines) = do
  value ← value_of key line
  values ← values_of_lines keys lines
  ok (value ∷ values)

-- The values of a body that has the expected keys, in their order. The number of lines is looked at
-- first.
unfoldable pub values_of : List Text → Text → Result AnchorError (List Text)
values_of keys body =
    if length (split 10 body) == length keys
    then values_of_lines keys (split 10 body)
    else err wrong_lines

abbrev pub jwk_of_values : List Text → Result AnchorError Jwk
jwk_of_values (crv ∷ kty ∷ x ∷ y ∷ []) =
    ok (record { kty = kty; crv = crv; x = x; y = y; d = []; kid = []; alg = []; key_use = [] })
jwk_of_values _ = err wrong_lines

-- ParseECP384PublicJWKCanonicalBody
unfoldable pub parse_p384_body : Text → Result AnchorError Jwk
parse_p384_body body = do
  values ← values_of (bytes "crv" ∷ bytes "kty" ∷ bytes "x" ∷ bytes "y" ∷ []) body
  jwk_of_values values

-- decodeB64URLFixed, on a coordinate of P-384
abbrev pub coordinate : Text → Option Text
coordinate s = of_length 48 (decode url s)

-- ECP384PublicJWK.ValidatePublic
unfoldable pub validate_p384 : Jwk → Option AnchorError
validate_p384 j =
    if not (same j.kty (bytes "EC"))
    then some bad_kty
    else if not (same j.crv (bytes "P-384"))
    then some bad_crv
    else if is_empty j.x || is_empty j.y
    then some missing_coordinate
    else if not (is_empty j.d)
    then some private_member
    else if not (is_empty j.kid) || (not (is_empty j.alg) || not (is_empty j.key_use))
    then some extra_member
    else if is_none (coordinate j.x)
    then some bad_x
    else if is_none (coordinate j.y)
    then some bad_y
    else none

-- DecodeBase64Signature
unfoldable pub decode_base64_signature : Text → ℕ → Result AnchorError Text
decode_base64_signature s size = if is_empty s then err empty_signature else elim (decode url s) [
  | none ↦ err bad_signature
  | some b ↦ if ltb 0 size && not (length b == size) then err bad_signature else ok b
]

-- parseHybridSignatures
unfoldable pub parse_hybrid_signatures : Text → Text → Result AnchorError (Text × Text)
parse_hybrid_signatures es384 mldsa87 = do
  es ← decode_base64_signature es384 96
  ml ← decode_base64_signature mldsa87 4627
  ok (es, ml)

module _ (c : AnchorCrypto) where
  -- ECP384PublicJWK.ToECDSAPublicKey: the bytes of the key
  unfoldable pub to_ecdsa_public_key : Jwk → Result AnchorError Text
  to_ecdsa_public_key j = unless (validate_p384 j) (do
    x ← or_error bad_x (coordinate j.x)
    y ← or_error bad_y (coordinate j.y)
    if c.on_p384 (4 ∷ (x ++ y)) then ok (4 ∷ (x ++ y)) else err off_curve)

  -- parseAnchorPubkeys
  unfoldable pub parse_anchor_pubkeys : Text → Text → Result AnchorError (Text × Text)
  parse_anchor_pubkeys es384 mldsa87 =
      if is_empty es384
      then err missing_es384
      else if is_empty mldsa87
      then err missing_mldsa87
      else do
        jwk ← parse_p384_body es384
        key ← to_ecdsa_public_key jwk
        ml ← or_error bad_mldsa87 (of_length 2592 (decode url mldsa87))
        ok (key, ml)

  -- verifyES384
  unfoldable pub verify_es384 : Text → Text → Text → Bool
  verify_es384 key msg sig =
      length sig == 96 && c.ecdsa_verify key (c.sha384 msg) (take 48 sig) (drop 48 sig)

  -- verifyMLDSA87, with UnmarshalMLDSA87PublicKey
  unfoldable pub verify_mldsa87 : Text → Text → Text → Bool
  verify_mldsa87 key msg sig =
      (length key == 2592)
      && (c.is_mldsa87_key key && ((length sig == 4627) && c.mldsa_verify key msg sig))

  -- verifyHybrid
  unfoldable pub verify_hybrid : Text → Text → Text → Text → Text → Bool
  verify_hybrid es384 mldsa87 msg sig_es sig_ml =
      verify_es384 es384 msg sig_es && verify_mldsa87 mldsa87 msg sig_ml
