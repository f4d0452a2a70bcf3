-- ===== src/Protocol/Keys/Tests.antt =====
-- Keys and envelopes that are refused, and one key that is not.
use revaulter.Base.{Text, bytes, same, ◌≡◌, refl, none, some, []}
use revaulter.Utils.Base64.{decode, read_digits, decode_digit, bytes_of}
use revaulter.Protocol.Envelope.{Jwk, ResponseEnvelope}
use revaulter.Protocol.Keys.{
  validate_public, decode_b64url_256, validate_envelope, private_member, bad_x,
  unsupported_transport_alg,
}

-- 32 bytes in base64
abbrev coordinate : Text
coordinate = bytes "AAAAAAAAAAAAAAAAAAAAAAAAAAAAAAAAAAAAAAAAAAA"

abbrev jwk : Jwk
jwk = record {
  kty = bytes "EC";
  crv = bytes "P-256";
  x = coordinate;
  y = coordinate;
  d = [];
  kid = [];
  alg = [];
  key_use = [];
}

good_key : validate_public jwk ≡ none
unfolding validate_public decode_b64url_256 decode read_digits decode_digit bytes_of same
good_key = refl

private_key : validate_public (record jwk { d = coordinate }) ≡ some private_member
unfolding validate_public same
private_key = refl

short_key : validate_public (record jwk { x = bytes "AAAA" }) ≡ some bad_x
unfolding validate_public decode_b64url_256 decode read_digits decode_digit bytes_of same
short_key = refl

abbrev envelope : ResponseEnvelope
envelope = record {
  transport_alg = bytes "rsa";
  browser_ephemeral_public_key = jwk;
  mlkem_ciphertext = bytes "bQ";
  nonce = bytes "bg";
  ciphertext = bytes "Yw";
  result_type = [];
}

other_alg : validate_envelope envelope ≡ some unsupported_transport_alg
unfolding validate_envelope same
other_alg = refl
