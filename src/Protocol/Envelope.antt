-- ===== src/Protocol/Envelope.antt =====
-- The E2EE envelopes of internal/protocolv2/types.go and the public JWK of jwk.go.
use revaulter.Base.{Text}

-- ECP256PublicJWK
pub record Jwk : Type 0 where
  pub kty : Text
  pub crv : Text
  pub x : Text
  pub y : Text
  pub d : Text
  pub kid : Text
  pub alg : Text
  pub key_use : Text

pub record ResponseEnvelope : Type 0 where
  pub transport_alg : Text
  pub browser_ephemeral_public_key : Jwk
  pub mlkem_ciphertext : Text
  pub nonce : Text
  pub ciphertext : Text
  pub result_type : Text
