-- ===== src/Protocol/Publication.antt =====
-- internal/protocolv2/signing-key-publication.go: the proof that a user publishes a signing key.
mod Tests
use revaulter.Base.{
  ℕ, zero, suc, ◌+◌, ◌*◌, ◌/◌, ◌%◌, ℤ, pos, negsuc, Text, bytes, same, is_empty, Bool, true, false,
  ◌&&◌, ◌||◌, not, Option, none, some, List, [], ◌∷◌, ◌++◌, ◌==◌, ltb, leb, if◌then◌else◌,
}
use revaulter.Base.Results.{Result, ok, err}
use revaulter.Protocol.Timeouts.{atoi}
use revaulter.Protocol.Anchors.{AnchorCrypto, AnchorError, values_of, verify_hybrid}

-- SigningKeyPublicationPayload
pub record Payload : Type 0 where
  pub user_id : Text
  pub algorithm : Text
  pub key_label : Text
  pub key_id : Text
  pub wrapped_key_epoch : ℤ
  pub created_at : ℤ
  pub v : ℤ

-- The digits of a number, before those of `acc`; an int64 has 19 digits at most.
unfoldable pub decimal : ℕ → ℕ → Text → Text
decimal zero n acc = acc
decimal (suc fuel) n acc =
    if ltb n 10 then (n + 48) ∷ acc else decimal fuel (n / 10) ((n % 10 + 48) ∷ acc)

-- strconv.FormatInt
unfoldable pub format_int : ℤ → Text
format_int (pos n) = decimal 20 n []
format_int (negsuc n) = b'-' ∷ decimal 20 (suc n) []

-- The keys of the fields, in their order
abbrev pub payload_keys : List Text
payload_keys =
    bytes "userId"
    ∷ bytes "algorithm"
    ∷ bytes "keyLabel"
    ∷ bytes "keyId"
    ∷ bytes "wrappedKeyEpoch"
    ∷ bytes "createdAt"
    ∷ bytes "v"
    ∷ []

-- canonicalBodyFromTaggedFields, on keys and printed values
abbrev pub body_of : List Text → List Text → Text
body_of [] values = []
body_of (key ∷ keys) [] = []
body_of (key ∷ keys) (value ∷ values) =
    let rest = body_of keys values in
    elim keys [ [] ↦ key ++ b'=' ∷ value | k ∷ ks ↦ key ++ b'=' ∷ (value ++ 10 ∷ rest) ]

abbrev pub values_of_payload : Payload → List Text
values_of_payload p =
    p.user_id
    ∷ p.algorithm
    ∷ p.key_label
    ∷ p.key_id
    ∷ format_int p.wrapped_key_epoch
    ∷ format_int p.created_at
    ∷ format_int p.v
    ∷ []

-- CanonicalBody
unfoldable pub canonical_body : Payload → Text
canonical_body p = body_of payload_keys (values_of_payload p)

-- CanonicalSigningKeyPublicationMessage
unfoldable pub canonical_message : Payload → Text
canonical_message p = bytes "revaulter/v2/signing-key-publication\n" ++ canonical_body p

abbrev pub payload_of_values : List Text → Option Payload
payload_of_values (user ∷ alg ∷ label ∷ id ∷ epoch ∷ created ∷ v ∷ []) = elim (atoi epoch) [
  | none ↦ none
  | some e ↦ elim (atoi created) [
    | none ↦ none
    | some t ↦ elim (atoi v) [
      | none ↦ none
      | some n ↦ some (record {
        user_id = user;
        algorithm = alg;
        key_label = label;
        key_id = id;
        wrapped_key_epoch = e;
        created_at = t;
        v = n;
      })
    ]
  ]
]
payload_of_values _ = none

abbrev pub payload_of_result : Result AnchorError (List Text) → Option Payload
payload_of_result (err e) = none
payload_of_result (ok values) = payload_of_values values

-- ParseSigningKeyPublicationPayload, with parseTaggedFields; strconv.ParseInt is Atoi here.
unfoldable pub parse_payload : Text → Option Payload
parse_payload body = payload_of_result (values_of payload_keys body)

-- ValidateCreatedAt, for a time and a skew in nanoseconds. (Where a difference of times does not fit
-- a Duration, Sub answers with the nearest one, which is out of the window as well.)
unfoldable pub is_recent : ℕ → ℕ → ℤ → Bool
is_recent now skew (negsuc n) = false
is_recent now skew (pos n) =
    ltb 0 skew
    && (ltb 0 n && (leb (n * 1000000000) (now + skew) && leb now (n * 1000000000 + skew)))

-- VerifyHybridSigningKeyPublication
unfoldable pub verify_publication : AnchorCrypto → Text → Text → Payload → Text → Text → Bool
verify_publication c es384 mldsa87 p sig_es sig_ml =
    verify_hybrid c es384 mldsa87 (canonical_message p) sig_es sig_ml
