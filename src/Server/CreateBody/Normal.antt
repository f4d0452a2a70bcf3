-- ===== src/Server/CreateBody/Normal.antt =====
-- What validateV2CreateBody lets through, and in which form (internal/server/routes-request.go).
use revaulter.Base.{
  Text, bytes, same, is_empty, length, ◌≡◌, ◌≢◌, refl, sym, ap, ◌∙◌, inl, inr, true, false, ◌&&◌,
  not, none, some, ltb, arith, Bool-cases, [], ◌∷◌,
}
use revaulter.Base.Results.{ok}
use revaulter.Utils.Base64.{Decoded, nil, slice, invalid, url, encode, decode_base64_string}
use revaulter.Utils.Base64.Again.{decode_base64_string_again}
use revaulter.Protocol.Labels.{normalize_key_label, validate_note}
use revaulter.Protocol.Labels.Canonical.{key_label_canonical}
use revaulter.Protocol.Keys.{validate_public, transport_alg}
use revaulter.Protocol.Algorithms.{normalize_signing_algorithm}
use revaulter.Protocol.Algorithms.Canonical.{normalize_idem, normalize_short}
use revaulter.Server.CreateBody.{
  RequestCreateBody, encode_again, normalize_base64, check_algorithm, validate_v2_create_body,
  is_operation,
}

normal_again :
    (s t : Text) (d : Decoded)
    → decode_base64_string s ≡ d
    → encode_again d ≡ some t
    → t ≢ []
    → normalize_base64 t ≡ some t
unfolding normalize_base64
normal_again s t nil e h n = cc
normal_again s t invalid e h n = cc
normal_again s t (slice b) e h n =
    let made : encode url b ≡ t = cc in
    rw (← made) (ap encode_again (decode_base64_string_again s b e (λ q. n (sym made ∙ q))))

normalize_base64_again :
    (s t : Text) → normalize_base64 s ≡ some t → t ≢ [] → normalize_base64 t ≡ some t
normalize_base64_again s t h n =
    normal_again s t (decode_base64_string s) refl (unfold normalize_base64 in h) n

-- What the checks of a body found, and what they made of it.
record Passed (op : Text) (b b' : RequestCreateBody) : Type 0 where
  operation : is_operation op ≡ true
  label : normalize_key_label b.key_label ≡ some b'.key_label
  algorithm : check_algorithm op b.algorithm ≡ ok b'.algorithm
  some_algorithm : is_empty b.algorithm ≡ false
  short_algorithm : ltb 64 (length b.algorithm) ≡ false
  note : (not (is_empty b.note) && not (validate_note b.note)) ≡ false
  short_note : ltb 80 (length b.note) ≡ false
  encryption : same b.request_enc_alg transport_alg ≡ true
  key : validate_public b.cli_ephemeral_public_key ≡ none
  ciphertext : normalize_base64 b.mlkem_ciphertext ≡ some b'.mlkem_ciphertext
  nonce : normalize_base64 b.encrypted_payload_nonce ≡ some b'.encrypted_payload_nonce
  payload : normalize_base64 b.encrypted_payload ≡ some b'.encrypted_payload
  same_note : b'.note ≡ b.note
  same_timeout : b'.timeout ≡ b.timeout
  same_encryption : b'.request_enc_alg ≡ b.request_enc_alg
  same_key : b'.cli_ephemeral_public_key ≡ b.cli_ephemeral_public_key

passed :
    (op : Text) (b b' : RequestCreateBody) → validate_v2_create_body op b ≡ ok b' → Passed op b b'
unfolding validate_v2_create_body
passed op b b' h = record {
  operation = ground arith;
  label = ground arith;
  algorithm = ground arith;
  some_algorithm = ground arith;
  short_algorithm = ground arith;
  note = ground arith;
  short_note = ground arith;
  encryption = ground arith;
  key = ground arith;
  ciphertext = ground arith;
  nonce = ground arith;
  payload = ground arith;
  same_note = ground arith;
  same_timeout = ground arith;
  same_encryption = ground arith;
  same_key = ground arith;
}

algorithm_again :
    (op alg c : Text)
    → is_empty alg ≡ false
    → ltb 64 (length alg) ≡ false
    → check_algorithm op alg ≡ ok c
    → (check_algorithm op c ≡ ok c) × (is_empty c ≡ false) × (ltb 64 (length c) ≡ false)
unfolding check_algorithm
algorithm_again op alg c n l h = elim (Bool-cases (same op (bytes "sign"))) [
  | inl e ↦
      let known : normalize_signing_algorithm alg ≡ some c = ground arith in
      let (some_c, short_c) = normalize_short alg c known in
      (ground (arith, normalize_idem alg c known), some_c, short_c)
  | inr e ↦
      let same_alg : alg ≡ c = ground arith in
      (rw (← same_alg) (h ∙ ap ok (sym same_alg)), rw (← same_alg) n, rw (← same_alg) l)
]

label_nonempty : (s l : Text) → normalize_key_label s ≡ some l → is_empty l ≡ false
label_nonempty s [] h = absurd ((key_label_canonical [] [] ((key_label_canonical s [] h).5)).0 refl)
label_nonempty s (c ∷ l) h = refl

passes :
    (op : Text) (b : RequestCreateBody)
    → Passed op b b
    → is_empty b.key_label ≡ false
    → validate_v2_create_body op b ≡ ok b
unfolding validate_v2_create_body
passes op b p n = rw (
  p.operation, n, p.label, p.some_algorithm, p.short_algorithm, p.algorithm, p.note, p.short_note,
  p.encryption, p.key, p.ciphertext, p.nonce, p.payload,
)

-- What validateV2CreateBody accepts and rewrites is in normal form: it accepts the rewritten body
-- and leaves it as it is. (Where none of its three base64 fields has become empty.)
pub create_body_again :
    (op : Text) (b b' : RequestCreateBody)
    → validate_v2_create_body op b ≡ ok b'
    → b'.mlkem_ciphertext ≢ []
    → b'.encrypted_payload_nonce ≢ []
    → b'.encrypted_payload ≢ []
    → validate_v2_create_body op b' ≡ ok b'
create_body_again op b b' h n₁ n₂ n₃ =
    let p = passed op b b' h in
    let alg =
      algorithm_again op b.algorithm b'.algorithm p.some_algorithm p.short_algorithm p.algorithm in
    passes op b'
      (record {
        operation = p.operation;
        label = (key_label_canonical b.key_label b'.key_label p.label).5;
        algorithm = alg.0;
        some_algorithm = alg.1;
        short_algorithm = alg.2;
        note = rw (p.same_note) p.note;
        short_note = rw (p.same_note) p.short_note;
        encryption = rw (p.same_encryption) p.encryption;
        key = rw (p.same_key) p.key;
        ciphertext = normalize_base64_again b.mlkem_ciphertext b'.mlkem_ciphertext p.ciphertext n₁;
        nonce =
            normalize_base64_again b.encrypted_payload_nonce b'.encrypted_payload_nonce p.nonce n₂;
        payload = normalize_base64_again b.encrypted_payload b'.encrypted_payload p.payload n₃;
        same_note = refl;
        same_timeout = refl;
        same_encryption = refl;
        same_key = refl;
      })
      (label_nonempty b.key_label b'.key_label p.label)
