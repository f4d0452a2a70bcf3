-- ===== src/Server/SigningKeys/Signed.antt =====
-- What the parsers and checks of the anchor's keys and signatures accept
-- (internal/protocolv2/anchor.go and jwk_p384.go).
use revaulter.Base.{
  ℕ, ◌<◌, Text, bytes, same_iff, is_empty, length, take, drop, ◌≡◌, refl, sym, ap, ◌∙◌, inl, inr,
  true, Option, none, some, ◌∷◌, ◌++◌, ◌==◌, arith, Bool-cases, Option-cases,
}
use revaulter.Base.Results.{Result, ok, err}
use revaulter.Utils.Base64.{url, decode}
use revaulter.Protocol.Envelope.{Jwk}
use revaulter.Protocol.Anchors.{
  AnchorCrypto, AnchorError, parse_anchor_pubkeys, parse_hybrid_signatures, parse_p384_body,
  decode_base64_signature, ◌>>=◌, unless, or_error, bad_x, bad_y, bad_mldsa87, to_ecdsa_public_key,
  verify_hybrid, verify_es384, verify_mldsa87, coordinate, validate_p384,
}
use revaulter.Protocol.Keys.{of_length}
use revaulter.Protocol.Publication.{
  verify_publication, canonical_message, canonical_body, format_int, decimal,
}
use revaulter.Server.SigningKeys.Proof.{Bound}
use revaulter.Server.SigningKeys.Verified.{bound_payload, message, IsEs384}

of_length_ok :
    (n : ℕ) (o : Option Text) (b : Text) → of_length n o ≡ some b → (o ≡ some b) × (length b ≡ n)
of_length_ok n none b e = absurd (cc)
of_length_ok n (some x) b e = elim (Bool-cases (length x == n)) [
  | inl q ↦ let w : x ≡ b = ground arith in (ap some w, rw (sym w) (ground arith))
  | inr q ↦ absurd (ground arith)
]

pub signature_ok :
    (s : Text) (n : ℕ) (b : Text)
    → 0 < n
    → decode_base64_signature s n ≡ ok b
    → (decode url s ≡ some b) × (length b ≡ n)
unfolding decode_base64_signature
signature_ok s n b p e = elim (Bool-cases (is_empty s)) [
  | inl q ↦ absurd (ground arith)
  | inr q ↦ elim (Option-cases (decode url s)) [
    | inl d ↦ absurd (ground arith)
    | inr (x, d) ↦ elim (Bool-cases (length x == n)) [
      | inl l ↦ let w : x ≡ b = ground arith in (d ∙ ap some w, rw (sym w) (ground arith))
      | inr l ↦ absurd (ground arith)
    ]
  ]
]

pub bind_ok {ℓ κ} :
    {A : Type ℓ} {B : Type κ} (o : Result AnchorError A) (f : A → Result AnchorError B) (b : B)
    → (o >>= f) ≡ ok b
    → (a : A) × (o ≡ ok a) × (f a ≡ ok b)
bind_ok (ok a) f b e = (a, refl, e)
bind_ok (err x) f b e = absurd (cc)

or_error_ok {ℓ} :
    {A : Type ℓ} (x : AnchorError) (o : Option A) (a : A) → or_error x o ≡ ok a → o ≡ some a
or_error_ok x none a e = absurd (cc)
or_error_ok x (some b) a e = cc

unless_ok {ℓ} :
    {A : Type ℓ} (o : Option AnchorError) (r : Result AnchorError A) (a : A)
    → unless o r ≡ ok a
    → (o ≡ none) × (r ≡ ok a)
unless_ok none r a e = (refl, e)
unless_ok (some x) r a e = absurd (cc)

pub signatures_ok :
    (es ml x y : Text)
    → parse_hybrid_signatures es ml ≡ ok (x, y)
    → (decode_base64_signature es 96 ≡ ok x) × (decode_base64_signature ml 4627 ≡ ok y)
unfolding parse_hybrid_signatures
signatures_ok es ml x y e =
    let (a, p, e₁) = bind_ok (decode_base64_signature es 96) _ (x, y) e in
    let (b, q, e₂) = bind_ok (decode_base64_signature ml 4627) _ (x, y) e₁ in (cc, cc)

module _ (c : AnchorCrypto) where
  coordinates_ok :
      (j : Jwk) (key : Text)
      → to_ecdsa_public_key c j ≡ ok key
      → (x : Text) × (y : Text) × (coordinate j.x ≡ some x)
        × (coordinate j.y ≡ some y)
        × (key ≡ 4 ∷ (x ++ y))
        × (c.on_p384 key ≡ true)
        × (j.kty ≡ bytes "EC")
        × (j.crv ≡ bytes "P-384")
  unfolding to_ecdsa_public_key validate_p384
  coordinates_ok j key e =
      let (valid, e₁) = unless_ok (validate_p384 j) _ key e in
      let (x, p, e₂) = bind_ok (or_error bad_x (coordinate j.x)) _ key e₁ in
      let (y, q, e₃) = bind_ok (or_error bad_y (coordinate j.y)) _ key e₂ in
      let on_curve : (key ≡ 4 ∷ (x ++ y)) × (c.on_p384 key ≡ true) =
        elim (Bool-cases (c.on_p384 (4 ∷ (x ++ y)))) [
          | inl o ↦ let w : 4 ∷ (x ++ y) ≡ key = ground arith in (sym w, rw (sym w) o)
          | inr o ↦ absurd (ground arith)
        ] in
      (
        x,
        y,
        or_error_ok bad_x (coordinate j.x) x p,
        or_error_ok bad_y (coordinate j.y) y q,
        on_curve.0,
        on_curve.1,
        (same_iff j.kty (bytes "EC")).0 (ground arith),
        (same_iff j.crv (bytes "P-384")).0 (ground arith),
      )

  pub keys_ok :
      (es ml k l : Text)
      → parse_anchor_pubkeys c es ml ≡ ok (k, l)
      → IsEs384 c es k × (decode url ml ≡ some l) × (length l ≡ 2592)
  unfolding parse_anchor_pubkeys
  keys_ok es ml k l e = elim (Bool-cases (is_empty es)) [
    | inl n ↦ absurd (ground arith)
    | inr n ↦ elim (Bool-cases (is_empty ml)) [
      | inl n' ↦ absurd (ground arith)
      | inr n' ↦ full (sym (rw (n, n')) ∙ e)
    ]
  ]
    where
      full :
          (parse_p384_body es >>= (λ jwk. to_ecdsa_public_key c jwk >>= (λ key.
              or_error bad_mldsa87 (of_length 2592 (decode url ml))
              >>= (λ m. let pair : Text × Text = (key, m) in ok pair))))
            ≡ ok (k, l)
          → IsEs384 c es k × (decode url ml ≡ some l) × (length l ≡ 2592)
      full e =
          let (j, p, e₁) = bind_ok (parse_p384_body es) _ (k, l) e in
          let (key, q, e₂) = bind_ok (to_ecdsa_public_key c j) _ (k, l) e₁ in
          let (m, o, e₃) =
            bind_ok (or_error bad_mldsa87 (of_length 2592 (decode url ml))) _ (k, l) e₂ in
          let v : key ≡ k = cc in
          let w : m ≡ l = cc in
          let (x, y, cx, cy, is_key, on_curve, kty, crv) = coordinates_ok j k (q ∙ ap ok v) in
          let (dx, lx) = of_length_ok 48 (decode url j.x) x cx in
          let (dy, ly) = of_length_ok 48 (decode url j.y) y cy in
          let (dm, lm) =
            of_length_ok 2592 (decode url ml) l (or_error_ok bad_mldsa87 _ l (o ∙ ap ok w)) in
          (
            record {
              jwk = j;
              parsed = p;
              kty = kty;
              crv = crv;
              x = x;
              y = y;
              is_x = dx;
              is_y = dy;
              x_length = lx;
              y_length = ly;
              is_key = is_key;
              on_curve = on_curve;
            },
            dm,
            lm,
          )

  message_ok :
      (b : Bound) (epoch created : ℕ)
      → canonical_message (bound_payload b epoch created) ≡ message b epoch created
  unfolding canonical_message canonical_body format_int decimal
  message_ok b epoch created = refl

  pub signed_ok :
      (b : Bound) (epoch created : ℕ) (k l s t : Text)
      → verify_publication c k l (bound_payload b epoch created) s t ≡ true
      → (c.ecdsa_verify k (c.sha384 (message b epoch created)) (take 48 s) (drop 48 s) ≡ true)
        × (c.mldsa_verify l (message b epoch created) t ≡ true)
  unfolding verify_publication verify_hybrid verify_es384 verify_mldsa87
  signed_ok b epoch created k l s t e =
      let m = message_ok b epoch created in (rw (sym m) (ground arith), rw (sym m) (ground arith))
