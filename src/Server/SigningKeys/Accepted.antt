-- ===== src/Server/SigningKeys/Accepted.antt =====
-- verifySigningKeyPublicationProof accepts nothing but what Verified says
-- (internal/server/routes-signing-keys.go).
use mathlib.Core.Path.{subst}
use revaulter.Base.{
  ℕ, ◌+◌, ◌*◌, ◌<◌, ◌≤◌, ℤ, pos, negsuc, Text, same_iff, is_empty, ◌≡◌, refl, sym, ap, ◌∙◌, inl,
  inr, true, ◌||◌, Option, none, some, arith, Bool-cases, Option-cases,
}
use revaulter.Base.Results.{Result, ok, err}
use revaulter.Sql.{Conn}
use revaulter.Protocol.Anchors.{
  AnchorCrypto, AnchorError, parse_anchor_pubkeys, parse_hybrid_signatures,
}
use revaulter.Protocol.Publication.{Payload, parse_payload, is_recent, verify_publication}
use revaulter.Db.Auth.Types as Auth
use revaulter.Db.Auth.Accounts.{Accounts, UserRow, by_id, get_user}
use revaulter.Db.Auth.Accounts.Lookup.{got_user}
use revaulter.Server.SigningKeys.Proof.{
  Bound, is_number, check_payload, check_signatures, check_owner, after_parse, verify_proof,
}
use revaulter.Server.SigningKeys.Verified.{bound_payload, IsVerified}
use revaulter.Server.SigningKeys.Lines.{Lines, parse_ok}
use revaulter.Server.SigningKeys.Signed.{keys_ok, signed_ok, signature_ok, signatures_ok}

module _ (c : AnchorCrypto) where
  abbrev Bind : ℕ → Bound → Payload → Type 0
  Bind now b p =
      (epoch : ℤ) × (created : ℕ) × (p ≡ record {
        user_id = b.user;
        algorithm = b.algorithm;
        key_label = b.key_label;
        key_id = b.key_id;
        wrapped_key_epoch = epoch;
        created_at = pos created;
        v = pos 1;
      })
      × (created * 1000000000 ≤ now + 120000000000)
      × (now ≤ created * 1000000000 + 120000000000)

  number_ok : (m : ℤ) (n : ℕ) → is_number m n ≡ true → m ≡ pos n
  number_ok (pos m) n e = ap pos (ground arith)
  number_ok (negsuc m) n e = absurd (cc)

  recent_ok :
      (now : ℕ) (m : ℤ)
      → is_recent now 120000000000 m ≡ true
      → (created : ℕ) × (m ≡ pos created)
        × (created * 1000000000 ≤ now + 120000000000)
        × (now ≤ created * 1000000000 + 120000000000)
  unfolding is_recent
  recent_ok now (pos n) e = (n, refl, ground arith, ground arith)
  recent_ok now (negsuc n) e = absurd (cc)

  payload_ok : (now : ℕ) (b : Bound) (p : Payload) → check_payload now b p ≡ none → Bind now b p
  payload_ok now b p e =
      let v = number_ok p.v 1 (ground arith) in
      let (created, t, q, q') = recent_ok now p.created_at (ground arith) in
      (
        p.wrapped_key_epoch,
        created,
        λ i. record {
          user_id = (same_iff p.user_id b.user).0 (ground arith) i;
          algorithm = (same_iff p.algorithm b.algorithm).0 (ground arith) i;
          key_label = (same_iff p.key_label b.key_label).0 (ground arith) i;
          key_id = (same_iff p.key_id b.key_id).0 (ground arith) i;
          wrapped_key_epoch = p.wrapped_key_epoch;
          created_at = t i;
          v = v i;
        },
        q,
        q',
      )

  unverified :
      (p : Payload) (k s : Result AnchorError (Text × Text))
      → check_signatures c p k s ≡ none
      → (k₁ : Text) × (k₂ : Text) × (s₁ : Text) × (s₂ : Text) × (k ≡ ok (k₁, k₂))
        × (s ≡ ok (s₁, s₂))
        × (verify_publication c k₁ k₂ p s₁ s₂ ≡ true)
  unverified p (err e) s q = absurd (cc)
  unverified p (ok k) (err e) q = absurd (cc)
  unverified p (ok (k₁, k₂)) (ok (s₁, s₂)) q = (k₁, k₂, s₁, s₂, refl, refl, ground arith)

  owner_ok :
      (p : Payload) (es ml : Text) (o : Auth.Result (Option UserRow))
      → check_owner c p es ml o ≡ none
      → (u : UserRow) × (o ≡ Auth.ok (some u))
        × (p.wrapped_key_epoch ≡ pos u.wrapped_key_epoch)
        × (check_signatures c p
              (parse_anchor_pubkeys c u.anchor_es384_public_key u.anchor_mldsa87_public_key)
              (parse_hybrid_signatures es ml)
            ≡ none)
  owner_ok p es ml (Auth.err e) q = absurd (cc)
  owner_ok p es ml (Auth.ok none) q = absurd (cc)
  owner_ok p es ml (Auth.ok (some u)) q =
      elim (Bool-cases (is_number p.wrapped_key_epoch u.wrapped_key_epoch)) [
        | inl n ↦ (u, refl, number_ok p.wrapped_key_epoch u.wrapped_key_epoch n, sym (rw n) ∙ q)
        | inr n ↦ absurd (ground arith)
      ]

  -- Proofs are accepted for a payload that binds the fields.
  bound_ok :
      (conn : Conn) (now : ℕ) (b : Bound) (payload es ml : Text) (a : Accounts) (p : Payload)
      → parse_payload payload ≡ some p
      → Bind now b p
      → check_owner c p es ml (get_user conn by_id b.user a) ≡ none
      → IsVerified c now a b payload es ml
  bound_ok conn now b payload es ml a p e (epoch, created, w, late, old) q =
      let positive : 0 < 96 = omega arith in
      let positive' : 0 < 4627 = omega arith in
      let (u, g, n, sigs) = owner_ok p es ml _ q in
      let (k₁, k₂, s₁, s₂, keys, sig, good) = unverified p _ _ sigs in
      let (es_key, ml_key, ml_length) =
        keys_ok c u.anchor_es384_public_key u.anchor_mldsa87_public_key k₁ k₂ keys in
      let (d₁, d₂) = signatures_ok es ml s₁ s₂ sig in
      let (t₁, l₁) = signature_ok es 96 s₁ positive d₁ in
      let (t₂, l₂) = signature_ok ml 4627 s₂ positive' d₂ in
      let v : p ≡ bound_payload b u.wrapped_key_epoch created =
        w
        ∙ ap (λ (z : ℤ). record (bound_payload b 0 created) { wrapped_key_epoch = z })
            (ap (λ (z : Payload). z.wrapped_key_epoch) (sym w) ∙ n) in
      let (es_t, cs_t, vs_t, lines, is_e, is_c, is_v) =
        subst (Lines payload) v (parse_ok payload p e) in
      let (x, y) =
        signed_ok c b u.wrapped_key_epoch created k₁ k₂ s₁ s₂
          (ap (λ z. verify_publication c k₁ k₂ z s₁ s₂) (sym v) ∙ good) in
      record {
        created = created;
        owner = u;
        has_owner = (got_user conn b.user a u g).1;
        epoch_text = es_t;
        created_text = cs_t;
        version_text = vs_t;
        lines = lines;
        is_epoch = is_e;
        is_created = is_c;
        is_version = is_v;
        not_future = late;
        not_old = old;
        es_key = k₁;
        is_es_key = es_key;
        ml_key = k₂;
        is_ml_key = ml_key;
        ml_key_length = ml_length;
        es_sig = s₁;
        is_es_sig = t₁;
        es_sig_length = l₁;
        ml_sig = s₂;
        is_ml_sig = t₂;
        ml_sig_length = l₂;
        es_signed = x;
        ml_signed = y;
      }

  -- verifySigningKeyPublicationProof accepts nothing but such a proof.
  pub verify_proof-IsVerified :
      (conn : Conn) (now : ℕ) (b : Bound) (payload es ml : Text) (a : Accounts)
      → verify_proof c conn now b payload es ml a ≡ none
      → IsVerified c now a b payload es ml
  unfolding verify_proof
  verify_proof-IsVerified conn now b payload es ml a e =
      elim (Bool-cases (is_empty payload || (is_empty es || is_empty ml))) [
        | inl m ↦ absurd (ground arith)
        | inr m ↦ parsed (parse_payload payload) refl (sym (rw m) ∙ e)
      ]
    where
      parsed :
          (o : Option Payload)
          → parse_payload payload ≡ o
          → after_parse c conn now b es ml a o ≡ none
          → IsVerified c now a b payload es ml
      parsed none q e = absurd (cc)
      parsed (some p) q e = elim (Option-cases (check_payload now b p)) [
        | inl h ↦
            bound_ok conn now b payload es ml a p q (payload_ok now b p h)
              (sym (rw (h, after_parse)) ∙ e)
        | inr (x, h) ↦ absurd (ground arith)
      ]
