-- ===== src/Server/SigningKeys/Proven.antt =====
-- No key is published without a proof that was verified (internal/server/routes-signing-keys.go and
-- autoStoreSigningKey of internal/server/routes-api.go).
use revaulter.Base.{
  ℕ, Text, is_empty, text_eq, ◌≡◌, refl, inl, inr, true, false, ◌&&◌, not, Option, none, some, All,
  arith, Bool-cases, Option-cases, if_cases,
}
use revaulter.Base.Results.{Result, ok, err}
use revaulter.Sql.{Conn, up, down}
use revaulter.Time.{unix}
use revaulter.Protocol.Anchors.{AnchorCrypto}
use revaulter.Protocol.SigningJwk.{Crypto}
use revaulter.Db.SigningKeys
use revaulter.Db.SigningKeys.{
  SigningKey, SigningKeys, InsertSigningKeyInput, IsIndexed, id_of, find_id, row_of, create,
  auto_store_unpublished, delete_key, is_owned, get_for_user, set_flag, set_published, set_proof,
  lacks_proof, store_publication_proof, has_publication_proof,
}
use revaulter.Db.SigningKeys.Slots.{
  step-IsIndexed, creates, auto_stores, deletes, publishes, proves,
}
use revaulter.Db.SigningKeys.Slots as Slots
use revaulter.Db.SigningKeys.Rows.{create_all}
use revaulter.Db.Audit
use revaulter.Db.Audit.{AuditEvent, AuditLog}
use revaulter.Db.Auth.Accounts.{Accounts}
use revaulter.Server.AuditTrail.{Context, Objects}
use revaulter.Server.State.{Tables, execute_in_transaction}
use revaulter.Server.SigningKeys.Proof.{ProofError}
use revaulter.Server.SigningKeys.Verified.{IsVerified}
use revaulter.Server.SigningKeys.Accepted.{verify_proof-IsVerified}
use revaulter.Server.SigningKeys.{
  Answer, Answers, Flags, CreateRequest, has_proof, internal, input_of, recorded, checked,
  after_create, create_body, answered, create_valid, signing_key_create, validate_create,
}

module _ (json : Objects) (flags : Flags) (crypto : Crypto) (anchors : AnchorCrypto)
    (seen : ℕ → Accounts → Type 0) where
  -- The stored proof was good for this key and its user, at a time and with the accounts of a moment
  -- that was seen.
  abbrev pub Verified : SigningKey → Type 0
  Verified k =
      (now : ℕ) × (a : Accounts) × seen now a
      × IsVerified anchors now a
          (record {
            user = k.user_id;
            algorithm = k.algorithm;
            key_label = k.key_label;
            key_id = k.id;
          })
          k.publication_payload k.publication_signature_es384 k.publication_signature_mldsa87

  pub record IsProven (k : SigningKey) : Type 0 where
    pub proof : k.published ≡ true → has_publication_proof k ≡ true
    pub verified : has_publication_proof k ≡ true → Verified k

  pub record IsSafe (t : SigningKeys) : Type 0 where
    pub indexed : IsIndexed t
    pub proven : All IsProven t

  abbrev pub Safe : Tables → Type 0
  Safe t = IsSafe t.signing_keys

  -- A transaction keeps what its function keeps.
  pub tx-Safe :
      (commit : Conn) (t : Tables) (x : Result Answer SigningKey × Tables)
      → Safe t
      → Safe x.1
      → Safe (execute_in_transaction commit internal t x).1
  tx-Safe commit t (err e, t') v w = v
  tx-Safe up t (ok k, t') v w = w
  tx-Safe down t (ok k, t') v w = v

  pub answered-Safe :
      (done : SigningKey → Answer) (x : Result Answer SigningKey × Tables)
      → Safe x.1
      → Safe (answered json flags crypto anchors done x).1
  answered-Safe done (err e, t) v = v
  answered-Safe done (ok k, t) v = v

  pub recorded-Safe :
      (k : SigningKey) (t : Tables) (w : Audit.Result AuditEvent × AuditLog)
      → Safe t
      → Safe (recorded json flags crypto anchors k t w).1
  recorded-Safe k t (Audit.ok e, log) v = v
  recorded-Safe k t (Audit.err e, log) v = v

  after_create-Safe :
      (a : Answers) (c : Context) (t : Tables) (r : SigningKeys.Result SigningKey × SigningKeys)
      → Safe t
      → IsSafe r.1
      → Safe (after_create json flags crypto anchors a c t r).1
  after_create-Safe a c t (SigningKeys.err SigningKeys.already_exists, keys) v w = v
  after_create-Safe a c t (SigningKeys.err e, keys) v w = v
  after_create-Safe a c t (SigningKeys.ok k, keys) v w =
      recorded-Safe k (record t { signing_keys = keys }) _ w

  create-IsSafe :
      (conn : Conn) (now : ℕ) (i : InsertSigningKeyInput) (t : SigningKeys)
      → IsSafe t
      → IsProven (row_of (unix now) i)
      → IsSafe (create conn now i t).1
  create-IsSafe conn now i t v p = record {
    indexed = unfold Slots.step in step-IsIndexed (conn, creates now i) t v.indexed;
    proven = create_all IsProven conn now i t v.proven p;
  }

  create_body-Safe :
      (a : Answers) (c : Context) (i : InsertSigningKeyInput) (t : Tables)
      → i.user_id ≡ c.user_id
      → (i.published
          && not (
              has_proof i.publication_payload i.publication_signature_es384
                i.publication_signature_mldsa87))
        ≡ false
      → seen a.check_clock t.accounts
      → Safe t
      → Safe (create_body json flags crypto anchors a c i t).1
  unfolding has_publication_proof
  create_body-Safe a c i t u h noted v =
      elim (Bool-cases (
        has_proof i.publication_payload i.publication_signature_es384
          i.publication_signature_mldsa87)) [
            | inl q ↦ elim (Option-cases checks) [
              | inl e ↦
                  rw (q, create_body, e)
                    (after_create-Safe a c t _ v (
                      create-IsSafe a.first a.clock i t.signing_keys v (record {
                        proof = λ n. q;
                        verified = λ n. (
                          a.check_clock,
                          t.accounts,
                          noted,
                          verify_proof-IsVerified anchors a.owner a.check_clock _ _ _ _ t.accounts
                              (rw u e),
                        );
                      })))
              | inr (x, e) ↦ rw (q, create_body, e) v
            ]
            | inr q ↦
                rw (q, create_body)
                  (after_create-Safe a c t _ v (
                    create-IsSafe a.first a.clock i t.signing_keys v (record {
                      proof = λ n. ground arith;
                      verified = λ n. absurd (ground arith);
                    })))
          ]
    where
      checks : Option ProofError
      checks =
          checked json flags crypto anchors a c i.algorithm i.key_label i.id i.publication_payload
            i.publication_signature_es384 i.publication_signature_mldsa87 t

  pub create_keeps :
      (a : Answers) (c : Context) (body : Option CreateRequest) (t : Tables)
      → seen a.check_clock t.accounts
      → Safe t
      → Safe (signing_key_create json flags crypto anchors a c body t).1
  unfolding signing_key_create
  create_keeps a c none t noted v =
      if_cases (λ (x : Answer × Tables). Safe x.1) (is_empty c.user_id) (λ e. v) (λ e. v)
  create_keeps a c (some r) t noted v =
      if_cases (λ (x : Answer × Tables). Safe x.1) (is_empty c.user_id) (λ e. v)
        (λ e. valid (validate_create json flags crypto anchors r))
    where
      valid :
          (o : Option (Text × Text × Text × Text))
          → Safe (create_valid json flags crypto anchors a c r o t).1
      valid none = v
      valid (some (alg, label, kid, jwk)) =
          if_cases (λ (x : Answer × Tables). Safe x.1) _ (λ e. v)
            (λ e. answered-Safe Answer.created _ (
              tx-Safe a.commit t _ v (
                create_body-Safe a c (input_of json flags crypto anchors c r alg label kid jwk) t
                  refl e noted v)))
