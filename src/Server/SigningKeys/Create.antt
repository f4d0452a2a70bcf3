-- ===== src/Server/SigningKeys/Create.antt =====
-- RouteV2APISigningKeyCreate (internal/server/routes-signing-keys.go).
use revaulter.Base.{
  Text, bytes, is_empty, Bool, ◌&&◌, not, Option, none, some, List, [], ◌∷◌, if◌then◌else◌,
}
use revaulter.Base.Results.{Result, ok, err}
use revaulter.Protocol.Labels.{normalize_key_label}
use revaulter.Protocol.Algorithms.{normalize_signing_algorithm}
use revaulter.Protocol.SigningJwk.{Crypto, validate_signing_jwk_and_pem}
use revaulter.Protocol.Anchors.{AnchorCrypto}
use revaulter.Db.SigningKeys
use revaulter.Db.SigningKeys.{
  SigningKey, InsertSigningKeyInput, already_exists, not_found, create, delete_key, get_for_user,
  set_published, store_publication_proof, has_publication_proof,
}
use revaulter.Db.Audit
use revaulter.Db.Audit.{AuditEvent, AuditLog}
use revaulter.Server.AuditTrail.{Context, AuditFields, Objects, audit_event}
use revaulter.Server.State.{Tables, execute_in_transaction}
use revaulter.Server.SigningKeys.Proof.{ProofError, verify_proof}
use revaulter.Server.SigningKeys.Types.{
  CreateRequest, has_proof, Answer, error, internal, created, Answers, Flags, or_empty, no_session,
}

module _ (json : Objects) (flags : Flags) (crypto : Crypto) (anchors : AnchorCrypto) where
  abbrev pub key_fields : Text → Text → Text → List (Text × Bool) → SigningKey → AuditFields
  key_fields event user id bools k = record {
    event_type = event;
    outcome = bytes "success";
    target_user_id = [];
    signing_key_id = id;
    credential_id = [];
    request_state = [];
    metadata = or_empty (
        flags ((bytes "algorithm", k.algorithm) ∷ (bytes "keyLabel", k.key_label) ∷ [])
          ((bytes "published", k.published) ∷ bools));
    auth_method = bytes "session";
    actor_user_id = user;
  }

  -- The end of each transaction: the audit row, whose error undoes the rest.
  abbrev pub recorded :
      SigningKey → Tables → Audit.Result AuditEvent × AuditLog → Result Answer SigningKey × Tables
  recorded k t (Audit.ok e, log) = (ok k, record t { audit = log })
  recorded k t (Audit.err e, log) = (err internal, t)

  -- v2SigningKeyCreateRequest.Validate: the algorithm and the label in canonical form, the key's id
  -- and its JWK
  abbrev pub with_label : CreateRequest → Text → Option Text → Option (Text × Text × Text × Text)
  with_label r alg none = none
  with_label r alg (some label) = elim (validate_signing_jwk_and_pem crypto alg r.jwk r.pem) [
    | err e ↦ none
    | ok (kid, jwk) ↦ some (alg, label, kid, jwk)
  ]

  abbrev pub with_algorithm : CreateRequest → Option Text → Option (Text × Text × Text × Text)
  with_algorithm r none = none
  with_algorithm r (some alg) =
      if is_empty r.key_label then none else with_label r alg (normalize_key_label r.key_label)

  unfoldable pub validate_create : CreateRequest → Option (Text × Text × Text × Text)
  validate_create r =
      if is_empty r.algorithm
      then none
      else with_algorithm r (normalize_signing_algorithm r.algorithm)

  abbrev pub input_of : Context → CreateRequest → Text → Text → Text → Text → InsertSigningKeyInput
  input_of c r alg label kid jwk = record {
    id = kid;
    user_id = c.user_id;
    algorithm = alg;
    key_label = label;
    jwk = jwk;
    pem = r.pem;
    published = r.published;
    publication_payload = r.payload;
    publication_signature_es384 = r.signature_es384;
    publication_signature_mldsa87 = r.signature_mldsa87;
  }

  -- The check of a proof, in a transaction
  abbrev pub checked :
      Answers → Context → Text → Text → Text → Text → Text → Text → Tables → Option ProofError
  checked a c alg label kid payload es ml t =
      verify_proof anchors a.owner a.check_clock
        (record { user = c.user_id; algorithm = alg; key_label = label; key_id = kid }) payload es
        ml t.accounts

  abbrev pub after_create :
      Answers
      → Context
      → Tables
      → SigningKeys.Result SigningKey × SigningKeys.SigningKeys
      → Result Answer SigningKey × Tables
  after_create a c t (SigningKeys.err already_exists, keys) =
      (err (error 409 (bytes "a signing key already exists for this algorithm and keyLabel")), t)
  after_create a c t (SigningKeys.err e, keys) = (err internal, t)
  after_create a c t (SigningKeys.ok k, keys) =
      recorded k (record t { signing_keys = keys })
        (audit_event json a.audit c
          (key_fields (bytes "signing_key.create") c.user_id k.id
            ((bytes "hasProof", has_publication_proof k) ∷ []) k)
          t.audit)

  -- The function that runs in the transaction of a creation
  abbrev pub create_body :
      Answers → Context → InsertSigningKeyInput → Tables → Result Answer SigningKey × Tables
  create_body a c i t =
      let stored = after_create a c t (create a.first a.clock i t.signing_keys) in
      if has_proof i.publication_payload i.publication_signature_es384
        i.publication_signature_mldsa87
      then elim (checked a c i.algorithm i.key_label i.id i.publication_payload
          i.publication_signature_es384 i.publication_signature_mldsa87 t) [
            | some e ↦ (err (error 400 (bytes "publication proof rejected")), t)
            | none ↦ stored
          ]
      else stored

  abbrev pub answered : (SigningKey → Answer) → Result Answer SigningKey × Tables → Answer × Tables
  answered done (err e, t) = (e, t)
  answered done (ok k, t) = (done k, t)

  abbrev pub create_valid :
      Answers
      → Context
      → CreateRequest
      → Option (Text × Text × Text × Text)
      → Tables
      → Answer × Tables
  create_valid a c r none t = (error 400 (bytes "Invalid request"), t)
  create_valid a c r (some (alg, label, kid, jwk)) t =
      if r.published && not (has_proof r.payload r.signature_es384 r.signature_mldsa87)
      then (error 400 (bytes "publication proof is required when published is true"), t)
      else answered created (
          execute_in_transaction a.commit internal t
            (create_body a c (input_of c r alg label kid jwk) t))

  abbrev pub create_parsed : Answers → Context → Option CreateRequest → Tables → Answer × Tables
  create_parsed a c none t = (error 400 (bytes "Invalid request body"), t)
  create_parsed a c (some r) t = create_valid a c r (validate_create r) t

  -- RouteV2APISigningKeyCreate, on the body if it parses
  unfoldable pub signing_key_create :
      Answers → Context → Option CreateRequest → Tables → Answer × Tables
  signing_key_create a c body t =
      if is_empty c.user_id then (no_session, t) else create_parsed a c body t
