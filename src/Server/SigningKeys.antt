-- ===== src/Server/SigningKeys.antt =====
-- The routes of a user's signing keys (internal/server/routes-signing-keys.go).
mod Types
mod Create
pub mod Proof
pub mod Verified
mod Signed
mod Lines
mod Accepted
pub mod Proven
pub mod Public
mod Published
pub mod Reachable
mod Tests
unfoldable pub use Create.{signing_key_create, validate_create}
pub use Types.*
pub use Create.*
use revaulter.Base.{
  ℕ, Text, bytes, same, is_empty, Bool, true, false, ◌&&◌, ◌||◌, not, Option, none, some, List, [],
  ◌∷◌, if◌then◌else◌,
}
use revaulter.Base.Results.{Result, ok, err}
use revaulter.Sql.{Conn, up, down}
use revaulter.Protocol.Labels.{normalize_key_label}
use revaulter.Protocol.Algorithms.{normalize_signing_algorithm}
use revaulter.Protocol.SigningJwk.{Crypto, JwkError, validate_signing_jwk_and_pem}
use revaulter.Protocol.Anchors.{AnchorCrypto}
use revaulter.Db.SigningKeys
use revaulter.Db.SigningKeys.{
  SigningKey, InsertSigningKeyInput, already_exists, not_found, create, delete_key, get_for_user,
  set_published, store_publication_proof, has_publication_proof,
}
use revaulter.Db.Audit
use revaulter.Db.Audit.{AuditEvent, AuditLog}
use revaulter.Server.AuditTrail.{Context, AuditFields, AuditDraw, Objects, audit_event}
use revaulter.Server.State.{Tables, execute_in_transaction}
use revaulter.Server.SigningKeys.Proof.{ProofError, Bound, verify_proof}

module _ (json : Objects) (flags : Flags) (crypto : Crypto) (anchors : AnchorCrypto) where
  abbrev pub after_flag :
      Answers
      → Context
      → Bool
      → Tables
      → SigningKeys.Result SigningKey × SigningKeys.SigningKeys
      → Result Answer SigningKey × Tables
  after_flag a c published t (SigningKeys.err e, keys) = (err (of_store e), t)
  after_flag a c published t (SigningKeys.ok k, keys) =
      recorded json flags crypto anchors k (record t { signing_keys = keys })
        (audit_event json a.audit c
          (key_fields json flags crypto anchors
            (if published then bytes "signing_key.publish" else bytes "signing_key.unpublish")
            c.user_id k.id [] k)
          t.audit)

  -- SetPublished and what follows it
  abbrev pub flagged : Answers → Context → Text → Bool → Tables → Result Answer SigningKey × Tables
  flagged a c id published t =
      after_flag a c published t
        (set_published a.third a.clock c.user_id id published t.signing_keys)

  -- What follows StorePublicationProof
  abbrev pub after_store :
      Answers
      → Context
      → Text
      → Bool
      → Tables
      → SigningKeys.Result SigningKey × SigningKeys.SigningKeys
      → Result Answer SigningKey × Tables
  after_store a c id published t (SigningKeys.err e, keys) = (err (of_store e), t)
  after_store a c id published t (SigningKeys.ok k, keys) =
      flagged a c id published (record t { signing_keys = keys })

  abbrev pub update_existing :
      Answers
      → Context
      → Text
      → UpdateRequest
      → SigningKey
      → Tables
      → Result Answer SigningKey × Tables
  update_existing a c id r k t =
      if has_proof r.payload r.signature_es384 r.signature_mldsa87
      then elim (checked json flags crypto anchors a c k.algorithm k.key_label k.id r.payload
          r.signature_es384 r.signature_mldsa87 t) [
            | some e ↦ (err (error 400 (bytes "publication proof rejected")), t)
            | none ↦ after_store a c id r.published t (
                store_publication_proof a.second a.clock c.user_id id r.payload r.signature_es384
                  r.signature_mldsa87 t.signing_keys)
          ]
      else if r.published && not (has_publication_proof k)
      then (err (error 400 (bytes "publication proof is required to publish this key")), t)
      else flagged a c id r.published t

  -- The function that runs in the transaction of an update
  abbrev pub update_found :
      Answers
      → Context
      → Text
      → UpdateRequest
      → Tables
      → SigningKeys.Result (Option SigningKey)
      → Result Answer SigningKey × Tables
  update_found a c id r t (SigningKeys.err e) = (err (of_store e), t)
  update_found a c id r t (SigningKeys.ok none) = (err not_found_answer, t)
  update_found a c id r t (SigningKeys.ok (some k)) = update_existing a c id r k t

  -- RouteV2APISigningKeyUpdate, on the body if it parses
  unfoldable pub signing_key_update :
      Answers → Context → Text → Option UpdateRequest → Tables → Answer × Tables
  signing_key_update a c id body t =
      if is_empty c.user_id
      then (no_session, t)
      else if is_empty id
      then (error 400 (bytes "missing id"), t)
      else elim body [
        | none ↦ (error 400 (bytes "Invalid request body"), t)
        | some r ↦ answered json flags crypto anchors updated (
            execute_in_transaction a.commit internal t
              (update_found a c id r t (get_for_user a.first c.user_id id t.signing_keys)))
      ]

  abbrev pub detail_of : SigningKeys.Result (Option SigningKey) → Answer
  detail_of (SigningKeys.err e) = internal
  detail_of (SigningKeys.ok none) = not_found_answer
  detail_of (SigningKeys.ok (some k)) = detail k

  -- RouteV2APISigningKeyGet
  unfoldable pub signing_key_get : Answers → Context → Text → Tables → Answer × Tables
  signing_key_get a c id t =
      if is_empty c.user_id
      then (no_session, t)
      else if is_empty id
      then (error 400 (bytes "missing id"), t)
      else (detail_of (get_for_user a.first c.user_id id t.signing_keys), t)

  abbrev pub after_delete :
      Answers
      → Context
      → Tables
      → SigningKeys.Result SigningKey × SigningKeys.SigningKeys
      → Result Answer SigningKey × Tables
  after_delete a c t (SigningKeys.err e, keys) = (err (of_store e), t)
  after_delete a c t (SigningKeys.ok k, keys) =
      recorded json flags crypto anchors k (record t { signing_keys = keys })
        (audit_event json a.audit c
          (key_fields json flags crypto anchors (bytes "signing_key.delete") c.user_id k.id [] k)
          t.audit)

  -- RouteV2APISigningKeyDelete
  unfoldable pub signing_key_delete : Answers → Context → Text → Tables → Answer × Tables
  signing_key_delete a c id t =
      if is_empty c.user_id
      then (no_session, t)
      else if is_empty id
      then (error 400 (bytes "missing id"), t)
      else answered json flags crypto anchors (λ k. deleted)
          (execute_in_transaction a.commit internal t
            (after_delete a c t (delete_key a.first c.user_id id t.signing_keys)))
