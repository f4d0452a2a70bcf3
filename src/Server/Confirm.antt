-- ===== src/Server/Confirm.antt =====
-- RouteV2APIConfirm and autoStoreSigningKey (internal/server/routes-api.go).
pub mod Atomic
mod Recorded
mod Ended
mod Tests
use revaulter.Base.{
  ℕ, Text, bytes, same, is_empty, Bool, true, false, ◌&&◌, ◌||◌, not, Option, none, some, List, [],
  ◌∷◌, if◌then◌else◌,
}
use revaulter.Base.Results.{Result, ok, err}
use revaulter.Sql.{Conn, up, down}
use revaulter.Json.{Codec}
use revaulter.Protocol.Envelope.{ResponseEnvelope}
use revaulter.Protocol.Keys.{validate_envelope}
use revaulter.Protocol.SigningJwk.{Crypto, JwkError, validate_signing_jwk_and_pem}
use revaulter.Db.Requests
use revaulter.Db.Requests.{
  RequestRecord, RequestError, not_modifiable, complete_request, cancel_request,
}
use revaulter.Db.SigningKeys
use revaulter.Db.SigningKeys.{SigningKey, InsertSigningKeyInput, auto_store_unpublished}
use revaulter.Db.Audit
use revaulter.Db.Audit.{AuditEvent, AuditLog}
use revaulter.Server.AuditTrail.{
  Context, AuditFields, AuditDraw, Objects, audit_event, json_metadata, request_audit_metadata,
}
use revaulter.Server.State.{
  Tables, Server, Response, error, internal, confirmed, canceled, QueueAnswer, accepted, stopped,
  refused, dequeue, call, expiry_key, execute_in_transaction, notify, publish_list_item, removed,
}

-- confirmPublicKey
pub record ConfirmPublicKey : Type 0 where
  pub jwk : Text
  pub pem : Text

-- confirmRequest
pub record ConfirmRequest : Type 0 where
  pub state : Text
  pub confirm : Bool
  pub cancel : Bool
  pub response_envelope : Option ResponseEnvelope
  pub public_key : Option ConfirmPublicKey

-- What the world answers while the handler runs: the statement on the request with its time, the
-- audit row, the commit, the queue, and the automatic store with its audit row.
pub record Answers : Type 0 where
  pub statement : Conn
  pub clock : ℕ
  pub audit : AuditDraw
  pub commit : Conn
  pub queue : QueueAnswer
  pub store : Conn
  pub store_clock : ℕ
  pub store_audit : AuditDraw

-- ErrRequestNotModifiable, or any other error
pub data TxError : Type 0 where
  conflict failed : TxError

abbrev pub tx_error : RequestError → TxError
tx_error not_modifiable = conflict
tx_error _ = failed

-- `s.expiryQueue.Dequeue` may fail, but not with ErrProcessorStopped.
abbrev pub is_refused : QueueAnswer → Bool
is_refused accepted = false
is_refused stopped = false
is_refused refused = true

module _ (json : Objects) (codec : Codec ResponseEnvelope) (crypto : Crypto) where
  -- The end of both transactions: the audit row, whose error undoes the rest.
  abbrev pub recorded :
      RequestRecord
      → Tables
      → Audit.Result AuditEvent × AuditLog
      → Result TxError RequestRecord × Tables
  recorded rec t (Audit.ok e, log) = (ok rec, record t { audit = log })
  recorded rec t (Audit.err e, log) = (err failed, t)

  abbrev pub verdict_fields : Text → Text → Text → RequestRecord → AuditFields
  verdict_fields event user state rec = record {
    event_type = event;
    outcome = bytes "success";
    target_user_id = rec.user_id;
    signing_key_id = [];
    credential_id = [];
    request_state = state;
    metadata = request_audit_metadata json rec.operation rec.algorithm rec.key_label rec.note;
    auth_method = bytes "session";
    actor_user_id = user;
  }

  -- The functions that run in the two transactions, on what the statement answered.
  abbrev pub after_verdict :
      Answers
      → Context
      → Text
      → Text
      → Tables
      → Requests.Result RequestRecord × Requests.Requests
      → Result TxError RequestRecord × Tables
  after_verdict a c event state t (Requests.err e, requests) = (err (tx_error e), t)
  after_verdict a c event state t (Requests.ok rec, requests) =
      recorded rec (record t { requests = requests })
        (audit_event json a.audit c (verdict_fields event c.user_id state rec) t.audit)

  unfoldable pub cancel_in_tx :
      Answers → Context → Text → Tables → Result TxError RequestRecord × Tables
  cancel_in_tx a c state t = execute_in_transaction a.commit failed t (
      after_verdict a c (bytes "request.cancel") state t
        (cancel_request codec a.statement a.clock state c.user_id t.requests))

  unfoldable pub complete_in_tx :
      Answers → Context → Text → ResponseEnvelope → Tables → Result TxError RequestRecord × Tables
  complete_in_tx a c state env t = execute_in_transaction a.commit failed t (
      after_verdict a c (bytes "request.confirm") state t
        (complete_request codec a.statement a.clock state c.user_id env t.requests))

  abbrev pub auto_store_input :
      RequestRecord → Text → ConfirmPublicKey → Text → InsertSigningKeyInput
  auto_store_input rec id key jwk = record {
    id = id;
    user_id = rec.user_id;
    algorithm = rec.algorithm;
    key_label = rec.key_label;
    jwk = jwk;
    pem = key.pem;
    published = false;
    publication_payload = [];
    publication_signature_es384 = [];
    publication_signature_mldsa87 = [];
  }

  abbrev pub auto_store_fields : RequestRecord → Text → AuditFields
  auto_store_fields rec id = record {
    event_type = bytes "signing_key.auto_store";
    outcome = bytes "success";
    target_user_id = [];
    signing_key_id = id;
    credential_id = [];
    request_state = rec.state;
    metadata =
        json_metadata json
          ((bytes "algorithm", rec.algorithm) ∷ (bytes "keyLabel", rec.key_label) ∷ []);
    auth_method = bytes "session";
    actor_user_id = rec.user_id;
  }

  -- What follows the automatic store: an audit row if it stored a key, nothing after any error.
  abbrev pub after_auto_store :
      Answers
      → Context
      → RequestRecord
      → Tables
      → SigningKeys.Result SigningKey × SigningKeys.SigningKeys
      → Tables
  after_auto_store a c rec t (SigningKeys.err e, keys) = record t { signing_keys = keys }
  after_auto_store a c rec t (SigningKeys.ok k, keys) = record t {
    signing_keys = keys;
    audit = (audit_event json a.store_audit c (auto_store_fields rec k.id) t.audit).1;
  }

  abbrev pub after_key_check :
      Answers
      → Context
      → RequestRecord
      → ConfirmPublicKey
      → Tables
      → Result JwkError (Text × Text)
      → Tables
  after_key_check a c rec key t (err e) = t
  after_key_check a c rec key t (ok (id, jwk)) = after_auto_store a c rec t (
      auto_store_unpublished a.store a.store_clock (auto_store_input rec id key jwk) t.signing_keys)

  -- autoStoreSigningKey
  unfoldable pub auto_store_signing_key :
      Answers → Context → RequestRecord → ConfirmPublicKey → Tables → Tables
  auto_store_signing_key a c rec key t =
      after_key_check a c rec key t
        (validate_signing_jwk_and_pem crypto rec.algorithm key.jwk key.pem)

  abbrev pub maybe_auto_store :
      Answers → Context → RequestRecord → Option ConfirmPublicKey → Tables → Tables
  maybe_auto_store a c rec none t = t
  maybe_auto_store a c rec (some key) t =
      if same rec.operation (bytes "sign") then auto_store_signing_key a c rec key t else t

  -- The end of the handler, once the verdict is committed: the request's expiry is dequeued, its
  -- long-poll is woken, and the list of requests is told.
  unfoldable pub announce :
      Answers → Text → RequestRecord → Response → Server → Option (Response × Server)
  announce a state rec response s =
      let s' = record s {
        expiry_queue = call a.queue (dequeue (expiry_key state)) s.expiry_queue;
      } in
      if is_refused a.queue then some (internal, s') else elim (notify state s') [
        | none ↦ none
        | some s'' ↦ elim (publish_list_item (removed state rec.user_id) s'') [
          | none ↦ none
          | some s''' ↦ some (response, s''')
        ]
      ]

  abbrev pub after_cancel :
      Answers → Text → Server → Result TxError RequestRecord × Tables → Option (Response × Server)
  after_cancel a state s (err conflict, t) =
      some (error 409 (bytes "Request cannot be canceled"), record s { tables = t })
  after_cancel a state s (err failed, t) = some (internal, record s { tables = t })
  after_cancel a state s (ok rec, t) = announce a state rec canceled (record s { tables = t })

  abbrev pub after_complete :
      Answers
      → Context
      → ConfirmRequest
      → Server
      → Result TxError RequestRecord × Tables
      → Option (Response × Server)
  after_complete a c req s (err conflict, t) =
      some (error 409 (bytes "Request cannot be confirmed"), record s { tables = t })
  after_complete a c req s (err failed, t) = some (internal, record s { tables = t })
  after_complete a c req s (ok rec, t) =
      announce a req.state rec confirmed
        (record s { tables = maybe_auto_store a c rec req.public_key t })

  -- The part for a verdict that is to confirm
  abbrev pub confirm_valid :
      Answers
      → Context
      → ConfirmRequest
      → Option ResponseEnvelope
      → Server
      → Option (Response × Server)
  confirm_valid a c req none s = some (error 400 (bytes "Missing responseEnvelope"), s)
  confirm_valid a c req (some env) s = elim (validate_envelope env) [
    | some e ↦ some (error 400 (bytes "Invalid responseEnvelope"), s)
    | none ↦ after_complete a c req s (complete_in_tx a c req.state env s.tables)
  ]

  abbrev pub confirm_parsed :
      Answers → Context → Option ConfirmRequest → Server → Option (Response × Server)
  confirm_parsed a c none s = some (error 400 (bytes "Invalid request body"), s)
  confirm_parsed a c (some req) s =
      if is_empty req.state
      then some (error 400 (bytes "Missing state in request body"), s)
      else if (req.confirm && req.cancel) || (not req.confirm && not req.cancel)
      then some (
        error 400 (bytes "One and only one of confirm and cancel must be set to true in the body"),
        s,
      )
      else if req.cancel
      then after_cancel a req.state s (cancel_in_tx a c req.state s.tables)
      else confirm_valid a c req req.response_envelope s

  -- RouteV2APIConfirm, on the body if it parses; `none` is a panic.
  unfoldable pub route_v2_api_confirm :
      Answers → Context → Option ConfirmRequest → Server → Option (Response × Server)
  route_v2_api_confirm a c body s =
      if is_empty c.user_id
      then some (error 401 (bytes "No session"), s)
      else confirm_parsed a c body s
