-- ===== src/Server/Create.antt =====
-- RouteV2RequestCreate (internal/server/routes-request.go), but for the webhook, which is sent from
-- another goroutine once all is done.
pub mod Stored
pub mod Recorded
mod Tests
use revaulter.Base.{
  ℕ, ◌+◌, Text, bytes, ℤ, Bool, true, false, Option, none, some, List, [], ◌∷◌, if◌then◌else◌,
}
use revaulter.Base.Results.{Result, ok, err}
use revaulter.Sql.{Conn, up, down}
use revaulter.Time.{unix}
use revaulter.Protocol.Envelope.{Jwk}
use revaulter.Protocol.Timeouts.{get_timeout, request_timeout, add_timeout, plus_five_seconds}
use revaulter.Db.Requests
use revaulter.Db.Requests.{CreateRequestInput, RequestListItem, create_request}
use revaulter.Db.Audit
use revaulter.Db.Audit.{AuditEvent, AuditLog}
use revaulter.Db.Auth.Accounts.{UserRow}
use revaulter.Server.AuditTrail.{
  Context, AuditFields, AuditDraw, Objects, audit_event, request_audit_metadata,
}
use revaulter.Server.CreateBody.{BodyError, RequestCreateBody, validate_v2_create_body}
use revaulter.Server.State.{
  Tables, Server, Response, error, internal, created, QueueAnswer, accepted, stopped, refused,
  enqueue, call, RequestExpiryEvent, execute_in_transaction, publish_list_item, listed,
}

-- RequestEncEnvelope
pub record RequestEncEnvelope : Type 0 where
  pub cli_ephemeral_public_key : Jwk
  pub mlkem_ciphertext : Text
  pub nonce : Text
  pub ciphertext : Text

-- What the world answers while the handler runs: the clock, the UUID that it draws, the INSERT, the
-- audit row, the commit and the queue.
pub record Answers : Type 0 where
  pub now : ℕ
  pub state : Text
  pub statement : Conn
  pub audit : AuditDraw
  pub commit : Conn
  pub queue : QueueAnswer

abbrev pub is_accepted : QueueAnswer → Bool
is_accepted accepted = true
is_accepted stopped = false
is_accepted refused = false

-- json.Marshal of the envelope, which does not fail, time.ParseDuration, and the configured timeout
pub record Settings : Type 0 where
  pub marshal_envelope : RequestEncEnvelope → Text
  pub parse_duration : Text → Option ℤ
  pub request_timeout : ℤ

module _ (json : Objects) (cfg : Settings) where
  abbrev pub envelope_of : RequestCreateBody → RequestEncEnvelope
  envelope_of b = record {
    cli_ephemeral_public_key = b.cli_ephemeral_public_key;
    mlkem_ciphertext = b.mlkem_ciphertext;
    nonce = b.encrypted_payload_nonce;
    ciphertext = b.encrypted_payload;
  }

  abbrev pub input_of :
      Answers → Context → UserRow → Text → RequestCreateBody → ℤ → CreateRequestInput
  input_of a c user op b timeout = record {
    state = a.state;
    user_id = user.id;
    operation = op;
    requestor_ip = c.client_ip;
    key_label = b.key_label;
    algorithm = b.algorithm;
    note = b.note;
    created_at = a.now;
    expires_at = add_timeout a.now timeout;
    encrypted_request = cfg.marshal_envelope (envelope_of b);
  }

  abbrev pub create_fields : Answers → UserRow → Text → RequestCreateBody → AuditFields
  create_fields a user op b = record {
    event_type = bytes "request.create";
    outcome = bytes "success";
    target_user_id = [];
    signing_key_id = [];
    credential_id = [];
    request_state = a.state;
    metadata = request_audit_metadata json op b.algorithm b.key_label b.note;
    auth_method = bytes "request_key";
    actor_user_id = user.id;
  }

  -- The end of the transaction: the audit row, whose error undoes the INSERT.
  abbrev pub with_audit :
      Tables → Audit.Result AuditEvent × AuditLog → Result (Unit {0}) (Unit {0}) × Tables
  with_audit t (Audit.err e, log) = (err tt, t)
  with_audit t (Audit.ok e, log) = (ok tt, record t { audit = log })

  abbrev pub after_insert :
      Answers
      → Context
      → UserRow
      → Text
      → RequestCreateBody
      → Tables
      → Requests.Result (Unit {0}) × Requests.Requests
      → Result (Unit {0}) (Unit {0}) × Tables
  after_insert a c user op b t (Requests.err e, requests) = (err tt, t)
  after_insert a c user op b t (Requests.ok x, requests) =
      with_audit (record t { requests = requests })
        (audit_event json a.audit c (create_fields a user op b) t.audit)

  unfoldable pub create_in_tx :
      Answers
      → Context
      → UserRow
      → Text
      → RequestCreateBody
      → ℤ
      → Tables
      → Result (Unit {0}) (Unit {0}) × Tables
  create_in_tx a c user op b timeout t = execute_in_transaction a.commit tt t (
      after_insert a c user op b t
        (create_request a.statement (input_of a c user op b timeout) t.requests))

  abbrev pub expiry_event : Answers → UserRow → ℤ → RequestExpiryEvent
  expiry_event a user timeout = record {
    state = a.state;
    user_id = user.id;
    ttl = add_timeout a.now (plus_five_seconds timeout);
  }

  abbrev pub list_item :
      Answers → Context → UserRow → Text → RequestCreateBody → ℤ → RequestListItem
  list_item a c user op b timeout = record {
    state = a.state;
    status = Requests.pending;
    operation = op;
    user_id = user.id;
    key_label = b.key_label;
    algorithm = b.algorithm;
    requestor = c.client_ip;
    date = unix a.now;
    expiry = unix (add_timeout a.now timeout);
    note = b.note;
  }

  -- What follows the transaction: the expiry is enqueued, the answer sent, the list told.
  abbrev pub after_create :
      Answers
      → Context
      → UserRow
      → Text
      → RequestCreateBody
      → ℤ
      → Server
      → Result (Unit {0}) (Unit {0}) × Tables
      → Option (Response × Server)
  after_create a c user op b timeout s (err e, t) = some (internal, record s { tables = t })
  after_create a c user op b timeout s (ok x, t) =
      let s' : Server = record s {
        tables = t;
        expiry_queue = call a.queue (enqueue (expiry_event a user timeout)) s.expiry_queue;
      } in
      if is_accepted a.queue
      then elim (publish_list_item (listed (list_item a c user op b timeout)) s') [
        | none ↦ none
        | some s'' ↦ some (created a.state, s'')
      ]
      else some (internal, s')

  abbrev pub with_timeout :
      Answers
      → Context
      → UserRow
      → Text
      → RequestCreateBody
      → Option ℤ
      → Server
      → Option (Response × Server)
  with_timeout a c user op b none s =
      some (error 400 (bytes "Invalid request: timeout must not be more than 24 hours"), s)
  with_timeout a c user op b (some timeout) s =
      after_create a c user op b timeout s (create_in_tx a c user op b timeout s.tables)

  abbrev pub with_body :
      Answers
      → Context
      → UserRow
      → Text
      → Result BodyError RequestCreateBody
      → Server
      → Option (Response × Server)
  with_body a c user op (err e) s = some (error 400 (bytes "Invalid request"), s)
  with_body a c user op (ok b) s =
      with_timeout a c user op b
        (request_timeout cfg.request_timeout (get_timeout cfg.parse_duration b.timeout)) s

  abbrev pub with_user :
      Answers
      → Context
      → Text
      → Option RequestCreateBody
      → Option UserRow
      → Server
      → Option (Response × Server)
  with_user a c op body none s = some (internal, s)
  with_user a c op none (some user) s = some (error 400 (bytes "Invalid request body"), s)
  with_user a c op (some b) (some user) s = with_body a c user op (validate_v2_create_body op b) s

  -- RouteV2RequestCreate, on the body if it parses; `none` is a panic.
  unfoldable pub route_v2_request_create :
      Answers → Context → Text → Option RequestCreateBody → Server → Option (Response × Server)
  route_v2_request_create a c op body s = with_user a c op body c.request_user s
