-- ===== src/Server/Expiry.antt =====
-- internal/server/util-eventqueue.go: what the two event queues do with the events that are due.
pub mod Swept
mod Tests
use revaulter.Base.{
  ℕ, ◌+◌, ◌-◌, ◌*◌, Text, bytes, same, ◌++◌, Bool, true, false, Option, none, some, List, [], ◌∷◌,
  if◌then◌else◌,
}
use revaulter.Sql.{Conn, up, down}
use revaulter.Time.{unix, second}
use revaulter.Json.{Codec}
use revaulter.Protocol.Envelope.{ResponseEnvelope}
use revaulter.Db.Requests
use revaulter.Db.Requests.{RequestRecord, mark_expired, delete_terminal_request}
use revaulter.Db.Audit.{prune_before}
use revaulter.Db.Auth.Challenges.{delete_expired}
use revaulter.Db.Auth.Accounts.Settings.{delete_nonready_user}
use revaulter.Server.AuditTrail.{
  AuditFields, AuditDraw, Objects, audit_event_ctx, request_audit_metadata,
}
use revaulter.Server.State.{
  Tables, Server, QueueAnswer, accepted, stopped, refused, enqueue, call, RequestExpiryEvent,
  DeleteEvent, publish_list_item, notify, removed,
}

module _ (json : Objects) (codec : Codec ResponseEnvelope) where
  abbrev pub expire_fields : Text → RequestRecord → AuditFields
  expire_fields state rec = record {
    event_type = bytes "request.expire";
    outcome = bytes "success";
    target_user_id = rec.user_id;
    signing_key_id = [];
    credential_id = [];
    request_state = state;
    metadata = request_audit_metadata json rec.operation rec.algorithm rec.key_label rec.note;
    auth_method = [];
    actor_user_id = rec.user_id;
  }

  -- The event that deletes the request ten minutes later.
  abbrev pub delete_request_event : RequestExpiryEvent → DeleteEvent
  delete_request_event ev = record {
    key_name = bytes "request-delete:" ++ ev.state;
    kind = bytes "request";
    id = ev.state;
    ttl = ev.ttl + 600 * second;
  }

  -- What follows MarkExpired, which found the request or did not.
  abbrev pub after_mark :
      AuditDraw
      → QueueAnswer
      → RequestExpiryEvent
      → Server
      → Requests.Result (Option RequestRecord) × Requests.Requests
      → Option Server
  after_mark d queue ev s (Requests.err e, requests) =
      some (record s { tables = record (s.tables) { requests = requests } })
  after_mark d queue ev s (Requests.ok none, requests) =
      some (record s { tables = record (s.tables) { requests = requests } })
  after_mark d queue ev s (Requests.ok (some rec), requests) =
      let s₁ : Server = record s {
        tables = record (s.tables) {
          requests = requests;
          audit = audit_event_ctx json d (expire_fields ev.state rec) s.tables.audit;
        };
      } in
      elim (notify ev.state s₁) [
        | none ↦ none
        | some s₂ ↦ elim (publish_list_item (removed ev.state rec.user_id) s₂) [
          | none ↦ none
          | some s₃ ↦ some (record s₃ {
            delete_queue = call queue (enqueue (delete_request_event ev)) s₃.delete_queue;
          })
        ]
      ]

  -- executeRequestExpiryEvent; `none` is a panic.
  unfoldable pub execute_request_expiry_event :
      Conn → ℕ → AuditDraw → QueueAnswer → RequestExpiryEvent → Server → Option Server
  execute_request_expiry_event c now d queue ev s =
      after_mark d queue ev s (mark_expired codec c now ev.state s.tables.requests)

-- auditRetention
abbrev pub audit_retention : ℕ
audit_retention = 30 * (86400 * second)

-- The event of enqueueAuditPrune, on strconv.FormatInt
abbrev pub audit_prune_event : (ℕ → Text) → ℕ → DeleteEvent
audit_prune_event format_int at = record {
  key_name = bytes "audit-prune:" ++ format_int at;
  kind = bytes "audit-prune";
  id = [];
  ttl = at;
}

-- executeDeleteEvent: the driver's answer, the clock of the prune, and the queue's answer to the next
-- prune. Errors are logged only.
unfoldable pub execute_delete_event :
    (ℕ → Text) → Conn → ℕ → QueueAnswer → DeleteEvent → Server → Server
execute_delete_event format_int c now queue ev s =
    let t : Tables = s.tables in
    if same ev.kind (bytes "request")
    then record s {
      tables = record t { requests = (delete_terminal_request c ev.id (some ev.ttl) t.requests).1 };
    }
    else if same ev.kind (bytes "challenge")
    then record s {
      tables = record t { challenges = (delete_expired c ev.id ev.ttl t.challenges).1 };
    }
    else if same ev.kind (bytes "nonready-user")
    then record s {
      tables = record t { accounts = (delete_nonready_user c ev.id ev.ttl t.accounts).1 };
    }
    else if same ev.kind (bytes "audit-prune")
    then record s {
      tables = record t { audit = (prune_before c (unix (now - audit_retention)) t.audit).1 };
      delete_queue =
          call queue (enqueue (audit_prune_event format_int (now + 86400 * second))) s.delete_queue;
    }
    else s
