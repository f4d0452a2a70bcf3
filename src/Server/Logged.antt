-- ===== src/Server/Logged.antt =====
-- What a handler has left in the audit log (internal/server/audit.go).
use revaulter.Base.{Text, is_empty, text_eq, ◌≡◌, ◌∙◌, false, some, arith}
use revaulter.Sql.Keyed
use revaulter.Db.Audit
use revaulter.Db.Audit.{AuditEvent, AuditLog, id_of}
use revaulter.Db.Audit.Stored.{insert_stores, insert_keeps}
use revaulter.Server.AuditTrail.{
  Context, AuditFields, AuditDraw, Objects, audit_event, optional_string, audit_input_from_context,
}

-- The audit log has an event of this kind, by this user, on this state.
pub record Logged (id event user state : Text) (log : AuditLog) : Type 0 where
  pub row : AuditEvent
  pub found : Keyed.find id_of id log ≡ some row
  pub is_event : row.event_type ≡ event
  pub is_actor : row.actor_user_id ≡ optional_string user
  pub is_state : row.request_state ≡ optional_string state

module _ (json : Objects) where
  session_input :
      (c : Context) (f : AuditFields)
      → is_empty f.actor_user_id ≡ false
      → (audit_input_from_context c f).actor_user_id ≡ optional_string f.actor_user_id
  unfolding audit_input_from_context
  session_input c f h = ground arith

  -- What auditEventTx has written, for an actor who is known.
  pub audit_logs :
      (d : AuditDraw) (c : Context) (f : AuditFields) (t log : AuditLog) (e : AuditEvent)
      → is_empty f.actor_user_id ≡ false
      → audit_event json d c f t ≡ (Audit.ok e, log)
      → Logged d.id f.event_type f.actor_user_id f.request_state log
  unfolding audit_event audit_input_from_context
  audit_logs d c f t log e known h =
      let (found, takes) =
        insert_stores json.is_valid d.conn d.id d.clock (audit_input_from_context c f) t log e h in
      record {
        row = e;
        found = found;
        is_event = takes.same_type;
        is_actor = takes.same_actor ∙ session_input c f known;
        is_state = takes.same_state;
      }

  event_keeps :
      (d : AuditDraw) (c : Context) (f : AuditFields) (t : AuditLog) (k : Text) (e : AuditEvent)
      → Keyed.find id_of k t ≡ some e
      → Keyed.find id_of k (audit_event json d c f t).1 ≡ some e
  unfolding audit_event
  event_keeps d c f t k e h =
      insert_keeps json.is_valid d.conn d.id d.clock (audit_input_from_context c f) t k e h

  pub Logged-event :
      (d : AuditDraw) (c : Context) (f : AuditFields) (id event user state : Text) (log : AuditLog)
      → Logged id event user state log
      → Logged id event user state (audit_event json d c f log).1
  Logged-event d c f id event user state log l = record {
    row = l.row;
    found = event_keeps d c f log id l.row l.found;
    is_event = l.is_event;
    is_actor = l.is_actor;
    is_state = l.is_state;
  }
