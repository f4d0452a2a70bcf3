-- ===== src/Server/AuditTrail.antt =====
-- internal/server/audit.go: what a handler writes to the audit log.
use revaulter.Base.{
  ℕ, Text, bytes, is_empty, Bool, not, ◌&&◌, Option, none, some, List, [], ◌∷◌, if◌then◌else◌,
}
use revaulter.Sql.{Conn}
use revaulter.Db.Auth.Accounts.{UserRow}
use revaulter.Db.Audit.{AuditEvent, AuditEventInput, AuditLog, Result, insert}

-- What a handler reads from its gin.Context.
pub record Context : Type 0 where
  -- contextKeyUserID, set by the session middleware
  pub user_id : Text
  -- contextKeyRequestUser, set by the request-key middleware
  pub request_user : Option UserRow
  pub request_id : Text
  pub client_ip : Text
  pub user_agent : Text

-- auditFields
pub record AuditFields : Type 0 where
  pub event_type : Text
  pub outcome : Text
  pub target_user_id : Text
  pub signing_key_id : Text
  pub credential_id : Text
  pub request_state : Text
  pub metadata : Text
  pub auth_method : Text
  pub actor_user_id : Text

-- optionalString
abbrev pub optional_string : Text → Option Text
optional_string s = if is_empty s then none else some s

-- The actor and its authentication method, in the two steps of auditInputFromContext.
abbrev pub session_actor : Context → Text × Text → Text × Text
session_actor c (actor, method) =
    if is_empty actor
    then (
      c.user_id,
      (if not (is_empty c.user_id) && is_empty method then bytes "session" else method),
    )
    else (actor, method)

abbrev pub request_actor : Context → Text × Text → Text × Text
request_actor c (actor, method) =
    if is_empty actor
    then elim c.request_user [
      | none ↦ (actor, method)
      | some u ↦ (u.id, (if is_empty method then bytes "request_key" else method))
    ]
    else (actor, method)

-- auditInputFromContext
unfoldable pub audit_input_from_context : Context → AuditFields → AuditEventInput
audit_input_from_context c f =
    let who = request_actor c (session_actor c (f.actor_user_id, f.auth_method)) in
    record {
      event_type = f.event_type;
      outcome = f.outcome;
      auth_method = if is_empty who.1 then bytes "none" else who.1;
      actor_user_id = optional_string who.0;
      target_user_id = optional_string f.target_user_id;
      signing_key_id = optional_string f.signing_key_id;
      credential_id = optional_string f.credential_id;
      request_state = optional_string f.request_state;
      http_request_id = optional_string c.request_id;
      client_ip = optional_string c.client_ip;
      user_agent = optional_string c.user_agent;
      metadata = f.metadata;
    }

-- The input of auditEventCtx
unfoldable pub audit_input_of_system : AuditFields → AuditEventInput
audit_input_of_system f = record {
  event_type = f.event_type;
  outcome = f.outcome;
  auth_method = bytes "system";
  actor_user_id = optional_string f.actor_user_id;
  target_user_id = optional_string f.target_user_id;
  signing_key_id = optional_string f.signing_key_id;
  credential_id = optional_string f.credential_id;
  request_state = optional_string f.request_state;
  http_request_id = none;
  client_ip = none;
  user_agent = none;
  metadata = f.metadata;
}

-- How one INSERT into the audit log goes: the driver's answer, the id and the time that it draws.
pub record AuditDraw : Type 0 where
  pub conn : Conn
  pub id : Text
  pub clock : ℕ

-- encoding/json, for an object of strings and for json.Valid
pub record Objects : Type 0 where
  pub marshal_object : List (Text × Text) → Option Text
  pub is_valid : Text → Bool

module _ (json : Objects) where
  -- auditEventTx, and auditEvent, whose caller ignores the result
  unfoldable pub audit_event :
      AuditDraw → Context → AuditFields → AuditLog → Result AuditEvent × AuditLog
  audit_event d c f t = insert json.is_valid d.conn d.id d.clock (audit_input_from_context c f) t

  -- auditEventCtx, which ignores the result
  unfoldable pub audit_event_ctx : AuditDraw → AuditFields → AuditLog → AuditLog
  audit_event_ctx d f t = (insert json.is_valid d.conn d.id d.clock (audit_input_of_system f) t).1

  -- jsonMetadata
  unfoldable pub json_metadata : List (Text × Text) → Text
  json_metadata payload = elim (json.marshal_object payload) [ none ↦ [] | some b ↦ b ]

  -- requestAuditMetadata
  unfoldable pub request_audit_metadata : Text → Text → Text → Text → Text
  request_audit_metadata operation algorithm key_label note = json_metadata (
      (bytes "operation", operation)
      ∷ (bytes "algorithm", algorithm)
      ∷ (bytes "keyLabel", key_label)
      ∷ (if is_empty note then [] else (bytes "note", note) ∷ []))
