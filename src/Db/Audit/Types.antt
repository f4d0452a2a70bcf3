-- ===== src/Db/Audit/Types.antt =====
-- The rows of v2_audit_events, what AuditStore takes and answers with, and the checks of its inputs
-- (internal/db/audit.go).
use revaulter.Base.{
  ℕ, zero, suc, ◌/◌, ℤ, pos, negsuc, Text, bytes, same, is_empty, length, take, get_elem?, Bool,
  true, false, ◌&&◌, ◌||◌, not, Option, none, some, List, [], ◌∷◌, leb, ltb, ◌==◌, if◌then◌else◌,
  text_lt,
}

-- AuditEvent, its time in seconds; also a row of v2_audit_events, whose NULLs are `none`.
pub record AuditEvent : Type 0 where
  pub id : Text
  pub created_at : ℕ
  pub event_type : Text
  pub outcome : Text
  pub auth_method : Text
  pub actor_user_id : Option Text
  pub target_user_id : Option Text
  pub signing_key_id : Option Text
  pub credential_id : Option Text
  pub request_state : Option Text
  pub http_request_id : Option Text
  pub client_ip : Option Text
  pub user_agent : Option Text
  pub metadata : Text

-- AuditEventInput
pub record AuditEventInput : Type 0 where
  pub event_type : Text
  pub outcome : Text
  pub auth_method : Text
  pub actor_user_id : Option Text
  pub target_user_id : Option Text
  pub signing_key_id : Option Text
  pub credential_id : Option Text
  pub request_state : Option Text
  pub http_request_id : Option Text
  pub client_ip : Option Text
  pub user_agent : Option Text
  pub metadata : Text

-- AuditFilter
pub record AuditFilter : Type 0 where
  pub user_id : Text
  pub system : Bool
  pub event_type : Text
  pub since_unix : ℤ
  pub until_unix : ℤ

-- `driver`: the driver reported an error; the others are the ErrAudit values of the same names.
pub data AuditError : Type 0 where
  driver invalid_event_type invalid_outcome invalid_auth_method : AuditError
  metadata_too_large metadata_invalid client_ip_too_long : AuditError
  invalid_cursor filter_conflict : AuditError

pub data Result {ℓ} (A : Type ℓ) : Type ℓ where
  ok : A → Result A
  err : AuditError → Result A

abbrev pub AuditLog : Type 0
AuditLog = List AuditEvent

abbrev pub id_of : AuditEvent → Text
id_of r = r.id

-- The `case` of a switch on strings.
abbrev pub is_one_of : Text → List Text → Bool
is_one_of s [] = false
is_one_of s (t ∷ ts) = same s t || is_one_of s ts

-- The constants of EventType.
abbrev pub event_types : List Text
event_types =
    bytes "auth.register_finish"
    ∷ bytes "auth.finalize_signup"
    ∷ bytes "auth.login_finish"
    ∷ bytes "auth.logout"
    ∷ bytes "auth.request_key_regenerate"
    ∷ bytes "auth.allowed_ips_change"
    ∷ bytes "auth.display_name_change"
    ∷ bytes "auth.wrapped_key_update"
    ∷ bytes "auth.credential_add_finish"
    ∷ bytes "auth.credential_rename"
    ∷ bytes "auth.credential_delete"
    ∷ bytes "request.create"
    ∷ bytes "request.confirm"
    ∷ bytes "request.cancel"
    ∷ bytes "request.expire"
    ∷ bytes "signing_key.create"
    ∷ bytes "signing_key.publish"
    ∷ bytes "signing_key.unpublish"
    ∷ bytes "signing_key.delete"
    ∷ bytes "signing_key.auto_store"
    ∷ []

-- EventType.Valid
unfoldable pub is_event_type : Text → Bool
is_event_type e = is_one_of e event_types

-- AuditOutcome.Valid
unfoldable pub is_outcome : Text → Bool
is_outcome o = is_one_of o (bytes "success" ∷ bytes "failure" ∷ bytes "denied" ∷ [])

-- AuditAuthMethod.Valid
unfoldable pub is_auth_method : Text → Bool
is_auth_method m =
    is_one_of m (bytes "session" ∷ bytes "request_key" ∷ bytes "system" ∷ bytes "none" ∷ [])

-- The trim of a user agent to 512 bytes.
abbrev pub trim_agent : Option Text → Option Text
trim_agent none = none
trim_agent (some ua) = if ltb 512 (length ua) then some (take 512 ua) else some ua

abbrev pub is_long_ip : Option Text → Bool
is_long_ip none = false
is_long_ip (some ip) = ltb 64 (length ip)

-- AuditEventInput.Validate, on `json.Valid`: the input with its user agent trimmed, or the error.
unfoldable pub validate : (Text → Bool) → AuditEventInput → Result AuditEventInput
validate json_valid i =
    if not (is_event_type i.event_type)
    then err invalid_event_type
    else if not (is_outcome i.outcome)
    then err invalid_outcome
    else if not (is_auth_method i.auth_method)
    then err invalid_auth_method
    else if ltb 4096 (length i.metadata)
    then err metadata_too_large
    else if ltb 0 (length i.metadata) && not (json_valid i.metadata)
    then err metadata_invalid
    else if is_long_ip i.client_ip
    then err client_ip_too_long
    else ok (record i { user_agent = trim_agent i.user_agent })

abbrev pub or_empty_object : Text → Text
or_empty_object m = if is_empty m then bytes "{}" else m

-- The columns of the INSERT, and the event that Insert answers with.
abbrev pub event_of : Text → ℕ → AuditEventInput → AuditEvent
event_of id now i = record {
  id = id;
  created_at = now;
  event_type = i.event_type;
  outcome = i.outcome;
  auth_method = i.auth_method;
  actor_user_id = i.actor_user_id;
  target_user_id = i.target_user_id;
  signing_key_id = i.signing_key_id;
  credential_id = i.credential_id;
  request_state = i.request_state;
  http_request_id = i.http_request_id;
  client_ip = i.client_ip;
  user_agent = i.user_agent;
  metadata = or_empty_object i.metadata;
}

-- `column = $n`, which NULL does not meet
abbrev pub is_equal : Option Text → Text → Bool
is_equal none v = false
is_equal (some u) v = same u v

abbrev pub is_since : ℤ → ℕ → Bool
is_since (negsuc n) t = true
is_since (pos n) t = if ltb 0 n then leb n t else true

abbrev pub is_until : ℤ → ℕ → Bool
is_until (negsuc n) t = true
is_until (pos n) t = if ltb 0 n then leb t n else true

-- The clauses of List, less the cursor's …
abbrev pub matches : AuditFilter → AuditEvent → Bool
matches f r =
    (if is_empty f.user_id then true else is_equal r.actor_user_id f.user_id)
    && ((if f.system then same r.auth_method (bytes "system") else true)
        && ((if is_empty f.event_type then true else same r.event_type f.event_type)
            && (is_since f.since_unix r.created_at && is_until f.until_unix r.created_at)))

-- … and that one: `id < $n`, where a cursor is given.
abbrev pub is_below : Text → AuditEvent → Bool
is_below cursor r = if is_empty cursor then true else text_lt r.id cursor

-- What List reads from a row.
abbrev pub scan : AuditEvent → AuditEvent
scan r = record r { metadata = or_empty_object r.metadata }

-- The bounds on the limit
abbrev pub page_size : ℤ → ℕ
page_size (negsuc n) = 50
page_size (pos zero) = 50
page_size (pos (suc n)) = if ltb 500 (suc n) then 500 else suc n

abbrev pub id_or_none : Option AuditEvent → Text
id_or_none none = []
id_or_none (some r) = r.id

-- The end of List: one row too many tells that there is another page, after the last one kept.
abbrev pub paginate : ℕ → List AuditEvent → List AuditEvent × Text
paginate zero out = ([], [])
paginate (suc n) out =
    if ltb (suc n) (length out) then (take (suc n) out, id_or_none (get_elem? out n)) else (out, [])

-- Byte 6 of a UUID has the version in its high nibble.
abbrev pub version : Option ℕ → ℕ
version none = 0
version (some b) = b / 16

-- validateAuditCursor, on uuid.Parse
unfoldable pub validate_cursor : (Text → Option (List ℕ)) → Text → Result Text
validate_cursor parse cursor = if is_empty cursor then ok [] else elim (parse cursor) [
  | none ↦ err invalid_cursor
  | some u ↦ if version (get_elem? u 6) == 7 then ok cursor else err invalid_cursor
]
