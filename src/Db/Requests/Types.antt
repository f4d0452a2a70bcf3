-- ===== src/Db/Requests/Types.antt =====
-- The rows of v2_requests, the records that the methods of RequestStore return, and their WHERE
-- clauses (internal/db/requests.go).
use revaulter.Base.{
  text_eq, ℕ, ◌-◌, Text, same, is_empty, Bool, true, false, ◌&&◌, ◌||◌, not, ltb, leb, Option, none,
  some, List, [], if◌then◌else◌,
}
use revaulter.Sql.Keyed
use revaulter.Time.{unix}
use revaulter.Protocol.Envelope.{ResponseEnvelope}

-- V2RequestStatus
pub data Status : Type 0 where
  pending completed canceled expired : Status

-- `status = 'pending'`
abbrev pub is_pending : Status → Bool
is_pending pending = true
is_pending completed = false
is_pending canceled = false
is_pending expired = false

-- A row of v2_requests. An empty `encrypted_result` is the column's default.
pub record RequestRow : Type 0 where
  pub state : Text
  pub status : Status
  pub operation : Text
  pub user_id : Text
  pub key_label : Text
  pub algorithm : Text
  pub requestor_ip : Text
  pub note : Text
  pub created_at : ℕ
  pub expires_at : ℕ
  pub updated_at : ℕ
  pub encrypted_request : Text
  pub encrypted_result : Text

-- V2RequestRecord, its times in seconds.
pub record RequestRecord : Type 0 where
  pub state : Text
  pub status : Status
  pub operation : Text
  pub user_id : Text
  pub key_label : Text
  pub algorithm : Text
  pub requestor_ip : Text
  pub note : Text
  pub created_at : ℕ
  pub expires_at : ℕ
  pub updated_at : ℕ
  pub encrypted_request : Text
  pub response_envelope : Option ResponseEnvelope

-- V2RequestListItem
pub record RequestListItem : Type 0 where
  pub state : Text
  pub status : Status
  pub operation : Text
  pub user_id : Text
  pub key_label : Text
  pub algorithm : Text
  pub requestor : Text
  pub date : ℕ
  pub expiry : ℕ
  pub note : Text

-- CreateRequestInput, its times in nanoseconds.
pub record CreateRequestInput : Type 0 where
  pub state : Text
  pub user_id : Text
  pub operation : Text
  pub requestor_ip : Text
  pub key_label : Text
  pub algorithm : Text
  pub note : Text
  pub created_at : ℕ
  pub expires_at : ℕ
  pub encrypted_request : Text

-- `driver`: the driver reported an error; `duplicate`: the primary key is taken; `bad_json`: the
-- stored response does not parse; `not_modifiable`: ErrRequestNotModifiable.
pub data RequestError : Type 0 where
  driver duplicate bad_json not_modifiable : RequestError

pub data Result {ℓ} (A : Type ℓ) : Type ℓ where
  ok : A → Result A
  err : RequestError → Result A

abbrev pub Requests : Type 0
Requests = List RequestRow

abbrev pub key : RequestRow → Text
key r = r.state

abbrev pub find : Text → Requests → Option RequestRow
find = Keyed.find key

abbrev pub Distinct : Requests → Type 0
Distinct = Keyed.Distinct key

-- The WHERE clauses, less their `state = $n AND`.
abbrev pub is_live : ℕ → RequestRow → Bool
is_live now r = is_pending r.status && leb now r.expires_at

abbrev pub is_overdue : ℕ → RequestRow → Bool
is_overdue now r = is_pending r.status && ltb r.expires_at now

abbrev pub is_terminal : ℕ → RequestRow → Bool
is_terminal now r = not (is_pending r.status) || ltb r.expires_at now

abbrev pub set_status : Status → ℕ → RequestRow → RequestRow
set_status s now r = record r { status = s; updated_at = now }

abbrev pub set_result : ℕ → Text → RequestRow → RequestRow
set_result now result r = record r {
  status = completed;
  updated_at = now;
  encrypted_result = result;
}

abbrev pub row_of : CreateRequestInput → RequestRow
row_of i = record {
  state = i.state;
  status = pending;
  operation = i.operation;
  user_id = i.user_id;
  key_label = i.key_label;
  algorithm = i.algorithm;
  requestor_ip = i.requestor_ip;
  note = i.note;
  created_at = unix i.created_at;
  expires_at = unix i.expires_at;
  updated_at = unix i.created_at;
  encrypted_request = i.encrypted_request;
  encrypted_result = [];
}

-- `status != 'pending'`, and with a cutoff also `expires_at < $3`
abbrev pub is_deletable : Option ℕ → RequestRow → Bool
is_deletable none r = not (is_pending r.status)
is_deletable (some cutoff) r = not (is_pending r.status) && ltb r.expires_at (unix cutoff - 600)

abbrev pub item_of : RequestRow → RequestListItem
item_of r = record {
  state = r.state;
  status = r.status;
  operation = r.operation;
  user_id = r.user_id;
  key_label = r.key_label;
  algorithm = r.algorithm;
  requestor = r.requestor_ip;
  date = r.created_at;
  expiry = r.expires_at;
  note = r.note;
}

-- The WHERE of ListPending: the user clause is left out for an empty user.
abbrev pub is_listed : Text → RequestRow → Bool
is_listed user r = is_pending r.status && (if is_empty user then true else same r.user_id user)

abbrev pub record_of : RequestRow → Option ResponseEnvelope → RequestRecord
record_of r env = record {
  state = r.state;
  status = r.status;
  operation = r.operation;
  user_id = r.user_id;
  key_label = r.key_label;
  algorithm = r.algorithm;
  requestor_ip = r.requestor_ip;
  note = r.note;
  created_at = r.created_at;
  expires_at = r.expires_at;
  updated_at = r.updated_at;
  encrypted_request = r.encrypted_request;
  response_envelope = env;
}

-- The CASE expressions in the RETURNING of GetAndDeleteTerminalRequest.
abbrev pub as_returned : ℕ → RequestRow → RequestRow
as_returned now r = if is_overdue now r then set_status expired now r else r
