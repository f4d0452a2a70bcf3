-- ===== src/Server/State.antt =====
-- What the handlers of internal/server share: the tables, the long-polls, the broker, the calls of the
-- event queues, and the transactions of internal/db/db.go.
use revaulter.Base.{ℕ, Text, bytes, Option, none, some, List, ◌∷◌, ◌++◌}
use revaulter.Base.Results.{Result, ok, err}
use revaulter.Sql.{Conn, up, down}
use revaulter.Db.Requests.{Requests, RequestListItem}
use revaulter.Protocol.Envelope.{ResponseEnvelope}
use revaulter.Db.SigningKeys.{SigningKeys}
use revaulter.Db.Audit.{AuditLog}
use revaulter.Db.Auth.Challenges.{Challenges}
use revaulter.Db.Auth.Accounts.{Accounts}
use revaulter.Utils.Broker.{Broker, publish}
use revaulter.Server.Notifications.{Hub, notify_subscriber}

pub record Tables : Type 0 where
  pub requests : Requests
  pub signing_keys : SigningKeys
  pub audit : AuditLog
  pub challenges : Challenges
  pub accounts : Accounts

-- A V2RequestListItem on the broker: one that is new, or the state and the user of one with the
-- status "removed".
pub data Notice : Type 0 where
  listed : RequestListItem → Notice
  removed : Text → Text → Notice

-- requestExpiryEvent
pub record RequestExpiryEvent : Type 0 where
  pub state : Text
  pub user_id : Text
  pub ttl : ℕ

-- Its Key
unfoldable pub expiry_key : Text → Text
expiry_key state = bytes "request-expiry:" ++ state

-- deleteEvent
pub record DeleteEvent : Type 0 where
  pub key_name : Text
  pub kind : Text
  pub id : Text
  pub ttl : ℕ

-- What an event queue is asked, and what it answers: `stopped` is ErrProcessorStopped.
pub data QueueCall (E : Type 0) : Type 0 where
  enqueue : E → QueueCall E
  dequeue : Text → QueueCall E

pub data QueueAnswer : Type 0 where
  accepted stopped refused : QueueAnswer

pub record Server : Type 0 where
  pub tables : Tables
  pub hub : Hub
  -- nil in some set-ups
  pub pubsub : Option (Broker Notice)
  -- the calls that the two queues have accepted, the last one first
  pub expiry_queue : List (QueueCall RequestExpiryEvent)
  pub delete_queue : List (QueueCall DeleteEvent)

abbrev pub call : {E : Type 0} → QueueAnswer → QueueCall E → List (QueueCall E) → List (QueueCall E)
call accepted e q = e ∷ q
call stopped e q = q
call refused e q = q

abbrev pub publish_to : Notice → Option (Broker Notice) → Server → Option Server
publish_to item none s = some s
publish_to item (some b) s = elim (publish item b) [
  | none ↦ none
  | some b' ↦ some (record s { pubsub = some b' })
]

-- publishListItem: `none` is a panic.
unfoldable pub publish_list_item : Notice → Server → Option Server
publish_list_item item s = publish_to item s.pubsub s

-- notifySubscriber, under the lock
unfoldable pub notify : Text → Server → Option Server
notify state s = elim (notify_subscriber state s.hub) [
  | none ↦ none
  | some h ↦ some (record s { hub = h })
]

-- What a handler answers: an error with its status, of which AbortWithErrorJSON makes an internal
-- error at 500 and for any other error value; or one of the bodies.
pub data Response : Type 0 where
  error : ℕ → Text → Response
  internal : Response
  confirmed canceled : Response
  -- v2RequestCreateResponse, which has the state
  created : Text → Response
  -- RequestResultResponse: pending, failed, or done with the envelope
  still_pending failed_with : Text → Response
  done_with : Text → Option ResponseEnvelope → Response

-- ExecuteInTransaction: after an error of the function, or when the transaction cannot commit, the
-- tables are as before.
abbrev pub execute_in_transaction {ℓ κ} :
    {E : Type ℓ} {A : Type κ} → Conn → E → Tables → Result E A × Tables → Result E A × Tables
execute_in_transaction commit broken before (err e, after) = (err e, before)
execute_in_transaction up broken before (ok a, after) = (ok a, after)
execute_in_transaction down broken before (ok a, after) = (err broken, before)
