-- ===== src/Server/Result.antt =====
-- RouteV2RequestResult, the long-poll for a request's result (internal/server/routes-request.go).
pub mod Own
mod Tests
use revaulter.Base.{
  ℕ, Text, bytes, same, is_empty, Bool, true, false, not, Option, none, some, List, [], ◌∷◌,
  if◌then◌else◌,
}
use revaulter.Sql.{Conn, up, down}
use revaulter.Json.{Codec}
use revaulter.Protocol.Envelope.{ResponseEnvelope}
use revaulter.Db.Requests.{
  Requests, RequestRecord, Result, ok, err, Status, pending, completed, canceled, expired,
  get_request, get_and_delete_terminal_request,
}
use revaulter.Db.Auth.Accounts.{UserRow}
use revaulter.Server.Notifications.{Hub, subscribe_state, unsubscribe_state}
use revaulter.Server.State.{Response, error, internal, still_pending, failed_with, done_with}

-- What other writers do to the table at some moment.
abbrev pub Writers : Type 0
Writers = Requests → Requests

-- One GetRequest: the driver's answers to its statements, its clocks, the writers before it and
-- between its statements.
pub record Read : Type 0 where
  pub before : Writers
  pub first_conn : Conn
  pub mark_conn : Conn
  pub second_conn : Conn
  pub first_clock : ℕ
  pub mark_clock : ℕ
  pub before_mark : Writers
  pub after_mark : Writers

-- How the wait of a round ends: with a notification, with the channel closed by a newer long-poll, or
-- with the client gone.
pub data Wake : Type 0 where
  notified evicted disconnected : Wake

-- One round of the loop: its read, the deletion that it may come to with the writers before, and its
-- wait.
pub record Round : Type 0 where
  pub read : Read
  pub before_delete : Writers
  pub delete_conn : Conn
  pub delete_clock : ℕ
  pub wake : Wake

module _ (codec : Codec ResponseEnvelope) where
  unfoldable pub perform_read : Read → Text → Requests → Result (Option RequestRecord) × Requests
  perform_read r state t =
      get_request codec r.first_conn r.mark_conn r.second_conn r.first_clock r.mark_clock
        r.before_mark r.after_mark state (r.before t)

  -- The record that was deleted is answered with `answer`; none was, and the loop goes on.
  abbrev pub after_delete :
      (RequestRecord → Response)
      → (Requests → Option (Response × Requests))
      → Result (Option RequestRecord) × Requests
      → Option (Response × Requests)
  after_delete answer continue (err e, t) = some (internal, t)
  after_delete answer continue (ok none, t) = continue t
  after_delete answer continue (ok (some rec), t) = some (answer rec, t)

  abbrev pub wait :
      Wake
      → RequestRecord
      → (Requests → Option (Response × Requests))
      → Requests
      → Option (Response × Requests)
  wait notified rec continue t = continue t
  wait evicted rec continue t = some (still_pending rec.state, t)
  wait disconnected rec continue t = some (still_pending rec.state, t)

  abbrev pub done_answer : RequestRecord → Response
  done_answer rec = done_with rec.state rec.response_envelope

  abbrev pub failed_answer : RequestRecord → Response
  failed_answer rec = failed_with rec.state

  abbrev pub delete_in : Round → Text → Requests → Result (Option RequestRecord) × Requests
  delete_in r state t =
      get_and_delete_terminal_request codec r.delete_conn r.delete_clock state (r.before_delete t)

  -- The switch on the status
  abbrev pub on_status :
      Round
      → Text
      → RequestRecord
      → (Requests → Option (Response × Requests))
      → Status
      → Requests
      → Option (Response × Requests)
  on_status r state rec continue completed t =
      after_delete done_answer continue (delete_in r state t)
  on_status r state rec continue canceled t =
      after_delete failed_answer continue (delete_in r state t)
  on_status r state rec continue expired t =
      after_delete failed_answer continue (delete_in r state t)
  on_status r state rec continue pending t = wait r.wake rec continue t

  abbrev pub after_read :
      Round
      → Text
      → (Requests → Option (Response × Requests))
      → Result (Option RequestRecord) × Requests
      → Option (Response × Requests)
  after_read r state continue (err e, t) = some (internal, t)
  after_read r state continue (ok none, t) =
      some (error 400 (bytes "State not found or expired"), t)
  after_read r state continue (ok (some rec), t) = on_status r state rec continue rec.status t

  -- The loop, on the rounds that come; `none` while it still waits.
  unfoldable pub poll : List Round → Text → Requests → Option (Response × Requests)
  poll [] state t = none
  poll (r ∷ rs) state t = after_read r state (poll rs state) (perform_read r.read state t)

  -- The part that the subscription surrounds. `others` is what others do to the subscriptions
  -- meanwhile; the deferred unsubscribeState runs last. The outer `none` is a panic.
  abbrev pub subscribed :
      Text
      → (Hub → Hub)
      → Option (Response × Requests)
      → Option (ℕ × Hub)
      → Option (Option (Response × Requests) × Hub)
  subscribed state others run none = none
  subscribed state others run (some (watch, h)) = elim run [
    | none ↦ some (none, others h)
    | some out ↦ elim (unsubscribe_state state watch (others h)) [
      | none ↦ none
      | some h' ↦ some (some out, h')
    ]
  ]

  abbrev pub owned_read :
      List Round
      → Text
      → UserRow
      → (Hub → Hub)
      → Hub
      → Result (Option RequestRecord) × Requests
      → Option (Option (Response × Requests) × Hub)
  owned_read rounds state user others h (err e, t) = some (some (internal, t), h)
  owned_read rounds state user others h (ok none, t) =
      some (some (error 404 (bytes "State not found or expired"), t), h)
  owned_read rounds state user others h (ok (some rec), t) =
      if not (same rec.user_id user.id)
      then some (some (error 404 (bytes "State not found or expired"), t), h)
      else subscribed state others (poll rounds state t) (subscribe_state state h)

  abbrev pub with_user :
      Read
      → List Round
      → Text
      → Option UserRow
      → (Hub → Hub)
      → Requests
      → Hub
      → Option (Option (Response × Requests) × Hub)
  with_user first rounds state none others t h = some (some (internal, t), h)
  with_user first rounds state (some user) others t h =
      owned_read rounds state user others h (perform_read first state t)

  -- RouteV2RequestResult
  unfoldable pub route_v2_request_result :
      Read
      → List Round
      → Text
      → Option UserRow
      → (Hub → Hub)
      → Requests
      → Hub
      → Option (Option (Response × Requests) × Hub)
  route_v2_request_result first rounds state user others t h =
      if is_empty state
      then some (some (error 400 (bytes "Missing parameter state"), t), h)
      else with_user first rounds state user others t h
