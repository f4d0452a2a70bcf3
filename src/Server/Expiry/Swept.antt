-- ===== src/Server/Expiry/Swept.antt =====
-- A request that nobody answers is expired, and then deleted (internal/server/util-eventqueue.go).
use mathlib.Core.Option
use mathlib.Core.Path.{subst}
use revaulter.Base.{
  ℕ, ◌+◌, ◌*◌, ◌≤◌, ◌<◌, Text, same, same_refl, is_empty, text_eq, ◌≡◌, refl, sym, ap, ◌∙◌, true,
  none, some, ◌∷◌, arith, if◌then◌else◌,
}
use revaulter.Sql.{up, keep_if, adjust, drop_if}
use revaulter.Sql.Keyed
use revaulter.Server.Notifications.{Hub}
use revaulter.Time.{unix, second}
use revaulter.Json.{Codec}
use revaulter.Protocol.Envelope.{ResponseEnvelope}
use revaulter.Db.Requests
use revaulter.Db.Requests.{
  RequestRow, RequestRecord, key, find, Distinct, pending, expired, is_overdue, is_pending,
  set_status, record_of, scan, scan_optional, mark_expired, is_deletable, delete_terminal_request,
}
use revaulter.Db.Requests.View.{find-mark_expired, answer-mark_expired, find-delete_terminal}
use revaulter.Server.Notifications.Safe.{woken}
use revaulter.Server.AuditTrail.{AuditDraw, Objects, audit_event_ctx}
use revaulter.Server.State.{
  Tables, Server, QueueAnswer, accepted, enqueue, RequestExpiryEvent, DeleteEvent, removed,
}
use revaulter.Server.Announce.{IsSound, notify-IsSound, publish_list_item-IsSound}
use revaulter.Server.Expiry.{
  expire_fields, delete_request_event, after_mark, execute_request_expiry_event,
  execute_delete_event,
}

module _ (codec : Codec ResponseEnvelope) where
  overdue :
      (now : ℕ) (r : RequestRow)
      → r.status ≡ pending
      → r.expires_at < unix now
      → is_overdue (unix now) r ≡ true
  overdue now r p h = rw p (ground arith)

  scan_unanswered :
      (r : RequestRow)
      → is_empty r.encrypted_result ≡ true
      → scan_optional codec (some r) ≡ Requests.ok (some (record_of r none))
  unfolding scan_optional
  scan_unanswered r e = ground arith

  -- MarkExpired finds the request and answers with it.
  mark_answers :
      (now : ℕ) (state : Text) (t : Requests.Requests) (r : RequestRow)
      → Distinct t
      → find state t ≡ some r
      → r.status ≡ pending
      → r.expires_at < unix now
      → is_empty r.encrypted_result ≡ true
      → (mark_expired codec up now state t).0
        ≡ Requests.ok (some (record_of (set_status expired (unix now) r) none))
  mark_answers now state t r d f p h e =
      answer-mark_expired codec state t d now
      ∙ ap
          (λ o.
            scan_optional codec
              (Option.map (set_status expired (unix now)) (keep_if (is_overdue (unix now)) o)))
          f
      ∙ ap
          (λ b.
            scan_optional codec
              (Option.map (set_status expired (unix now)) (if b then some r else none)))
          (overdue now r p h)
      ∙ scan_unanswered (set_status expired (unix now) r) e

  mark_leaves :
      (now : ℕ) (state : Text) (t : Requests.Requests) (r : RequestRow)
      → find state t ≡ some r
      → r.status ≡ pending
      → r.expires_at < unix now
      → find state (mark_expired codec up now state t).1 ≡ some (set_status expired (unix now) r)
  mark_leaves now state t r f p h =
      find-mark_expired codec state t now state
      ∙ rw (same_refl state) (
          ap (adjust (is_overdue (unix now)) (set_status expired (unix now))) f
          ∙ ap (λ b. some (if b then set_status expired (unix now) r else r)) (overdue now r p h))

  marked_Distinct :
      (now : ℕ) (state : Text) (t : Requests.Requests)
      → Distinct t
      → Distinct (mark_expired codec up now state t).1
  unfolding mark_expired
  marked_Distinct now state t d = Keyed.Distinct-update key _ _ (λ r. refl) t d

  deletable :
      (now deadline ttl : ℕ) (r : RequestRow)
      → r.expires_at ≡ unix deadline
      → deadline + 5 * second ≤ ttl
      → is_deletable (some (ttl + 600 * second)) (set_status expired (unix now) r) ≡ true
  deletable now deadline ttl r e h = ground arith

  -- What the second event does to the expired request.
  sweep :
      (now deadline ttl : ℕ) (state : Text) (t : Requests.Requests) (r : RequestRow)
      → Distinct t
      → find state t ≡ some (set_status expired (unix now) r)
      → r.expires_at ≡ unix deadline
      → deadline + 5 * second ≤ ttl
      → find state (delete_terminal_request up state (some (ttl + 600 * second)) t).1 ≡ none
  sweep now deadline ttl state t r d f e h =
      find-delete_terminal state t state (some (ttl + 600 * second)) d
      ∙ rw (same_refl state) (
          ap (drop_if (is_deletable (some (ttl + 600 * second)))) f
          ∙ ap (λ b. if b then none else some (set_status expired (unix now) r))
              (deletable now deadline ttl r e h))

  module _ (json : Objects) where
    delete_step :
        (ev : RequestExpiryEvent) (format_int : ℕ → Text) (later : ℕ) (queue : QueueAnswer)
        (s : Server)
        → (execute_delete_event format_int up later queue
            (delete_request_event json codec ev)
            s).tables.requests
          ≡ (delete_terminal_request up ev.state (some (ev.ttl + 600 * second)) s.tables.requests).1
    unfolding execute_delete_event same
    delete_step ev format_int later queue s = refl

    -- A request that is still pending when its expiry event runs is expired, whoever waits for it is
    -- woken, and the event that is enqueued then deletes it, whatever the time. (The statements run,
    -- the queue accepts, the event is due 5 seconds after the request's deadline at least and runs
    -- when it is due, the channels are in order, the primary key is unique, and a pending request has
    -- no result.)
    pub request_swept :
        (now deadline : ℕ) (d : AuditDraw) (ev : RequestExpiryEvent) (s : Server) (r : RequestRow)
        (format_int : ℕ → Text) (later : ℕ) (queue : QueueAnswer)
        → IsSound s
        → Distinct s.tables.requests
        → find ev.state s.tables.requests ≡ some r
        → r.status ≡ pending
        → is_empty r.encrypted_result ≡ true
        → r.expires_at ≡ unix deadline
        → deadline + 5 * second ≤ ev.ttl
        → ev.ttl ≤ now
        → (s' : Server) × (execute_request_expiry_event json codec up now d accepted ev s ≡ some s')
          × (find ev.state s'.tables.requests ≡ some (set_status expired (unix now) r))
          × ((i : ℕ) → s.hub.subs ev.state ≡ some i → s'.hub.chans.get i ≡ woken)
          × ((del : DeleteEvent) × (s'.delete_queue ≡ enqueue del ∷ s.delete_queue)
              × (find ev.state
                    (execute_delete_event format_int up later queue del s').tables.requests
                  ≡ none))
    unfolding execute_request_expiry_event
    request_swept now deadline d ev s r format_int later queue v dist f p e x h due =
        let past : r.expires_at < unix now = ground arith in
        let marked = mark_expired codec up now ev.state s.tables.requests in
        let rec = record_of (set_status expired (unix now) r) none in
        let s₁ : Server = record s {
          tables = record (s.tables) {
            requests = marked.1;
            audit = audit_event_ctx json d (expire_fields json codec ev.state rec) s.tables.audit;
          };
        } in
        let v₁ : IsSound s₁ = record { hub_valid = v.hub_valid; broker_valid = v.broker_valid } in
        let (hub, told, v₂, wakes) = notify-IsSound ev.state s₁ v₁ in
        let (s₃, listed, same, v₃) =
          publish_list_item-IsSound (removed ev.state rec.user_id) (record s₁ { hub = hub }) v₂ in
        let del = delete_request_event json codec ev in
        let left : find ev.state s₃.tables.requests ≡ some (set_status expired (unix now) r) =
          ap (λ (t : Tables). find ev.state t.requests) same.same_tables
          ∙ mark_leaves now ev.state s.tables.requests r f p past in
        (
          record s₃ { delete_queue = enqueue del ∷ s₃.delete_queue },
          ap (λ a. after_mark json codec d accepted ev s (a, marked.1))
                (mark_answers now ev.state s.tables.requests r dist f p past e)
              ∙ rw (told, listed, after_mark),
          left,
          λ i q. ap (λ (x : Hub). x.chans.get i) same.same_hub ∙ wakes i q,
          (
            del,
            ap (λ q. enqueue del ∷ q) same.same_deletes,
            ap (find ev.state) (delete_step ev format_int later queue _)
                ∙ sweep now deadline ev.ttl ev.state s₃.tables.requests r
                    (subst (λ (t : Tables). Distinct t.requests) (sym same.same_tables)
                      (marked_Distinct now ev.state s.tables.requests dist))
                    left x h,
          ),
        )
