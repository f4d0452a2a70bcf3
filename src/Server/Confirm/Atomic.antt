-- ===== src/Server/Confirm/Atomic.antt =====
-- A verdict is recorded in the request and in the audit log, or nowhere
-- (internal/server/routes-api.go).
use mathlib.Core.Path.{subst}
use revaulter.Base.{
  Text, bytes, same, is_empty, text_eq, ◌≡◌, refl, sym, ◌⊎◌, inl, inr, true, false, Option, none,
  some, arith, if◌then◌else◌, Bool-cases, if_cases,
}
use revaulter.Base.Results.{Result}
use revaulter.Json.{Codec}
use revaulter.Protocol.Envelope.{ResponseEnvelope}
use revaulter.Protocol.Keys.{validate_envelope, EnvelopeError}
use revaulter.Protocol.SigningJwk.{Crypto}
use revaulter.Db.Requests
use revaulter.Db.Requests.{
  RequestRow, RequestRecord, Status, find, Distinct, pending, complete_request, cancel_request,
  set_result, set_status, not_modifiable,
}
use revaulter.Server.AuditTrail.{Context, Objects}
use revaulter.Server.Logged.{Logged}
use revaulter.Server.State.{
  Tables, Server, Response, internal, removed, call, dequeue, expiry_key, error, confirmed,
  canceled,
}
use revaulter.Server.Announce.{IsSound, notify-IsSound, publish_list_item-IsSound}
use revaulter.Server.Confirm.{
  Answers, TxError, failed, conflict, maybe_auto_store, announce, is_refused, ConfirmRequest,
  cancel_in_tx, complete_in_tx, after_cancel, after_complete, confirm_valid, confirm_parsed,
  route_v2_api_confirm,
}
use revaulter.Server.Confirm.Recorded.{tx_cases, maybe_keeps}
use revaulter.Server.Confirm.Ended.{succeeded, Ended, Verdict, complete-Ended, cancel-Ended}

module _ (codec : Codec ResponseEnvelope) (json : Objects) (crypto : Crypto) where
  -- The end of the handler answers, and leaves the tables alone.
  announce-IsSound :
      (a : Answers) (state : Text) (rec : RequestRecord) (answer : Response) (s : Server)
      → IsSound s
      → (out : Response × Server) × (announce json codec crypto a state rec answer s ≡ some out)
        × (out.1.tables ≡ s.tables)
        × (out.0 ≡ (if is_refused a.queue then internal else answer))
        × IsSound out.1
  unfolding announce
  announce-IsSound a state rec answer s v =
      let q = call a.queue (dequeue (expiry_key state)) s.expiry_queue in
      let s₁ : Server = record s { expiry_queue = q } in
      let v₁ : IsSound s₁ = record { hub_valid = v.hub_valid; broker_valid = v.broker_valid } in
      let (h, e, v₂, wakes) = notify-IsSound state s₁ v₁ in
      let (s₃, e', same, v₃) =
        publish_list_item-IsSound (removed state rec.user_id) (record s₁ { hub = h }) v₂ in
      elim (Bool-cases (is_refused a.queue)) [
        | inl r ↦ ((internal, s₁), ground arith, refl, ground arith, v₁)
        | inr r ↦ ((answer, s₃), rw (r, announce, e, e'), same.same_tables, ground arith, v₃)
      ]

  -- How the handler ends: a refusal changes no table; else the verdict stands.
  abbrev Settled : Answers → Context → Option ConfirmRequest → Server → Response × Server → Type 0
  Settled a c body s out =
      ((out.1.tables ≡ s.tables) × (succeeded out.0 ≡ false))
      ⊎ ((req : ConfirmRequest) × (body ≡ some req) × Verdict a c req out.0 s.tables out.1.tables)

  abbrev Ends :
      Answers → Context → Option ConfirmRequest → Server → Option (Response × Server) → Type 0
  Ends a c body s run =
      (out : Response × Server) × (run ≡ some out) × Settled a c body s out × IsSound out.1

  refuses :
      (a : Answers) (c : Context) (body : Option ConfirmRequest) (s : Server) (answer : Response)
      → IsSound s
      → succeeded answer ≡ false
      → Ends a c body s (some (answer, s))
  refuses a c body s answer v e = ((answer, s), refl, inl (refl, e), v)

  -- The rest of the handler, after a commit that recorded the verdict.
  committed :
      (a : Answers) (c : Context) (req : ConfirmRequest) (s : Server) (t : Tables)
      (rec : RequestRecord)
      → IsSound s
      → Ended req.state c.user_id
          (if req.cancel then Requests.canceled else Requests.completed)
          s.tables.requests
          t.requests
      → Logged a.audit.id
          (if req.cancel then bytes "request.cancel" else bytes "request.confirm")
          c.user_id
          req.state
          t.audit
      → Ends a c (some req) s (
          announce json codec crypto a req.state rec
            (if req.cancel then canceled else confirmed)
            (record s { tables = t }))
  committed a c req s t rec v ended logged =
      let s' : Server = record s { tables = t } in
      let v' : IsSound s' = record { hub_valid = v.hub_valid; broker_valid = v.broker_valid } in
      let (out, e, same, resp, w) =
        announce-IsSound a req.state rec (if req.cancel then canceled else confirmed) s' v' in
      (
        out,
        e,
        inr (
          req,
          refl,
          record {
            request =
                subst
                  (λ (x : Tables).
                    Ended req.state c.user_id
                      (if req.cancel then Requests.canceled else Requests.completed)
                      s.tables.requests x.requests)
                  (sym same) ended;
            event =
                subst
                  (λ (x : Tables).
                    Logged a.audit.id
                      (if req.cancel then bytes "request.cancel" else bytes "request.confirm")
                      c.user_id req.state x.audit)
                  (sym same) logged;
            answered = resp;
          },
        ),
        w,
      )

  cancel_known :
      (a : Answers) (c : Context) (req : ConfirmRequest) (s : Server)
      → IsSound s
      → Distinct s.tables.requests
      → is_empty c.user_id ≡ false
      → req.cancel ≡ true
      → Ends a c (some req) s (
          after_cancel json codec crypto a req.state s
            (cancel_in_tx json codec crypto a c req.state s.tables))
  unfolding cancel_in_tx
  cancel_known a c req s v d known flag =
      let r = cancel_request codec a.statement a.clock req.state c.user_id s.tables.requests in
      let go = λ (x : Result TxError RequestRecord × Tables).
        Ends a c (some req) s (after_cancel json codec crypto a req.state s x) in
      elim (tx_cases json codec crypto a c (bytes "request.cancel") req.state s.tables r known) [
        | inl (conflict, e) ↦
            subst go (sym e)
              (refuses a c (some req) s (error 409 (bytes "Request cannot be canceled")) v refl)
        | inl (failed, e) ↦ subst go (sym e) (refuses a c (some req) s internal v refl)
        | inr (rec, answered, (log, logged, e)) ↦ subst go (sym e) (
            subst
              (λ (answer : Response). Ends a c (some req) s (
                announce json codec crypto a req.state rec answer
                  (record s { tables = record (s.tables) { requests = r.1; audit = log } })))
              (rw flag)
              (committed a c req s (record (s.tables) { requests = r.1; audit = log }) rec v
                (rw flag (
                  cancel-Ended codec a.statement a.clock req.state c.user_id s.tables.requests rec d
                    answered))
                (rw flag logged)))
      ]

  complete_known :
      (a : Answers) (c : Context) (req : ConfirmRequest) (env : ResponseEnvelope) (s : Server)
      → IsSound s
      → Distinct s.tables.requests
      → is_empty c.user_id ≡ false
      → req.cancel ≡ false
      → Ends a c (some req) s (
          after_complete json codec crypto a c req s
            (complete_in_tx json codec crypto a c req.state env s.tables))
  unfolding complete_in_tx
  complete_known a c req env s v d known flag =
      let r =
        complete_request codec a.statement a.clock req.state c.user_id env s.tables.requests in
      let go = λ (x : Result TxError RequestRecord × Tables).
        Ends a c (some req) s (after_complete json codec crypto a c req s x) in
      elim (tx_cases json codec crypto a c (bytes "request.confirm") req.state s.tables r known) [
        | inl (conflict, e) ↦
            subst go (sym e)
              (refuses a c (some req) s (error 409 (bytes "Request cannot be confirmed")) v refl)
        | inl (failed, e) ↦ subst go (sym e) (refuses a c (some req) s internal v refl)
        | inr (rec, answered, (log, logged, e)) ↦
            let t : Tables = record (s.tables) { requests = r.1; audit = log } in
            let kept =
              maybe_keeps json codec crypto a.audit.id (bytes "request.confirm") c.user_id req.state
                a c rec req.public_key t in
            subst go (sym e) (
              subst
                (λ (answer : Response). Ends a c (some req) s (
                  announce json codec crypto a req.state rec answer (record s {
                    tables = maybe_auto_store json codec crypto a c rec req.public_key t;
                  })))
                (rw flag)
                (committed a c req s (maybe_auto_store json codec crypto a c rec req.public_key t)
                  rec v
                  (rw flag (
                    rw (kept.0) (
                      complete-Ended codec a.statement a.clock req.state c.user_id env
                        s.tables.requests rec d answered)))
                  (rw flag (kept.1 logged))))
      ]

  confirm_valid-Ends :
      (a : Answers) (c : Context) (req : ConfirmRequest) (o : Option ResponseEnvelope) (s : Server)
      → IsSound s
      → Distinct s.tables.requests
      → is_empty c.user_id ≡ false
      → req.cancel ≡ false
      → Ends a c (some req) s (confirm_valid json codec crypto a c req o s)
  confirm_valid-Ends a c req none s v d known flag = refuses a c (some req) s _ v refl
  confirm_valid-Ends a c req (some env) s v d known flag = checked_ends (validate_envelope env)
    where
      checked_ends :
          (x : Option EnvelopeError)
          → Ends a c (some req) s (elim x [
            | some e ↦ some (error 400 (bytes "Invalid responseEnvelope"), s)
            | none ↦
                after_complete json codec crypto a c req s
                  (complete_in_tx json codec crypto a c req.state env s.tables)
          ])
      checked_ends none = complete_known a c req env s v d known flag
      checked_ends (some e) =
          refuses a c (some req) s (error 400 (bytes "Invalid responseEnvelope")) v refl

  confirm_parsed-Ends :
      (a : Answers) (c : Context) (body : Option ConfirmRequest) (s : Server)
      → IsSound s
      → Distinct s.tables.requests
      → is_empty c.user_id ≡ false
      → Ends a c body s (confirm_parsed json codec crypto a c body s)
  confirm_parsed-Ends a c none s v d known = refuses a c none s _ v refl
  confirm_parsed-Ends a c (some req) s v d known =
      if_cases (Ends a c (some req) s) (is_empty req.state) (λ e. refuses a c (some req) s _ v refl)
        (λ e.
          if_cases (Ends a c (some req) s) _ (λ e'. refuses a c (some req) s _ v refl)
            (λ e'.
              if_cases (Ends a c (some req) s) req.cancel
                (λ flag. cancel_known a c req s v d known flag)
                (λ flag. confirm_valid-Ends a c req req.response_envelope s v d known flag)))

  -- RouteV2APIConfirm, on any body, always answers. Either it refuses, and no table has changed; or
  -- the request, which was the user's and pending, is completed or canceled as the body says, the
  -- audit log has an event that tells so, with the user and the state, and the answer is the
  -- success, but for an internal error where the expiry queue refuses. (No panic can follow: the
  -- channels stay in order. The primary key is unique.)
  pub confirm_atomic :
      (a : Answers) (c : Context) (body : Option ConfirmRequest) (s : Server)
      → IsSound s
      → Distinct s.tables.requests
      → (out : Response × Server) × (route_v2_api_confirm json codec crypto a c body s ≡ some out)
        × (((out.1.tables ≡ s.tables) × (succeeded out.0 ≡ false))
            ⊎ ((req : ConfirmRequest) × (body ≡ some req)
                × Verdict a c req out.0 s.tables out.1.tables))
        × IsSound out.1
  unfolding route_v2_api_confirm
  confirm_atomic a c body s v d =
      if_cases (Ends a c body s) (is_empty c.user_id) (λ e. refuses a c body s _ v refl)
        (λ known. confirm_parsed-Ends a c body s v d known)
