-- ===== src/Server/Confirm/Ended.antt =====
-- What a verdict does to a request and to the audit log (internal/server/routes-api.go).

use revaulter.Base.{
  ℕ, Text, bytes, text_eq, ◌≡◌, refl, inl, inr, Bool, true, false, some, if◌then◌else◌,
}
use revaulter.Sql.{Conn, up, down}
use revaulter.Json.{Codec}
use revaulter.Protocol.Envelope.{ResponseEnvelope}
use revaulter.Db.Requests
use revaulter.Db.Requests.{
  RequestRow, RequestRecord, Status, find, Distinct, pending, complete_request, cancel_request,
  set_result, set_status, not_modifiable,
}
use revaulter.Time.{unix}
use revaulter.Db.Requests.Outcomes.{complete_exact, cancel_exact}
use revaulter.Server.AuditTrail.{Context}
use revaulter.Server.Logged.{Logged}
use revaulter.Server.State.{
  Tables, Response, internal, error, confirmed, canceled, created, still_pending, failed_with,
  done_with,
}
use revaulter.Server.Confirm.{Answers, is_refused, ConfirmRequest}

abbrev pub succeeded : Response → Bool
succeeded (error code message) = false
succeeded internal = false
succeeded confirmed = true
succeeded canceled = true
succeeded (created state) = true
succeeded (still_pending state) = true
succeeded (failed_with state) = false
succeeded (done_with state env) = true

-- What the request's row has become.
pub record Ended (state user : Text) (status : Status) (t t' : Requests.Requests) : Type 0 where
  pub before : RequestRow
  pub after : RequestRow
  pub found : find state t ≡ some before
  pub mine : before.user_id ≡ user
  pub waited : before.status ≡ pending
  pub found_after : find state t' ≡ some after
  pub ended : after.status ≡ status

-- The verdict stands in both tables; the answer is the success, but for a queue that refuses.
pub record Verdict (a : Answers) (c : Context) (req : ConfirmRequest) (answer : Response)
    (t t' : Tables) : Type 0 where
  pub request :
      Ended req.state c.user_id
        (if req.cancel then Requests.canceled else Requests.completed)
        t.requests
        t'.requests
  pub event :
      Logged a.audit.id
        (if req.cancel then bytes "request.cancel" else bytes "request.confirm")
        c.user_id
        req.state
        t'.audit
  pub answered :
      answer
      ≡ (if is_refused a.queue then internal else (if req.cancel then canceled else confirmed))

refused :
    {x : Requests.Result RequestRecord} {rec : RequestRecord}
    → x ≡ Requests.err not_modifiable
    → x ≡ Requests.ok rec
    → ⊥
refused e q = cc

module _ (codec : Codec ResponseEnvelope) where
  pub complete-Ended :
      (conn : Conn) (now : ℕ) (state user : Text) (env : ResponseEnvelope) (t : Requests.Requests)
      (rec : RequestRecord)
      → Distinct t
      → (complete_request codec conn now state user env t).0 ≡ Requests.ok rec
      → Ended state user Requests.completed t (complete_request codec conn now state user env t).1
  complete-Ended down now state user env t rec d e = unfold complete_request in cc
  complete-Ended up now state user env t rec d e =
      elim (complete_exact codec now state state user env t d).0 [
        | inl (r, f, m, ans, g) ↦ record {
          before = r;
          after = set_result (unix now) (codec.marshal env) r;
          found = f;
          mine = m.owner;
          waited = m.waits;
          found_after = g;
          ended = refl;
        }
        | inr (no_row, ans, g) ↦ absurd (refused ans e)
      ]

  pub cancel-Ended :
      (conn : Conn) (now : ℕ) (state user : Text) (t : Requests.Requests) (rec : RequestRecord)
      → Distinct t
      → (cancel_request codec conn now state user t).0 ≡ Requests.ok rec
      → Ended state user Requests.canceled t (cancel_request codec conn now state user t).1
  cancel-Ended down now state user t rec d e = unfold cancel_request in cc
  cancel-Ended up now state user t rec d e = elim (cancel_exact codec now state state user t d).0 [
    | inl (r, f, m, ans, g) ↦ record {
      before = r;
      after = set_status Requests.canceled (unix now) r;
      found = f;
      mine = m.owner;
      waited = m.waits;
      found_after = g;
      ended = refl;
    }
    | inr (no_row, ans, g) ↦ absurd (refused ans e)
  ]
