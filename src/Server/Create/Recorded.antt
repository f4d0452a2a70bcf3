-- ===== src/Server/Create/Recorded.antt =====
-- A request is stored, logged and scheduled, or refused (internal/server/routes-request.go).
use mathlib.Core.Path.{subst}
use revaulter.Base.{
  ℕ, ℤ, Text, bytes, same, same_refl, is_empty, text_eq, ◌≡◌, ◌≢◌, refl, sym, ap, ◌∙◌, ◌⊎◌, inl,
  inr, false, Option, none, some, arith, if◌then◌else◌, Bool-cases, Option-cases,
}
use revaulter.Base.Results.{Result, ok, err}
use revaulter.Sql.{Conn, up, down}
use revaulter.Sql.Keyed
use revaulter.Protocol.Timeouts.{get_timeout, request_timeout}
use revaulter.Db.Requests
use revaulter.Db.Requests.{
  CreateRequestInput, RequestRow, duplicate, row_of, key, find, create_request,
}
use revaulter.Db.Audit
use revaulter.Db.Audit.{AuditEvent, AuditLog}
use revaulter.Db.Auth.Accounts.{UserRow}
use revaulter.Server.AuditTrail.{Context, Objects, audit_event}
use revaulter.Server.CreateBody.{RequestCreateBody, BodyError, validate_v2_create_body}
use revaulter.Server.Logged.{Logged, audit_logs}
use revaulter.Server.State.{
  Tables, Server, Response, error, internal, created, listed, call, enqueue, RequestExpiryEvent,
  execute_in_transaction,
}
use revaulter.Server.Announce.{IsSound, publish_list_item-IsSound}
use revaulter.Server.Create.{
  Answers, Settings, is_accepted, input_of, create_fields, with_audit, after_insert, create_in_tx,
  expiry_event, list_item, after_create, with_timeout, with_body, with_user,
  route_v2_request_create,
}
use revaulter.Server.Create.Stored.{IsRow, IsEvent, row_of-IsRow, expiry_event-IsEvent}

stores :
    (c : Conn) (i : CreateRequestInput) (t : Requests.Requests) (x : Unit {0})
    → (create_request c i t).0 ≡ Requests.ok x
    → (find i.state t ≡ none) × (find i.state (create_request c i t).1 ≡ some (row_of i))
unfolding create_request Keyed.insert
stores down i t x e = cc
stores up i t x e = elim (Option-cases (find i.state t)) [
  | inl f ↦ (
    f,
    rw (f, create_request, Keyed.insert)
        (Keyed.find-append key i.state t (row_of i) f ∙ rw (same_refl i.state)),
  )
  | inr (r, f) ↦
      let taken : (create_request up i t).0 ≡ Requests.err duplicate =
        rw (f, create_request, Keyed.insert) in
      cc
]

module _ (json : Objects) (cfg : Settings) where
  -- A request that was created: its body in normal form, its timeout, the row, the event in the audit
  -- log, and the event that expires it.
  pub record Created (a : Answers) (c : Context) (op : Text) (body : Option RequestCreateBody)
      (s : Server) (out : Response × Server) : Type 0 where
    pub user : UserRow
    pub raw : RequestCreateBody
    pub normal : RequestCreateBody
    pub timeout : ℤ
    pub is_user : c.request_user ≡ some user
    pub is_body : body ≡ some raw
    pub is_normal : validate_v2_create_body op raw ≡ ok normal
    pub is_timeout :
        request_timeout cfg.request_timeout (get_timeout cfg.parse_duration normal.timeout)
        ≡ some timeout
    pub is_new : find a.state s.tables.requests ≡ none
    pub row : RequestRow
    pub stored : find a.state out.1.tables.requests ≡ some row
    pub is_row : IsRow json cfg a c user op normal timeout row
    pub logged : Logged a.audit.id (bytes "request.create") user.id a.state out.1.tables.audit
    pub event : RequestExpiryEvent
    pub is_event : IsEvent json cfg a user timeout event
    pub scheduled : out.1.expiry_queue ≡ call a.queue (enqueue event) s.expiry_queue
    pub answered : out.0 ≡ (if is_accepted a.queue then created a.state else internal)

  tx_end :
      (a : Answers) (t after : Tables) (w : Audit.Result AuditEvent × AuditLog)
      (P : AuditLog → Type 0)
      → ((e : AuditEvent) (log : AuditLog) → w ≡ (Audit.ok e, log) → P log)
      → let out = execute_in_transaction a.commit tt t (with_audit json cfg after w) in
        (out ≡ (err tt, t))
        ⊎ ((log : AuditLog) × P log × (out ≡ (ok tt, record after { audit = log })))
  tx_end a t after w P h = go a.commit w h
    where
      go :
          (commit : Conn) (w : Audit.Result AuditEvent × AuditLog)
          → ((e : AuditEvent) (log : AuditLog) → w ≡ (Audit.ok e, log) → P log)
          → let out = execute_in_transaction commit tt t (with_audit json cfg after w) in
            (out ≡ (err tt, t))
            ⊎ ((log : AuditLog) × P log × (out ≡ (ok tt, record after { audit = log })))
      go commit (Audit.err e, log) h = inl refl
      go up (Audit.ok e, log) h = inr (log, h e log refl, refl)
      go down (Audit.ok e, log) h = inl refl

  abbrev Settled :
      Answers → Context → Text → Option RequestCreateBody → Server → Response × Server → Type 0
  Settled a c op body s out =
      ((out.1.tables ≡ s.tables) × (out.0 ≢ created a.state)) ⊎ Created a c op body s out

  abbrev Ends :
      Answers
      → Context
      → Text
      → Option RequestCreateBody
      → Server
      → Option (Response × Server)
      → Type 0
  Ends a c op body s run =
      (out : Response × Server) × (run ≡ some out) × Settled a c op body s out × IsSound out.1

  refuses :
      (a : Answers) (c : Context) (op : Text) (body : Option RequestCreateBody) (s : Server)
      (answer : Response)
      → IsSound s
      → answer ≢ created a.state
      → Ends a c op body s (some (answer, s))
  refuses a c op body s answer v n = ((answer, s), refl, inl (refl, n), v)

  error-ne-created : (code : ℕ) (message state : Text) → error code message ≢ created state
  error-ne-created code message state e = cc

  internal-ne-created : (state : Text) → internal ≢ created state
  internal-ne-created state e = cc

  -- How after_create goes on from the tables of a committed transaction.
  scheduled_ends :
      (a : Answers) (c : Context) (user : UserRow) (op : Text) (b : RequestCreateBody) (timeout : ℤ)
      (s : Server) (t : Tables)
      → IsSound s
      → (out : Response × Server) × (after_create json cfg a c user op b timeout s (ok tt, t)
          ≡ some out)
        × (out.1.tables ≡ t)
        × (out.1.expiry_queue
            ≡ call a.queue (enqueue (expiry_event json cfg a user timeout)) s.expiry_queue)
        × (out.0 ≡ (if is_accepted a.queue then created a.state else internal))
        × IsSound out.1
  scheduled_ends a c user op b timeout s t v =
      let s₁ : Server = record s {
        tables = t;
        expiry_queue = call a.queue (enqueue (expiry_event json cfg a user timeout)) s.expiry_queue;
      } in
      let v₁ : IsSound s₁ = record { hub_valid = v.hub_valid; broker_valid = v.broker_valid } in
      let (s₂, e, same, v₂) =
        publish_list_item-IsSound (listed (list_item json cfg a c user op b timeout)) s₁ v₁ in
      elim (Bool-cases (is_accepted a.queue)) [
        | inl q ↦ (
          (created a.state, s₂),
          rw (q, after_create, e),
          same.same_tables,
          same.same_expiry,
          ground arith,
          v₂,
        )
        | inr q ↦ ((internal, s₁), rw (q, after_create), refl, refl, ground arith, v₁)
      ]

  module _ (a : Answers) (c : Context) (op : Text) (body : Option RequestCreateBody) (s : Server)
      (v : IsSound s) where
    -- The transaction, on what CreateRequest answered.
    tx_cases :
        (user : UserRow) (b : RequestCreateBody)
        (r : Requests.Result (Unit {0}) × Requests.Requests)
        → is_empty user.id ≡ false
        → let out =
            execute_in_transaction a.commit tt s.tables
              (after_insert json cfg a c user op b s.tables r) in
          (out ≡ (err tt, s.tables))
          ⊎ ((r.0 ≡ Requests.ok tt)
              × ((log : AuditLog) × Logged a.audit.id (bytes "request.create") user.id a.state log
                  × (out ≡ (ok tt, record (s.tables) { requests = r.1; audit = log }))))
    tx_cases user b (Requests.err e, requests) known = inl refl
    tx_cases user b (Requests.ok x, requests) known =
        elim (tx_end a s.tables (record (s.tables) { requests = requests })
          (audit_event json a.audit c (create_fields json cfg a user op b) s.tables.audit)
          (Logged a.audit.id (bytes "request.create") user.id a.state)
          (λ e log q.
            audit_logs json a.audit c (create_fields json cfg a user op b) s.tables.audit log e
              known q)) [ inl x ↦ inl x | inr done ↦ inr (refl, done) ]

    stored-Ends :
        (user : UserRow) (raw b : RequestCreateBody) (timeout : ℤ)
        → is_empty user.id ≡ false
        → c.request_user ≡ some user
        → body ≡ some raw
        → validate_v2_create_body op raw ≡ ok b
        → request_timeout cfg.request_timeout (get_timeout cfg.parse_duration b.timeout)
          ≡ some timeout
        → Ends a c op body s (
            after_create json cfg a c user op b timeout s
              (create_in_tx json cfg a c user op b timeout s.tables))
    unfolding create_in_tx
    stored-Ends user raw b timeout known u w n m =
        let i = input_of json cfg a c user op b timeout in
        let r = create_request a.statement i s.tables.requests in
        let go = λ (x : Result (Unit {0}) (Unit {0}) × Tables).
          Ends a c op body s (after_create json cfg a c user op b timeout s x) in
        elim (tx_cases user b r known) [
          | inl e ↦
              subst go (sym e) (refuses a c op body s internal v (internal-ne-created a.state))
          | inr (inserted, (log, logged, e)) ↦
              let t : Tables = record (s.tables) { requests = r.1; audit = log } in
              let (fresh, found) = stores a.statement i s.tables.requests tt inserted in
              let (out, runs, same, queued, answer, w') =
                scheduled_ends a c user op b timeout s t v in
              subst go (sym e) (
                out,
                runs,
                inr (record {
                  user = user;
                  raw = raw;
                  normal = b;
                  timeout = timeout;
                  is_user = u;
                  is_body = w;
                  is_normal = n;
                  is_timeout = m;
                  is_new = fresh;
                  row = row_of i;
                  is_row = row_of-IsRow json cfg a c user op b timeout;
                  stored = ap (λ (x : Tables). find a.state x.requests) same ∙ found;
                  logged =
                      subst
                        (λ (x : Tables).
                          Logged a.audit.id (bytes "request.create") user.id a.state x.audit)
                        (sym same) logged;
                  event = expiry_event json cfg a user timeout;
                  is_event = expiry_event-IsEvent json cfg a user timeout;
                  scheduled = queued;
                  answered = answer;
                }),
                w',
              )
        ]

    timeout-Ends :
        (user : UserRow) (raw b : RequestCreateBody) (o : Option ℤ)
        → is_empty user.id ≡ false
        → c.request_user ≡ some user
        → body ≡ some raw
        → validate_v2_create_body op raw ≡ ok b
        → request_timeout cfg.request_timeout (get_timeout cfg.parse_duration b.timeout) ≡ o
        → Ends a c op body s (with_timeout json cfg a c user op b o s)
    timeout-Ends user raw b none known u w n m =
        refuses a c op body s _ v (error-ne-created 400 _ a.state)
    timeout-Ends user raw b (some timeout) known u w n m =
        stored-Ends user raw b timeout known u w n m

    body-Ends :
        (user : UserRow) (raw : RequestCreateBody) (x : Result BodyError RequestCreateBody)
        → is_empty user.id ≡ false
        → c.request_user ≡ some user
        → body ≡ some raw
        → validate_v2_create_body op raw ≡ x
        → Ends a c op body s (with_body json cfg a c user op x s)
    body-Ends user raw (err e) known u w n =
        refuses a c op body s _ v (error-ne-created 400 _ a.state)
    body-Ends user raw (ok b) known u w n = timeout-Ends user raw b _ known u w n refl

    user-Ends :
        (o : Option UserRow) (p : Option RequestCreateBody)
        → ((user : UserRow) → o ≡ some user → is_empty user.id ≡ false)
        → c.request_user ≡ o
        → body ≡ p
        → Ends a c op body s (with_user json cfg a c op p o s)
    user-Ends none p known u w = refuses a c op body s internal v (internal-ne-created a.state)
    user-Ends (some user) none known u w =
        refuses a c op body s _ v (error-ne-created 400 _ a.state)
    user-Ends (some user) (some raw) known u w = body-Ends user raw _ (known user refl) u w refl

    -- RouteV2RequestCreate, on any body, always answers. Either it does not say that the request is
    -- created, and no table has changed; or the body passed the checks and its timeout the limit, the
    -- state was new, the row that is stored under it has the caller's id and address and every field
    -- of the body in normal form, and is pending from now until the timeout from now, the audit log
    -- has an event that tells so, the event that the queue is given names the state and the user and
    -- is due five seconds after the deadline (unless these do not fit an int64), and the answer is
    -- the success, but for an internal error where the queue does not take it. (The request key's user has an id, and the channels are in order.)
    pub create_atomic :
        ((user : UserRow) → c.request_user ≡ some user → is_empty user.id ≡ false)
        → (out : Response × Server) × (route_v2_request_create json cfg a c op body s ≡ some out)
          × (((out.1.tables ≡ s.tables) × (out.0 ≢ created a.state)) ⊎ Created a c op body s out)
          × IsSound out.1
    unfolding route_v2_request_create
    create_atomic known = user-Ends c.request_user body known refl refl
