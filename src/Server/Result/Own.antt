-- ===== src/Server/Result/Own.antt =====
-- The long-poll tells nothing of another user's request (internal/server/routes-request.go).
use mathlib.Core.Option
use mathlib.Core.Path.{subst}
use revaulter.Base.{
  ℕ, Text, bytes, same, same_refl, is_empty, text_eq, ◌≡◌, refl, sym, ap, ◌∙◌, ◌⊎◌, inl, inr, Bool,
  true, false, ◌&&◌, Option, none, some, List, arith, if◌then◌else◌, Bool-cases, if_cases,
}
use revaulter.Sql.{Conn, up, down, keep_if, adjust}
use revaulter.Sql.Keyed
use revaulter.Time.{unix, before}
use revaulter.Json.{Codec}
use revaulter.Protocol.Envelope.{ResponseEnvelope}
use revaulter.Db.Requests.{
  Requests, RequestRow, RequestRecord, Result, ok, err, driver, key, find, Distinct, expired,
  is_pending, is_overdue, set_status, scan_optional, get_request, get_request_raw, mark_expired,
  reread,
}
use revaulter.Db.Requests.View.{answer-get_raw, answer-mark_expired, find-mark_expired}
use revaulter.Db.Auth.Accounts.{UserRow}
use revaulter.Server.Notifications.{Hub}
use revaulter.Server.State.{Response, error, internal}
use revaulter.Server.Result.{
  Writers, Read, Round, perform_read, owned_read, route_v2_request_result,
}

module _ (codec : Codec ResponseEnvelope) (state user : Text) where
  abbrev Other : RequestRecord → Type 0
  Other rec = same rec.user_id user ≡ false

  -- A row of another user's, whose stored result, if there is one, can be read back.
  pub record IsOther (r : RequestRow) : Type 0 where
    pub other : same r.user_id user ≡ false
    pub readable :
        (is_empty r.encrypted_result ≡ true)
        ⊎ ((e : ResponseEnvelope) × (codec.unmarshal r.encrypted_result ≡ some e))

  -- No request of this user's has that state: there is none, or it is another user's.
  pub record Foreign (t : Requests) : Type 0 where
    pub distinct : Distinct t
    pub others : (r : RequestRow) → find state t ≡ some r → IsOther r

  abbrev pub Keeps : Writers → Type 0
  Keeps w = (t : Requests) → Foreign t → Foreign (w t)

  marked :
      (now : ℕ) (x r : RequestRow) → IsOther x → set_status expired (unix now) x ≡ r → IsOther r
  marked now x r h e =
      let u : x.user_id ≡ r.user_id = ap (λ (z : RequestRow). z.user_id) e in
      let v : x.encrypted_result ≡ r.encrypted_result =
        ap (λ (z : RequestRow). z.encrypted_result) e in
      record { other = rw (sym u) h.other; readable = rw (sym v) h.readable }

  expired_others :
      (now : ℕ) (o : Option RequestRow)
      → ((r : RequestRow) → o ≡ some r → IsOther r)
      → (r : RequestRow)
      → Option.map (set_status expired (unix now)) (keep_if (is_overdue (unix now)) o) ≡ some r
      → IsOther r
  expired_others now none h r e = absurd (cc)
  expired_others now (some x) h r e = elim (Bool-cases (is_overdue (unix now) x)) [
    | inl q ↦ marked now x r (h x refl) (ground arith)
    | inr q ↦ absurd (ground arith)
  ]

  mark_keeps : (c : Conn) (now : ℕ) → Keeps (λ t. (mark_expired codec c now state t).1)
  mark_keeps down now t f = unfold mark_expired in f
  mark_keeps up now t f = record {
    distinct = unfold mark_expired in Keyed.Distinct-update key _ _ (λ r. refl) t f.distinct;
    others = λ r e.
        adjusted (find state t) f.others r
          (sym (find-mark_expired codec state t now state ∙ rw (same_refl state)) ∙ e);
  }
    where
      adjusted :
          (o : Option RequestRow)
          → ((r : RequestRow) → o ≡ some r → IsOther r)
          → (r : RequestRow)
          → adjust (is_overdue (unix now)) (set_status expired (unix now)) o ≡ some r
          → IsOther r
      adjusted none h r e = absurd (cc)
      adjusted (some x) h r e = elim (Bool-cases (is_overdue (unix now) x)) [
        | inl q ↦ marked now x r (h x refl) (ground arith)
        | inr q ↦ h r (ground arith)
      ]

  -- A statement of the read fails.
  abbrev pub Fails : Read → Type 0
  Fails r = (r.first_conn ≡ down) ⊎ (r.mark_conn ≡ down) ⊎ (r.second_conn ≡ down)

  module _ (F : Type 0) where
    -- An answer is another user's request or no request, but where F holds.
    abbrev Says : Result (Option RequestRecord) → Type 0
    Says x = ((rec : RequestRecord) → x ≡ ok (some rec) → Other rec) × ((e : _) → x ≡ err e → F)

    scan-Says :
        (o : Option RequestRow)
        → ((r : RequestRow) → o ≡ some r → IsOther r)
        → Says (scan_optional codec o)
    unfolding scan_optional
    scan-Says none h = (λ rec e. absurd (cc), λ x e. absurd (cc))
    scan-Says (some r) h =
        let g = h r refl in
        let o = g.other in
        elim (Bool-cases (is_empty r.encrypted_result)) [
          | inl q ↦ (λ rec e. ground arith, λ x e. absurd (ground arith))
          | inr q ↦ elim g.readable [
            | inl q' ↦ absurd (cc)
            | inr (env, u) ↦ (λ rec e. ground arith, λ x e. absurd (ground arith))
          ]
        ]

    raw-Says :
        (c : Conn) (t : Requests)
        → (c ≡ down → F)
        → Foreign t
        → Says (get_request_raw codec c state t)
    raw-Says down t d f =
        let x : get_request_raw codec down state t ≡ err driver = unfold get_request_raw in refl in
        (λ rec e. absurd (cc), λ x e. d refl)
    raw-Says up t d f =
        subst Says (sym (answer-get_raw codec state t f.distinct))
          (scan-Says (find state t) f.others)

    mark-Says :
        (c : Conn) (now : ℕ) (t : Requests)
        → (c ≡ down → F)
        → Foreign t
        → Says (mark_expired codec c now state t).0
    mark-Says down now t d f =
        let x : (mark_expired codec down now state t).0 ≡ err driver =
          unfold mark_expired in refl in
        (λ rec e. absurd (cc), λ x e. d refl)
    mark-Says up now t d f = subst Says (sym (answer-mark_expired codec state t f.distinct now)) (
        scan-Says
          (Option.map (set_status expired (unix now))
            (keep_if (is_overdue (unix now)) (find state t)))
          (expired_others now (find state t) f.others))

    reread-Says :
        (c : Conn) (w : Writers) (x : Result (Option RequestRecord)) (t : Requests)
        → (c ≡ down → F)
        → Keeps w
        → Foreign t
        → Says x
        → Says (reread codec c state w (x, t)).0
    reread-Says c w (ok none) t d k f h = raw-Says c (w t) d (k t f)
    reread-Says c w (ok (some r)) t d k f h = h
    reread-Says c w (err x) t d k f h = h

    first-Says :
        (x : Result (Option RequestRecord)) (t : Requests) (test : RequestRecord → Bool)
        (y : Result (Option RequestRecord) × Requests)
        → Says x
        → Says y.0
        → Says (
            let out : Result (Option RequestRecord) × Requests = elim x [
              | err e ↦ (err e, t)
              | ok none ↦ (ok none, t)
              | ok (some rec) ↦ if test rec then y else (ok (some rec), t)
            ] in
            out.0)
    first-Says (err e) t test y h k = h
    first-Says (ok none) t test y h k = h
    first-Says (ok (some r)) t test y h k =
        if_cases (λ (z : Result (Option RequestRecord) × Requests). Says z.0) (test r) (λ e. k)
          (λ e. h)

  -- The writers around and between the statements of a read make the request no one's who asks.
  pub record IsQuiet (r : Read) : Type 0 where
    pub before : Keeps r.before
    pub before_mark : Keeps r.before_mark
    pub after_mark : Keeps r.after_mark

  read-Says :
      (r : Read) (t : Requests)
      → IsQuiet r
      → Foreign t
      → Says (Fails r) (perform_read codec r state t).0
  unfolding perform_read get_request
  read-Says r t q f =
      let t₀ = r.before t in
      let f₀ = q.before t f in
      let m = mark_expired codec r.mark_conn r.mark_clock state (r.before_mark t₀) in
      first-Says (Fails r) (get_request_raw codec r.first_conn state t₀) t₀
        (λ rec. is_pending rec.status && before rec.expires_at r.first_clock)
        (reread codec r.second_conn state r.after_mark m)
        (raw-Says (Fails r) r.first_conn t₀ (λ d. inl d) f₀)
        (reread-Says (Fails r) r.second_conn r.after_mark m.0 m.1 (λ d. inr (inr d)) q.after_mark
          (mark_keeps r.mark_conn r.mark_clock (r.before_mark t₀) (q.before_mark t₀ f₀))
          (mark-Says (Fails r) r.mark_conn r.mark_clock (r.before_mark t₀) (λ d. inr (inl d))
            (q.before_mark t₀ f₀)))

  -- The answers that tell nothing: the one error, and an internal one where a statement fails.
  abbrev pub Silent : Read → Response → Type 0
  Silent r answer =
      (answer ≡ error 404 (bytes "State not found or expired")) ⊎ ((answer ≡ internal) × Fails r)

  silent :
      (r : Read) (rounds : List Round) (u : UserRow) (others : Hub → Hub) (h : Hub)
      (x : Result (Option RequestRecord)) (t : Requests)
      → u.id ≡ user
      → Says (Fails r) x
      → (answer : Response) × (owned_read codec rounds state u others h (x, t)
          ≡ some (some (answer, t), h))
        × Silent r answer
  silent r rounds u others h (err e) t q s = (internal, refl, inr (refl, s.1 e refl))
  silent r rounds u others h (ok none) t q s =
      (error 404 (bytes "State not found or expired"), refl, inl refl)
  silent r rounds u others h (ok (some rec)) t q s = (
    error 404 (bytes "State not found or expired"),
    rw (ap (same rec.user_id) q ∙ s.0 rec refl),
    inl refl,
  )

  -- A caller who asks for a request that is not theirs learns nothing: whether the state is another
  -- user's request or no request at all, and whatever rounds could follow, RouteV2RequestResult answers
  -- at once, with the one error for both, or with an internal error, and then a statement of its read
  -- failed; it subscribes to nothing, and does to the table what its first read does. (A state was
  -- named, the stored result of its request can be read back, and the writers during that read keep
  -- this and do not make the request the caller's.)
  pub result_hides :
      (first : Read) (rounds : List Round) (u : UserRow) (others : Hub → Hub) (t : Requests)
      (h : Hub)
      → is_empty state ≡ false
      → u.id ≡ user
      → IsQuiet first
      → Foreign t
      → (answer : Response) × (route_v2_request_result codec first rounds state (some u) others t h
          ≡ some (some (answer, (perform_read codec first state t).1), h))
        × Silent first answer
  unfolding route_v2_request_result
  result_hides first rounds u others t h n q quiet f =
      let (answer, e, s) =
        silent first rounds u others h (perform_read codec first state t).0
          (perform_read codec first state t).1 q (read-Says first t quiet f) in
      (answer, rw n e, s)
