-- ===== src/Db/Requests/Reads.antt =====
-- GetRequest: what it returns is what the table holds, and never a request that is still pending
-- though its deadline has passed, also while other writers run between its statements.
use mathlib.Core.Option
use revaulter.Base.{
  ℕ, ◌≤◌, Text, same_refl, ◌≡◌, ◌≢◌, refl, sym, ap, ◌∙◌, ◌⊎◌, inl, inr, true, false, ◌&&◌, Option,
  none, some, arith, All,
}
use revaulter.Sql.{Conn, up, down, adjust, keep_if}
use revaulter.Time.{unix, before}
use revaulter.Json.{Codec}
use revaulter.Protocol.Envelope.{ResponseEnvelope}
use revaulter.Db.Requests.{
  pending, expired, is_pending, RequestRow, RequestRecord, Requests, Result, ok, err, find,
  Distinct, is_overdue, set_status, scan_optional, get_request_raw, mark_expired, reread,
  get_request,
}
use revaulter.Db.Requests.View.{answer-get_raw, answer-mark_expired, find-mark_expired}
use revaulter.Db.Requests.Lifecycle.{
  Fate, kept, ended, gone, Evolves, History, creates, run, run-Evolves, run-Distinct, step,
  step-Distinct, mark,
}

module _ (json : Codec ResponseEnvelope) where
  -- What a successful scan says of the row.
  abbrev Reads : RequestRow → RequestRecord → Type 0
  Reads r rec =
      (rec.status ≡ r.status) × (rec.expires_at ≡ r.expires_at) × (rec.user_id ≡ r.user_id)

  scan_optional-Reads :
      (o : Option RequestRow) (rec : RequestRecord)
      → scan_optional json o ≡ ok (some rec)
      → (r : RequestRow) × (o ≡ some r) × Reads r rec
  unfolding scan_optional
  scan_optional-Reads none rec e = cc
  scan_optional-Reads (some r) rec e = (r, refl, ground arith)

  scan_optional_found : (r : RequestRow) → scan_optional json (some r) ≢ ok none
  unfolding scan_optional
  scan_optional_found r e = ground arith

  raw-Reads :
      (c : Conn) (s : Text) (t : Requests) (rec : RequestRecord)
      → Distinct t
      → get_request_raw json c s t ≡ ok (some rec)
      → (r : RequestRow) × (find s t ≡ some r) × Reads r rec
  unfolding get_request_raw
  raw-Reads up s t rec d e =
      scan_optional-Reads (find s t) rec (sym (answer-get_raw json s t d) ∙ e)
  raw-Reads down s t rec d e = cc

  -- A MarkExpired that answers with a request has expired it …
  mark-Reads :
      (c : Conn) (now : ℕ) (s : Text) (t : Requests) (rec : RequestRecord)
      → Distinct t
      → (mark_expired json c now s t).0 ≡ ok (some rec)
      → rec.status ≡ expired
  unfolding mark_expired
  mark-Reads down now s t rec d e = cc
  mark-Reads up now s t rec d e =
      let (x, q, reads) =
        scan_optional-Reads _ rec (sym (answer-mark_expired json s t d now) ∙ e) in
      marked (keep_if (is_overdue (unix now)) (find s t)) x q reads
    where
      marked :
          (o : Option RequestRow) (x : RequestRow)
          → Option.map (set_status expired (unix now)) o ≡ some x
          → Reads x rec
          → rec.status ≡ expired
      marked none x q reads = cc
      marked (some r) x q reads = ground arith

  -- … and one that answers with nothing found none that was overdue, and changed nothing.
  mark_none :
      (c : Conn) (now : ℕ) (s : Text) (t : Requests) (r : RequestRow)
      → Distinct t
      → (mark_expired json c now s t).0 ≡ ok none
      → find s (mark_expired json c now s t).1 ≡ some r
      → is_pending r.status ≡ true
      → unix now ≤ r.expires_at
  unfolding mark_expired
  mark_none down now s t r d e f p = cc
  mark_none up now s t r d e f p =
      missed (find s t) (find-mark_expired json s t now s ∙ rw (same_refl s))
        (sym (answer-mark_expired json s t d now) ∙ e)
    where
      missed :
          (o : Option RequestRow)
          → find s (mark_expired json up now s t).1
            ≡ adjust (is_overdue (unix now)) (set_status expired (unix now)) o
          → scan_optional json
              (Option.map (set_status expired (unix now)) (keep_if (is_overdue (unix now)) o))
            ≡ ok none
          → unix now ≤ r.expires_at
      missed none q a = cc
      missed (some x) q a = ground (arith, scan_optional_found (set_status expired (unix now) x))

  reread_inv :
      (c : Conn) (s : Text) (others : Requests → Requests)
      (m : Result (Option RequestRecord) × Requests) (rec : RequestRecord)
      → (reread json c s others m).0 ≡ ok (some rec)
      → ((m.0 ≡ ok none) × (get_request_raw json c s (others m.1) ≡ ok (some rec)))
        ⊎ (m.0 ≡ ok (some rec))
  reread_inv c s others (ok none, t) rec e = inl (refl, e)
  reread_inv c s others (ok (some r), t) rec e = inr e
  reread_inv c s others (err x, t) rec e = cc

  module _ (c₁ c₂ c₃ : Conn) (now now' : ℕ) (before_mark after_mark : Requests → Requests)
      (s : Text) (t : Requests) (rec : RequestRecord) where
    get_request_inv :
        (get_request json c₁ c₂ c₃ now now' before_mark after_mark s t).0 ≡ ok (some rec)
        → ((get_request_raw json c₁ s t ≡ ok (some rec))
            × ((is_pending rec.status && before rec.expires_at now) ≡ false))
          ⊎ ((reread json c₃ s after_mark (mark_expired json c₂ now' s (before_mark t))).0
              ≡ ok (some rec))
    unfolding get_request
    get_request_inv e = read (get_request_raw json c₁ s t) refl e
      where
        read :
            (m : Result (Option RequestRecord))
            → get_request_raw json c₁ s t ≡ m
            → (get_request json c₁ c₂ c₃ now now' before_mark after_mark s t).0 ≡ ok (some rec)
            → ((get_request_raw json c₁ s t ≡ ok (some rec))
                × ((is_pending rec.status && before rec.expires_at now) ≡ false))
              ⊎ ((reread json c₃ s after_mark (mark_expired json c₂ now' s (before_mark t))).0
                  ≡ ok (some rec))
        read (err x) q e = ground arith
        read (ok none) q e = ground arith
        read (ok (some r)) q e = ground arith

  no_longer_pending :
      (r : RequestRow) (o : Option RequestRow) (x : RequestRow)
      → Fate r o
      → o ≡ some x
      → is_pending x.status ≡ true
      → r ≡ x
  no_longer_pending r o x (kept e) q p = ground arith
  no_longer_pending r o x (ended s now result a b e) q p = ground arith
  no_longer_pending r o x (gone e) q p = cc

  -- What is pending after some statements was the same request before them.
  pending_before :
      (hs : History) (s : Text) (t : Requests) (x : RequestRow)
      → Distinct t
      → All (λ h. creates s h.1 ≡ false) hs
      → find s (run json hs t) ≡ some x
      → is_pending x.status ≡ true
      → find s t ≡ some x
  pending_before hs s t x d fresh e p = was (find s t) (run-Evolves json hs t s d fresh)
    where
      was : (o : Option RequestRow) → Evolves o (find s (run json hs t)) → o ≡ some x
      was none f = cc
      was (some r) f = ap some (no_longer_pending r _ x f e p)

  reread_fresh :
      (c₂ c₃ : Conn) (now now' : ℕ) (t : Requests) (hs : History) (s : Text) (rec : RequestRecord)
      → Distinct t
      → All (λ h. creates s h.1 ≡ false) hs
      → now ≤ now'
      → (mark_expired json c₂ now' s t).0 ≡ ok none
      → get_request_raw json c₃ s (run json hs (mark_expired json c₂ now' s t).1) ≡ ok (some rec)
      → rec.status ≡ pending
      → unix now ≤ rec.expires_at
  unfolding step
  reread_fresh c₂ c₃ now now' t hs s rec d fresh le m b p =
      let d' = step-Distinct json (c₂, mark now' s) t d in
      let (r, f, reads) = raw-Reads c₃ s _ rec (run-Distinct json hs _ d') b in
      let pends : is_pending r.status ≡ true = ground arith in
      let held = pending_before hs s _ r d' fresh f pends in
      let in_time = mark_none c₂ now' s t r d m held pends in omega (arith, reads.1)

  -- GetRequest returns a request as pending only while its deadline has not passed at the time of
  -- the call, whatever writers run between its statements (as long as none creates the state anew).
  pub get_request_fresh :
      (c₁ c₂ c₃ : Conn) (now now' : ℕ) (hs hs' : History) (s : Text) (t : Requests)
      (rec : RequestRecord)
      → Distinct t
      → All (λ h. creates s h.1 ≡ false) hs'
      → now ≤ now'
      → (get_request json c₁ c₂ c₃ now now' (run json hs) (run json hs') s t).0 ≡ ok (some rec)
      → rec.status ≡ pending
      → unix now ≤ rec.expires_at
  get_request_fresh c₁ c₂ c₃ now now' hs hs' s t rec d fresh le e p =
      elim (get_request_inv c₁ c₂ c₃ now now' (run json hs) (run json hs') s t rec e) [
        | inl (a, b) ↦ ground arith
        | inr a ↦ elim (reread_inv c₃ s (run json hs') _ rec a) [
          | inl (m, b) ↦
              reread_fresh c₂ c₃ now now' (run json hs t) hs' s rec (run-Distinct json hs t d) fresh
                le m b p
          | inr m ↦ cc (mark-Reads c₂ now' s _ rec (run-Distinct json hs t d) m)
        ]
      ]
