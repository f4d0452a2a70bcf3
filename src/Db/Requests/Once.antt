-- ===== src/Db/Requests/Once.antt =====
-- A request is answered at most once, and the CLI collects that answer.
use mathlib.Core.Path.{subst}
use revaulter.Base.{
  ◌⊎◌, ℕ, Text, same_refl, ◌≡◌, refl, ◌∙◌, false, Option, none, some, arith, All, inl, inr,
}
use revaulter.Sql.{up}
use revaulter.Time.{unix}
use revaulter.Json.{Codec}
use revaulter.Protocol.Envelope.{ResponseEnvelope}
use revaulter.Db.Requests.{
  completed, is_pending, RequestRow, RequestRecord, Requests, Result, ok, err, not_modifiable, find,
  Distinct, set_result, record_of, scan_optional, complete_request, cancel_request,
  get_and_delete_terminal_request,
}
use revaulter.Db.Requests.View.{find-get_and_delete, answer-get_and_delete}
use revaulter.Db.Requests.Lifecycle.{
  Fate, kept, ended, gone, Evolves, History, creates, run, run-Evolves, run-Distinct, step,
  step-Distinct, complete, cancel,
}
use revaulter.Db.Requests.Outcomes.{complete_exact, cancel_exact}

-- The user's answer to a request: RouteV2APIConfirm calls one of the two methods.
pub data Verdict : Type 0 where
  confirm : ResponseEnvelope → Verdict
  reject : Verdict

module _ (json : Codec ResponseEnvelope) where
  scan_optional-marshal :
      (r : RequestRow) (now : ℕ) (env : ResponseEnvelope)
      → scan_optional json (some (set_result now (json.marshal env) r))
        ≡ ok (some (record_of (set_result now (json.marshal env) r) (some env)))
  unfolding scan_optional
  scan_optional-marshal r now env = rw (json.marshal_nonempty env, json.unmarshal-marshal env)

  unfoldable pub resolve : Verdict → ℕ → Text → Text → Requests → Result RequestRecord × Requests
  resolve (confirm env) now s user t = complete_request json up now s user env t
  resolve reject now s user t = cancel_request json up now s user t

  -- Once a request has ended it stays ended, whatever statements run, until it is deleted.
  pub ended_stays :
      (hs : History) (s : Text) (t : Requests) (r : RequestRow)
      → Distinct t
      → All (λ h. creates s h.1 ≡ false) hs
      → find s t ≡ some r
      → is_pending r.status ≡ false
      → (find s (run json hs t) ≡ some r) ⊎ (find s (run json hs t) ≡ none)
  ended_stays hs s t r d fresh e over =
      unended (subst (λ o. Evolves o (find s (run json hs t))) e (run-Evolves json hs t s d fresh))
    where
      unended : {o : Option RequestRow} → Fate r o → (o ≡ some r) ⊎ (o ≡ none)
      unended (kept q) = inl q
      unended (ended s' now result p q x) = cc
      unended (gone q) = inr q

  resolve_over :
      (v : Verdict) (now : ℕ) (s user : Text) (t : Requests)
      → Distinct t
      → ((r : RequestRow) → find s t ≡ some r → is_pending r.status ≡ false)
      → (resolve v now s user t).0 ≡ err not_modifiable
  unfolding resolve
  resolve_over (confirm env) now s user t d over =
      elim (complete_exact json now s s user env t d).0 [
        | inl (r, e, m, _, _) ↦ ground (arith, over r e, m.waits)
        | inr (_, a, _) ↦ a
      ]
  resolve_over reject now s user t d over = elim (cancel_exact json now s s user t d).0 [
    | inl (r, e, m, _, _) ↦ ground (arith, over r e, m.waits)
    | inr (_, a, _) ↦ a
  ]

  -- A verdict that was accepted has ended the request.
  resolve_ends :
      (v : Verdict) (now : ℕ) (s user : Text) (t : Requests) (rec : RequestRecord)
      → Distinct t
      → (resolve v now s user t).0 ≡ ok rec
      → (r : RequestRow) × (find s (resolve v now s user t).1 ≡ some r)
        × (is_pending r.status ≡ false)
  unfolding resolve
  resolve_ends (confirm env) now s user t rec d done =
      elim (complete_exact json now s s user env t d).0 [
        | inl (r, _, _, _, e) ↦ (_, e, refl)
        | inr (_, a, _) ↦ cc
      ]
  resolve_ends reject now s user t rec d done = elim (cancel_exact json now s s user t d).0 [
    | inl (r, _, _, _, e) ↦ (_, e, refl)
    | inr (_, a, _) ↦ cc
  ]

  resolve-Distinct :
      (v : Verdict) (now : ℕ) (s user : Text) (t : Requests)
      → Distinct t
      → Distinct (resolve v now s user t).1
  unfolding resolve step
  resolve-Distinct (confirm env) now s user t d =
      step-Distinct json (up, complete now s user env) t d
  resolve-Distinct reject now s user t d = step-Distinct json (up, cancel now s user) t d

  -- A request is answered at most once: after a verdict was accepted, and whatever statements run
  -- in between as long as none creates the state again, every later verdict is refused.
  pub resolve_once :
      (v v' : Verdict) (now now' : ℕ) (s user user' : Text) (t : Requests) (rec : RequestRecord)
      (hs : History)
      → Distinct t
      → (resolve v now s user t).0 ≡ ok rec
      → All (λ h. creates s h.1 ≡ false) hs
      → (resolve v' now' s user' (run json hs (resolve v now s user t).1)).0 ≡ err not_modifiable
  resolve_once v v' now now' s user user' t rec hs d done fresh =
      let (r, e, over) = resolve_ends v now s user t rec d done in
      let d' = resolve-Distinct v now s user t d in
      resolve_over v' now' s user' _ (run-Distinct json hs _ d') (λ x q.
        elim (ended_stays hs s _ r d' fresh e over) [
          | inl same_row ↦ ground arith
          | inr gone_row ↦ cc
        ])

  -- The CLI collects what the browser stored: after CompleteRequest has succeeded, the next
  -- GetAndDeleteTerminalRequest returns the request completed, with that very envelope, and the
  -- request is deleted.
  pub collect_complete :
      (now now' : ℕ) (s user : Text) (env : ResponseEnvelope) (t : Requests) (rec : RequestRecord)
      → Distinct t
      → (complete_request json up now s user env t).0 ≡ ok rec
      → let (answer, t') =
          get_and_delete_terminal_request json up now' s
            (complete_request json up now s user env t).1 in
        (answer ≡ ok (some rec))
        × (rec.status ≡ completed)
        × (rec.response_envelope ≡ some env)
        × (find s t' ≡ none)
  unfolding resolve
  collect_complete now now' s user env t rec d done =
      elim (complete_exact json now s s user env t d).0 [
        | inl (r, _, _, a, e) ↦ (
          answer-get_and_delete json s _ (resolve-Distinct (confirm env) now s user t d) now'
              ∙ rw e (scan_optional-marshal r (unix now) env ∙ ground arith),
          ground arith,
          ground arith,
          find-get_and_delete json s _ now' s (resolve-Distinct (confirm env) now s user t d)
              ∙ rw (same_refl s, e),
        )
        | inr (_, a, _) ↦ cc
      ]
