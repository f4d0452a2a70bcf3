-- ===== src/Db/Requests/Outcomes.antt =====
-- Confirming, canceling and collecting a request: who may, when, and how often.
use revaulter.Base.{
  ap, sym, same→eq, ◌≤◌, ◌↔◌, ◌⊎◌, same_iff, ℕ, Text, same, same_refl, ◌≡◌, refl, ◌∙◌, Bool, true,
  ◌&&◌, Option, none, some, arith, Bool-cases, inl, inr,
}
use revaulter.Sql.{up}
use revaulter.Sql.Rows.{hit_or_miss, adjust_miss}
use revaulter.Time.{unix}
use revaulter.Json.{Codec}
use revaulter.Protocol.Envelope.{ResponseEnvelope}
use revaulter.Db.Requests.{
  Status, pending, expired, completed, canceled, is_pending, RequestRow, Requests, ok, err,
  not_modifiable, find, Distinct, is_live, set_status, set_result, record_of, scan, scan_required,
  complete_request, cancel_request,
}
use revaulter.Db.Requests.View.{at, find_complete, find-cancel, answer_complete, answer-cancel}

-- Whose request it is, and whether it still waits for an answer.
pub record MayComplete (now : ℕ) (user : Text) (r : RequestRow) : Type 0 where
  pub owner : r.user_id ≡ user
  pub waits : r.status ≡ pending
  pub in_time : unix now ≤ r.expires_at

pub record MayCancel (user : Text) (r : RequestRow) : Type 0 where
  pub owner : r.user_id ≡ user
  pub waits : r.status ≡ pending

abbrev completable : ℕ → Text → RequestRow → Bool
completable now user r = same r.user_id user && is_live (unix now) r

abbrev cancelable : Text → RequestRow → Bool
cancelable user r = same r.user_id user && is_pending r.status

pub is_pending→eq : (s : Status) → is_pending s ≡ true → s ≡ pending
is_pending→eq pending e = refl
is_pending→eq completed e = cc
is_pending→eq canceled e = cc
is_pending→eq expired e = cc

completable_iff :
    (now : ℕ) (user : Text) (r : RequestRow)
    → (completable now user r ≡ true) ↔ MayComplete now user r
completable_iff now user r = (
  λ h. ground (arith, same_iff r.user_id user, is_pending→eq r.status),
  λ m. ground (arith, same_iff r.user_id user),
)

cancelable_iff : (user : Text) (r : RequestRow) → (cancelable user r ≡ true) ↔ MayCancel user r
cancelable_iff user r = (
  λ h. ground (arith, same_iff r.user_id user, is_pending→eq r.status),
  λ m. ground (arith, same_iff r.user_id user),
)

untouched :
    (s k : Text) (t t' : Requests) (x : Option RequestRow)
    → find k t' ≡ at s k x (find k t)
    → find k t' ≡ at s k (find s t') (find k t)
untouched s k t t' x e = elim (Bool-cases (same s k)) [
  | inl q ↦ rw q (ap (λ j. find j t') (sym (same→eq s k q)))
  | inr q ↦ e ∙ rw q
]

module _ (json : Codec ResponseEnvelope) where
  scan-marshal :
      (r : RequestRow) (now : ℕ) (env : ResponseEnvelope)
      → scan_required json (some (set_result now (json.marshal env) r))
        ≡ ok (record_of (set_result now (json.marshal env) r) (some env))
  unfolding scan_required
  scan-marshal r now env = rw (json.marshal_nonempty env, json.unmarshal-marshal env)

  scan_nothing : scan_required json none ≡ err not_modifiable
  unfolding scan_required
  scan_nothing = refl

  -- CompleteRequest either finds the request, owned by the user, pending and within its deadline,
  -- stores the response and answers with it; or it finds no such request, answers with the one
  -- error for all those cases, and changes nothing. It touches no other request.
  pub complete_exact :
      (now : ℕ) (s k user : Text) (env : ResponseEnvelope) (t : Requests)
      → Distinct t
      → let (answer, t') = complete_request json up now s user env t in
        let done = set_result (unix now) (json.marshal env) in
        (((r : RequestRow) × (find s t ≡ some r)
            × MayComplete now user r
            × (answer ≡ ok (record_of (done r) (some env)))
            × (find s t' ≡ some (done r)))
          ⊎ ((¬ ((r : RequestRow) × (find s t ≡ some r) × MayComplete now user r))
              × (answer ≡ err not_modifiable)
              × (find s t' ≡ find s t)))
        × (find k t' ≡ at s k (find s t') (find k t))
  complete_exact now s k user env t d = (
    elim (hit_or_miss (completable now user) (find s t)) [
      | inl (r, e, m) ↦ inl (
        r,
        e,
        (completable_iff now user r).0 m,
        answer_complete json s t d now user env ∙ rw (e, m) (scan-marshal r (unix now) env),
        find_complete json s t now s user env ∙ rw (same_refl s, e, m),
      )
      | inr (e, no_hit) ↦ inr (
        λ (r, q, m). ground (arith, no_hit r q, (completable_iff now user r).1 m),
        answer_complete json s t d now user env ∙ rw e scan_nothing,
        find_complete json s t now s user env
            ∙ rw (same_refl s) (adjust_miss (completable now user) _ (find s t) e),
      )
    ],
    untouched s k t _ _ (find_complete json k t now s user env),
  )

  -- CancelRequest either finds the request, owned by the user and pending, whatever its deadline,
  -- cancels it and answers with it; or it finds no such request, answers with the one error for
  -- all those cases, and changes nothing. It touches no other request.
  pub cancel_exact :
      (now : ℕ) (s k user : Text) (t : Requests)
      → Distinct t
      → let (answer, t') = cancel_request json up now s user t in
        let done = set_status canceled (unix now) in
        (((r : RequestRow) × (find s t ≡ some r)
            × MayCancel user r
            × (answer ≡ scan json (done r))
            × (find s t' ≡ some (done r)))
          ⊎ ((¬ ((r : RequestRow) × (find s t ≡ some r) × MayCancel user r))
              × (answer ≡ err not_modifiable)
              × (find s t' ≡ find s t)))
        × (find k t' ≡ at s k (find s t') (find k t))
  unfolding scan_required
  cancel_exact now s k user t d = (
    elim (hit_or_miss (cancelable user) (find s t)) [
      | inl (r, e, m) ↦ inl (
        r,
        e,
        (cancelable_iff user r).0 m,
        answer-cancel json s t d now user ∙ rw (e, m),
        find-cancel json s t now s user ∙ rw (same_refl s, e, m),
      )
      | inr (e, no_hit) ↦ inr (
        λ (r, q, m). ground (arith, no_hit r q, (cancelable_iff user r).1 m),
        answer-cancel json s t d now user ∙ rw e scan_nothing,
        find-cancel json s t now s user
            ∙ rw (same_refl s) (adjust_miss (cancelable user) _ (find s t) e),
      )
    ],
    untouched s k t _ _ (find-cancel json k t now s user),
  )
