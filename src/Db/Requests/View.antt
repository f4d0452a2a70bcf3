-- ===== src/Db/Requests/View.antt =====
-- The methods of RequestStore by primary key: what each leaves of every request, and what it
-- answers about its own. The lists of rows stay behind these laws.
use mathlib.Core.Option
use revaulter.Base.{
  text_eq, ℕ, ◌-◌, Text, same, same_iff, ◌≡◌, refl, ap, ◌∙◌, true, ◌&&◌, not, ltb, Option, none,
  some, arith, if◌then◌else◌, Option-cases, inl, inr,
}
use revaulter.Sql.{up, adjust, drop_if, keep_if}
use revaulter.Sql.Keyed
use revaulter.Time.{unix}
use revaulter.Json.{Codec}
use revaulter.Protocol.Envelope.{ResponseEnvelope}
use revaulter.Db.Requests.{
  canceled, expired, is_pending, RequestRow, Requests, CreateRequestInput, key, find, Distinct,
  is_live, is_overdue, is_terminal, is_deletable, set_status, set_result, row_of, as_returned,
  create_request, expire_pending, cleanup_old_records, delete_terminal_request, scan_optional,
  scan_required, get_request_raw, mark_expired, complete_request, cancel_request,
  get_and_delete_terminal_request,
}

-- What an UPDATE or DELETE that names one request does to another: nothing.
abbrev pub at {ℓ} : {A : Type ℓ} → Text → Text → A → A → A
at s k touched kept = if same s k then touched else kept

module _ (k : Text) (t : Requests) where
  pub find-create_request :
      (i : CreateRequestInput)
      → find k (create_request up i t).1
        ≡ at i.state k
            (elim (find i.state t) [ none ↦ some (row_of i) | some r ↦ some r ])
            (find k t)
  unfolding create_request Keyed.insert
  find-create_request i = elim (Option-cases (find i.state t)) [
    | inl e ↦ rw (e, create_request, Keyed.insert) (Keyed.find-append_fresh key k t (row_of i) e)
    | inr (r, e) ↦ ground (arith, same_iff i.state k)
  ]

  pub find-expire_pending :
      (now : ℕ)
      → find k (expire_pending up now t).1
        ≡ adjust (is_overdue (unix now)) (set_status expired (unix now)) (find k t)
  unfolding expire_pending
  find-expire_pending now = Keyed.find-update key _ _ (λ r. refl) k t

  pub find-cleanup :
      (now : ℕ)
      → Distinct t
      → find k (cleanup_old_records up now t).1
        ≡ drop_if (λ r. not (is_pending r.status) && ltb r.expires_at (unix now - 600)) (find k t)
  unfolding cleanup_old_records
  find-cleanup now d = Keyed.find-delete key _ k t d

  pub find-delete_terminal :
      (s : Text) (cutoff : Option ℕ)
      → Distinct t
      → find k (delete_terminal_request up s cutoff t).1
        ≡ at s k (drop_if (is_deletable cutoff) (find k t)) (find k t)
  unfolding delete_terminal_request
  find-delete_terminal s cutoff d = Keyed.find-delete_at key (is_deletable cutoff) s k t d

module _ (json : Codec ResponseEnvelope) (k : Text) (t : Requests) where
  pub find-mark_expired :
      (now : ℕ) (s : Text)
      → find k (mark_expired json up now s t).1
        ≡ at s k
            (adjust (is_overdue (unix now)) (set_status expired (unix now)) (find k t))
            (find k t)
  unfolding mark_expired
  find-mark_expired now s = Keyed.find-update_at key (is_overdue (unix now)) _ (λ r. refl) s k t

  pub find_complete :
      (now : ℕ) (s user : Text) (env : ResponseEnvelope)
      → find k (complete_request json up now s user env t).1
        ≡ at s k
            (adjust
              (λ r. same r.user_id user && is_live (unix now) r)
              (set_result (unix now) (json.marshal env))
              (find k t))
            (find k t)
  unfolding complete_request
  find_complete now s user env =
      Keyed.find-update_at key (λ r. same r.user_id user && is_live (unix now) r) _ (λ r. refl) s k
        t

  pub find-cancel :
      (now : ℕ) (s user : Text)
      → find k (cancel_request json up now s user t).1
        ≡ at s k
            (adjust
              (λ r. same r.user_id user && is_pending r.status)
              (set_status canceled (unix now))
              (find k t))
            (find k t)
  unfolding cancel_request
  find-cancel now s user =
      Keyed.find-update_at key (λ r. same r.user_id user && is_pending r.status) _ (λ r. refl) s k t

  pub find-get_and_delete :
      (now : ℕ) (s : Text)
      → Distinct t
      → find k (get_and_delete_terminal_request json up now s t).1
        ≡ at s k (drop_if (is_terminal (unix now)) (find k t)) (find k t)
  unfolding get_and_delete_terminal_request
  find-get_and_delete now s d = Keyed.find-delete_at key (is_terminal (unix now)) s k t d

-- The answers, from the row that the key finds.
module _ (json : Codec ResponseEnvelope) (s : Text) (t : Requests) (d : Distinct t) where
  pub answer-get_raw : get_request_raw json up s t ≡ scan_optional json (find s t)
  unfolding get_request_raw
  answer-get_raw =
      ap (scan_optional json) (Keyed.first-select key (λ r. true) s t d ∙ whole (find s t))
    where
      whole : (o : Option RequestRow) → keep_if (λ r. true) o ≡ o
      whole none = refl
      whole (some r) = refl

  pub answer-mark_expired :
      (now : ℕ)
      → (mark_expired json up now s t).0
        ≡ scan_optional json (
            Option.map (set_status expired (unix now)) (keep_if (is_overdue (unix now)) (find s t)))
  unfolding mark_expired
  answer-mark_expired now =
      ap (scan_optional json) (Keyed.first-returning key _ (is_overdue (unix now)) s t d)

  pub answer_complete :
      (now : ℕ) (user : Text) (env : ResponseEnvelope)
      → (complete_request json up now s user env t).0
        ≡ scan_required json (
            Option.map
              (set_result (unix now) (json.marshal env))
              (keep_if (λ r. same r.user_id user && is_live (unix now) r) (find s t)))
  unfolding complete_request
  answer_complete now user env =
      ap (scan_required json)
        (Keyed.first-returning key _ (λ r. same r.user_id user && is_live (unix now) r) s t d)

  pub answer-cancel :
      (now : ℕ) (user : Text)
      → (cancel_request json up now s user t).0
        ≡ scan_required json (
            Option.map
              (set_status canceled (unix now))
              (keep_if (λ r. same r.user_id user && is_pending r.status) (find s t)))
  unfolding cancel_request
  answer-cancel now user =
      ap (scan_required json)
        (Keyed.first-returning key _ (λ r. same r.user_id user && is_pending r.status) s t d)

  pub answer-get_and_delete :
      (now : ℕ)
      → (get_and_delete_terminal_request json up now s t).0
        ≡ scan_optional json
            (Option.map (as_returned (unix now)) (keep_if (is_terminal (unix now)) (find s t)))
  unfolding get_and_delete_terminal_request
  answer-get_and_delete now =
      ap (scan_optional json) (Keyed.first-returning key _ (is_terminal (unix now)) s t d)
