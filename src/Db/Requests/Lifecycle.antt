-- ===== src/Db/Requests/Lifecycle.antt =====
-- The life of one request under any interleaving of the statements of RequestStore: it is created
-- pending, ends once, and is deleted. GetRequest and ListPending are the statements they issue.
use mathlib.Core.Path.{subst}
use revaulter.Base.{
  text_eq, Bool-cases, ℕ, Text, same, ◌≡◌, refl, inl, inr, Bool, true, false, Option, none, some,
  List, [], ◌∷◌, arith, All,
}
use revaulter.Sql.{Conn, up, down, adjust, drop_if}
use revaulter.Sql.Keyed
use revaulter.Json.{Codec}
use revaulter.Protocol.Envelope.{ResponseEnvelope}
use revaulter.Db.Requests.{
  Status, completed, is_pending, RequestRow, Requests, CreateRequestInput, key, find, Distinct,
  set_status, set_result, row_of, create_request, expire_pending, cleanup_old_records,
  delete_terminal_request, mark_expired, complete_request, cancel_request,
  get_and_delete_terminal_request,
}
use revaulter.Db.Requests.View.{
  at, find-create_request, find-expire_pending, find-cleanup, find-delete_terminal,
  find-mark_expired, find_complete, find-cancel, find-get_and_delete,
}

-- A statement that writes v2_requests, with its arguments.
pub data Statement : Type 0 where
  create : CreateRequestInput → Statement
  complete : ℕ → Text → Text → ResponseEnvelope → Statement
  cancel : ℕ → Text → Text → Statement
  mark : ℕ → Text → Statement
  expire : ℕ → Statement
  cleanup : ℕ → Statement
  remove : Text → Option ℕ → Statement
  collect : ℕ → Text → Statement

abbrev pub History : Type 0
History = List (Conn × Statement)

-- The state that a statement inserts, if it inserts one.
abbrev pub creates : Text → Statement → Bool
creates k (create i) = same i.state k
creates k (complete now s user env) = false
creates k (cancel now s user) = false
creates k (mark now s) = false
creates k (expire now) = false
creates k (cleanup now) = false
creates k (remove s cutoff) = false
creates k (collect now s) = false

-- What may become of a request: it stays, it ends if it was pending, or it is deleted. The last
-- three columns change as it ends; the others never do.
pub data Fate (r : RequestRow) (o : Option RequestRow) : Type 0 where
  kept : o ≡ some r → Fate r o
  ended :
      (s : Status) (now : ℕ) (result : Text)
      → is_pending r.status ≡ true
      → is_pending s ≡ false
      → o ≡ some (record r { status = s; updated_at = now; encrypted_result = result })
      → Fate r o
  gone : o ≡ none → Fate r o

-- The same of a key, whose request may be absent.
abbrev pub Evolves : Option RequestRow → Option RequestRow → Type 0
Evolves none o = o ≡ none
Evolves (some r) o = Fate r o

pub Evolves-refl : (o : Option RequestRow) → Evolves o o
Evolves-refl none = refl
Evolves-refl (some r) = kept refl

ended_once :
    (r : RequestRow) (s : Status) (now : ℕ) (result : Text) (c : Option RequestRow)
    → is_pending r.status ≡ true
    → is_pending s ≡ false
    → Fate (record r { status = s; updated_at = now; encrypted_result = result }) c
    → Fate r c
ended_once r s now result c p q (kept e) = ended s now result p q e
ended_once r s now result c p q (ended s' now' result' p' q' e) = cc
ended_once r s now result c p q (gone e) = gone e

pub Evolves-trans : (a b c : Option RequestRow) → Evolves a b → Evolves b c → Evolves a c
Evolves-trans none b c e f = subst (λ o. Evolves o c) e f
Evolves-trans (some r) b c (kept e) f = subst (λ o. Evolves o c) e f
Evolves-trans (some r) b c (gone e) f = gone (subst (λ o. Evolves o c) e f)
Evolves-trans (some r) b c (ended s now result p q e) f =
    ended_once r s now result c p q (subst (λ o. Evolves o c) e f)

Evolves-drop : (p : RequestRow → Bool) (o : Option RequestRow) → Evolves o (drop_if p o)
Evolves-drop p none = refl
Evolves-drop p (some r) = elim (Bool-cases (p r)) [ inl e ↦ gone (rw e) | inr e ↦ kept (rw e) ]

-- An UPDATE that reaches pending rows only, and ends them.
module _ (p : RequestRow → Bool)
    (guards : (r : RequestRow) → p r ≡ true → is_pending r.status ≡ true) where
  Evolves-set_status :
      (s : Status) (now : ℕ) (o : Option RequestRow)
      → is_pending s ≡ false
      → Evolves o (adjust p (set_status s now) o)
  Evolves-set_status s now none q = refl
  Evolves-set_status s now (some r) q = elim (Bool-cases (p r)) [
    | inl e ↦ ended s now r.encrypted_result (guards r e) q (rw e)
    | inr e ↦ kept (rw e)
  ]

  Evolves-set_result :
      (now : ℕ) (result : Text) (o : Option RequestRow)
      → Evolves o (adjust p (set_result now result) o)
  Evolves-set_result now result none = refl
  Evolves-set_result now result (some r) = elim (Bool-cases (p r)) [
    | inl e ↦ ended completed now result (guards r e) refl (rw e)
    | inr e ↦ kept (rw e)
  ]

Evolves-at : (s k : Text) (o o' : Option RequestRow) → Evolves o o' → Evolves o (at s k o' o)
Evolves-at s k o o' f = elim (Bool-cases (same s k)) [
  | inl e ↦ rw e f
  | inr e ↦ rw e (Evolves-refl o)
]

module _ (json : Codec ResponseEnvelope) where
  unfoldable pub step : Conn × Statement → Requests → Requests
  step (c, create i) t = (create_request c i t).1
  step (c, complete now s user env) t = (complete_request json c now s user env t).1
  step (c, cancel now s user) t = (cancel_request json c now s user t).1
  step (c, mark now s) t = (mark_expired json c now s t).1
  step (c, expire now) t = (expire_pending c now t).1
  step (c, cleanup now) t = (cleanup_old_records c now t).1
  step (c, remove s cutoff) t = (delete_terminal_request c s cutoff t).1
  step (c, collect now s) t = (get_and_delete_terminal_request json c now s t).1

  unfoldable pub run : History → Requests → Requests
  run [] t = t
  run (h ∷ hs) t = run hs (step h t)

  -- A statement that fails changes nothing.
  step_down : (c : Statement) (t : Requests) → step (down, c) t ≡ t
  unfolding step create_request complete_request cancel_request mark_expired expire_pending
      cleanup_old_records delete_terminal_request get_and_delete_terminal_request
  step_down (create i) t = refl
  step_down _ t = refl

  step-Evolves_up :
      (c : Statement) (t : Requests) (k : Text)
      → Distinct t
      → creates k c ≡ false
      → Evolves (find k t) (find k (step (up, c) t))
  unfolding step
  step-Evolves_up (create i) t k d e = rw (find-create_request k t i, e) (Evolves-refl (find k t))
  step-Evolves_up (complete now s user env) t k d e =
      rw (find_complete json k t now s user env)
        (Evolves-at s k _ _ (Evolves-set_result _ (λ r h. ground arith) _ _ (find k t)))
  step-Evolves_up (cancel now s user) t k d e =
      rw (find-cancel json k t now s user)
        (Evolves-at s k _ _ (Evolves-set_status _ (λ r h. ground arith) _ _ (find k t) refl))
  step-Evolves_up (mark now s) t k d e =
      rw (find-mark_expired json k t now s)
        (Evolves-at s k _ _ (Evolves-set_status _ (λ r h. ground arith) _ _ (find k t) refl))
  step-Evolves_up (expire now) t k d e =
      rw (find-expire_pending k t now)
        (Evolves-set_status _ (λ r h. ground arith) _ _ (find k t) refl)
  step-Evolves_up (cleanup now) t k d e = rw (find-cleanup k t now d) (Evolves-drop _ (find k t))
  step-Evolves_up (remove s cutoff) t k d e =
      rw (find-delete_terminal k t s cutoff d) (Evolves-at s k _ _ (Evolves-drop _ (find k t)))
  step-Evolves_up (collect now s) t k d e =
      rw (find-get_and_delete json k t now s d) (Evolves-at s k _ _ (Evolves-drop _ (find k t)))

  step-Distinct_up : (c : Statement) (t : Requests) → Distinct t → Distinct (step (up, c) t)
  unfolding step create_request complete_request cancel_request mark_expired expire_pending
      cleanup_old_records delete_terminal_request get_and_delete_terminal_request Keyed.insert
  step-Distinct_up (create i) t d = ground (arith, Keyed.Distinct-append key t (row_of i))
  step-Distinct_up (complete now s user env) t d = Keyed.Distinct-update key _ _ (λ r. refl) t d
  step-Distinct_up (cancel now s user) t d = Keyed.Distinct-update key _ _ (λ r. refl) t d
  step-Distinct_up (mark now s) t d = Keyed.Distinct-update key _ _ (λ r. refl) t d
  step-Distinct_up (expire now) t d = Keyed.Distinct-update key _ _ (λ r. refl) t d
  step-Distinct_up (cleanup now) t d = Keyed.Distinct-delete key _ t d
  step-Distinct_up (remove s cutoff) t d = Keyed.Distinct-delete key _ t d
  step-Distinct_up (collect now s) t d = Keyed.Distinct-delete key _ t d

  pub step-Distinct : (h : Conn × Statement) (t : Requests) → Distinct t → Distinct (step h t)
  step-Distinct (up, c) t d = step-Distinct_up c t d
  step-Distinct (down, c) t d = rw (step_down c t) d

  -- Every history of statements, failing or not, keeps the primary key unique.
  pub run-Distinct : (hs : History) (t : Requests) → Distinct t → Distinct (run hs t)
  unfolding run
  run-Distinct [] t d = d
  run-Distinct (h ∷ hs) t d = run-Distinct hs (step h t) (step-Distinct h t d)

  step-Evolves :
      (h : Conn × Statement) (t : Requests) (k : Text)
      → Distinct t
      → creates k h.1 ≡ false
      → Evolves (find k t) (find k (step h t))
  step-Evolves (up, c) t k d e = step-Evolves_up c t k d e
  step-Evolves (down, c) t k d e = rw (step_down c t) (Evolves-refl (find k t))

  -- Over any history that does not create the state again, a request stays as it is, ends once
  -- and only from pending, or is deleted for good; what the CLI asked for never changes.
  pub run-Evolves :
      (hs : History) (t : Requests) (k : Text)
      → Distinct t
      → All (λ h. creates k h.1 ≡ false) hs
      → Evolves (find k t) (find k (run hs t))
  unfolding run
  run-Evolves [] t k d e = Evolves-refl (find k t)
  run-Evolves (h ∷ hs) t k d e =
      Evolves-trans _ (find k (step h t)) _ (step-Evolves h t k d e.0)
        (run-Evolves hs (step h t) k (step-Distinct h t d) e.1)
