-- ===== src/Db/Auth/Accounts/Finalized.antt =====
-- Signing up happens once, and what it stored stays.
use revaulter.Base.{
  ◌⊎◌, inl, inr, map, ℕ, Text, text_eq, same, same_refl, ◌≡◌, refl, ap, ◌∙◌, true, false, ◌&&◌, not,
  none, some, [], ◌∷◌, arith, Bool-cases, Option-cases,
}
use mathlib.Core.Option
use revaulter.Sql.{up, first, select, update, keep_if}
use revaulter.Sql.Keyed
use revaulter.Time.{unix}
use revaulter.Db.Auth.Types.{ok, err, already_finalized, user_not_found}
use revaulter.Db.Auth.Accounts.{
  UserRow, Users, Accounts, FinalizeSignupInput, find_user, user_key, finalize_user,
  finalize_signup, is_too_large, exists_row,
}
use revaulter.Db.Auth.Accounts.History.{History, finalizes, step, run}
use revaulter.Db.Auth.Accounts.Sealed.{Sealed-refl, Sealed-trans, Kept, Touch-Distinct, Touch-Kept}
use revaulter.Db.Auth.Accounts.Untouched.{step-Touch}

pub run-Distinct :
    (hs : History) (a : Accounts)
    → Keyed.Distinct user_key a.users
    → Keyed.Distinct user_key (run hs a).users
unfolding run
run-Distinct [] a d = d
run-Distinct (h ∷ hs) a d = run-Distinct hs (step h a) (Touch-Distinct a.users _ (step-Touch h a) d)

-- A user who is ready stays, under any history of the methods of AuthStore, failing or not: the
-- account is not deleted, its transport keys, anchor keys and bundle signatures are the ones that
-- the signup stored, and its epoch never goes back.
pub run-Kept :
    (hs : History) (a : Accounts) (id : Text) (u : UserRow)
    → Keyed.Distinct user_key a.users
    → find_user id a.users ≡ some u
    → u.ready ≡ true
    → Kept id u (run hs a).users
unfolding run
run-Kept [] a id u d e r = (u, e, Sealed-refl u r)
run-Kept (h ∷ hs) a id u d e r =
    let t = step-Touch h a in
    let (v, q, s) = Touch-Kept a.users (step h a).users id u t d e r in
    let (w, q', s') = run-Kept hs (step h a) id v (Touch-Distinct a.users _ t d) q s.ready in
    (w, q', Sealed-trans u v w s s')

exists-find :
    (id : Text) (us : Users)
    → exists_row (λ u. same u.id id) us ≡ elim (find_user id us) [ none ↦ false | some u ↦ true ]
unfolding select Keyed.find
exists-find id [] = refl
exists-find id (u ∷ us) = ground (arith, exists-find id us)

-- The three outcomes of FinalizeSignup when its inputs are within the limits and every statement
-- runs: a user who was not ready is finalized and returned so; a user who is ready is refused, and
-- so is an unknown one, and both refusals change nothing.
pub finalize_exact :
    (now : ℕ) (i : FinalizeSignupInput) (a : Accounts)
    → Keyed.Distinct user_key a.users
    → is_too_large i.wrapped_primary_key i.wrapped_anchor_key i.attestation_payload ≡ false
    → let (answer, a') = finalize_signup up up now i a in
      ((u : UserRow) × (find_user i.user_id a.users ≡ some u)
        × (u.ready ≡ false)
        × (answer ≡ ok (finalize_user (unix now) i u))
        × (find_user i.user_id a'.users ≡ some (finalize_user (unix now) i u)))
      ⊎ (((u : UserRow) × (find_user i.user_id a.users ≡ some u)
            × (u.ready ≡ true)
            × (answer ≡ err already_finalized)
            × (a' ≡ a))
          ⊎ ((find_user i.user_id a.users ≡ none) × (answer ≡ err user_not_found) × (a' ≡ a)))
unfolding finalize_signup
finalize_exact now i a d small = elim (Option-cases (find_user i.user_id a.users)) [
  | inl n ↦ inr (
      inr (
        n,
        rw (small, finalize_signup, returned, n, unknown n),
        rw (small, finalize_signup, returned, n),
      ))
  | inr (u, e) ↦ elim (Bool-cases u.ready) [
    | inl r ↦ inr (
        inl (
          u,
          e,
          r,
          rw (small, finalize_signup, returned, e, r, known u e),
          rw (small, finalize_signup, returned, e, r),
        ))
    | inr r ↦ inl (
      u,
      e,
      r,
      rw (small, finalize_signup, returned, e, r),
      rw (small, finalize_signup, returned, e, r) (stored u e r),
    )
  ]
]
  where
    returned :
        first (
          map
            (finalize_user (unix now) i)
            (select (λ u. same u.id i.user_id && not u.ready) a.users))
        ≡ Option.map
            (finalize_user (unix now) i)
            (keep_if (λ u. not u.ready) (find_user i.user_id a.users))
    returned = Keyed.first-returning user_key _ (λ u. not u.ready) i.user_id a.users d

    unknown :
        find_user i.user_id a.users ≡ none → exists_row (λ u. same u.id i.user_id) a.users ≡ false
    unknown n = exists-find i.user_id a.users ∙ ap (λ o. elim o [ none ↦ false | some u ↦ true ]) n

    known :
        (u : UserRow)
        → find_user i.user_id a.users ≡ some u
        → exists_row (λ u. same u.id i.user_id) a.users ≡ true
    known u e = exists-find i.user_id a.users ∙ ap (λ o. elim o [ none ↦ false | some u ↦ true ]) e

    stored :
        (u : UserRow)
        → find_user i.user_id a.users ≡ some u
        → u.ready ≡ false
        → find_user i.user_id
            (update (λ u. same u.id i.user_id && not u.ready) (finalize_user (unix now) i) a.users)
          ≡ some (finalize_user (unix now) i u)
    stored u e r =
        Keyed.find-update_at user_key (λ u. not u.ready) _ (λ u. refl) i.user_id i.user_id a.users
        ∙ rw (same_refl i.user_id, e, r)

-- A user finalizes the signup once: after it has succeeded, and whatever methods run in between,
-- every later FinalizeSignup for that user within the limits answers that it is done, and changes
-- nothing.
pub finalize_once :
    (now now' : ℕ) (i i' : FinalizeSignupInput) (a : Accounts) (hs : History) (u : UserRow)
    → Keyed.Distinct user_key a.users
    → is_too_large i.wrapped_primary_key i.wrapped_anchor_key i.attestation_payload ≡ false
    → is_too_large i'.wrapped_primary_key i'.wrapped_anchor_key i'.attestation_payload ≡ false
    → i'.user_id ≡ i.user_id
    → (finalize_signup up up now i a).0 ≡ ok u
    → let later = run hs (finalize_signup up up now i a).1 in
      finalize_signup up up now' i' later ≡ (err already_finalized, later)
unfolding step
finalize_once now now' i i' a hs u d small small' q done = elim (finalize_exact now i a d small) [
  | inl (v, _, _, _, e) ↦ over (finalize_user (unix now) i v) e refl
  | inr (inl (_, _, _, e, _)) ↦ cc
  | inr (inr (_, e, _)) ↦ cc
]
  where
    first_run : Accounts
    first_run = (finalize_signup up up now i a).1

    first_run-Distinct : Keyed.Distinct user_key first_run.users
    first_run-Distinct = Touch-Distinct a.users _ (step-Touch (up, finalizes up now i) a) d

    over :
        (v : UserRow)
        → find_user i.user_id first_run.users ≡ some v
        → v.ready ≡ true
        → finalize_signup up up now' i' (run hs first_run)
          ≡ (err already_finalized, run hs first_run)
    over v e r =
        let (w, found, s) = run-Kept hs first_run i.user_id v first_run-Distinct e r in
        let found' : find_user i'.user_id (run hs first_run).users ≡ some w = rw q found in
        elim (finalize_exact now' i' (run hs first_run)
          (run-Distinct hs first_run first_run-Distinct) small') [
            | inl (x, e', r', _, _) ↦ ground (arith, s.ready)
            | inr (inl (_, _, _, e', same_tables)) ↦ λ i. (e' i, same_tables i)
            | inr (inr (e', _, _)) ↦ cc
          ]
