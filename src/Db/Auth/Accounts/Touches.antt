-- ===== src/Db/Auth/Accounts/Touches.antt =====
-- What each method of AuthStore does to v2_users.

use revaulter.Base.{
  List, map, ltb, length, ℕ, Text, text_eq, same, ◌≡◌, refl, inl, inr, true, false, ◌&&◌, not,
  Option, none, some, [], ◌∷◌, ◌++◌, arith, Option-cases, if_cases, option_cases,
}
use revaulter.Sql.{Conn, up, down, first, select}
use revaulter.Time.{unix}
use revaulter.Db.Auth.Types.{err, driver, invalid_allowed_ips, Result}
use revaulter.Db.Auth.AllowedIps
use revaulter.Db.Auth.AllowedIps.{Net, normalize_allowed_ips, print_allowed_ips}
use revaulter.Db.Auth.Accounts.{
  UserRow, Users, Accounts, CredentialRow, LoginInput, credential_conflict, insert_first,
  store_first_keys, is_set_up, is_too_large, find_user, new_user, user_conflict, register_user,
  login, request_key_of, finalize_user, finalize_signup, RegisterUserInput, FinalizeSignupInput,
}
use revaulter.Db.Auth.Accounts.Settings.{
  key_taken, change_user, update_allowed_ips, regenerate_request_key, update_display_name,
  advance_wrapped_key_epoch, delete_nonready_user, is_abandoned, next_epoch,
}
use revaulter.Db.Auth.Accounts.Sealed.{
  Sealed, Sealed-settings, Touch, kept, added, changed, removed,
}

no_conflict : (u : UserRow) (us : Users) → user_conflict u us ≡ false → find_user u.id us ≡ none
no_conflict u us e = elim (Option-cases (find_user u.id us)) [
  | inl n ↦ n
  | inr (x, n) ↦ absurd (ground arith)
]

-- The same of a method's answer with the accounts that it leaves.
unfoldable pub Touching : {A : Type 0} → Accounts → Result A × Accounts → Type 0
Touching a m = Touch a.users m.1.users

module _ (a : Accounts) where
  pub touching : {A : Type 0} (m : Result A × Accounts) → Touch a.users m.1.users → Touching a m
  unfolding Touching
  touching m t = t

  pub same_users : {A : Type 0} (r : Result A) → Touching a (r, a)
  same_users r = touching _ (kept refl)

  insert_first-Touch :
      (c : Conn) (u u' : UserRow) (r : CredentialRow)
      → find_user u.id a.users ≡ none
      → Touching a (insert_first c u' r (record a { users = a.users ++ u ∷ [] }))
  insert_first-Touch down u u' r n = touching _ (added u n refl)
  insert_first-Touch up u u' r n =
      if_cases (Touching a) (credential_conflict r a.credentials) (λ _. touching _ (added u n refl))
        (λ _. touching _ (added u n refl))

  pub register_user-Touch :
      (c₁ c₂ : Conn) (now : ℕ) (random : Option Text) (uuid : Text) (i : RegisterUserInput)
      → Touching a (register_user c₁ c₂ now random uuid i a)
  unfolding register_user
  register_user-Touch c₁ c₂ now none uuid i = same_users _
  register_user-Touch down c₂ now (some random) uuid i = same_users _
  register_user-Touch up c₂ now (some random) uuid i =
      let u = new_user (unix now) random i in
      if_cases (Touching a) (user_conflict u a.users) (λ _. same_users _)
        (λ e. insert_first-Touch c₂ u u _ (no_conflict u a.users e))

  pub login-Touch : (c : Conn) (now : ℕ) (i : LoginInput) → Touching a (login c now i a)
  unfolding login
  login-Touch down now i = same_users _
  login-Touch up now i = touching _ (kept refl)

  store_first_keys-Touch :
      (c : Conn) (i : FinalizeSignupInput) (u : UserRow) (us : Users)
      → Touch a.users us
      → Touching a (store_first_keys c i u (record a { users = us }))
  store_first_keys-Touch down i u us t = touching _ t
  store_first_keys-Touch up i u us t = touching _ t

  pub finalize_signup-Touch :
      (c₁ c₂ : Conn) (now : ℕ) (i : FinalizeSignupInput)
      → Touching a (finalize_signup c₁ c₂ now i a)
  unfolding finalize_signup
  finalize_signup-Touch down c₂ now i =
      if_cases (Touching a)
        (is_too_large i.wrapped_primary_key i.wrapped_anchor_key i.attestation_payload)
        (λ _. same_users _) (λ _. same_users _)
  finalize_signup-Touch up c₂ now i =
      if_cases (Touching a)
        (is_too_large i.wrapped_primary_key i.wrapped_anchor_key i.attestation_payload)
        (λ _. same_users _)
        (λ _.
          option_cases (Touching a)
            (first (
              map (finalize_user (unix now) i)
                (select (λ u. same u.id i.user_id && not u.ready) a.users)))
            (λ _. same_users _)
            (λ u e. store_first_keys-Touch c₂ i u _ (
              changed i.user_id (λ u. not u.ready) (finalize_user (unix now) i) (λ u. refl) unready
                refl)))
    where
      unready :
          (u : UserRow)
          → not u.ready ≡ true
          → u.ready ≡ true
          → Sealed u (finalize_user (unix now) i u)
      unready u q r = absurd (ground arith)

  -- An UPDATE of the set-up user of an id that keeps what is sealed.
  change_user-Touch :
      {A : Type 0} (id : Text) (answer : A) (f : UserRow → UserRow)
      → ((u : UserRow) → (f u).id ≡ u.id)
      → ((u : UserRow) → u.ready ≡ true → Sealed u (f u))
      → Touching a (change_user id answer f a)
  change_user-Touch id answer f keeps seals =
      touching _ (changed id is_set_up f keeps (λ u _ r. seals u r) refl)

  pub regenerate-Touch :
      (c : Conn) (now : ℕ) (random : Option Text) (id : Text)
      → Touching a (regenerate_request_key c now random id a)
  unfolding regenerate_request_key
  regenerate-Touch c now none id = same_users _
  regenerate-Touch down now (some random) id = same_users _
  regenerate-Touch up now (some random) id =
      if_cases (Touching a) (key_taken (request_key_of random) id a.users) (λ _. same_users _)
        (λ _.
          change_user-Touch id (request_key_of random)
            (λ u. record u { request_key = request_key_of random; updated_at = unix now })
            (λ u. refl) (λ u r. sealed u r))
    where
      sealed :
          (u : UserRow)
          → u.ready ≡ true
          → Sealed u (record u { request_key = request_key_of random; updated_at = unix now })
      sealed u r =
          Sealed-settings u u.display_name (request_key_of random) u.allowed_ips (unix now) r

  pub restrict-Touch :
      (net : Net) (c : Conn) (now : ℕ) (id : Text) (ips : List Text)
      → Touching a (update_allowed_ips net c now id ips a)
  unfolding update_allowed_ips
  restrict-Touch net c now id ips = normalized c (normalize_allowed_ips net ips)
    where
      sealed :
          (l : List Text) (u : UserRow)
          → u.ready ≡ true
          → Sealed u (record u { allowed_ips = print_allowed_ips l; updated_at = unix now })
      sealed l u r =
          Sealed-settings u u.display_name u.request_key (print_allowed_ips l) (unix now) r

      normalized :
          (c : Conn) (r : AllowedIps.Result (List Text))
          → Touching a (elim r as (λ _. Result (List Text) × Accounts) [
            | AllowedIps.err e ↦ (err invalid_allowed_ips, a)
            | AllowedIps.ok l ↦ elim c [
              | down ↦ (err driver, a)
              | up ↦
                  change_user id l
                    (λ u. record u { allowed_ips = print_allowed_ips l; updated_at = unix now })
                    a
            ]
          ])
      normalized c (AllowedIps.err e) = same_users _
      normalized down (AllowedIps.ok l) = same_users _
      normalized up (AllowedIps.ok l) =
          change_user-Touch id l
            (λ u. record u { allowed_ips = print_allowed_ips l; updated_at = unix now }) (λ u. refl)
            (sealed l)

  pub update_display_name-Touch :
      (c : Conn) (now : ℕ) (id name : Text) → Touching a (update_display_name c now id name a)
  unfolding update_display_name
  update_display_name-Touch down now id name =
      if_cases (Touching a) (ltb 100 (length name)) (λ _. same_users _) (λ _. same_users _)
  update_display_name-Touch up now id name =
      if_cases (Touching a) (ltb 100 (length name)) (λ _. same_users _)
        (λ _.
          change_user-Touch id tt (λ u. record u { display_name = name; updated_at = unix now })
            (λ u. refl) sealed)
    where
      sealed :
          (u : UserRow)
          → u.ready ≡ true
          → Sealed u (record u { display_name = name; updated_at = unix now })
      sealed u r = Sealed-settings u name u.request_key u.allowed_ips (unix now) r

  pub advance-Touch :
      (c : Conn) (now : ℕ) (id : Text) → Touching a (advance_wrapped_key_epoch c now id a)
  unfolding advance_wrapped_key_epoch
  advance-Touch down now id = same_users _
  advance-Touch up now id =
      touching _
        (changed id is_set_up (next_epoch (unix now)) (λ u. refl) (λ u _ r. sealed u r) refl)
    where
      sealed : (u : UserRow) → u.ready ≡ true → Sealed u (next_epoch (unix now) u)
      sealed u r = record {
        ready = r;
        status = refl;
        webauthn = refl;
        ecdh = refl;
        mlkem = refl;
        es384 = refl;
        mldsa87 = refl;
        bundle_es384 = refl;
        bundle_mldsa87 = refl;
        version = refl;
        epoch = omega arith;
      }

  pub delete_nonready-Touch :
      (c : Conn) (id : Text) (now : ℕ) → Touching a (delete_nonready_user c id now a)
  unfolding delete_nonready_user
  delete_nonready-Touch down id now = same_users _
  delete_nonready-Touch up id now =
      touching _ (removed id (is_abandoned now) (λ u q. ground arith) refl)
