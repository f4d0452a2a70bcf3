-- ===== src/Db/Auth/Accounts/Untouched.antt =====
-- The methods on credentials leave v2_users alone; and what every method does to it.
use revaulter.Base.{
  ltb, length, trim_space, ◌||◌, ℕ, Text, text_eq, refl, ◌&&◌, if_cases, option_cases, list_cases,
}
use revaulter.Sql.{count, Conn, up, down, first, select}
use revaulter.Time.{unix}
use revaulter.Db.Auth.Accounts.{
  Accounts, credential_conflict, is_too_large, owned, active_user, AddCredentialInput,
}
use revaulter.Db.Auth.Accounts.Passkeys.{
  is_target, row_of, Backend, postgres, sqlite, other, add_credential,
  update_credential_wrapped_key, rename_credential, delete_credential, delete_credential_postgres,
  delete_credential_sqlite,
}
use revaulter.Db.Auth.Accounts.History.{
  Statement, registers, logs_in, finalizes, regenerates, restricts, renames, advances, abandons,
  adds, rewraps, labels, deletes, step,
}
use revaulter.Db.Auth.Accounts.Sealed.{Touch, kept}
use revaulter.Db.Auth.Accounts.Touches.{
  Touching, touching, same_users, register_user-Touch, login-Touch, finalize_signup-Touch,
  regenerate-Touch, restrict-Touch, update_display_name-Touch, advance-Touch, delete_nonready-Touch,
}

module _ (a : Accounts) where
  -- The methods on credentials leave the users alone.
  add_credential-Touch :
      (c : Conn) (now : ℕ) (uuid : Text) (i : AddCredentialInput)
      → Touching a (add_credential c now uuid i a)
  unfolding add_credential
  add_credential-Touch down now uuid i =
      if_cases (Touching a)
        (is_too_large i.wrapped_primary_key i.wrapped_anchor_key i.attestation_payload)
        (λ _. same_users a _) (λ _. same_users a _)
  add_credential-Touch up now uuid i =
      if_cases (Touching a)
        (is_too_large i.wrapped_primary_key i.wrapped_anchor_key i.attestation_payload)
        (λ _. same_users a _)
        (λ _.
          option_cases (Touching a) (first (select (active_user i.user_id) a.users))
            (λ _. same_users a _)
            (λ u _.
              if_cases (Touching a)
                (credential_conflict (row_of (unix now) uuid u.wrapped_key_epoch i) a.credentials)
                (λ _. same_users a _) (λ _. touching a _ (kept refl))))

  rewrap-Touch :
      (c : Conn) (credential user primary anchor : Text)
      → Touching a (update_credential_wrapped_key c credential user primary anchor a)
  unfolding update_credential_wrapped_key
  rewrap-Touch down credential user primary anchor =
      if_cases (Touching a) (ltb 512 (length primary) || ltb 32768 (length anchor))
        (λ _. same_users a _) (λ _. same_users a _)
  rewrap-Touch up credential user primary anchor =
      if_cases (Touching a) (ltb 512 (length primary) || ltb 32768 (length anchor))
        (λ _. same_users a _)
        (λ _.
          option_cases (Touching a) (first (select (active_user user) a.users))
            (λ _. same_users a _) (λ u _. touching a _ (kept refl)))

  rename_credential-Touch :
      (c : Conn) (id user name : Text) → Touching a (rename_credential c id user name a)
  unfolding rename_credential
  rename_credential-Touch down id user name =
      if_cases (Touching a) (ltb 100 (length (trim_space name))) (λ _. same_users a _)
        (λ _. same_users a _)
  rename_credential-Touch up id user name =
      if_cases (Touching a) (ltb 100 (length (trim_space name))) (λ _. same_users a _)
        (λ _. touching a _ (kept refl))

  delete_credential-Touch :
      (b : Backend) (c₁ c₂ : Conn) (id user : Text)
      → Touching a (delete_credential b c₁ c₂ (λ x. x) id user a)
  unfolding delete_credential delete_credential_postgres delete_credential_sqlite
  delete_credential-Touch postgres down c₂ id user = same_users a _
  delete_credential-Touch postgres up c₂ id user = touching a _ (kept refl)
  delete_credential-Touch sqlite down c₂ id user = same_users a _
  delete_credential-Touch sqlite up c₂ id user =
      list_cases (Touching a)
        (select (λ c. is_target id user c && ltb 1 (count (owned user) a.credentials))
          a.credentials)
        (λ _. same_users a _) (λ c cs _. touching a _ (kept refl))
  delete_credential-Touch other c₁ c₂ id user = same_users a _

-- Every method's effect on the users.
pub step-Touch : (h : Conn × Statement) (a : Accounts) → Touch a.users (step h a).users
unfolding step Touching
step-Touch (c, registers c₂ now random uuid i) a = register_user-Touch a c c₂ now random uuid i
step-Touch (c, logs_in now i) a = login-Touch a c now i
step-Touch (c, finalizes c₂ now i) a = finalize_signup-Touch a c c₂ now i
step-Touch (c, regenerates now random id) a = regenerate-Touch a c now random id
step-Touch (c, restricts net now id ips) a = restrict-Touch a net c now id ips
step-Touch (c, renames now id name) a = update_display_name-Touch a c now id name
step-Touch (c, advances now id) a = advance-Touch a c now id
step-Touch (c, abandons id now) a = delete_nonready-Touch a c id now
step-Touch (c, adds now uuid i) a = add_credential-Touch a c now uuid i
step-Touch (c, rewraps credential user primary anchor) a =
    rewrap-Touch a c credential user primary anchor
step-Touch (c, labels id user name) a = rename_credential-Touch a c id user name
step-Touch (c, deletes b c₂ id user) a = delete_credential-Touch a b c c₂ id user
