-- ===== src/Db/Auth/Accounts/History.antt =====
-- Any sequence of the methods of AuthStore on the accounts, each statement failing or not.
use revaulter.Base.{ℕ, Text, Option, List, [], ◌∷◌}
use revaulter.Sql.{Conn}
use revaulter.Db.Auth.AllowedIps.{Net}
use revaulter.Db.Auth.Accounts.{
  Accounts, RegisterUserInput, LoginInput, FinalizeSignupInput, AddCredentialInput, register_user,
  login, finalize_signup,
}
use revaulter.Db.Auth.Accounts.Settings.{
  update_allowed_ips, regenerate_request_key, update_display_name, advance_wrapped_key_epoch,
  delete_nonready_user,
}
use revaulter.Db.Auth.Accounts.Passkeys.{
  Backend, add_credential, update_credential_wrapped_key, rename_credential, delete_credential,
}

-- A method that changes the accounts, with its arguments; the first driver answer is given apart.
pub data Statement : Type 0 where
  registers : Conn → ℕ → Option Text → Text → RegisterUserInput → Statement
  logs_in : ℕ → LoginInput → Statement
  finalizes : Conn → ℕ → FinalizeSignupInput → Statement
  regenerates : ℕ → Option Text → Text → Statement
  restricts : Net → ℕ → Text → List Text → Statement
  renames : ℕ → Text → Text → Statement
  advances : ℕ → Text → Statement
  abandons : Text → ℕ → Statement
  adds : ℕ → Text → AddCredentialInput → Statement
  rewraps : Text → Text → Text → Text → Statement
  labels : Text → Text → Text → Statement
  deletes : Backend → Conn → Text → Text → Statement

abbrev pub History : Type 0
History = List (Conn × Statement)

-- The second statement of deleteCredentialSQLite only reads: what others write before it comes
-- later in the history.
unfoldable pub step : Conn × Statement → Accounts → Accounts
step (c, registers c₂ now random uuid i) a = (register_user c c₂ now random uuid i a).1
step (c, logs_in now i) a = (login c now i a).1
step (c, finalizes c₂ now i) a = (finalize_signup c c₂ now i a).1
step (c, regenerates now random id) a = (regenerate_request_key c now random id a).1
step (c, restricts net now id ips) a = (update_allowed_ips net c now id ips a).1
step (c, renames now id name) a = (update_display_name c now id name a).1
step (c, advances now id) a = (advance_wrapped_key_epoch c now id a).1
step (c, abandons id now) a = (delete_nonready_user c id now a).1
step (c, adds now uuid i) a = (add_credential c now uuid i a).1
step (c, rewraps credential user primary anchor) a =
    (update_credential_wrapped_key c credential user primary anchor a).1
step (c, labels id user name) a = (rename_credential c id user name a).1
step (c, deletes b c₂ id user) a = (delete_credential b c c₂ (λ x. x) id user a).1

unfoldable pub run : History → Accounts → Accounts
run [] a = a
run (h ∷ hs) a = run hs (step h a)
