-- ===== src/Db/Auth/Accounts/Passkeys.antt =====
-- internal/db/auth.go: adding, changing and deleting the credentials of a user.
use revaulter.Base.{
  ℕ, Text, text_eq, same, trim_space, Bool, ◌&&◌, ◌||◌, ltb, leb, ◌==◌, none, some, [], ◌∷◌, ◌++◌,
  length, if◌then◌else◌,
}
use revaulter.Sql.{Conn, up, down, select, update, delete, count, first}
use revaulter.Time.{unix}
use revaulter.Db.Auth.Types.{
  Result, ok, err, driver, duplicate, too_large, unexpected, user_not_found, credential_not_found,
  last_credential, display_name_too_long,
}
use revaulter.Db.Auth.Accounts.{
  CredentialRow, Credentials, AddCredentialInput, Accounts, active_user, owned, exists_row,
  is_too_large, credential_conflict,
}

abbrev pub row_of : ℕ → Text → ℕ → AddCredentialInput → CredentialRow
row_of now uuid epoch i = record {
  id = uuid;
  user_id = i.user_id;
  credential_id = i.credential_id;
  display_name = i.display_name;
  public_key = i.public_key;
  sign_count = i.sign_count;
  wrapped_primary_key = i.wrapped_primary_key;
  wrapped_anchor_key = i.wrapped_anchor_key;
  attestation_payload = i.attestation_payload;
  attestation_signature_es384 = i.attestation_signature_es384;
  attestation_signature_mldsa87 = i.attestation_signature_mldsa87;
  wrapped_key_epoch = epoch;
  created_at = now;
  last_used_at = now;
}

-- The INSERT … SELECT of AddCredential, once its subquery has found the active user.
abbrev pub insert_credential : CredentialRow → Accounts → Result (Unit {0}) × Accounts
insert_credential c a =
    if credential_conflict c a.credentials
    then (err duplicate, a)
    else (ok tt, record a { credentials = a.credentials ++ c ∷ [] })

-- AddCredential
unfoldable pub add_credential :
    Conn → ℕ → Text → AddCredentialInput → Accounts → Result (Unit {0}) × Accounts
add_credential c now uuid i a =
    if is_too_large i.wrapped_primary_key i.wrapped_anchor_key i.attestation_payload
    then (err too_large, a)
    else elim c [
      | down ↦ (err driver, a)
      | up ↦ elim (first (select (active_user i.user_id) a.users)) [
        | none ↦ (err user_not_found, a)
        | some u ↦ insert_credential (row_of (unix now) uuid u.wrapped_key_epoch i) a
      ]
    ]

abbrev pub rewrap : Text → Text → ℕ → CredentialRow → CredentialRow
rewrap primary anchor epoch c = record c {
  wrapped_primary_key = primary;
  wrapped_anchor_key = anchor;
  wrapped_key_epoch = epoch;
}

-- An UPDATE of credentials whose count of rows is checked.
abbrev pub change_credentials :
    (CredentialRow → Bool)
    → (CredentialRow → CredentialRow)
    → Accounts
    → Result (Unit {0}) × Accounts
change_credentials hit f a = (
  elim (select hit a.credentials) [ [] ↦ err credential_not_found | c ∷ cs ↦ ok tt ],
  record a { credentials = update hit f a.credentials },
)

-- UpdateCredentialWrappedKey
unfoldable pub update_credential_wrapped_key :
    Conn → Text → Text → Text → Text → Accounts → Result (Unit {0}) × Accounts
update_credential_wrapped_key c credential user primary anchor a =
    if ltb 512 (length primary) || ltb 32768 (length anchor) then (err too_large, a) else elim c [
      | down ↦ (err driver, a)
      | up ↦ elim (first (select (active_user user) a.users)) [
        | none ↦ (err credential_not_found, a)
        | some u ↦
            change_credentials (λ r. same r.credential_id credential && owned user r)
              (rewrap primary anchor u.wrapped_key_epoch) a
      ]
    ]

-- RenameCredential
unfoldable pub rename_credential :
    Conn → Text → Text → Text → Accounts → Result (Unit {0}) × Accounts
rename_credential c id user name a =
    let trimmed = trim_space name in
    if ltb 100 (length trimmed) then (err display_name_too_long, a) else elim c [
      | down ↦ (err driver, a)
      | up ↦
          change_credentials (λ r. same r.id id && owned user r)
            (λ r. record r { display_name = trimmed }) a
    ]

abbrev pub is_target : Text → Text → CredentialRow → Bool
is_target id user c = same c.id id && owned user c

-- What deleteCredentialPostgres makes of the three counts: the user's credentials, those of that
-- id, and the deleted ones.
abbrev pub outcome : ℕ → ℕ → ℕ → Result (Unit {0})
outcome total target deleted =
    if deleted == 1
    then ok tt
    else if target == 0
    then err credential_not_found
    else if leb total 1
    then err last_credential
    else err unexpected

-- deleteCredentialPostgres: one statement, on the credentials that it has locked
unfoldable pub delete_credential_postgres :
    Conn → Text → Text → Accounts → Result (Unit {0}) × Accounts
delete_credential_postgres down id user a = (err driver, a)
delete_credential_postgres up id user a =
    let locked = select (owned user) a.credentials in
    let hit = λ (c : CredentialRow).
      is_target id user c
      && (ltb 1 (length locked) && exists_row (λ (x : CredentialRow). same x.id id) locked) in
    (
      outcome (length locked) (count (λ x. same x.id id) locked) (count hit a.credentials),
      record a { credentials = delete hit a.credentials },
    )

-- What deleteCredentialSQLite makes of the counts of its second statement.
abbrev pub diagnose : Conn → Text → Credentials → Result (Unit {0})
diagnose down id mine = err driver
diagnose up id mine =
    if count (λ c. same c.id id) mine == 0 then err credential_not_found else err last_credential

-- deleteCredentialSQLite; `others` is what other writers do between its two statements.
unfoldable pub delete_credential_sqlite :
    Conn → Conn → (Accounts → Accounts) → Text → Text → Accounts → Result (Unit {0}) × Accounts
delete_credential_sqlite down c₂ others id user a = (err driver, a)
delete_credential_sqlite up c₂ others id user a =
    let total = count (owned user) a.credentials in
    let hit = λ (c : CredentialRow). is_target id user c && ltb 1 total in
    elim (select hit a.credentials) [
      | c ∷ cs ↦ (ok tt, record a { credentials = delete hit a.credentials })
      | [] ↦ (diagnose c₂ id (select (owned user) (others a).credentials), others a)
    ]

-- BackendKind
pub data Backend : Type 0 where
  postgres sqlite other : Backend

-- DeleteCredential
unfoldable pub delete_credential :
    Backend
    → Conn
    → Conn
    → (Accounts → Accounts)
    → Text
    → Text
    → Accounts
    → Result (Unit {0}) × Accounts
unfolding delete_credential_postgres delete_credential_sqlite
delete_credential postgres c₁ c₂ others id user a = delete_credential_postgres c₁ id user a
delete_credential sqlite c₁ c₂ others id user a = delete_credential_sqlite c₁ c₂ others id user a
delete_credential other c₁ c₂ others id user a = (err unexpected, a)
