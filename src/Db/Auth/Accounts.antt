-- ===== src/Db/Auth/Accounts.antt =====
-- internal/db/auth.go: the methods of AuthStore on v2_users and v2_user_credentials. A method
-- takes the driver's answer to each of its statements, the clock, and the random values that it
-- draws. Those that must run in a transaction leave what the transaction holds when they return;
-- the caller's transaction takes it back after an error.
mod Types
pub use Types.*
pub mod Lookup
pub mod Settings
pub mod Passkeys
pub mod History
pub mod Sealed
pub mod Touches
pub mod Untouched
pub mod Finalized
pub mod LastCredential
pub mod KeepsOne
pub mod Restricted
mod Tests
use revaulter.Base.{
  ℕ, ◌+◌, ◌-◌, Text, text_eq, bytes, same, is_empty, trim_space, Bool, true, false, ◌&&◌, ◌||◌, not,
  ltb, leb, ◌==◌, Option, none, some, List, [], ◌∷◌, ◌++◌, map, length, if◌then◌else◌,
}
use revaulter.Sql.{Conn, up, down, select, update, delete, count, first}
use revaulter.Sql.Keyed
use revaulter.Time.{unix}
use revaulter.Db.Auth.Types.{
  Result, ok, err, driver, duplicate, too_large, unexpected, user_already_exists, user_not_found,
  invalid_login, credential_not_found, last_credential, display_name_too_long, already_finalized,
}

-- CountUsers
unfoldable pub count_users : Conn → Accounts → Result ℕ
count_users down a = err driver
count_users up a = ok (count (λ u. true) a.users)

-- getUser, on one of the three columns that its callers name
pub data Column : Type 0 where
  by_id by_webauthn_user_id by_request_key : Column

abbrev pub column : Column → UserRow → Text
column by_id u = u.id
column by_webauthn_user_id u = u.webauthn_user_id
column by_request_key u = u.request_key

unfoldable pub get_user : Conn → Column → Text → Accounts → Result (Option UserRow)
get_user down c value a = err driver
get_user up c value a = ok (first (select (λ u. same (column c u) value) a.users))

-- GetCredentialForUser and GetCredentialByCredentialID
unfoldable pub get_credential : Conn → Text → Text → Accounts → Result (Option CredentialRow)
get_credential down user credential a = err driver
get_credential up user credential a =
    ok (first (select (λ c. owned user c && same c.credential_id credential) a.credentials))

-- The row that RegisterUser inserts into v2_users …
abbrev pub new_user : ℕ → Text → RegisterUserInput → UserRow
new_user now random i = record {
  id = i.user_id;
  display_name = trim_space i.display_name;
  status = bytes "active";
  webauthn_user_id = i.webauthn_user_id;
  request_key = request_key_of random;
  request_enc_ecdh_pubkey = [];
  request_enc_mlkem_pubkey = [];
  anchor_es384_public_key = [];
  anchor_mldsa87_public_key = [];
  pubkey_bundle_signature_es384 = [];
  pubkey_bundle_signature_mldsa87 = [];
  pubkey_bundle_version = 1;
  wrapped_key_epoch = 1;
  allowed_ips = [];
  ready = false;
  created_at = now;
  updated_at = now;
}

-- … and into v2_user_credentials, with the defaults of the columns that it leaves out.
abbrev pub first_credential : ℕ → Text → RegisterUserInput → CredentialRow
first_credential now uuid i = record {
  id = uuid;
  user_id = i.user_id;
  credential_id = i.credential_id;
  display_name = trim_space i.credential_display_name;
  public_key = i.public_key;
  sign_count = i.sign_count;
  wrapped_primary_key = [];
  wrapped_anchor_key = [];
  attestation_payload = [];
  attestation_signature_es384 = [];
  attestation_signature_mldsa87 = [];
  wrapped_key_epoch = 1;
  created_at = now;
  last_used_at = now;
}

-- The User that RegisterUser returns leaves the bundle version out.
abbrev pub as_registered : UserRow → UserRow
as_registered u = record u { pubkey_bundle_version = 0 }

-- Whether a unique index of v2_users (the id, the WebAuthn id, the request key) refuses a row.
abbrev pub user_conflict : UserRow → Users → Bool
user_conflict u us = elim (find_user u.id us) [
  | some x ↦ true
  | none ↦
      exists_row
        (λ x. same x.webauthn_user_id u.webauthn_user_id || same x.request_key u.request_key) us
]

-- The same of v2_user_credentials.
abbrev pub credential_conflict : CredentialRow → Credentials → Bool
credential_conflict c cs = elim (find_credential c.id cs) [
  | some x ↦ true
  | none ↦ exists_row (λ x. same x.credential_id c.credential_id) cs
]

-- The second statement of RegisterUser, once the user is stored.
abbrev pub insert_first : Conn → UserRow → CredentialRow → Accounts → Result UserRow × Accounts
insert_first down u c a = (err driver, a)
insert_first up u c a =
    if credential_conflict c a.credentials
    then (err user_already_exists, a)
    else (ok (as_registered u), record a { credentials = a.credentials ++ c ∷ [] })

-- RegisterUser; `random` is none when the system's randomness fails.
unfoldable pub register_user :
    Conn → Conn → ℕ → Option Text → Text → RegisterUserInput → Accounts → Result UserRow × Accounts
register_user c₁ c₂ now none uuid i a = (err driver, a)
register_user down c₂ now (some random) uuid i a = (err driver, a)
register_user up c₂ now (some random) uuid i a =
    let u = new_user (unix now) random i in
    if user_conflict u a.users
    then (err user_already_exists, a)
    else insert_first c₂ u (first_credential (unix now) uuid i)
        (record a { users = a.users ++ u ∷ [] })

-- Login
unfoldable pub login : Conn → ℕ → LoginInput → Accounts → Result (Unit {0}) × Accounts
login down now i a = (err driver, a)
login up now i a =
    let hit = λ (c : CredentialRow).
      same c.credential_id i.credential_id
      && (same c.user_id i.user_id && exists_row (active_user i.user_id) a.users) in
    (
      elim (select hit a.credentials) [ [] ↦ err invalid_login | c ∷ cs ↦ ok tt ],
      record a {
        credentials =
            update hit (λ c. record c { sign_count = i.sign_count; last_used_at = unix now })
              a.credentials;
      },
    )

abbrev pub finalize_user : ℕ → FinalizeSignupInput → UserRow → UserRow
finalize_user now i u = record u {
  request_enc_ecdh_pubkey = i.request_enc_ecdh_pubkey;
  request_enc_mlkem_pubkey = i.request_enc_mlkem_pubkey;
  anchor_es384_public_key = i.anchor_es384_public_key;
  anchor_mldsa87_public_key = i.anchor_mldsa87_public_key;
  pubkey_bundle_signature_es384 = i.pubkey_bundle_signature_es384;
  pubkey_bundle_signature_mldsa87 = i.pubkey_bundle_signature_mldsa87;
  pubkey_bundle_version = i.pubkey_bundle_version;
  ready = true;
  updated_at = now;
}

abbrev pub finalize_credential : FinalizeSignupInput → CredentialRow → CredentialRow
finalize_credential i c = record c {
  wrapped_primary_key = i.wrapped_primary_key;
  wrapped_anchor_key = i.wrapped_anchor_key;
  attestation_payload = i.attestation_payload;
  attestation_signature_es384 = i.attestation_signature_es384;
  attestation_signature_mldsa87 = i.attestation_signature_mldsa87;
  wrapped_key_epoch = 1;
}

-- The limits on what a browser stores: the wrapped keys and the attestation payload.
abbrev pub is_too_large : Text → Text → Text → Bool
is_too_large primary anchor payload =
    ltb 512 (length primary) || (ltb 32768 (length anchor) || ltb 4096 (length payload))

-- What FinalizeSignup answers when its UPDATE reached no user.
abbrev pub not_finalized : Conn → Text → Users → Result UserRow
not_finalized down id us = err driver
not_finalized up id us =
    if exists_row (λ u. same u.id id) us then err already_finalized else err user_not_found

-- What it does once the UPDATE has returned the user.
abbrev pub store_first_keys :
    Conn → FinalizeSignupInput → UserRow → Accounts → Result UserRow × Accounts
store_first_keys down i u a = (err driver, a)
store_first_keys up i u a = (
  ok u,
  record a { credentials = update (owned i.user_id) (finalize_credential i) a.credentials },
)

-- FinalizeSignup; its second statement depends on what the first one returns.
unfoldable pub finalize_signup :
    Conn → Conn → ℕ → FinalizeSignupInput → Accounts → Result UserRow × Accounts
finalize_signup c₁ c₂ now i a =
    let hit = λ (u : UserRow). same u.id i.user_id && not u.ready in
    if is_too_large i.wrapped_primary_key i.wrapped_anchor_key i.attestation_payload
    then (err too_large, a)
    else elim c₁ [
      | down ↦ (err driver, a)
      | up ↦ elim (first (map (finalize_user (unix now) i) (select hit a.users))) [
        | none ↦ (not_finalized c₂ i.user_id a.users, a)
        | some u ↦
            store_first_keys c₂ i u
              (record a { users = update hit (finalize_user (unix now) i) a.users })
      ]
    ]
