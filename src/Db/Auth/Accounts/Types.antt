-- ===== src/Db/Auth/Accounts/Types.antt =====
-- The rows of v2_users and v2_user_credentials, and the inputs of the methods on them
-- (internal/db/auth.go). A credential's `id` is its primary key, `credential_id` the one that the
-- authenticator gave it.
use revaulter.Base.{
  ℕ, Text, text_eq, bytes, same, Bool, true, false, ◌&&◌, Option, List, [], ◌∷◌, ◌++◌,
}
use revaulter.Sql.{select}
use revaulter.Sql.Keyed

pub record UserRow : Type 0 where
  pub id : Text
  pub display_name : Text
  pub status : Text
  pub webauthn_user_id : Text
  pub request_key : Text
  pub request_enc_ecdh_pubkey : Text
  pub request_enc_mlkem_pubkey : Text
  pub anchor_es384_public_key : Text
  pub anchor_mldsa87_public_key : Text
  pub pubkey_bundle_signature_es384 : Text
  pub pubkey_bundle_signature_mldsa87 : Text
  pub pubkey_bundle_version : ℕ
  pub wrapped_key_epoch : ℕ
  pub allowed_ips : Text
  pub ready : Bool
  pub created_at : ℕ
  pub updated_at : ℕ

pub record CredentialRow : Type 0 where
  pub id : Text
  pub user_id : Text
  pub credential_id : Text
  pub display_name : Text
  pub public_key : Text
  pub sign_count : ℕ
  pub wrapped_primary_key : Text
  pub wrapped_anchor_key : Text
  pub attestation_payload : Text
  pub attestation_signature_es384 : Text
  pub attestation_signature_mldsa87 : Text
  pub wrapped_key_epoch : ℕ
  pub created_at : ℕ
  pub last_used_at : ℕ

pub record RegisterUserInput : Type 0 where
  pub user_id : Text
  pub display_name : Text
  pub webauthn_user_id : Text
  pub credential_id : Text
  pub credential_display_name : Text
  pub public_key : Text
  pub sign_count : ℕ

pub record AddCredentialInput : Type 0 where
  pub user_id : Text
  pub credential_id : Text
  pub display_name : Text
  pub public_key : Text
  pub sign_count : ℕ
  pub wrapped_primary_key : Text
  pub wrapped_anchor_key : Text
  pub attestation_payload : Text
  pub attestation_signature_es384 : Text
  pub attestation_signature_mldsa87 : Text

pub record LoginInput : Type 0 where
  pub user_id : Text
  pub credential_id : Text
  pub sign_count : ℕ

pub record FinalizeSignupInput : Type 0 where
  pub user_id : Text
  pub wrapped_primary_key : Text
  pub wrapped_anchor_key : Text
  pub request_enc_ecdh_pubkey : Text
  pub request_enc_mlkem_pubkey : Text
  pub anchor_es384_public_key : Text
  pub anchor_mldsa87_public_key : Text
  pub pubkey_bundle_signature_es384 : Text
  pub pubkey_bundle_signature_mldsa87 : Text
  pub pubkey_bundle_version : ℕ
  pub attestation_payload : Text
  pub attestation_signature_es384 : Text
  pub attestation_signature_mldsa87 : Text

abbrev pub Users : Type 0
Users = List UserRow

abbrev pub Credentials : Type 0
Credentials = List CredentialRow

-- The two tables that the methods share.
pub record Accounts : Type 0 where
  pub users : Users
  pub credentials : Credentials

abbrev pub user_key : UserRow → Text
user_key u = u.id

abbrev pub find_user : Text → Users → Option UserRow
find_user = Keyed.find user_key

abbrev pub credential_key : CredentialRow → Text
credential_key c = c.id

abbrev pub find_credential : Text → Credentials → Option CredentialRow
find_credential = Keyed.find credential_key

-- `SELECT EXISTS(SELECT 1 … WHERE p)`
abbrev pub exists_row : {A : Type 0} → (A → Bool) → List A → Bool
exists_row p l = elim (select p l) [ [] ↦ false | r ∷ rs ↦ true ]

-- `status = 'active'`
abbrev pub is_active : UserRow → Bool
is_active u = same u.status (bytes "active")

-- `status = 'active' AND ready = true`
abbrev pub is_set_up : UserRow → Bool
is_set_up u = is_active u && u.ready

-- `SELECT … FROM v2_users WHERE id = $4 AND status = 'active'`
abbrev pub active_user : Text → UserRow → Bool
active_user id u = same u.id id && is_active u

abbrev pub owned : Text → CredentialRow → Bool
owned user c = same c.user_id user

-- newRequestKey: a prefix and twenty random characters
abbrev pub request_key_of : Text → Text
request_key_of random = bytes "rvk_" ++ random
