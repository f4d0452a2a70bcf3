-- ===== src/Db/Auth/Accounts/Tests.antt =====
-- A signup and a few changes to an account, and the theorems at concrete tables.
use revaulter.Base.{
  Text, List, List, ℕ, text_eq, bytes, same, trim_space, ◌≡◌, ◌≤◌, refl, true, false, none, some,
  [], ◌∷◌, arith, ◌⊎◌,
}
use revaulter.Sql.{up, down, select, update, count, first}
use revaulter.Sql.Keyed
use revaulter.Time.{unix}
use revaulter.Db.Auth.Types.{
  ok, err, user_already_exists, user_not_found, already_finalized, last_credential,
}
use revaulter.Db.Auth.Accounts.{
  UserRow, CredentialRow, RegisterUserInput, FinalizeSignupInput, Accounts, find_user, user_key,
  credential_key, owned, as_registered, new_user, first_credential, finalize_user, register_user,
  finalize_signup,
}
use revaulter.Db.Auth.AllowedIps.{normalize_allowed_ips}
use revaulter.Db.Auth.AllowedIps.Sample.{sample_net}
use revaulter.Db.Auth.Accounts.Settings.{update_allowed_ips, advance_wrapped_key_epoch}
use revaulter.Db.Auth.Accounts.Passkeys.{
  postgres, sqlite, delete_credential, delete_credential_postgres, delete_credential_sqlite,
}
use revaulter.Db.Auth.Accounts.History.{
  History, advances, abandons, deletes, regenerates, finalizes, run,
}
use revaulter.Db.Auth.Accounts.Sealed.{Kept}
use revaulter.Db.Auth.Accounts.Finalized.{run-Kept, finalize_exact, finalize_once}
use revaulter.Db.Auth.Accounts.KeepsOne.{delete_credential_keeps_one}
use revaulter.Db.Auth.Accounts.LastCredential.{remove_credential, delete_credential_refines}

abbrev now : ℕ
now = 1700000000000000000

abbrev signup : RegisterUserInput
signup = record {
  user_id = bytes "alice";
  display_name = bytes " Alice ";
  webauthn_user_id = bytes "w1";
  credential_id = bytes "pk1";
  credential_display_name = bytes "key";
  public_key = bytes "pub";
  sign_count = 0;
}

abbrev empty : Accounts
empty = record { users = []; credentials = [] }

abbrev alice : UserRow
alice = new_user (unix now) (bytes "abc") signup

abbrev passkey : CredentialRow
passkey = first_credential (unix now) (bytes "u1") signup

abbrev signed_up : Accounts
signed_up = record { users = alice ∷ []; credentials = passkey ∷ [] }

register_run :
    register_user up up now (some (bytes "abc")) (bytes "u1") signup empty
    ≡ (ok (as_registered alice), signed_up)
unfolding register_user Keyed.find select
register_run = refl

register_name : alice.display_name ≡ bytes "Alice"
unfolding trim_space
register_name = refl

register_twice :
    (register_user up up now (some (bytes "abc")) (bytes "u2") signup signed_up).0
    ≡ err user_already_exists
unfolding register_user Keyed.find select same
register_twice = refl

abbrev keys : FinalizeSignupInput
keys = record {
  user_id = bytes "alice";
  wrapped_primary_key = bytes "wp";
  wrapped_anchor_key = bytes "wa";
  request_enc_ecdh_pubkey = bytes "ecdh";
  request_enc_mlkem_pubkey = bytes "mlkem";
  anchor_es384_public_key = bytes "es384";
  anchor_mldsa87_public_key = bytes "mldsa87";
  pubkey_bundle_signature_es384 = bytes "s1";
  pubkey_bundle_signature_mldsa87 = bytes "s2";
  pubkey_bundle_version = 2;
  attestation_payload = bytes "att";
  attestation_signature_es384 = bytes "a1";
  attestation_signature_mldsa87 = bytes "a2";
}

abbrev ready_user : UserRow
ready_user = finalize_user (unix now) keys alice

abbrev ready_accounts : Accounts
ready_accounts = record { users = ready_user ∷ []; credentials = passkey ∷ [] }

finalize_run : (finalize_signup up up now keys signed_up).0 ≡ ok ready_user
unfolding finalize_signup select update first same
finalize_run = refl

signed_up-Distinct : Keyed.Distinct user_key signed_up.users
unfolding Keyed.find
signed_up-Distinct = (refl, tt)

ready-Distinct : Keyed.Distinct user_key ready_accounts.users
unfolding Keyed.find
ready-Distinct = (refl, tt)

passkey-Distinct : Keyed.Distinct credential_key signed_up.credentials
unfolding Keyed.find
passkey-Distinct = (refl, tt)

ready_found : find_user (bytes "alice") ready_accounts.users ≡ some ready_user
unfolding Keyed.find same
ready_found = refl

advance_run : (advance_wrapped_key_epoch up now (bytes "alice") ready_accounts).0 ≡ ok 2
unfolding advance_wrapped_key_epoch select first same
advance_run = refl

delete_last_run :
    (delete_credential_sqlite up up (λ x. x) (bytes "u1") (bytes "alice") signed_up).0
    ≡ err last_credential
unfolding delete_credential_sqlite select count same
delete_last_run = refl

abbrev history : History
history =
    (up, advances now (bytes "alice"))
    ∷ (up, abandons (bytes "alice") 1800000000000000000)
    ∷ (down, finalizes up now keys)
    ∷ (up, deletes sqlite up (bytes "u1") (bytes "alice"))
    ∷ (up, regenerates now (some (bytes "xyz")) (bytes "alice"))
    ∷ []

run-Kept_example : Kept (bytes "alice") ready_user (run history ready_accounts).users
run-Kept_example =
    run-Kept history ready_accounts (bytes "alice") ready_user ready-Distinct ready_found refl

finalize_exact_example :
    let (answer, a') = finalize_signup up up now keys signed_up in
    ((u : UserRow) × (find_user keys.user_id signed_up.users ≡ some u)
      × (u.ready ≡ false)
      × (answer ≡ ok (finalize_user (unix now) keys u))
      × (find_user keys.user_id a'.users ≡ some (finalize_user (unix now) keys u)))
    ⊎ (((u : UserRow) × (find_user keys.user_id signed_up.users ≡ some u)
          × (u.ready ≡ true)
          × (answer ≡ err already_finalized)
          × (a' ≡ signed_up))
        ⊎ ((find_user keys.user_id signed_up.users ≡ none)
            × (answer ≡ err user_not_found)
            × (a' ≡ signed_up)))
finalize_exact_example = finalize_exact now keys signed_up signed_up-Distinct refl

finalize_once_example :
    let later = run history (finalize_signup up up now keys signed_up).1 in
    finalize_signup up up now keys later ≡ (err already_finalized, later)
finalize_once_example =
    finalize_once now now keys keys signed_up history ready_user signed_up-Distinct refl refl refl
      finalize_run

delete_credential_refines_example :
    (delete_credential_postgres up (bytes "u1") (bytes "alice") signed_up
      ≡ remove_credential (bytes "u1") (bytes "alice") signed_up)
    × (delete_credential_sqlite up up (λ x. x) (bytes "u1") (bytes "alice") signed_up
        ≡ remove_credential (bytes "u1") (bytes "alice") signed_up)
delete_credential_refines_example =
    delete_credential_refines (bytes "u1") (bytes "alice") signed_up passkey-Distinct

one_passkey : 1 ≤ count (owned (bytes "alice")) signed_up.credentials
unfolding count same
one_passkey = omega arith

delete_credential_keeps_one_example :
    1
    ≤ count
        (owned (bytes "alice"))
        (delete_credential postgres up up
          (λ x. x)
          (bytes "u1")
          (bytes "alice")
          signed_up).1.credentials
delete_credential_keeps_one_example =
    delete_credential_keeps_one postgres up up (bytes "u1") (bytes "alice") (bytes "alice")
      signed_up passkey-Distinct one_passkey

abbrev asked : List Text
asked = bytes "0:0::1" ∷ []

update_run :
    (update_allowed_ips sample_net up now (bytes "alice") asked ready_accounts).0
    ≡ ok (bytes "::1" ∷ [])
unfolding update_allowed_ips normalize_allowed_ips trim_space same select
update_run = refl
