-- ===== src/Db/Auth/Accounts/Settings.antt =====
-- internal/db/auth.go: what a user who has finished the signup may change, and the deletion of one
-- who has not.
use revaulter.Base.{
  List, ℕ, ◌+◌, ◌-◌, Text, text_eq, same, Bool, ◌&&◌, not, ltb, Option, none, some, [], ◌∷◌, map,
  length, if◌then◌else◌,
}
use revaulter.Sql.{Conn, up, down, select, update, delete, first}
use revaulter.Time.{unix}
use revaulter.Db.Auth.Types.{
  Result, ok, err, driver, duplicate, user_not_found, invalid_allowed_ips, display_name_too_long,
}
use revaulter.Db.Auth.AllowedIps
use revaulter.Db.Auth.AllowedIps.{Net, normalize_allowed_ips, print_allowed_ips}
use revaulter.Db.Auth.Accounts.{UserRow, Users, Accounts, exists_row, is_set_up, request_key_of}

-- `UPDATE v2_users SET … WHERE id = $3 AND status = 'active' AND ready = true`, its count of rows
-- checked
abbrev pub change_user :
    {A : Type 0} → Text → A → (UserRow → UserRow) → Accounts → Result A × Accounts
change_user id answer f a =
    let hit = λ (u : UserRow). same u.id id && is_set_up u in
    (
      elim (select hit a.users) [ [] ↦ err user_not_found | u ∷ us ↦ ok answer ],
      record a { users = update hit f a.users },
    )

-- Whether the unique index on request_key refuses the UPDATE.
abbrev pub key_taken : Text → Text → Users → Bool
key_taken new_key id us =
    exists_row (λ u. same u.id id && is_set_up u) us
    && exists_row (λ u. same u.request_key new_key && not (same u.id id)) us

-- RegenerateRequestKey; `random` is none when the system's randomness fails.
unfoldable pub regenerate_request_key :
    Conn → ℕ → Option Text → Text → Accounts → Result Text × Accounts
regenerate_request_key c now none id a = (err driver, a)
regenerate_request_key down now (some random) id a = (err driver, a)
regenerate_request_key up now (some random) id a =
    let new_key = request_key_of random in
    if key_taken new_key id a.users
    then (err duplicate, a)
    else change_user id new_key (λ u. record u { request_key = new_key; updated_at = unix now }) a

-- UpdateDisplayName
unfoldable pub update_display_name :
    Conn → ℕ → Text → Text → Accounts → Result (Unit {0}) × Accounts
update_display_name c now id name a =
    if ltb 100 (length name) then (err display_name_too_long, a) else elim c [
      | down ↦ (err driver, a)
      | up ↦ change_user id tt (λ u. record u { display_name = name; updated_at = unix now }) a
    ]

-- UpdateAllowedIPs
unfoldable pub update_allowed_ips :
    Net → Conn → ℕ → Text → List Text → Accounts → Result (List Text) × Accounts
update_allowed_ips net c now id ips a = elim (normalize_allowed_ips net ips) [
  | AllowedIps.err e ↦ (err invalid_allowed_ips, a)
  | AllowedIps.ok l ↦ elim c [
    | down ↦ (err driver, a)
    | up ↦
        change_user id l
          (λ u. record u { allowed_ips = print_allowed_ips l; updated_at = unix now }) a
  ]
]

abbrev pub next_epoch : ℕ → UserRow → UserRow
next_epoch now u = record u { wrapped_key_epoch = u.wrapped_key_epoch + 1; updated_at = now }

-- The epoch that the UPDATE returns, or ErrUserNotFound.
abbrev pub epoch_or_not_found : Option UserRow → Result ℕ
epoch_or_not_found none = err user_not_found
epoch_or_not_found (some u) = ok u.wrapped_key_epoch

-- AdvanceWrappedKeyEpoch
unfoldable pub advance_wrapped_key_epoch : Conn → ℕ → Text → Accounts → Result ℕ × Accounts
advance_wrapped_key_epoch down now id a = (err driver, a)
advance_wrapped_key_epoch up now id a =
    let hit = λ (u : UserRow). same u.id id && is_set_up u in
    (
      epoch_or_not_found (first (map (next_epoch (unix now)) (select hit a.users))),
      record a { users = update hit (next_epoch (unix now)) a.users },
    )

-- `ready = false AND created_at < $2`, a day and ten minutes behind the clock
abbrev pub is_abandoned : ℕ → UserRow → Bool
is_abandoned now u = not u.ready && ltb u.created_at (unix now - 87000)

-- DeleteNonreadyUser, and the ON DELETE CASCADE of the credentials.
unfoldable pub delete_nonready_user : Conn → Text → ℕ → Accounts → Result (Unit {0}) × Accounts
delete_nonready_user down id now a = (err driver, a)
delete_nonready_user up id now a =
    let hit = λ (u : UserRow). same u.id id && is_abandoned now u in
    let gone = select hit a.users in
    (
      ok tt,
      record {
        users = delete hit a.users;
        credentials =
            delete (λ c. exists_row (λ (u : UserRow). same u.id c.user_id) gone) a.credentials;
      },
    )
