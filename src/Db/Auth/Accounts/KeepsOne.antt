-- ===== src/Db/Auth/Accounts/KeepsOne.antt =====
-- DeleteCredential never takes a user's last credential, whoever asks and whatever fails.
use revaulter.Base.{
  ◌≤◌, Text, text_eq, same, same_iff, ◌≡◌, refl, true, ◌&&◌, ltb, some, List, [], ◌∷◌, arith,
  Bool-cases, Option-cases, inl, inr,
}
use revaulter.Sql.{Conn, up, down, select, delete, count, keep_if}
use revaulter.Sql.Keyed
use revaulter.Sql.Rows.{count-delete, count_apart}
use revaulter.Db.Auth.Accounts.{CredentialRow, Accounts, credential_key, find_credential, owned}
use revaulter.Db.Auth.Accounts.Passkeys.{
  Backend, postgres, sqlite, other, delete_credential, is_target, delete_credential_postgres,
  delete_credential_sqlite,
}
use revaulter.Db.Auth.Accounts.LastCredential.{
  remove_credential, some_or_none, one, delete_credential_refines,
}

-- The rule leaves a user who had a credential at least one.
remove_keeps_one :
    (id user who : Text) (a : Accounts)
    → Keyed.Distinct credential_key a.credentials
    → 1 ≤ count (owned who) a.credentials
    → 1 ≤ count (owned who) (remove_credential id user a).1.credentials
unfolding remove_credential
remove_keeps_one id user who a d h =
    elim (Option-cases (keep_if (owned user) (find_credential id a.credentials))) [
      | inl e ↦ rw (remove_credential, e) h
      | inr (c, e) ↦ elim (Bool-cases (ltb 1 (count (owned user) a.credentials))) [
        | inl q ↦ rw (remove_credential, e, q) (left c e q)
        | inr q ↦ rw (remove_credential, e, q) h
      ]
    ]
  where
    left :
        (c : CredentialRow)
        → keep_if (owned user) (find_credential id a.credentials) ≡ some c
        → ltb 1 (count (owned user) a.credentials) ≡ true
        → 1 ≤ count (owned who) (delete (is_target id user) a.credentials)
    left c e q = elim (Bool-cases (same user who)) [
      | inl w ↦ ground (
        arith,
        same_iff user who,
        count-delete (owned who) (is_target id user) a.credentials,
        one id user a d c e,
      )
      | inr w ↦
          rw
            (count_apart (owned who) (is_target id user) a.credentials (λ r t.
              ground (arith, same_iff r.user_id user, same_iff r.user_id who, same_iff user who)))
            h
    ]

postgres_down : (id user : Text) (a : Accounts) → (delete_credential_postgres down id user a).1 ≡ a
unfolding delete_credential_postgres
postgres_down id user a = refl

sqlite_down :
    (c : Conn) (id user : Text) (a : Accounts)
    → (delete_credential_sqlite down c (λ x. x) id user a).1 ≡ a
unfolding delete_credential_sqlite
sqlite_down c id user a = refl

postgres_keeps_one :
    (c : Conn) (id user who : Text) (a : Accounts)
    → Keyed.Distinct credential_key a.credentials
    → 1 ≤ count (owned who) a.credentials
    → 1 ≤ count (owned who) (delete_credential_postgres c id user a).1.credentials
postgres_keeps_one down id user who a d h = rw (postgres_down id user a) h
postgres_keeps_one up id user who a d h =
    rw ((delete_credential_refines id user a d).0) (remove_keeps_one id user who a d h)

some_or_none_after :
    {A B C : Type 0} (l : List A) (x : B × C) (r r' : B) (a : C)
    → (some_or_none l x (r, a)).1 ≡ (some_or_none l x (r', a)).1
unfolding some_or_none
some_or_none_after [] x r r' a = refl
some_or_none_after (c ∷ cs) x r r' a = refl

-- The second statement only tells the errors apart.
sqlite_diagnosis :
    (c : Conn) (id user : Text) (a : Accounts)
    → (delete_credential_sqlite up c (λ x. x) id user a).1
      ≡ (delete_credential_sqlite up up (λ x. x) id user a).1
unfolding delete_credential_sqlite some_or_none
sqlite_diagnosis c id user a =
    some_or_none_after
      (select (λ x. is_target id user x && ltb 1 (count (owned user) a.credentials)) a.credentials)
      _ _ _ a

sqlite_keeps_one :
    (c₁ c₂ : Conn) (id user who : Text) (a : Accounts)
    → Keyed.Distinct credential_key a.credentials
    → 1 ≤ count (owned who) a.credentials
    → 1 ≤ count (owned who) (delete_credential_sqlite c₁ c₂ (λ x. x) id user a).1.credentials
sqlite_keeps_one down c₂ id user who a d h = rw (sqlite_down c₂ id user a) h
sqlite_keeps_one up c₂ id user who a d h =
    rw (sqlite_diagnosis c₂ id user a, (delete_credential_refines id user a d).1)
      (remove_keeps_one id user who a d h)

-- No DeleteCredential, on either backend, leaves a user without credentials who had one.
pub delete_credential_keeps_one :
    (b : Backend) (c₁ c₂ : Conn) (id user who : Text) (a : Accounts)
    → Keyed.Distinct credential_key a.credentials
    → 1 ≤ count (owned who) a.credentials
    → 1 ≤ count (owned who) (delete_credential b c₁ c₂ (λ x. x) id user a).1.credentials
unfolding delete_credential
delete_credential_keeps_one postgres c₁ c₂ id user who a d h =
    postgres_keeps_one c₁ id user who a d h
delete_credential_keeps_one sqlite c₁ c₂ id user who a d h =
    sqlite_keeps_one c₁ c₂ id user who a d h
delete_credential_keeps_one other c₁ c₂ id user who a d h = h
