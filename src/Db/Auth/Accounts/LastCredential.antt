-- ===== src/Db/Auth/Accounts/LastCredential.antt =====
-- DeleteCredential: both backends implement one rule, which never takes a user's last credential.
use revaulter.Base.{
  Text, text_eq, same, ◌≡◌, refl, sym, ap, ◌∙◌, Bool, true, false, ◌&&◌, ltb, leb, none, some, List,
  [], ◌∷◌, length, arith, Bool-cases, Option-cases, inl, inr, if◌then◌else◌,
}
use revaulter.Sql.{up, select, delete, count, first, keep_if}
use revaulter.Sql.Keyed
use revaulter.Sql.Rows.{
  count-select, select-select, count_within, first-none, delete_nothing, select_narrower,
}
use revaulter.Db.Auth.Types.{Result, ok, err, credential_not_found, last_credential}
use revaulter.Db.Auth.Accounts.{
  CredentialRow, Credentials, Accounts, credential_key, find_credential, exists_row, owned,
}
use revaulter.Db.Auth.Accounts.Passkeys.{
  outcome, diagnose, is_target, delete_credential_postgres, delete_credential_sqlite,
}

-- The rule: a credential that is not the user's is not found, the last one stays, and any other
-- one is deleted.
unfoldable pub remove_credential : Text → Text → Accounts → Result (Unit {0}) × Accounts
remove_credential id user a = elim (keep_if (owned user) (find_credential id a.credentials)) [
  | none ↦ (err credential_not_found, a)
  | some c ↦
      if ltb 1 (count (owned user) a.credentials)
      then (ok tt, record a { credentials = delete (is_target id user) a.credentials })
      else (err last_credential, a)
]

exists_first :
    {A : Type 0} (l : List A) (a : A)
    → first l ≡ some a
    → elim l as (λ _. Bool) [ [] ↦ false | r ∷ rs ↦ true ] ≡ true
unfolding first
exists_first [] a e = cc
exists_first (r ∷ l) a e = refl

-- Whether a statement returned a row.
unfoldable pub some_or_none {ℓ} : {A : Type 0} {B : Type ℓ} → List A → B → B → B
some_or_none l x y = elim l [ [] ↦ y | r ∷ rs ↦ x ]

some_or_none-first {ℓ} :
    {A : Type 0} {B : Type ℓ} (l : List A) (a : A) (x y : B)
    → first l ≡ some a
    → some_or_none l x y ≡ x
unfolding first some_or_none
some_or_none-first [] a x y e = cc
some_or_none-first (r ∷ l) a x y e = refl

and_true : (b : Bool) → (b && true) ≡ b
and_true true = refl
and_true false = refl

module _ (id user : Text) (a : Accounts) (d : Keyed.Distinct credential_key a.credentials) where
  found :
      first (select (is_target id user) a.credentials)
      ≡ keep_if (owned user) (find_credential id a.credentials)
  found = Keyed.first-select credential_key (owned user) id a.credentials d

  targets :
      count (λ x. same x.id id) (select (owned user) a.credentials)
      ≡ elim (keep_if (owned user) (find_credential id a.credentials)) [ none ↦ 0 | some c ↦ 1 ]
  targets =
      count_within (λ (x : CredentialRow). same x.id id) (owned user) a.credentials
      ∙ Keyed.count_at credential_key (owned user) id a.credentials d

  -- A WHERE that asks for the credential and more.
  narrow : Bool → CredentialRow → Bool
  narrow b c = is_target id user c && b

  narrow-true : narrow true ≡ is_target id user
  unfolding narrow
  narrow-true = λ i c. and_true (is_target id user c) i

  narrow_nothing :
      (b : Bool)
      → select (is_target id user) a.credentials ≡ []
      → select (narrow b) a.credentials ≡ []
  unfolding narrow
  narrow_nothing b e =
      select_narrower (narrow b) (is_target id user) a.credentials (λ r h. ground arith) e

  narrow-false : select (narrow false) a.credentials ≡ []
  unfolding narrow select
  narrow-false = none_of a.credentials
    where
      none_of : (cs : Credentials) → select (narrow false) cs ≡ []
      none_of [] = refl
      none_of (c ∷ cs) = ground (arith, none_of cs)

  count_nothing :
      (p : CredentialRow → Bool) → select p a.credentials ≡ [] → count p a.credentials ≡ 0
  count_nothing p e = sym (count-select p a.credentials) ∙ ap length e

  mine : Credentials
  mine = select (owned user) a.credentials

  -- What deleteCredentialPostgres asks for beside the credential.
  may_delete : Bool
  may_delete = ltb 1 (length mine) && exists_row (λ x. same x.id id) mine

  postgres_form : delete_credential_postgres up id user a ≡ (
    outcome
        (length mine)
        (count (λ x. same x.id id) mine)
        (count (narrow may_delete) a.credentials),
    record a { credentials = delete (narrow may_delete) a.credentials },
  )
  unfolding delete_credential_postgres narrow mine may_delete
  postgres_form = refl

  sqlite_form :
      delete_credential_sqlite up up (λ x. x) id user a
      ≡ some_or_none
          (select (narrow (ltb 1 (count (owned user) a.credentials))) a.credentials)
          (
            ok tt,
            record a {
              credentials =
                  delete (narrow (ltb 1 (count (owned user) a.credentials))) a.credentials;
            },
          )
          (diagnose up id mine, a)
  unfolding delete_credential_sqlite narrow mine some_or_none
  sqlite_form = refl

  -- No credential of that id is the user's.
  missing :
      keep_if (owned user) (find_credential id a.credentials) ≡ none
      → delete_credential_postgres up id user a ≡ (err credential_not_found, a)
  unfolding mine
  missing e =
      let none_hit = narrow_nothing may_delete (first-none _ (found ∙ e)) in
      postgres_form
      ∙ rw (
        targets,
        e,
        count_nothing (narrow may_delete) none_hit,
        delete_nothing (narrow may_delete) a.credentials none_hit,
      )

  sqlite_missing :
      keep_if (owned user) (find_credential id a.credentials) ≡ none
      → delete_credential_sqlite up up (λ x. x) id user a ≡ (err credential_not_found, a)
  unfolding mine some_or_none
  sqlite_missing e =
      let none_hit =
        narrow_nothing (ltb 1 (count (owned user) a.credentials)) (first-none _ (found ∙ e)) in
      sqlite_form ∙ rw (none_hit, targets, e)

  -- The user has a credential of that id.
  module _ (c : CredentialRow)
      (e : keep_if (owned user) (find_credential id a.credentials) ≡ some c) where
    total : length mine ≡ count (owned user) a.credentials
    unfolding mine
    total = count-select (owned user) a.credentials

    present : exists_row (λ x. same x.id id) mine ≡ true
    unfolding mine
    present = exists_first _ c (
        ap first (select-select (λ (x : CredentialRow). same x.id id) (owned user) a.credentials)
        ∙ found
        ∙ e)

    may_delete_test : may_delete ≡ ltb 1 (count (owned user) a.credentials)
    unfolding may_delete
    may_delete_test = rw (present, total) (and_true (ltb 1 (count (owned user) a.credentials)))

    pub one : count (is_target id user) a.credentials ≡ 1
    one =
        Keyed.count_at credential_key (owned user) id a.credentials d
        ∙ ap (λ o. elim o [ none ↦ 0 | some c ↦ 1 ]) e

    postgres_several :
        ltb 1 (count (owned user) a.credentials) ≡ true
        → delete_credential_postgres up id user a
          ≡ (ok tt, record a { credentials = delete (is_target id user) a.credentials })
    postgres_several q = postgres_form ∙ rw (may_delete_test, q, narrow-true, one)

    postgres_last :
        ltb 1 (count (owned user) a.credentials) ≡ false
        → delete_credential_postgres up id user a ≡ (err last_credential, a)
    unfolding mine
    postgres_last q =
        let small : leb (length mine) 1 ≡ true = rw total (ground arith) in
        postgres_form
        ∙ rw (
          may_delete_test,
          q,
          targets,
          e,
          count_nothing (narrow false) narrow-false,
          delete_nothing (narrow false) a.credentials narrow-false,
          small,
        )

    sqlite_several :
        ltb 1 (count (owned user) a.credentials) ≡ true
        → delete_credential_sqlite up up (λ x. x) id user a
          ≡ (ok tt, record a { credentials = delete (is_target id user) a.credentials })
    sqlite_several q =
        sqlite_form
        ∙ rw (q, narrow-true)
            (some_or_none-first (select (is_target id user) a.credentials) c _ _ (found ∙ e))

    sqlite_last :
        ltb 1 (count (owned user) a.credentials) ≡ false
        → delete_credential_sqlite up up (λ x. x) id user a ≡ (err last_credential, a)
    unfolding some_or_none mine
    sqlite_last q = sqlite_form ∙ rw (q, narrow-false, targets, e)

-- With distinct primary keys, and no other writer between the two statements of the SQLite form,
-- both deleteCredentialPostgres and deleteCredentialSQLite implement the one rule: what is not the
-- user's is not found, the last credential stays, any other one is deleted.
pub delete_credential_refines :
    (id user : Text) (a : Accounts)
    → Keyed.Distinct credential_key a.credentials
    → (delete_credential_postgres up id user a ≡ remove_credential id user a)
      × (delete_credential_sqlite up up (λ x. x) id user a ≡ remove_credential id user a)
unfolding remove_credential
delete_credential_refines id user a d =
    elim (Option-cases (keep_if (owned user) (find_credential id a.credentials))) [
      | inl e ↦ (
        missing id user a d e ∙ rw (remove_credential, e),
        sqlite_missing id user a d e ∙ rw (remove_credential, e),
      )
      | inr (c, e) ↦ elim (Bool-cases (ltb 1 (count (owned user) a.credentials))) [
        | inl q ↦ (
          postgres_several id user a d c e q ∙ rw (remove_credential, e, q),
          sqlite_several id user a d c e q ∙ rw (remove_credential, e, q),
        )
        | inr q ↦ (
          postgres_last id user a d c e q ∙ rw (remove_credential, e, q),
          sqlite_last id user a d c e q ∙ rw (remove_credential, e, q),
        )
      ]
    ]
