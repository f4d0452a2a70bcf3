-- ===== src/Db/Auth/Accounts/Restricted.antt =====
-- The addresses that a user allows are the ones that the middleware reads.
use mathlib.Core.Path.{subst}
use revaulter.Base.{
  ℕ, Text, text_eq, same, same_refl, ◌≡◌, refl, sym, ap, ◌∙◌, ◌⊎◌, inl, inr, true, ◌&&◌, some, List,
  [], ◌∷◌,
}
use revaulter.Sql.{up, select}
use revaulter.Sql.Keyed
use revaulter.Sql.Rows.{hit_or_miss, first-none}
use revaulter.Time.{unix}
use revaulter.Db.Auth.AllowedIps
use revaulter.Db.Auth.AllowedIps.{
  Net, IpError, canonical, normalize_allowed_ips, parse_allowed_ips_csv, print_allowed_ips,
}
use revaulter.Db.Auth.AllowedIps.Normal.{Prints, normalize_round_trip}
use revaulter.Db.Auth.Types.{Result, ok, err, user_not_found, invalid_allowed_ips}
use revaulter.Db.Auth.Accounts.{UserRow, Users, Accounts, find_user, user_key, is_set_up}
use revaulter.Db.Auth.Accounts.Settings.{change_user, update_allowed_ips}

-- A list that a statement answered with, by the row that the key finds.
answer-change :
    (id : Text) (l : List Text) (f : UserRow → UserRow) (a : Accounts)
    → Keyed.Distinct user_key a.users
    → (change_user id l f a).0 ≡ ok l
    → (u : UserRow) × (find_user id a.users ≡ some u) × (is_set_up u ≡ true)
answer-change id l f a d e = elim (hit_or_miss is_set_up (find_user id a.users)) [
  | inl hit ↦ hit
  | inr (n, _) ↦
      absurd (missed (first-none _ (Keyed.first-select user_key is_set_up id a.users d ∙ n)))
]
  where
    missed : select (λ u. same u.id id && is_set_up u) a.users ≡ [] → ⊥
    missed q = apart (
        sym (
          ap (λ m. elim m as (λ _. Result (List Text)) [ [] ↦ err user_not_found | u ∷ us ↦ ok l ])
            q)
        ∙ e)
      where
        apart : ◌≡◌ {A = Result (List Text)} (err user_not_found) (ok l) → ⊥
        apart y = cc

-- The answer of a change is the list that it was given.
answer-given :
    (id : Text) (k l : List Text) (f : UserRow → UserRow) (a : Accounts)
    → (change_user id k f a).0 ≡ ok l
    → k ≡ l
answer-given id k l f a e = given (select (λ u. same u.id id && is_set_up u) a.users) e
  where
    given :
        (us : Users)
        → elim us as (λ _. Result (List Text)) [ [] ↦ err user_not_found | u ∷ vs ↦ ok k ] ≡ ok l
        → k ≡ l
    given [] e = cc
    given (u ∷ vs) e = cc

normal_cases :
    (r : AllowedIps.Result (List Text))
    → ((e : IpError) × (r ≡ AllowedIps.err e)) ⊎ ((k : List Text) × (r ≡ AllowedIps.ok k))
normal_cases (AllowedIps.err e) = inl (e, refl)
normal_cases (AllowedIps.ok k) = inr (k, refl)

module _ (net : Net) (now : ℕ) (id : Text) (ips : List Text) (a : Accounts) where
  restrict : List Text → UserRow → UserRow
  restrict k u = record u { allowed_ips = print_allowed_ips k; updated_at = unix now }

  update-refused :
      (e : IpError)
      → normalize_allowed_ips net ips ≡ AllowedIps.err e
      → update_allowed_ips net up now id ips a ≡ (err invalid_allowed_ips, a)
  unfolding update_allowed_ips
  update-refused e n = rw (n, update_allowed_ips)

  update-normal :
      (k : List Text)
      → normalize_allowed_ips net ips ≡ AllowedIps.ok k
      → update_allowed_ips net up now id ips a ≡ change_user id k (restrict k) a
  unfolding update_allowed_ips restrict
  update-normal k n = rw (n, update_allowed_ips)

  find-restricted :
      (k : List Text) (u : UserRow)
      → Keyed.Distinct user_key a.users
      → find_user id a.users ≡ some u
      → is_set_up u ≡ true
      → find_user id (change_user id k (restrict k) a).1.users ≡ some (restrict k u)
  unfolding restrict
  find-restricted k u d found set_up =
      Keyed.find-update_at user_key is_set_up (restrict k) (λ u. refl) id id a.users
      ∙ rw (same_refl id, found, set_up)

  -- If net prints visible text without commas, and what it prints parses to itself: after an
  -- UpdateAllowedIPs that answered with a list, getUser reads exactly that list from the user's row,
  -- and the list is the normal form of what was asked for.
  pub allowed_ips_read_back :
      (l : List Text)
      → Prints net
      → ((s c : Text) → canonical net s ≡ AllowedIps.ok c → canonical net c ≡ AllowedIps.ok c)
      → Keyed.Distinct user_key a.users
      → (update_allowed_ips net up now id ips a).0 ≡ ok l
      → (normalize_allowed_ips net ips ≡ AllowedIps.ok l)
        × ((u : UserRow) × (find_user id (update_allowed_ips net up now id ips a).1.users ≡ some u)
            × (parse_allowed_ips_csv u.allowed_ips ≡ l))
  unfolding restrict
  allowed_ips_read_back l prints settles d done =
      elim (normal_cases (normalize_allowed_ips net ips)) [
        | inl (e, n) ↦ absurd (apart (sym (ap (λ m. m.0) (update-refused e n)) ∙ done))
        | inr (k, n) ↦
            let changed : (change_user id k (restrict k) a).0 ≡ ok l =
              sym (ap (λ m. m.0) (update-normal k n)) ∙ done in
            let q = answer-given id k l (restrict k) a changed in
            let (u, found, set_up) =
              answer-change id l (restrict k) a d
                (subst (λ m. (change_user id m (restrict k) a).0 ≡ ok l) q changed) in
            (
              n ∙ ap AllowedIps.ok q,
              (
                restrict k u,
                ap (λ m. find_user id m.1.users) (update-normal k n)
                    ∙ find-restricted k u d found set_up,
                (normalize_round_trip net prints settles ips k n).2 ∙ q,
              ),
            )
      ]
    where
      apart : ◌≡◌ {A = Result (List Text)} (err invalid_allowed_ips) (ok l) → ⊥
      apart y = cc
