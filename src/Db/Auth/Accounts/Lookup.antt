-- ===== src/Db/Auth/Accounts/Lookup.antt =====
-- What GetUserByID finds (internal/db/auth.go).
use revaulter.Base.{Text, same, text_eq, ◌≡◌, refl, sym, ap, ◌∙◌, Option, some, [], ◌∷◌, arith}
use revaulter.Sql.{Conn, up, down, select, first}
use revaulter.Sql.Keyed
use revaulter.Db.Auth.Types.{ok, err, driver}
use revaulter.Db.Auth.Accounts.{UserRow, Users, Accounts, by_id, get_user, find_user}

first_by_id : (id : Text) (us : Users) → first (select (λ u. same u.id id) us) ≡ find_user id us
unfolding select first Keyed.find
first_by_id id [] = refl
first_by_id id (u ∷ us) = ground (arith, first_by_id id us)

pub by_id-find : (id : Text) (a : Accounts) → get_user up by_id id a ≡ ok (find_user id a.users)
unfolding get_user
by_id-find id a = ap ok (first_by_id id a.users)

pub got_user :
    (conn : Conn) (id : Text) (a : Accounts) (u : UserRow)
    → get_user conn by_id id a ≡ ok (some u)
    → (conn ≡ up) × (find_user id a.users ≡ some u)
got_user down id a u e =
    let x : get_user down by_id id a ≡ err driver = unfold get_user in refl in absurd (cc)
got_user up id a u e = (refl, ok_inj (sym (by_id-find id a) ∙ e))
  where
    ok_inj : {o p : Option UserRow} → ok o ≡ ok p → o ≡ p
    ok_inj q = cc
