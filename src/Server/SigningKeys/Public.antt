-- ===== src/Server/SigningKeys/Public.antt =====
-- RouteV2SigningKeyPublic (internal/server/routes-signing-keys.go), which anyone may call.
pub mod Shown
pub mod Exact
use revaulter.Base.{
  ℕ, Text, bytes, same, is_empty, Bool, ◌||◌, Option, none, some, [], ◌∷◌, ◌==◌, if◌then◌else◌,
}
use revaulter.Base.Results.{Result, ok, err}
use revaulter.Sql.{Conn}
use revaulter.Db.SigningKeys
use revaulter.Db.SigningKeys.{SigningKey, get_published_by_id}
use revaulter.Db.Auth.Types as Auth
use revaulter.Db.Auth.Accounts.{UserRow, by_id, get_user}
use revaulter.Server.State.{Tables, execute_in_transaction}

-- strings.LastIndexByte, and the texts before and after
unfoldable pub last_cut : ℕ → Text → Option (Text × Text)
last_cut sep [] = none
last_cut sep (c ∷ s) = elim (last_cut sep s) [
  | some (a, b) ↦ some (c ∷ a, b)
  | none ↦ if c == sep then some ([], s) else none
]

-- What the route answers: the PEM, or the key with its proof and its owner's anchor keys.
pub data Served : Type 0 where
  absent broken : Served
  pem : SigningKey → Served
  jwk : SigningKey → UserRow → Served

-- The statements' answers: the key, its owner and the commit
pub record Reads : Type 0 where
  pub key : Conn
  pub owner : Conn
  pub commit : Conn

abbrev pub pem_of : SigningKeys.Result (Option SigningKey) → Served
pem_of (SigningKeys.err e) = broken
pem_of (SigningKeys.ok none) = absent
pem_of (SigningKeys.ok (some k)) = pem k

abbrev pub with_owner :
    SigningKey → Auth.Result (Option UserRow) → Result Served (SigningKey × UserRow)
with_owner k (Auth.err e) = err broken
with_owner k (Auth.ok none) = err absent
with_owner k (Auth.ok (some u)) = ok (k, u)

-- The function that runs in the transaction
abbrev pub public_data :
    Reads → Tables → SigningKeys.Result (Option SigningKey) → Result Served (SigningKey × UserRow)
public_data r t (SigningKeys.err e) = err broken
public_data r t (SigningKeys.ok none) = err absent
public_data r t (SigningKeys.ok (some k)) =
    with_owner k (get_user r.owner by_id k.user_id t.accounts)

abbrev pub jwk_of : Result Served (SigningKey × UserRow) × Tables → Served
jwk_of (err e, t) = e
jwk_of (ok (k, u), t) = jwk k u

abbrev pub is_pem : Text → Bool
is_pem ext = same ext (bytes "pem") || same ext (bytes "pub")

abbrev pub is_jwk : Text → Bool
is_jwk ext = same ext (bytes "jwk") || same ext (bytes "json")

abbrev pub served : Reads → Tables → Option (Text × Text) → Served
served r t none = absent
served r t (some (id, ext)) =
    if is_empty id || is_empty ext
    then absent
    else if is_jwk ext
    then jwk_of (
        execute_in_transaction r.commit broken t
          (public_data r t (get_published_by_id r.key id t.signing_keys), t))
    else if is_pem ext
    then pem_of (get_published_by_id r.key id t.signing_keys)
    else absent

-- RouteV2SigningKeyPublic
unfoldable pub signing_key_public : Reads → Text → Tables → Served
signing_key_public r filename t = served r t (last_cut b'.' filename)
