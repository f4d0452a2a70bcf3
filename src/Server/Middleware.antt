-- ===== src/Server/Middleware.antt =====
-- MiddlewareSession and MiddlewareRequestKey (internal/server/middleware-auth.go), with
-- parseAuthSessionToken (session_jwt.go) and clientIPAllowed (util-ipallowlist.go).
pub mod Keyed
mod Tests
use revaulter.Base.{
  ℕ, ◌-◌, ◌/◌, ◌+◌, Text, bytes, same, is_empty, length, take, drop, Bool, true, false, ◌&&◌, ◌||◌,
  not, Option, none, some, List, [], ◌∷◌, leb, ltb, if◌then◌else◌,
}
use revaulter.Sql.{Conn}
use revaulter.Time.{second}
use revaulter.Db.Auth.Types as Auth
use revaulter.Db.Auth.Accounts.{Accounts, UserRow, by_request_key, get_user}
use revaulter.Db.Auth.AllowedIps.{parse_allowed_ips_csv}
use revaulter.Server.AuditTrail.{Context}

-- strings.ToLower, of the seven bytes that are compared: an ASCII letter is folded, and no other byte
-- is made one of `bearer `.
abbrev pub fold_byte : ℕ → ℕ
fold_byte c = if leb 65 c && leb c 90 then c + 32 else c

unfoldable pub fold : Text → Text
fold [] = []
fold (c ∷ s) = fold_byte c ∷ fold s

-- getBearerToken, of the Authorization header
unfoldable pub get_bearer_token : Text → Text
get_bearer_token h =
    if ltb 7 (length h) && same (fold (take 7 h)) (bytes "bearer ") then drop 7 h else []

-- The claims of a token that the JWT library has verified, each of which may be missing.
pub record Claims : Type 0 where
  pub user_id : Option Text
  pub display_name : Option Text
  pub ready : Option Bool
  pub expires_at : Option ℕ

-- authSessionToken
pub record SessionToken : Type 0 where
  pub user_id : Text
  pub display_name : Text
  pub ready : Bool
  pub expires_at : ℕ

infixl 5 ◌>>=◌
abbrev pub ◌>>=◌ {ℓ κ} : {A : Type ℓ} {B : Type κ} → Option A → (A → Option B) → Option B
none >>= f = none
some a >>= f = f a

-- parseAuthSessionToken, on jwt.ParseString
unfoldable pub parse_session : (Text → Option Claims) → Text → Option SessionToken
parse_session verify token = do
  claims ← verify token
  user ← claims.user_id
  name ← claims.display_name
  ready ← claims.ready
  expires ← claims.expires_at
  some (record { user_id = user; display_name = name; ready = ready; expires_at = expires })

-- What a middleware answers: an error with its status, an internal error, or the context for the
-- handler.
pub data Passed {ℓ} (A : Type ℓ) : Type ℓ where
  error : ℕ → Text → Passed A
  internal : Passed A
  passed : A → Passed A

abbrev pub with_session : Bool → ℕ → Context → Option SessionToken → Passed (Context × ℕ)
with_session require_ready now c none = error 401 (bytes "User session is invalid or expired")
with_session require_ready now c (some sess) =
    if require_ready && not sess.ready
    then error 403 (bytes "User account setup is not complete")
    else passed (record c { user_id = sess.user_id }, (sess.expires_at - now) / second)

-- MiddlewareSession, on the header and the cookie: the context, and the session's remaining seconds
unfoldable pub middleware_session :
    (Text → Option Claims) → Bool → ℕ → Text → Option Text → Context → Passed (Context × ℕ)
middleware_session verify require_ready now header cookie c =
    let bearer = get_bearer_token header in
    if not (is_empty bearer)
    then with_session require_ready now c (parse_session verify bearer)
    else elim cookie [
      | none ↦ error 401 (bytes "User is not authenticated")
      | some token ↦
          if is_empty token
          then error 401 (bytes "User is not authenticated")
          else with_session require_ready now c (parse_session verify token)
    ]

-- What package net says of an entry and an address that it can parse: whether the entry is a network,
-- and has the address in it; whether it is the address.
pub record Addresses : Type 0 where
  pub is_ip : Text → Bool
  pub is_network : Text → Bool
  pub contains : Text → Text → Bool
  pub is_equal : Text → Text → Bool

module _ (net : Addresses) where
  abbrev pub is_match : Text → Text → Bool
  is_match ip entry =
      if net.is_network entry
      then net.contains entry ip
      else net.is_ip entry && net.is_equal entry ip

  abbrev pub any_match : Text → List Text → Bool
  any_match ip [] = false
  any_match ip (entry ∷ entries) = is_match ip entry || any_match ip entries

  -- clientIPAllowed
  unfoldable pub client_ip_allowed : Text → List Text → Bool
  client_ip_allowed ip [] = true
  client_ip_allowed ip (entry ∷ entries) = net.is_ip ip && any_match ip (entry ∷ entries)

  abbrev pub with_user : Context → Auth.Result (Option UserRow) → Passed Context
  with_user c (Auth.err e) = internal
  with_user c (Auth.ok none) = error 404 (bytes "Request key not found")
  with_user c (Auth.ok (some u)) =
      if not (same u.status (bytes "active"))
      then error 404 (bytes "Request key not found")
      else if not u.ready
      then error 412 (bytes "User account setup is not complete")
      else if not (client_ip_allowed c.client_ip (parse_allowed_ips_csv u.allowed_ips))
      then error 403 (bytes "This client's IP is not allowed to perform this request")
      else passed (record c { request_user = some u })

  -- MiddlewareRequestKey, on the header
  unfoldable pub middleware_request_key : Conn → Text → Accounts → Context → Passed Context
  middleware_request_key conn header a c =
      let key = get_bearer_token header in
      if is_empty key
      then error 401 (bytes "Missing request key")
      else with_user c (get_user conn by_request_key key a)
