-- ===== src/Server/Middleware/Tests.antt =====
-- Runs of the middlewares on alice's account, and the theorem at it.
use revaulter.Base.{
  Text, bytes, trim_space, same, is_empty, true, false, not, Option, some, [], ◌∷◌, ◌≡◌, ◌↔◌, ◌∙◌,
  sym, Has, here, there, refl,
}
use revaulter.Sql.{up, select, first}
use revaulter.Db.Auth.Accounts.{Accounts, UserRow, get_user}
use revaulter.Db.Auth.AllowedIps.{parse_allowed_ips_csv}
use revaulter.Server.AuditTrail.{Context}
use revaulter.Server.Sample.{user, session, request_key, now, deadline}
use revaulter.Server.Middleware.{
  fold, Claims, get_bearer_token, parse_session, error, passed, middleware_session, Addresses,
  client_ip_allowed, middleware_request_key,
}
use revaulter.Server.Middleware.Keyed.{IsBearer, OneEach, MayPass, request_key_exact}

-- Addresses compared as texts, with the networks that end in a star matching all.
abbrev net : Addresses
net = record {
  is_ip = λ s. not (is_empty s);
  is_network = λ s. same s (bytes "*");
  contains = λ s ip. true;
  is_equal = λ s ip. same s ip;
}

abbrev accounts : Accounts
accounts = record { users = user (bytes "alice") ∷ []; credentials = [] }

abbrev visitor : Context
visitor = record session { user_id = [] }

abbrev header : Text
header = bytes "Bearer abc"

bearer : get_bearer_token header ≡ bytes "abc"
unfolding get_bearer_token fold same
bearer = refl

no_bearer : get_bearer_token (bytes "Bearer ") ≡ []
unfolding get_bearer_token fold same
no_bearer = refl

abbrev verify : Text → Option Claims
verify s = some (record {
  user_id = some s;
  display_name = some (bytes "Alice");
  ready = some false;
  expires_at = some deadline;
})

not_ready :
    middleware_session verify true now [] (some (bytes "alice")) visitor
    ≡ error 403 (bytes "User account setup is not complete")
unfolding get_bearer_token fold middleware_session parse_session same
not_ready = refl

with_ttl :
    middleware_session verify false now [] (some (bytes "alice")) visitor ≡ passed (session, 240)
unfolding get_bearer_token fold middleware_session parse_session same
with_ttl = refl

not_allowed : client_ip_allowed net (bytes "10.0.0.1") (bytes "10.0.0.2" ∷ []) ≡ false
unfolding client_ip_allowed same
not_allowed = refl

admitted : middleware_request_key net up header accounts visitor ≡ passed request_key
unfolding get_bearer_token fold middleware_request_key get_user select first client_ip_allowed
    parse_allowed_ips_csv same trim_space
admitted = refl

one_each : OneEach accounts
one_each u v (here e) h k = only v h e
  where
    only : (v : UserRow) → Has v accounts.users → user (bytes "alice") ≡ u → u ≡ v
    only v (here f) e = sym e ∙ f
    only v (there h) e = elim h [ ]
one_each u v (there h) w k = elim h [ ]

request_key_exact_example :
    (middleware_request_key net up header accounts visitor ≡ passed request_key) ↔ (
      (up ≡ up)
      × (key : Text) × IsBearer header key
      × (u : UserRow) × MayPass net key visitor.client_ip accounts u
      × (request_key ≡ record visitor { request_user = some u }))
request_key_exact_example = request_key_exact net accounts one_each up header visitor request_key
