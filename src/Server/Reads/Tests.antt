-- ===== src/Server/Reads/Tests.antt =====
-- Reads that are refused.
use revaulter.Base.{bytes, ◌≡◌, refl, none, some, []}
use revaulter.Sql.{up}
use revaulter.Server.Sample.{user, requests, now}
use revaulter.Server.Reads.{
  error, internal, unauthenticated, route_v2_api_list, route_v2_request_pubkey,
  route_v2_request_signing_pubkey,
}

no_session : (route_v2_api_list up up now [] requests).0 ≡ unauthenticated
unfolding route_v2_api_list
no_session = refl

no_encryption_key :
    route_v2_request_pubkey (some (user (bytes "alice")))
    ≡ error 409 (bytes "User has not configured request encryption key")
unfolding route_v2_request_pubkey
no_encryption_key = refl

no_label :
    route_v2_request_signing_pubkey up (some (user (bytes "alice"))) [] [] []
    ≡ error 400 (bytes "missing query parameter 'label'")
unfolding route_v2_request_signing_pubkey
no_label = refl

no_user : route_v2_request_signing_pubkey up none (bytes "disk") [] [] ≡ internal
unfolding route_v2_request_signing_pubkey
no_user = refl
