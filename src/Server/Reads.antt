-- ===== src/Server/Reads.antt =====
-- The routes that only read: RouteV2APIList and RouteV2APIRequestGet (internal/server/routes-api.go),
-- RouteV2RequestPubkey and RouteV2RequestSigningPubkey (routes-request.go), RouteV2APIAuditEvents
-- (routes-audit.go).
mod Tests
use revaulter.Base.{
  ℕ, ℤ, pos, Text, bytes, same, is_empty, Bool, true, false, ◌&&◌, ◌||◌, not, Option, none, some,
  List, if◌then◌else◌,
}
use revaulter.Sql.{Conn}
use revaulter.Json.{Codec}
use revaulter.Protocol.Envelope.{ResponseEnvelope}
use revaulter.Protocol.Labels.{normalize_key_label}
use revaulter.Protocol.Algorithms.{normalize_signing_algorithm}
use revaulter.Db.Requests
use revaulter.Db.Requests.{RequestListItem, RequestRecord, list_pending}
use revaulter.Db.SigningKeys
use revaulter.Db.SigningKeys.{SigningKey, get_by_user_and_label}
use revaulter.Db.Audit
use revaulter.Db.Audit.{AuditEvent, AuditFilter, AuditLog, invalid_cursor, is_event_type, list}
use revaulter.Db.Auth.Accounts.{UserRow}
use revaulter.Server.Result.{Read, perform_read}

-- What a read answers: an error with its status, an internal error, or what it found.
pub data Found {ℓ} (A : Type ℓ) : Type ℓ where
  error : ℕ → Text → Found A
  internal : Found A
  found : A → Found A

abbrev pub unauthenticated {ℓ} : {A : Type ℓ} → Found A
unauthenticated = error 401 (bytes "Unauthenticated")

abbrev pub of_list : Requests.Result (List RequestListItem) → Found (List RequestListItem)
of_list (Requests.ok l) = found l
of_list (Requests.err e) = internal

-- RouteV2APIList, where the stream is not asked for; ListPending expires what is overdue.
unfoldable pub route_v2_api_list :
    Conn → Conn → ℕ → Text → Requests.Requests → Found (List RequestListItem) × Requests.Requests
route_v2_api_list c c' now user t =
    if is_empty user
    then (unauthenticated, t)
    else let r = list_pending c c' now user t in (of_list r.0, r.1)

abbrev pub only_own : Text → Requests.Result (Option RequestRecord) → Found RequestRecord
only_own user (Requests.err e) = internal
only_own user (Requests.ok none) = error 400 (bytes "State not found or expired")
only_own user (Requests.ok (some rec)) =
    if not (same user rec.user_id)
    then error 400 (bytes "State not found or expired")
    else found rec

-- RouteV2APIRequestGet
unfoldable pub route_v2_api_request_get :
    Codec ResponseEnvelope
    → Read
    → Text
    → Text
    → Requests.Requests
    → Found RequestRecord × Requests.Requests
route_v2_api_request_get codec r user state t =
    if is_empty user
    then (unauthenticated, t)
    else let x = perform_read codec r state t in (only_own user x.0, x.1)

-- RouteV2RequestPubkey: the columns of the user's row that it answers with
unfoldable pub route_v2_request_pubkey : Option UserRow → Found UserRow
route_v2_request_pubkey none = internal
route_v2_request_pubkey (some u) =
    if is_empty u.request_enc_ecdh_pubkey || is_empty u.request_enc_mlkem_pubkey
    then error 409 (bytes "User has not configured request encryption key")
    else found u

abbrev pub of_key : SigningKeys.Result (Option SigningKey) → Found SigningKey
of_key (SigningKeys.err e) = internal
of_key (SigningKeys.ok none) =
    error 404 (bytes "signing key not found; perform a sign operation first to register the key")
of_key (SigningKeys.ok (some k)) = found k

abbrev pub default_algorithm : Text → Option Text
default_algorithm alg =
    if is_empty alg then some (bytes "ES256") else normalize_signing_algorithm alg

abbrev pub key_of_label :
    Conn → UserRow → Option Text → Option Text → SigningKeys.SigningKeys → Found SigningKey
key_of_label c u none alg t = error 400 (bytes "invalid label")
key_of_label c u (some label) none t = error 400 (bytes "unsupported algorithm")
key_of_label c u (some label) (some alg) t = of_key (get_by_user_and_label c u.id alg label t)

-- RouteV2RequestSigningPubkey, on the two query parameters
unfoldable pub route_v2_request_signing_pubkey :
    Conn → Option UserRow → Text → Text → SigningKeys.SigningKeys → Found SigningKey
route_v2_request_signing_pubkey c none label alg t = internal
route_v2_request_signing_pubkey c (some u) label alg t =
    if is_empty label
    then error 400 (bytes "missing query parameter 'label'")
    else key_of_label c u (normalize_key_label label) (default_algorithm alg) t

abbrev pub own_filter : Text → Text → AuditFilter
own_filter user event_type = record {
  user_id = user;
  system = false;
  event_type = event_type;
  since_unix = pos 0;
  until_unix = pos 0;
}

abbrev pub of_page : Audit.Result (List AuditEvent × Text) → Found (List AuditEvent × Text)
of_page (Audit.ok page) = found page
of_page (Audit.err invalid_cursor) = error 400 (bytes "invalid cursor")
of_page (Audit.err _) = internal

-- RouteV2APIAuditEvents, on uuid.Parse and the two query parameters
unfoldable pub route_v2_api_audit_events :
    (Text → Option (List ℕ)) → Conn → Text → Text → Text → AuditLog → Found (List AuditEvent × Text)
route_v2_api_audit_events parse c user event_type cursor t =
    if is_empty user
    then unauthenticated
    else if not (is_empty event_type) && not (is_event_type event_type)
    then error 400 (bytes "invalid eventType")
    else of_page (list parse c (own_filter user event_type) (pos 50) cursor t)
