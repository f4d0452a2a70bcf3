-- ===== src/Db/Requests/Tests.antt =====
-- Runs of RequestStore, and its theorems at concrete tables.
use revaulter.Base.{
  ℕ, ◌≤◌, bytes, same, ◌≡◌, refl, inr, false, none, some, List, [], ◌∷◌, arith, All, Has,
}
use revaulter.Sql.{up, down, select, first}
use revaulter.Sql.Keyed
use revaulter.Time.{unix}
use revaulter.Json.Sample.{codec}
use revaulter.Protocol.Envelope.{Jwk, ResponseEnvelope}
use revaulter.Db.Requests.{
  RequestRow, RequestListItem, Requests, CreateRequestInput, ok, err, not_modifiable, find,
  Distinct, item_of, set_result, record_of, row_of, create_request, list_pending, complete_request,
  cancel_request, get_request, get_and_delete_terminal_request, scan_required, scan_optional,
  get_request_raw, duplicate,
}
use revaulter.Db.Requests.Lifecycle.{
  creates, Evolves, History, run, run-Evolves, cancel, expire, cleanup, collect,
}
use revaulter.Db.Requests.Outcomes.{complete_exact, cancel_exact}
use revaulter.Db.Requests.Once.{confirm, reject, resolve, resolve_once, collect_complete}
use revaulter.Db.Requests.Reads.{get_request_fresh}
use revaulter.Db.Requests.Listing.{Ordered, Shown, list_pending_sound, list_pending_complete}

abbrev input : CreateRequestInput
input = record {
  state = bytes "s1";
  user_id = bytes "alice";
  operation = bytes "encrypt";
  requestor_ip = bytes "10.0.0.1";
  key_label = bytes "disk";
  algorithm = bytes "a256gcm";
  note = [];
  created_at = 1700000000000000000;
  expires_at = 1700000300000000000;
  encrypted_request = bytes "{}";
}

abbrev jwk : Jwk
jwk = record {
  kty = bytes "EC";
  crv = bytes "P-256";
  x = bytes "eA";
  y = bytes "eQ";
  d = [];
  kid = [];
  alg = [];
  key_use = [];
}

abbrev envelope : ResponseEnvelope
envelope = record {
  transport_alg = bytes "ecdh-p256+mlkem768+a256gcm";
  browser_ephemeral_public_key = jwk;
  mlkem_ciphertext = bytes "bQ";
  nonce = bytes "bg";
  ciphertext = bytes "Yw";
  result_type = [];
}

abbrev row : RequestRow
row = row_of input

abbrev table : Requests
table = row ∷ record row { state = bytes "s2"; user_id = bytes "bob" } ∷ []

table-Distinct : Distinct table
unfolding Keyed.find same
table-Distinct = (refl, (refl, tt))

-- A minute after its creation.
abbrev now : ℕ
now = 1700000060000000000

-- After its deadline.
abbrev late : ℕ
late = 1700000400000000000

create_twice : (create_request up input (create_request up input []).1).0 ≡ err duplicate
unfolding create_request Keyed.insert Keyed.find same
create_twice = refl

complete_run :
    (complete_request codec up now (bytes "s1") (bytes "alice") envelope table).0
    ≡ ok (record_of (set_result (unix now) (codec.marshal envelope) row) (some envelope))
unfolding complete_request scan_required codec Keyed.find same select first
complete_run = refl

complete_wrong_user :
    (complete_request codec up now (bytes "s1") (bytes "bob") envelope table).0 ≡ err not_modifiable
unfolding complete_request scan_required Keyed.find same select first
complete_wrong_user = refl

complete_late :
    (complete_request codec up late (bytes "s1") (bytes "alice") envelope table).0
    ≡ err not_modifiable
unfolding complete_request scan_required Keyed.find same select first
complete_late = refl

complete_exact_example :
    find (bytes "s2") (complete_request codec up now (bytes "s1") (bytes "alice") envelope table).1
    ≡ find (bytes "s2") table
unfolding same
complete_exact_example =
    (complete_exact codec now (bytes "s1") (bytes "s2") (bytes "alice") envelope table
      table-Distinct).1

cancel_exact_example :
    find (bytes "s2") (cancel_request codec up late (bytes "s1") (bytes "alice") table).1
    ≡ find (bytes "s2") table
unfolding same
cancel_exact_example =
    (cancel_exact codec late (bytes "s1") (bytes "s2") (bytes "alice") table table-Distinct).1

abbrev history : History
history =
    (up, cancel now (bytes "s1") (bytes "alice"))
    ∷ (down, expire late)
    ∷ (up, collect late (bytes "s2"))
    ∷ (up, cleanup late)
    ∷ []

no_creates : All (λ h. creates (bytes "s1") h.1 ≡ false) history
no_creates = (refl, (refl, (refl, (refl, tt))))

run-Evolves_example :
    Evolves (find (bytes "s1") table) (find (bytes "s1") (run codec history table))
run-Evolves_example = run-Evolves codec history table (bytes "s1") table-Distinct no_creates

resolve_once_example :
    (resolve codec reject late (bytes "s1") (bytes "alice") (
      run codec history
        (resolve codec (confirm envelope) now (bytes "s1") (bytes "alice") table).1)).0
    ≡ err not_modifiable
unfolding resolve
resolve_once_example =
    resolve_once codec (confirm envelope) reject now late (bytes "s1") (bytes "alice")
      (bytes "alice") table _ history table-Distinct complete_run no_creates

collect_complete_example :
    find
      (bytes "s1")
      (get_and_delete_terminal_request codec up late
        (bytes "s1")
        (complete_request codec up now (bytes "s1") (bytes "alice") envelope table).1).1
    ≡ none
collect_complete_example =
    (collect_complete codec now late (bytes "s1") (bytes "alice") envelope table _ table-Distinct
      complete_run).3

get_request-run :
    (get_request codec up up up now now (run codec history) (run codec []) (bytes "s1") table).0
    ≡ ok (some (record_of row none))
unfolding get_request get_request_raw scan_optional Keyed.find same select first
get_request-run = refl

get_request_fresh_example : unix now ≤ 1700000300
get_request_fresh_example =
    get_request_fresh codec up up up now now history [] (bytes "s1") table (record_of row none)
      table-Distinct tt (omega arith) get_request-run refl

list_pending_sound_example :
    (l : List RequestListItem) × ((list_pending up up now (bytes "alice") table).0 ≡ ok l)
    × Ordered l
    × All (Shown now (bytes "alice")) l
list_pending_sound_example = list_pending_sound now (bytes "alice") table

list_pending_complete_example :
    (l : List RequestListItem) × ((list_pending up up now (bytes "alice") table).0 ≡ ok l)
    × Has (item_of row) l
unfolding Keyed.find same
list_pending_complete_example =
    list_pending_complete now (bytes "alice") (bytes "s1") table row refl
      (record { waits = refl; visible = inr refl; in_time = omega arith })
