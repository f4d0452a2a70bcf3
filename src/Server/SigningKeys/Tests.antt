-- ===== src/Server/SigningKeys/Tests.antt =====
-- Runs of the routes of signing keys, and the theorems at concrete tables.
use revaulter.Base.{
  ℕ, zero, suc, ◌++◌, Text, bytes, same, ◌≡◌, ◌≢◌, ◌↔◌, ◌⊎◌, refl, true, false, some, List, [], ◌∷◌,
}
use revaulter.Sql.{up, select, first, update, delete}
use revaulter.Sql.Keyed
use revaulter.Json.Sample.{codec}
use revaulter.Protocol.Anchors.{
  AnchorCrypto, parse_anchor_pubkeys, parse_p384_body, values_of, value_of, cut, validate_p384,
  to_ecdsa_public_key, parse_hybrid_signatures, decode_base64_signature, verify_hybrid,
  verify_es384, verify_mldsa87,
}
use revaulter.Utils.Base64.{decode, read_digits, decode_digit, bytes_of}
use revaulter.Protocol.Timeouts.{atoi, read_decimal}
use revaulter.Protocol.Publication.{
  parse_payload, is_recent, verify_publication, canonical_message, canonical_body, format_int,
  decimal,
}
use revaulter.Server.AuditTrail.{audit_event, audit_input_from_context, json_metadata}
use revaulter.Db.Audit.{insert, validate, is_auth_method, is_event_type, is_outcome}
use revaulter.Db.Auth.Accounts.{Accounts, UserRow, get_user, find_user}
use revaulter.Server.SigningKeys.Proof.{verify_proof}
use revaulter.Db.SigningKeys.{
  SigningKey, IsIndexed, find_id, has_publication_proof, get_published_by_id, get_by_id,
  get_for_user, delete_key, set_published, store_publication_proof,
}
use revaulter.Server.State.{Tables}
use revaulter.Server.Sample.{json, crypto, session, tables, draw, now, user}
use revaulter.Server.SigningKeys.{
  Answers, Flags, UpdateRequest, error, signing_key_update, signing_key_delete,
}
use revaulter.Server.SigningKeys.Proven.{IsSafe}
use revaulter.Server.SigningKeys.Public.{Reads, pem, jwk, last_cut, signing_key_public}
use revaulter.Server.SigningKeys.Public.Shown.{IsPublic}
use revaulter.Server.SigningKeys.Public.Exact.{serving_exact}
use revaulter.Server.SigningKeys.Reachable.{
  Call, updates_key, deletes_key, perform, run, published_proven,
}

abbrev flags : Flags
flags texts bools = some (bytes "{}")

-- A library that accepts every key and signature
abbrev anchors : AnchorCrypto
anchors = record {
  on_p384 = λ s. true;
  sha384 = λ s. s;
  ecdsa_verify = λ k d r s. true;
  is_mldsa87_key = λ s. true;
  mldsa_verify = λ k m s. true;
}

abbrev answers : Answers
answers = record {
  first = up;
  owner = up;
  second = up;
  third = up;
  check_clock = now;
  clock = now;
  audit = draw;
  commit = up;
}

-- What the automatic store left.
abbrev key : SigningKey
key = record {
  id = bytes "k1";
  user_id = bytes "alice";
  algorithm = bytes "ES256";
  key_label = bytes "disk";
  jwk = bytes "{}";
  pem = bytes "pem";
  published = false;
  publication_payload = [];
  publication_signature_es384 = [];
  publication_signature_mldsa87 = [];
  created_at = 1700000000;
  updated_at = 1700000000;
}

abbrev stored : Tables
stored = record tables { signing_keys = key ∷ [] }

abbrev publish : UpdateRequest
publish = record { published = true; payload = []; signature_es384 = []; signature_mldsa87 = [] }

no_id :
    signing_key_update json flags crypto anchors answers session [] (some publish) stored
    ≡ (error 400 (bytes "missing id"), stored)
unfolding signing_key_update
no_id = refl

last_dot : last_cut b'.' (bytes "a.b.jwk") ≡ some (bytes "a.b", bytes "jwk")
unfolding last_cut
last_dot = refl

letters : ℕ → Text
letters zero = []
letters (suc n) = b'A' ∷ letters n

-- A key that is published with its proof, and its owner
abbrev body : Text
body =
    bytes
      "userId=alice\nalgorithm=ES256\nkeyLabel=disk\nkeyId=k1\nwrappedKeyEpoch=1\ncreatedAt=1700000000\nv=1"

abbrev proven_key : SigningKey
proven_key = record key {
  published = true;
  publication_payload = body;
  publication_signature_es384 = letters 128;
  publication_signature_mldsa87 = letters 6170;
}

abbrev owner : UserRow
owner = record (user (bytes "alice")) {
  anchor_es384_public_key =
      bytes "crv=P-384\nkty=EC\nx=" ++ (letters 64 ++ (bytes "\ny=" ++ letters 64));
  anchor_mldsa87_public_key = letters 3456;
}

abbrev accounts : Accounts
accounts = record { users = owner ∷ []; credentials = [] }

-- The same key before its publication, and the update that publishes it
abbrev unproven : Tables
unproven = record stored { accounts = accounts }

abbrev with_proof : UpdateRequest
with_proof = record {
  published = true;
  payload = body;
  signature_es384 = letters 128;
  signature_mldsa87 = letters 6170;
}

abbrev Seen : ℕ → Accounts → Type 0
Seen n a = (n ≡ now) × (a ≡ accounts)

unproven-IsSafe : IsSafe json flags crypto anchors Seen unproven.signing_keys
unfolding Keyed.find has_publication_proof
unproven-IsSafe = record {
  indexed = record { ids = (refl, tt); slots = (refl, tt) };
  proven = (record { proof = λ e. cc; verified = λ e. cc }, tt);
}

-- The publication, and a deletion of another key
abbrev calls : List (Call json codec flags crypto anchors)
calls =
    updates_key answers session (bytes "k1") (some with_proof)
    ∷ deletes_key answers session (bytes "k2")
    ∷ []

published_key :
    find_id (bytes "k1") (run json codec flags crypto anchors calls unproven).signing_keys
    ≡ some (record proven_key { updated_at = 1700000060 })
unfolding run perform signing_key_update signing_key_delete get_for_user delete_key set_published
    store_publication_proof get_by_id has_publication_proof Keyed.find first select same letters
    verify_proof parse_payload values_of value_of cut atoi read_decimal is_recent get_user
    parse_anchor_pubkeys parse_p384_body validate_p384 to_ecdsa_public_key parse_hybrid_signatures
    decode_base64_signature decode read_digits decode_digit bytes_of verify_publication
    verify_hybrid verify_es384 verify_mldsa87 canonical_message canonical_body format_int decimal
    audit_event audit_input_from_context json_metadata validate is_auth_method is_event_type
    is_outcome insert update delete Keyed.insert
published_key = refl

published_proven_example :
    IsSafe json flags crypto anchors Seen
      (run json codec flags crypto anchors calls unproven).signing_keys
published_proven_example =
    published_proven json codec flags crypto anchors Seen calls unproven ((refl, refl), (tt, tt))
      unproven-IsSafe

abbrev published : Tables
published = record tables { signing_keys = proven_key ∷ []; accounts = accounts }

published-IsIndexed : IsIndexed published.signing_keys
unfolding Keyed.find
published-IsIndexed = record { ids = (refl, tt); slots = (refl, tt) }

abbrev reads : Reads
reads = record { key = up; owner = up; commit = up }

served_pem : signing_key_public reads (bytes "k1.pem") published ≡ pem proven_key
unfolding signing_key_public last_cut get_published_by_id get_by_id select first same
    has_publication_proof letters
served_pem = refl

serving_exact_example :
    ((signing_key_public reads (bytes "k1.pem") published ≡ pem proven_key) ↔ (
      IsPublic published proven_key
      × (proven_key.id ≢ [])
      × (reads.key ≡ up)
      × ((bytes "k1.pem" ≡ bytes "k1.pem") ⊎ (bytes "k1.pem" ≡ bytes "k1.pub"))))
    × ((signing_key_public reads (bytes "k1.pem") published ≡ jwk proven_key owner) ↔ (
        IsPublic published proven_key
        × (find_user (bytes "alice") published.accounts.users ≡ some owner)
        × (proven_key.id ≢ [])
        × ((reads.key ≡ up) × (reads.owner ≡ up) × (reads.commit ≡ up))
        × ((bytes "k1.pem" ≡ bytes "k1.jwk") ⊎ (bytes "k1.pem" ≡ bytes "k1.json"))))
serving_exact_example =
    serving_exact published published-IsIndexed reads (bytes "k1.pem") proven_key owner
