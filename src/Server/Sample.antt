-- ===== src/Server/Sample.antt =====
-- A server with one pending request, and what it calls, for the tests of the handlers
-- (internal/server).
use revaulter.Base.{ℕ, Text, bytes, refl, true, none, some, [], ◌∷◌}
use revaulter.Sql.{up}
use revaulter.Sql.Keyed
use revaulter.Protocol.Envelope.{Jwk, ResponseEnvelope}
use revaulter.Protocol.SigningJwk.{Crypto}
use revaulter.Db.Requests.{Requests, RequestRow, CreateRequestInput, Distinct, row_of}
use revaulter.Db.Auth.Accounts.{UserRow}
use revaulter.Server.AuditTrail.{Context, AuditDraw, Objects}
use revaulter.Server.Notifications.Valid.{idle}
use revaulter.Server.State.{Tables, Server}
use revaulter.Server.Announce.{IsSound}

abbrev pub now : ℕ
now = 1700000060000000000

abbrev pub deadline : ℕ
deadline = 1700000300000000000

abbrev pub input : CreateRequestInput
input = record {
  state = bytes "s1";
  user_id = bytes "alice";
  operation = bytes "encrypt";
  requestor_ip = bytes "10.0.0.1";
  key_label = bytes "disk";
  algorithm = bytes "a256gcm";
  note = [];
  created_at = 1700000000000000000;
  expires_at = deadline;
  encrypted_request = bytes "{}";
}

abbrev pub row : RequestRow
row = row_of input

abbrev pub requests : Requests
requests = row ∷ []

pub requests-Distinct : Distinct requests
unfolding Keyed.find
requests-Distinct = (refl, tt)

abbrev pub jwk : Jwk
jwk = record {
  kty = bytes "EC";
  crv = bytes "P-256";
  x = bytes "eA";
  y = bytes "eQ";
  d = [];
  kid = [];
  alg = [];
  key_use = [];
}

abbrev pub envelope : ResponseEnvelope
envelope = record {
  transport_alg = bytes "ecdh-p256+mlkem768+a256gcm";
  browser_ephemeral_public_key = jwk;
  mlkem_ciphertext = bytes "bQ";
  nonce = bytes "bg";
  ciphertext = bytes "Yw";
  result_type = [];
}

abbrev pub user : Text → UserRow
user id = record {
  id = id;
  display_name = bytes "Alice";
  status = bytes "active";
  webauthn_user_id = bytes "w1";
  request_key = bytes "abc";
  request_enc_ecdh_pubkey = [];
  request_enc_mlkem_pubkey = [];
  anchor_es384_public_key = [];
  anchor_mldsa87_public_key = [];
  pubkey_bundle_signature_es384 = [];
  pubkey_bundle_signature_mldsa87 = [];
  pubkey_bundle_version = 0;
  wrapped_key_epoch = 1;
  allowed_ips = [];
  ready = true;
  created_at = 1700000000;
  updated_at = 1700000000;
}

-- A call with alice's session, and one with her request key.
abbrev pub session : Context
session = record {
  user_id = bytes "alice";
  request_user = none;
  request_id = bytes "r1";
  client_ip = bytes "10.0.0.1";
  user_agent = bytes "test";
}

abbrev pub request_key : Context
request_key = record session { user_id = []; request_user = some (user (bytes "alice")) }

abbrev pub draw : AuditDraw
draw = record { conn = up; id = bytes "a1"; clock = 1700000060 }

abbrev pub json : Objects
json = record { marshal_object = λ o. some (bytes "{}"); is_valid = λ s. true }

-- A library that reads no key.
abbrev pub crypto : Crypto
crypto = record {
  unmarshal_ec = λ s. none;
  unmarshal_ed = λ s. none;
  marshal_ec = λ j. [];
  marshal_ed = λ j. [];
  pem_decode = λ s. none;
  parse_pkix = λ s. none;
  on_p256 = λ s. true;
  sha256 = λ s. s;
}

abbrev pub tables : Tables
tables = record {
  requests = requests;
  signing_keys = [];
  audit = [];
  challenges = [];
  accounts = record { users = []; credentials = [] };
}

abbrev pub server : Server
server = record {
  tables = tables;
  hub = record { chans = record { next = 0; get = λ i. idle }; subs = λ k. none };
  pubsub = none;
  expiry_queue = [];
  delete_queue = [];
}

pub server-IsSound : IsSound server
server-IsSound = record {
  hub_valid = record { made = λ k i e. cc; waits = λ k i e. cc; single = λ k k' i e e'. cc };
  broker_valid = λ b e. cc;
}
