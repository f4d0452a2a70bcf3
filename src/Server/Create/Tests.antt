-- ===== src/Server/Create/Tests.antt =====
-- Runs of RouteV2RequestCreate, and its theorem at a concrete server.
use revaulter.Base.{pos, Text, bytes, is_empty, ◌≡◌, ◌≢◌, refl, ◌⊎◌, false, none, some, []}
use revaulter.Sql.{up}
use revaulter.Db.Auth.Accounts.{UserRow}
use revaulter.Server.State.{Server, Response, error, internal, created, accepted}
use revaulter.Server.Announce.{IsSound}
use revaulter.Server.CreateBody.{RequestCreateBody}
use revaulter.Server.Sample.{
  json, request_key, session, server, server-IsSound, jwk, draw, now, user,
}
use revaulter.Server.Create.{Answers, Settings, route_v2_request_create}
use revaulter.Server.Create.Recorded.{Created, create_atomic}

abbrev answers : Answers
answers = record {
  now = now;
  state = bytes "s2";
  statement = up;
  audit = draw;
  commit = up;
  queue = accepted;
}

abbrev settings : Settings
settings = record {
  marshal_envelope = λ e. bytes "{}";
  parse_duration = λ s. none;
  request_timeout = pos 300000000000;
}

-- 32 bytes in base64
abbrev coordinate : Text
coordinate = bytes "AAAAAAAAAAAAAAAAAAAAAAAAAAAAAAAAAAAAAAAAAAA"

abbrev body : RequestCreateBody
body = record {
  key_label = bytes "Disk";
  algorithm = bytes "A256GCM";
  timeout = bytes "60";
  note = [];
  request_enc_alg = bytes "ecdh-p256+mlkem768+a256gcm";
  cli_ephemeral_public_key = record jwk { x = coordinate; y = coordinate };
  mlkem_ciphertext = bytes "bQ==";
  encrypted_payload_nonce = bytes "bg";
  encrypted_payload = bytes "Y/8=";
}

anonymous :
    route_v2_request_create json settings answers session (bytes "encrypt") (some body) server
    ≡ some (internal, server)
unfolding route_v2_request_create
anonymous = refl

no_body :
    route_v2_request_create json settings answers request_key (bytes "encrypt") none server
    ≡ some (error 400 (bytes "Invalid request body"), server)
unfolding route_v2_request_create
no_body = refl

abbrev alice : UserRow
alice = user (bytes "alice")

known : (u : UserRow) → some alice ≡ some u → is_empty u.id ≡ false
known u e = cc

create_atomic_example :
    (out : Response × Server) × (route_v2_request_create json settings answers request_key
        (bytes "encrypt")
        (some body)
        server
      ≡ some out)
    × (((out.1.tables ≡ server.tables) × (out.0 ≢ created (bytes "s2")))
        ⊎ Created json settings answers request_key (bytes "encrypt") (some body) server out)
    × IsSound out.1
create_atomic_example =
    create_atomic json settings answers request_key (bytes "encrypt") (some body) server
      server-IsSound known
