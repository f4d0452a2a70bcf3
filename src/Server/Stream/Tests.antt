-- ===== src/Server/Stream/Tests.antt =====
-- A stream with messages of two users, and the theorem at it.
use revaulter.Base.{Text, pos, bytes, same, ◌≡◌, refl, some, List, [], ◌∷◌, All}
use revaulter.Sql.{up}
use revaulter.Db.Requests.{RequestListItem, pending}
use revaulter.Server.State.{Notice, listed, removed}
use revaulter.Server.Sample.{server, now}
use revaulter.Server.Stream.{owner_of, has_seen, stream, refused, list_stream}
use revaulter.Server.Stream.Once.{Alternates, stream_once}

abbrev item : Text → Text → RequestListItem
item state user = record {
  state = state;
  status = pending;
  operation = bytes "sign";
  user_id = user;
  key_label = bytes "disk";
  algorithm = bytes "ES256";
  requestor = bytes "10.0.0.1";
  date = 1700000000;
  expiry = 1700000300;
  note = [];
}

abbrev messages : List Notice
messages =
    listed (item (bytes "s1") (bytes "alice"))
    ∷ listed (item (bytes "s2") (bytes "bob"))
    ∷ removed (bytes "s1") (bytes "alice")
    ∷ listed (item (bytes "s1") (bytes "alice"))
    ∷ []

-- The list began with s1.
sent :
    stream (bytes "alice") (bytes "s1" ∷ []) messages
    ≡ removed (bytes "s1") (bytes "alice") ∷ listed (item (bytes "s1") (bytes "alice")) ∷ []
unfolding stream same
sent = refl

no_time_left :
    list_stream up up now (bytes "alice") (pos 0) (λ b. b) messages server
    ≡ some (refused (bytes "Session expired"), server)
unfolding list_stream
no_time_left = refl

stream_once_example :
    All (λ n. owner_of n ≡ bytes "alice") (stream (bytes "alice") (bytes "s1" ∷ []) messages)
    × Alternates
        (bytes "s1")
        (has_seen (bytes "s1") (bytes "s1" ∷ []))
        (stream (bytes "alice") (bytes "s1" ∷ []) messages)
stream_once_example = stream_once (bytes "alice") (bytes "s1") (bytes "s1" ∷ []) messages
