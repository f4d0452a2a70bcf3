-- ===== src/Server/Stream.antt =====
-- routeV2APIListStream (internal/server/routes-api.go): the list of pending requests, and then its
-- changes as they are published.
pub mod Once
mod Tests
use revaulter.Base.{
  ℕ, ℤ, pos, negsuc, Text, bytes, same, is_empty, Bool, true, false, ◌||◌, ◌&&◌, not, Option, none,
  some, List, [], ◌∷◌, map, ltb, if◌then◌else◌,
}
use revaulter.Sql.{Conn}
use revaulter.Db.Requests
use revaulter.Db.Requests.{RequestListItem, list_pending}
use revaulter.Utils.Broker.{Broker, subscribe, unsubscribe}
use revaulter.Server.State.{Tables, Server, Notice, listed, removed}

abbrev pub state_of : Notice → Text
state_of (listed i) = i.state
state_of (removed state user) = state

abbrev pub owner_of : Notice → Text
owner_of (listed i) = i.user_id
owner_of (removed state user) = user

abbrev pub is_removed : Notice → Bool
is_removed (listed i) = false
is_removed (removed state user) = true

-- The map `seen`
abbrev pub has_seen : Text → List Text → Bool
has_seen s [] = false
has_seen s (x ∷ seen) = same x s || has_seen s seen

abbrev pub forget : Text → List Text → List Text
forget s [] = []
forget s (x ∷ seen) = let rest = forget s seen in if same x s then rest else x ∷ rest

abbrev pub is_skipped : Text → List Text → Notice → Bool
is_skipped user seen n =
    (is_empty (owner_of n) || not (same (owner_of n) user))
    || (has_seen (state_of n) seen && not (is_removed n))

-- What the loop writes, for the messages that the channel gives until it, the session or the request
-- ends.
unfoldable pub stream : Text → List Text → List Notice → List Notice
stream user seen [] = []
stream user seen (n ∷ ns) =
    if is_skipped user seen n
    then stream user seen ns
    else n ∷ stream user (if is_removed n then forget (state_of n) seen else state_of n ∷ seen) ns

-- What the route answers: an error, an internal error, or the items and then the changes.
pub data Streamed : Type 0 where
  refused : Text → Streamed
  internal : Streamed
  streamed : List RequestListItem → List Notice → Streamed

abbrev pub states_of : List RequestListItem → List Text
states_of l = map (λ (i : RequestListItem). i.state) l

abbrev pub of_list : Text → List Notice → Requests.Result (List RequestListItem) → Streamed
of_list user ns (Requests.err e) = internal
of_list user ns (Requests.ok l) = streamed l (stream user (states_of l) ns)

-- The deferred Unsubscribe, on what others have made of the broker
abbrev pub closed :
    ℕ
    → (Broker Notice → Broker Notice)
    → Broker Notice
    → Streamed × Server
    → Option (Streamed × Server)
closed ch others b (answer, s) = elim (unsubscribe ch (others b)) [
  | none ↦ none
  | some b' ↦ some (answer, record s { pubsub = some b' })
]

abbrev pub listing : Conn → Conn → ℕ → Text → List Notice → Server → Streamed × Server
listing c c' now user ns s =
    let r = list_pending c c' now user s.tables.requests in
    (of_list user ns r.0, record s { tables = record (s.tables) { requests = r.1 } })

abbrev pub subscribed :
    Conn
    → Conn
    → ℕ
    → Text
    → (Broker Notice → Broker Notice)
    → List Notice
    → Server
    → Option ℕ × Broker Notice
    → Option (Streamed × Server)
subscribed c c' now user others ns s (none, b) = some (internal, record s { pubsub = some b })
subscribed c c' now user others ns s (some ch, b) =
    closed ch others b (listing c c' now user ns (record s { pubsub = some b }))

abbrev pub is_expired : ℤ → Bool
is_expired (pos n) = not (ltb 0 n)
is_expired (negsuc n) = true

-- routeV2APIListStream, on the session's user and remaining seconds; `none` is a panic, as where
-- there is no broker.
unfoldable pub list_stream :
    Conn
    → Conn
    → ℕ
    → Text
    → ℤ
    → (Broker Notice → Broker Notice)
    → List Notice
    → Server
    → Option (Streamed × Server)
list_stream c c' now user ttl others ns s =
    if is_empty user
    then some (refused (bytes "Unauthenticated"), s)
    else if is_expired ttl
    then some (refused (bytes "Session expired"), s)
    else elim s.pubsub [ none ↦ none | some b ↦ subscribed c c' now user others ns s (subscribe b) ]
