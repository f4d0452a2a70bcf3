-- ===== src/Server/Expiry/Tests.antt =====
-- Events that are due, and the theorem at a concrete server.
use revaulter.Base.{ℕ, ◌+◌, ◌*◌, bytes, same, ◌≡◌, refl, none, some, [], ◌∷◌, arith}
use revaulter.Sql.{up}
use revaulter.Sql.Keyed
use revaulter.Time.{unix, second}
use revaulter.Json.Sample.{codec}
use revaulter.Db.Requests.{find, expired, set_status}
use revaulter.Server.Notifications.Safe.{woken}
use revaulter.Server.State.{Server, accepted, enqueue, RequestExpiryEvent, DeleteEvent}
use revaulter.Server.Sample.{json, draw, row, deadline, server, server-IsSound, requests-Distinct}
use revaulter.Server.Expiry.{execute_request_expiry_event, execute_delete_event}
use revaulter.Server.Expiry.Swept.{request_swept}

abbrev event : RequestExpiryEvent
event = record { state = bytes "s1"; user_id = bytes "alice"; ttl = deadline + 5 * second }

abbrev unknown : DeleteEvent
unknown = record { key_name = bytes "x"; kind = bytes "x"; id = bytes "x"; ttl = deadline }

unknown_kind : execute_delete_event (λ n. []) up deadline accepted unknown server ≡ server
unfolding execute_delete_event same
unknown_kind = refl

is_there : find (bytes "s1") (row ∷ []) ≡ some row
unfolding Keyed.find same
is_there = refl

request_swept_example :
    (s' : Server) × (execute_request_expiry_event json codec up
        (deadline + 6 * second)
        draw
        accepted
        event
        server
      ≡ some s')
    × (find (bytes "s1") s'.tables.requests
        ≡ some (set_status expired (unix (deadline + 6 * second)) row))
    × ((i : ℕ) → server.hub.subs (bytes "s1") ≡ some i → s'.hub.chans.get i ≡ woken)
    × ((del : DeleteEvent) × (s'.delete_queue ≡ enqueue del ∷ [])
        × (find
              (bytes "s1")
              (execute_delete_event
                (λ n. [])
                up
                (deadline + 700 * second)
                accepted
                del
                s').tables.requests
            ≡ none))
request_swept_example =
    request_swept codec json (deadline + 6 * second) deadline draw event server row (λ n. [])
      (deadline + 700 * second) accepted server-IsSound requests-Distinct is_there refl refl refl
      (omega arith) (omega arith)
