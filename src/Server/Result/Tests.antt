-- ===== src/Server/Result/Tests.antt =====
-- Runs of the long-poll, and its theorem at a concrete table.
use revaulter.Base.{bytes, same, ◌≡◌, refl, inl, none, some, [], ◌∷◌}
use revaulter.Sql.{up}
use revaulter.Sql.Keyed
use revaulter.Json.Sample.{codec}
use revaulter.Server.State.{Response, error}
use revaulter.Server.Sample.{requests, requests-Distinct, server, user, now}
use revaulter.Server.Result.{Read, Round, evicted, perform_read, route_v2_request_result}
use revaulter.Server.Result.Own.{Foreign, Silent, IsQuiet, result_hides}

abbrev read : Read
read = record {
  before = λ t. t;
  first_conn = up;
  mark_conn = up;
  second_conn = up;
  first_clock = now;
  mark_clock = now;
  before_mark = λ t. t;
  after_mark = λ t. t;
}

abbrev round : Round
round = record {
  read = read;
  before_delete = λ t. t;
  delete_conn = up;
  delete_clock = now;
  wake = evicted;
}

no_state :
    route_v2_request_result codec read (round ∷ []) [] none (λ h. h) requests server.hub
    ≡ some (some (error 400 (bytes "Missing parameter state"), requests), server.hub)
unfolding route_v2_request_result
no_state = refl

quiet : IsQuiet codec (bytes "s1") (bytes "bob") read
quiet = record { before = λ t f. f; before_mark = λ t f. f; after_mark = λ t f. f }

foreign : Foreign codec (bytes "s1") (bytes "bob") requests
unfolding Keyed.find same
foreign = record {
  distinct = requests-Distinct;
  others = λ r e. record { other = cc; readable = inl (cc) };
}

-- Bob asks for the request of alice's.
result_hides_example :
    (answer : Response) × (route_v2_request_result codec read
        (round ∷ [])
        (bytes "s1")
        (some (user (bytes "bob")))
        (λ h. h)
        requests
        server.hub
      ≡ some (some (answer, (perform_read codec read (bytes "s1") requests).1), server.hub))
    × Silent codec (bytes "s1") (bytes "bob") read answer
result_hides_example =
    result_hides codec (bytes "s1") (bytes "bob") read (round ∷ []) (user (bytes "bob")) (λ h. h)
      requests server.hub refl refl quiet foreign
