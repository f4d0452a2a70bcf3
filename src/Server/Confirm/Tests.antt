-- ===== src/Server/Confirm/Tests.antt =====
-- Runs of RouteV2APIConfirm, and its theorem at a concrete server.
use revaulter.Base.{bytes, ◌≡◌, refl, ◌⊎◌, true, false, none, some}
use revaulter.Sql.{up}
use revaulter.Json.Sample.{codec}
use revaulter.Server.State.{Server, Response, error, accepted}
use revaulter.Server.Announce.{IsSound}
use revaulter.Server.Sample.{
  json, crypto, session, server, server-IsSound, requests-Distinct, envelope, draw, now,
}
use revaulter.Server.Confirm.{Answers, ConfirmRequest, route_v2_api_confirm}
use revaulter.Server.Confirm.Ended.{succeeded, Verdict}
use revaulter.Server.Confirm.Atomic.{confirm_atomic}

abbrev answers : Answers
answers = record {
  statement = up;
  clock = now;
  audit = draw;
  commit = up;
  queue = accepted;
  store = up;
  store_clock = now;
  store_audit = record draw { id = bytes "a2" };
}

abbrev rejection : ConfirmRequest
rejection = record {
  state = bytes "s1";
  confirm = false;
  cancel = true;
  response_envelope = none;
  public_key = none;
}

abbrev both : ConfirmRequest
both = record rejection { confirm = true; response_envelope = some envelope }

undecided_refused :
    route_v2_api_confirm json codec crypto answers session (some both) server
    ≡ some (
      error 400 (bytes "One and only one of confirm and cancel must be set to true in the body"),
      server,
    )
unfolding route_v2_api_confirm
undecided_refused = refl

confirm_atomic_example :
    (out : Response × Server) × (route_v2_api_confirm json codec crypto answers session
        (some rejection)
        server
      ≡ some out)
    × (((out.1.tables ≡ server.tables) × (succeeded out.0 ≡ false))
        ⊎ ((req : ConfirmRequest) × (some rejection ≡ some req)
            × Verdict answers session req out.0 server.tables out.1.tables))
    × IsSound out.1
confirm_atomic_example =
    confirm_atomic codec json crypto answers session (some rejection) server server-IsSound
      requests-Distinct
