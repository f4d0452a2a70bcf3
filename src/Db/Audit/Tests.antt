-- ===== src/Db/Audit/Tests.antt =====
-- A log of two events, and the theorems at it.
use revaulter.Base.{
  ℕ, pos, Text, bytes, same, ◌≡◌, refl, true, false, Option, none, some, List, [], ◌∷◌, map, All,
  arith, text_eq,
}
use revaulter.Sql.{up, down, select}
use revaulter.Sql.Keyed
use revaulter.Sql.Ordered.{order_desc}
use revaulter.Db.Audit.Types.{
  AuditEvent, AuditEventInput, AuditFilter, AuditLog, id_of, event_of, scan, matches, is_event_type,
  is_outcome, validate, validate_cursor, err, invalid_cursor, invalid_outcome,
}
use revaulter.Db.Audit.History.{IsFilter, IsV7}
use revaulter.Db.Audit.Pages.{walk, walk_complete}
use revaulter.Db.Audit.Records.{IsLog, Write, inserting, pruning, run, run-IsLog}

abbrev login : AuditEventInput
login = record {
  event_type = bytes "auth.login_finish";
  outcome = bytes "success";
  auth_method = bytes "session";
  actor_user_id = some (bytes "alice");
  target_user_id = none;
  signing_key_id = none;
  credential_id = none;
  request_state = none;
  http_request_id = none;
  client_ip = some (bytes "10.0.0.1");
  user_agent = none;
  metadata = [];
}

abbrev log : AuditLog
log = event_of (bytes "0001") 1700000000 login ∷ event_of (bytes "0002") 1700000060 login ∷ []

abbrev anyone : AuditFilter
anyone = record {
  user_id = [];
  system = false;
  event_type = [];
  since_unix = pos 0;
  until_unix = pos 0;
}

-- A parser to which each text but the empty one is a UUID of version 7.
abbrev parse : Text → Option (List ℕ)
parse [] = none
parse (c ∷ s) = some (1 ∷ 2 ∷ 3 ∷ 4 ∷ 5 ∷ 6 ∷ 112 ∷ 8 ∷ [])

log-Distinct : Keyed.Distinct id_of log
unfolding Keyed.find same
log-Distinct = (refl, (refl, tt))

anyone-IsFilter : IsFilter anyone
anyone-IsFilter = record { no_conflict = refl; known_type = refl }

log-V7 : All (λ (r : AuditEvent). IsV7 parse r.id) log
log-V7 = let u = 1 ∷ 2 ∷ 3 ∷ 4 ∷ 5 ∷ 6 ∷ 112 ∷ 8 ∷ [] in ((u, refl, refl), ((u, refl, refl), tt))

unknown_outcome :
    validate (λ s. true) (record login { outcome = bytes "maybe" }) ≡ err invalid_outcome
unfolding validate is_event_type is_outcome same
unknown_outcome = refl

other_version :
    validate_cursor (λ s. some (1 ∷ 2 ∷ 3 ∷ 4 ∷ 5 ∷ 6 ∷ 64 ∷ [])) (bytes "x") ≡ err invalid_cursor
unfolding validate_cursor
other_version = refl

-- One event a page
walk_complete_example :
    walk parse anyone (pos 1) log 3 []
    ≡ some (map scan (order_desc id_of (select (matches anyone) log)))
walk_complete_example =
    walk_complete parse refl anyone log log-Distinct anyone-IsFilter log-V7 (pos 1) 3 (omega arith)

empty-IsLog : IsLog (λ s. true) refl []
empty-IsLog = record { sound = tt; distinct = tt }

abbrev writes : List (Write (λ s. true))
writes =
    inserting up (bytes "0001") 1700000000 login
    ∷ inserting down (bytes "0002") 1700000060 login
    ∷ inserting up (bytes "0003") 1700000120 (record login { outcome = bytes "maybe" })
    ∷ pruning up 1700000001
    ∷ []

run-IsLog_example : IsLog (λ s. true) refl (run (λ s. true) writes [])
run-IsLog_example = run-IsLog (λ s. true) refl writes [] empty-IsLog
