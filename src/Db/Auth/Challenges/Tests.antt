-- ===== src/Db/Auth/Challenges/Tests.antt =====
-- Runs of BeginChallenge and ConsumeChallenge, and their theorems at a concrete table.
use revaulter.Base.{
  ℕ, Text, bytes, same, ◌≡◌, ◌≢◌, refl, true, false, Option, none, some, List, [], ◌∷◌, All, ◌⊎◌,
}
use revaulter.Sql.{Conn, up, down, select, update, first}
use revaulter.Sql.Keyed
use revaulter.Time.{unix}
use revaulter.Json.{Codec}
use revaulter.Db.Auth.Types.{ok, err, duplicate, invalid_challenge}
use revaulter.Db.Auth.Challenges.{
  ChallengeRow, AuthChallenge, Challenges, find, Distinct, row_of, set_used, begin_challenge,
  store_challenge, store_payload, payload_of, consume_challenge, has_pending_challenge,
}
use revaulter.Db.Auth.Challenges.Consume.{MayConsume, consume_exact}
use revaulter.Db.Auth.Challenges.Once.{
  Statement, begins, cleans, removes, begins_id, run, consume_once,
}

abbrev untag : Text → Option Text
untag [] = none
untag (c ∷ s) = some s

abbrev tagged : Codec Text
tagged = record {
  marshal = λ s. 34 ∷ s;
  unmarshal = untag;
  unmarshal-marshal = λ s. refl;
  marshal_nonempty = λ s. refl;
}

abbrev challenge : AuthChallenge
challenge = record {
  id = bytes "c1";
  kind = bytes "login";
  user_id = bytes "alice";
  challenge = bytes "nonce";
  expires_at = 1700000300000000000;
}

abbrev now : ℕ
now = 1700000000000000000

abbrev late : ℕ
late = 1700000301000000000

abbrev row : ChallengeRow
row = record (row_of challenge) { session_data = some (34 ∷ bytes "session") }

abbrev table : Challenges
table = row ∷ []

table-Distinct : Distinct table
unfolding Keyed.find
table-Distinct = (refl, tt)

begin_run :
    begin_challenge tagged up up now
      (bytes "c1")
      (bytes "login")
      (bytes "alice")
      (bytes "nonce")
      none
      (some (bytes "session"))
      []
    ≡ (ok challenge, table)
unfolding begin_challenge store_challenge store_payload Keyed.find update same
begin_run = refl

begin_twice :
    (begin_challenge tagged up up now
      (bytes "c1")
      (bytes "login")
      (bytes "alice")
      (bytes "nonce")
      none
      none
      table).0
    ≡ err duplicate
unfolding begin_challenge store_challenge Keyed.find same
begin_twice = refl

consume_run :
    (consume_challenge tagged up now (bytes "c1") (bytes "login") [] true table).0
    ≡ ok (some (bytes "session"))
unfolding consume_challenge payload_of select first same
consume_run = refl

consume_late :
    (consume_challenge tagged up late (bytes "c1") (bytes "login") [] true table).0
    ≡ err invalid_challenge
unfolding consume_challenge payload_of select first same
consume_late = refl

consume_foreign :
    (consume_challenge tagged up now (bytes "c1") (bytes "login") (bytes "bob") true table).0
    ≡ err invalid_challenge
unfolding consume_challenge payload_of select first same
consume_foreign = refl

pending_run : has_pending_challenge up now (bytes "alice") (bytes "login") table ≡ ok true
unfolding has_pending_challenge select same
pending_run = refl

consumed :
    (consume_challenge tagged up now (bytes "c1") (bytes "login") [] true table).0
    ≢ err invalid_challenge
consumed e = cc (consume_run)

abbrev history : List (Conn × Statement Text)
history =
    (up, cleans late)
    ∷ (down, removes (bytes "c1") late)
    ∷ (up, begins up now (bytes "c2") (bytes "login") (bytes "alice") (bytes "other") none none)
    ∷ []

no_begins : All (λ h. begins_id (bytes "c1") h.1 ≡ false) history
unfolding same
no_begins = (refl, (refl, (refl, tt)))

consume_once_example :
    (consume_challenge tagged up now (bytes "c1") (bytes "login") (bytes "alice") false (
      run tagged history
        (consume_challenge tagged up now (bytes "c1") (bytes "login") [] true table).1)).0
    ≡ err invalid_challenge
consume_once_example =
    consume_once tagged now now (bytes "c1") (bytes "login") (bytes "login") [] (bytes "alice") true
      false table history table-Distinct consumed no_begins

consume_exact_example :
    ((r : ChallengeRow) × (find (bytes "c1") table ≡ some r)
      × MayConsume now (bytes "login") (bytes "alice") r
      × ((consume_challenge tagged up now (bytes "c1") (bytes "login") (bytes "alice") true table).0
          ≡ payload_of tagged true (some r.session_data))
      × (find
            (bytes "c1")
            (consume_challenge tagged up now
              (bytes "c1")
              (bytes "login")
              (bytes "alice")
              true
              table).1
          ≡ some (set_used (unix now) r)))
    ⊎ ((¬ (
          (r : ChallengeRow) × (find (bytes "c1") table ≡ some r)
          × MayConsume now (bytes "login") (bytes "alice") r))
        × ((consume_challenge tagged up now
              (bytes "c1")
              (bytes "login")
              (bytes "alice")
              true
              table).0
            ≡ err invalid_challenge)
        × (find
              (bytes "c1")
              (consume_challenge tagged up now
                (bytes "c1")
                (bytes "login")
                (bytes "alice")
                true
                table).1
            ≡ find (bytes "c1") table))
consume_exact_example =
    consume_exact tagged now (bytes "c1") (bytes "login") (bytes "alice") true table table-Distinct

begun_fresh :
    (begin_challenge tagged up up now
      (bytes "c1")
      (bytes "login")
      (bytes "alice")
      (bytes "nonce")
      none
      (some (bytes "session"))
      []).0
    ≡ ok challenge
unfolding begin_challenge store_challenge store_payload Keyed.find
begun_fresh = refl
