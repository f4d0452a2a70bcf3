-- ===== src/Db/Auth/Challenges.antt =====
-- The challenges of a ceremony (internal/db/auth.go): BeginChallenge, ConsumeChallenge and what
-- deletes them. A row of v2_auth_challenge_payloads belongs to one challenge, whose deletion
-- deletes it: it is the column `session_data` of that challenge here.

pub mod Spent
pub mod Consume
pub mod Ceremony
pub mod Once
mod Tests
use revaulter.Base.{
  ℕ, ◌+◌, ◌-◌, ◌*◌, Text, text_eq, same, is_empty, Bool, true, false, ◌&&◌, ◌||◌, not, ltb, leb,
  Option, none, some, List, [], ◌∷◌, ◌++◌, map, if◌then◌else◌,
}
use revaulter.Sql.{Conn, up, down, select, update, delete, count, first}
use revaulter.Sql.Keyed
use revaulter.Time.{unix, second}
use revaulter.Json.{Codec}
use revaulter.Db.Auth.Types.{
  Result, ok, err, driver, duplicate, bad_json, challenge_empty, invalid_challenge,
}

pub record ChallengeRow : Type 0 where
  pub id : Text
  pub kind : Text
  pub user_id : Text
  pub challenge : Text
  pub expires_at : ℕ
  pub used_at : Option ℕ
  pub session_data : Option Text

-- AuthChallenge, its time in nanoseconds
pub record AuthChallenge : Type 0 where
  pub id : Text
  pub kind : Text
  pub user_id : Text
  pub challenge : Text
  pub expires_at : ℕ

abbrev pub Challenges : Type 0
Challenges = List ChallengeRow

abbrev pub key : ChallengeRow → Text
key r = r.id

abbrev pub find : Text → Challenges → Option ChallengeRow
find = Keyed.find key

abbrev pub Distinct : Challenges → Type 0
Distinct = Keyed.Distinct key

abbrev pub row_of : AuthChallenge → ChallengeRow
row_of a = record {
  id = a.id;
  kind = a.kind;
  user_id = a.user_id;
  challenge = a.challenge;
  expires_at = unix a.expires_at;
  used_at = none;
  session_data = none;
}

-- `used_at IS NULL`
abbrev pub is_unused : ChallengeRow → Bool
is_unused r = elim r.used_at [ none ↦ true | some n ↦ false ]

-- The WHERE of ConsumeChallenge, less its `id = $2`.
abbrev pub is_usable : ℕ → Text → Text → ChallengeRow → Bool
is_usable now kind user r =
    same r.kind kind
    && (is_unused r && (leb now r.expires_at && (is_empty user || same r.user_id user)))

-- The WHERE of CleanupExpired and DeleteExpiredAuthChallenge, ten minutes behind the clock.
abbrev pub is_stale : ℕ → ChallengeRow → Bool
is_stale now r = ltb r.expires_at (unix now - 600) || not (is_unused r)

abbrev pub set_used : ℕ → ChallengeRow → ChallengeRow
set_used now r = record r { used_at = some now }

abbrev pub set_payload : Text → ChallengeRow → ChallengeRow
set_payload text r = record r { session_data = some text }

-- The expiry that a challenge is given; `none` is the zero time.
abbrev pub expiry : ℕ → Option ℕ → ℕ
expiry now none = now + 300 * second
expiry now (some at) = at

-- The challenge that BeginChallenge stores and answers with.
abbrev pub new_challenge : ℕ → Text → Text → Text → Text → Option ℕ → AuthChallenge
new_challenge now id kind user challenge expires = record {
  id = id;
  kind = kind;
  user_id = user;
  challenge = challenge;
  expires_at = expiry now expires;
}

-- HasPendingChallenge
unfoldable pub has_pending_challenge : Conn → ℕ → Text → Text → Challenges → Result Bool
has_pending_challenge down now user kind t = err driver
has_pending_challenge up now user kind t =
    let hit = λ (r : ChallengeRow).
      same r.user_id user && (same r.kind kind && (is_unused r && leb (unix now) r.expires_at)) in
    ok (elim (select hit t) [ [] ↦ false | r ∷ rs ↦ true ])

-- CleanupExpired
unfoldable pub cleanup_expired : Conn → ℕ → Challenges → Result (Unit {0}) × Challenges
cleanup_expired down now t = (err driver, t)
cleanup_expired up now t = (ok tt, delete (is_stale now) t)

-- DeleteExpiredAuthChallenge
unfoldable pub delete_expired : Conn → Text → ℕ → Challenges → Result (Unit {0}) × Challenges
delete_expired down id now t = (err driver, t)
delete_expired up id now t = (ok tt, delete (λ r. same r.id id && is_stale now r) t)

module _ {A : Type 0} (json : Codec A) where
  -- The second statement of BeginChallenge: the payload, if it has one.
  unfoldable pub store_payload :
      Conn → AuthChallenge → Option A → Challenges → Result AuthChallenge × Challenges
  store_payload c a none t = (ok a, t)
  store_payload c a (some p) t = if is_empty (json.marshal p) then (ok a, t) else elim c [
    | down ↦ (err driver, t)
    | up ↦ (ok a, update (λ r. same r.id a.id && true) (set_payload (json.marshal p)) t)
  ]

  -- The statements of BeginChallenge.
  unfoldable pub store_challenge :
      Conn → Conn → AuthChallenge → Option A → Challenges → Result AuthChallenge × Challenges
  unfolding store_payload
  store_challenge c₁ c₂ a payload t =
      if is_empty a.challenge then (err challenge_empty, t) else elim c₁ [
        | down ↦ (err driver, t)
        | up ↦ elim (find a.id t) [
          | none ↦ store_payload c₂ a payload (t ++ row_of a ∷ [])
          | some r ↦ (err duplicate, t)
        ]
      ]

  -- BeginChallenge inside its transaction, which an error rolls back; `id` is the new UUID.
  unfoldable pub begin_challenge :
      Conn
      → Conn
      → ℕ
      → Text
      → Text
      → Text
      → Text
      → Option ℕ
      → Option A
      → Challenges
      → Result AuthChallenge × Challenges
  unfolding store_challenge
  begin_challenge c₁ c₂ now id kind user challenge expires payload t =
      store_challenge c₁ c₂ (new_challenge now id kind user challenge expires) payload t

  -- What ConsumeChallenge makes of the row that its UPDATE returns; `wants`: it has a destination.
  unfoldable pub payload_of : Bool → Option (Option Text) → Result (Option A)
  payload_of wants none = err invalid_challenge
  payload_of false (some text) = ok none
  payload_of true (some none) = ok none
  payload_of true (some (some text)) = elim (json.unmarshal text) [
    | none ↦ err bad_json
    | some a ↦ ok (some a)
  ]

  -- ConsumeChallenge
  unfoldable pub consume_challenge :
      Conn → ℕ → Text → Text → Text → Bool → Challenges → Result (Option A) × Challenges
  unfolding payload_of
  consume_challenge down now id kind user wants t = (err driver, t)
  consume_challenge up now id kind user wants t =
      let hit = λ (r : ChallengeRow). same r.id id && is_usable (unix now) kind user r in
      (
        payload_of wants (first (map (λ (r : ChallengeRow). r.session_data) (select hit t))),
        update hit (set_used (unix now)) t,
      )
