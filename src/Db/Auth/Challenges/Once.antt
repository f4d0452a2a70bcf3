-- ===== src/Db/Auth/Challenges/Once.antt =====
-- A challenge is consumed at most once, whatever statements run in between.
use revaulter.Base.{ℕ, Text, text_eq, same, ◌≡◌, ◌≢◌, refl, Bool, false, Option, List, [], ◌∷◌, All}
use revaulter.Sql.{Conn, up, down}
use revaulter.Sql.Keyed
use revaulter.Time.{unix}
use revaulter.Json.{Codec}
use revaulter.Db.Auth.Types.{err, invalid_challenge}
use revaulter.Db.Auth.Challenges.{
  Challenges, key, Distinct, set_used, cleanup_expired, delete_expired, begin_challenge,
  new_challenge, consume_challenge,
}
use revaulter.Db.Auth.Challenges.Spent.{
  Spent, Spent-drop, Spent-adjust, store_challenge-Distinct, store_challenge-Spent,
}
use revaulter.Db.Auth.Challenges.Consume.{Spent-refused, consumed-Spent}

-- A statement that changes the challenges, with its arguments.
pub data Statement (A : Type 0) : Type 0 where
  begins : Conn → ℕ → Text → Text → Text → Text → Option ℕ → Option A → Statement A
  consumes : ℕ → Text → Text → Text → Bool → Statement A
  cleans : ℕ → Statement A
  removes : Text → ℕ → Statement A

-- The id that a statement inserts, if it inserts one.
abbrev pub begins_id : {A : Type 0} → Text → Statement A → Bool
begins_id k (begins c now id kind user challenge expires payload) = same id k
begins_id k (consumes now id kind user wants) = false
begins_id k (cleans now) = false
begins_id k (removes id now) = false

module _ {A : Type 0} (json : Codec A) where
  unfoldable pub step : Conn × Statement A → Challenges → Challenges
  step (c, begins c₂ now id kind user challenge expires payload) t =
      (begin_challenge json c c₂ now id kind user challenge expires payload t).1
  step (c, consumes now id kind user wants) t =
      (consume_challenge json c now id kind user wants t).1
  step (c, cleans now) t = (cleanup_expired c now t).1
  step (c, removes id now) t = (delete_expired c id now t).1

  unfoldable pub run : List (Conn × Statement A) → Challenges → Challenges
  run [] t = t
  run (h ∷ hs) t = run hs (step h t)

  step-Distinct : (h : Conn × Statement A) (t : Challenges) → Distinct t → Distinct (step h t)
  unfolding step begin_challenge consume_challenge cleanup_expired delete_expired
  step-Distinct (c, begins c₂ now id kind user challenge expires payload) t d =
      store_challenge-Distinct json c c₂ (new_challenge now id kind user challenge expires) payload
        t d
  step-Distinct (down, consumes now id kind user wants) t d = d
  step-Distinct (up, consumes now id kind user wants) t d =
      Keyed.Distinct-update key _ _ (λ r. refl) t d
  step-Distinct (down, cleans now) t d = d
  step-Distinct (up, cleans now) t d = Keyed.Distinct-delete key _ t d
  step-Distinct (down, removes id now) t d = d
  step-Distinct (up, removes id now) t d = Keyed.Distinct-delete key _ t d

  step-Spent :
      (h : Conn × Statement A) (k : Text) (t : Challenges)
      → Distinct t
      → begins_id k h.1 ≡ false
      → Spent k t
      → Spent k (step h t)
  unfolding step begin_challenge consume_challenge cleanup_expired delete_expired
  step-Spent (c, begins c₂ now id kind user challenge expires payload) k t d e spent =
      store_challenge-Spent json c c₂ (new_challenge now id kind user challenge expires) payload k t
        e spent
  step-Spent (down, consumes now id kind user wants) k t d e spent = spent
  step-Spent (up, consumes now id kind user wants) k t d e spent =
      Spent-adjust _ (set_used (unix now)) k t _ (λ r h. refl)
        (Keyed.find-update key _ _ (λ r. refl) k t) spent
  step-Spent (down, cleans now) k t d e spent = spent
  step-Spent (up, cleans now) k t d e spent =
      Spent-drop _ k t _ (Keyed.find-delete key _ k t d) spent
  step-Spent (down, removes id now) k t d e spent = spent
  step-Spent (up, removes id now) k t d e spent =
      Spent-drop _ k t _ (Keyed.find-delete key _ k t d) spent

  run-Spent :
      (hs : List (Conn × Statement A)) (k : Text) (t : Challenges)
      → Distinct t
      → All (λ h. begins_id k h.1 ≡ false) hs
      → Spent k t
      → Distinct (run hs t) × Spent k (run hs t)
  unfolding run
  run-Spent [] k t d e spent = (d, spent)
  run-Spent (h ∷ hs) k t d e spent =
      run-Spent hs k (step h t) (step-Distinct h t d) e.1 (step-Spent h k t d e.0 spent)

  -- A challenge is consumed at most once: after a ConsumeChallenge that did not find it invalid,
  -- even if its payload then failed to parse, and whatever statements run in between as long as
  -- none begins a challenge of that id again, every later one finds it invalid, of whatever user.
  pub consume_once :
      (now now' : ℕ) (id kind kind' user user' : Text) (wants wants' : Bool) (t : Challenges)
      (hs : List (Conn × Statement A))
      → Distinct t
      → (consume_challenge json up now id kind user wants t).0 ≢ err invalid_challenge
      → All (λ h. begins_id id h.1 ≡ false) hs
      → (consume_challenge json up now' id kind' user' wants'
          (run hs (consume_challenge json up now id kind user wants t).1)).0
        ≡ err invalid_challenge
  unfolding step
  consume_once now now' id kind kind' user user' wants wants' t hs d done fresh =
      let (d', spent) =
        run-Spent hs id _ (step-Distinct (up, consumes now id kind user wants) t d) fresh
          (consumed-Spent json now id kind user wants t d done) in
      Spent-refused json now' id kind' user' wants' _ d' spent
