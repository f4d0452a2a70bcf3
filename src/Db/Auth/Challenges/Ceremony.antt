-- ===== src/Db/Auth/Challenges/Ceremony.antt =====
-- What BeginChallenge stored, ConsumeChallenge gives back.
use revaulter.Base.{
  ℕ, ◌≤◌, Text, text_eq, same_refl, is_empty, ◌≡◌, ◌⊎◌, inl, inr, refl, ◌∙◌, true, false, Option,
  some, [], ◌∷◌, ◌++◌, arith, Bool-cases, Option-cases,
}
use revaulter.Sql.{up}
use revaulter.Sql.Keyed
use revaulter.Time.{unix}
use revaulter.Json.{Codec}
use revaulter.Db.Auth.Types.{ok}
use revaulter.Db.Auth.Challenges.{
  ChallengeRow, AuthChallenge, Challenges, key, find, Distinct, row_of, is_usable, set_payload,
  store_payload, store_challenge, begin_challenge, new_challenge, expiry, payload_of,
  consume_challenge,
}
use revaulter.Db.Auth.Challenges.Spent.{store_challenge-Distinct}
use revaulter.Db.Auth.Challenges.Consume.{is_usable_iff, answer_consumed}

module _ {A : Type 0} (json : Codec A) where
  -- BeginChallenge answers with the challenge that it was asked for.
  answered :
      (c : AuthChallenge) (payload : A) (t : Challenges) (a : AuthChallenge)
      → (store_challenge json up up c (some payload) t).0 ≡ ok a
      → (store_challenge json up up c (some payload) t).0 ≡ ok c
  unfolding store_challenge store_payload
  answered c payload t a done = elim (Bool-cases (is_empty c.challenge)) [
    | inl e ↦ absurd (refused e)
    | inr e ↦ elim (Option-cases (find c.id t)) [
      | inl n ↦ rw (e, store_challenge, n, store_payload, json.marshal_nonempty payload)
      | inr (r, n) ↦ absurd (taken r e n)
    ]
  ]
    where
      refused : is_empty c.challenge ≡ true → ⊥
      refused e = ground arith

      taken : (r : ChallengeRow) → is_empty c.challenge ≡ false → find c.id t ≡ some r → ⊥
      taken r e n = ground arith

  find_begun :
      (a : AuthChallenge) (payload : A) (t : Challenges)
      → (store_challenge json up up a (some payload) t).0 ≡ ok a
      → find a.id (store_challenge json up up a (some payload) t).1
        ≡ some (set_payload (json.marshal payload) (row_of a))
  unfolding store_challenge store_payload
  find_begun a payload t done = elim (Bool-cases (is_empty a.challenge)) [
    | inl e ↦ absurd (refused e)
    | inr e ↦ elim (Option-cases (find a.id t)) [
      | inl n ↦
          rw (e, store_challenge, n, store_payload, json.marshal_nonempty payload)
            (Keyed.find-update_at key (λ r. true) (set_payload (json.marshal payload)) (λ r. refl)
                a.id a.id (t ++ row_of a ∷ [])
              ∙ rw (Keyed.find-append_fresh key a.id t (row_of a) n, same_refl a.id))
      | inr (r, n) ↦ absurd (taken r e n)
    ]
  ]
    where
      refused : is_empty a.challenge ≡ true → ⊥
      refused e = ground arith

      taken : (r : ChallengeRow) → is_empty a.challenge ≡ false → find a.id t ≡ some r → ⊥
      taken r e n = ground arith

  -- The ceremony's round trip: a challenge that BeginChallenge has stored, in both its statements,
  -- is consumed within its deadline by its own user, or where no user is named, and gives back the
  -- payload that it was begun with.
  pub consume-begin :
      (now now' : ℕ) (id kind owner challenge user : Text) (expires : Option ℕ) (payload : A)
      (a : AuthChallenge) (t : Challenges)
      → Distinct t
      → (begin_challenge json up up now id kind owner challenge expires (some payload) t).0 ≡ ok a
      → (user ≡ []) ⊎ (owner ≡ user)
      → unix now' ≤ unix (expiry now expires)
      → (consume_challenge json up now' id kind user true
          (begin_challenge json up up now id kind owner challenge expires (some payload) t).1).0
        ≡ ok (some payload)
  unfolding payload_of begin_challenge
  consume-begin now now' id kind owner challenge user expires payload a t d done mine in_time =
      answer_consumed json now' id kind user true _
        (store_challenge-Distinct json up up c (some payload) t d)
      ∙ rw (
        find_begun c payload t (answered c payload t a done),
        usable,
        json.unmarshal-marshal payload,
      )
    where
      c : AuthChallenge
      c = new_challenge now id kind owner challenge expires

      usable :
          is_usable (unix now') kind user (set_payload (json.marshal payload) (row_of c)) ≡ true
      usable =
          (is_usable_iff now' kind user (set_payload (json.marshal payload) (row_of c))).1
            (record { ceremony = refl; fresh = refl; in_time = in_time; owner = mine })
