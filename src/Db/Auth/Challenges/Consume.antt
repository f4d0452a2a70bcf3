-- ===== src/Db/Auth/Challenges/Consume.antt =====
-- ConsumeChallenge: who may consume a challenge, when, and what it leaves.
use mathlib.Core.Option
use revaulter.Base.{
  ℕ, ◌≤◌, Text, text_eq, same, same_refl, same_iff, is_empty, ◌≡◌, ◌≢◌, ◌↔◌, ◌⊎◌, inl, inr, refl,
  ap, ◌∙◌, Bool, true, none, some, [], ◌∷◌, arith, Option-cases, if◌then◌else◌,
}
use revaulter.Sql.{up, adjust, keep_if}
use revaulter.Sql.Keyed
use revaulter.Sql.Rows.{hit_or_miss, adjust_miss, keep_none}
use revaulter.Time.{unix}
use revaulter.Json.{Codec}
use revaulter.Db.Auth.Types.{err, invalid_challenge}
use revaulter.Db.Auth.Challenges.{
  ChallengeRow, Challenges, key, find, Distinct, is_unused, is_usable, set_used, payload_of,
  consume_challenge,
}
use revaulter.Db.Auth.Challenges.Spent.{Spent}

-- Who may consume a challenge, and when.
pub record MayConsume (now : ℕ) (kind user : Text) (r : ChallengeRow) : Type 0 where
  pub ceremony : r.kind ≡ kind
  pub fresh : r.used_at ≡ none
  pub in_time : unix now ≤ r.expires_at
  pub owner : (user ≡ []) ⊎ (r.user_id ≡ user)

is_unused_iff : (r : ChallengeRow) → (is_unused r ≡ true) ↔ (r.used_at ≡ none)
is_unused_iff r = elim (Option-cases r.used_at) [
  | inl e ↦ (λ h. e, λ h. rw e)
  | inr (n, e) ↦ (λ h. absurd (used n e h), λ h. cc)
]
  where
    used : (n : ℕ) → r.used_at ≡ some n → is_unused r ≡ true → ⊥
    used n e h = ground arith

is_empty_iff : (s : Text) → (is_empty s ≡ true) ↔ (s ≡ [])
is_empty_iff [] = (λ e. refl, λ e. refl)
is_empty_iff (c ∷ s) = (λ e. cc, λ e. cc)

pub is_usable_iff :
    (now : ℕ) (kind user : Text) (r : ChallengeRow)
    → (is_usable (unix now) kind user r ≡ true) ↔ MayConsume now kind user r
is_usable_iff now kind user r = (
  λ h.
      ground
        (arith, same_iff r.kind kind, is_unused_iff r, same_iff r.user_id user, is_empty_iff user),
  λ m.
      ground
        (arith, same_iff r.kind kind, is_unused_iff r, same_iff r.user_id user, is_empty_iff user),
)

module _ {A : Type 0} (json : Codec A) where
  pub find_consumed :
      (now : ℕ) (id kind user : Text) (wants : Bool) (k : Text) (t : Challenges)
      → find k (consume_challenge json up now id kind user wants t).1 ≡ (
          if same id k
          then adjust (is_usable (unix now) kind user) (set_used (unix now)) (find k t)
          else find k t)
  unfolding consume_challenge
  find_consumed now id kind user wants k t =
      Keyed.find-update_at key (is_usable (unix now) kind user) _ (λ r. refl) id k t

  pub answer_consumed :
      (now : ℕ) (id kind user : Text) (wants : Bool) (t : Challenges)
      → Distinct t
      → (consume_challenge json up now id kind user wants t).0
        ≡ payload_of json wants (
            Option.map
              (λ (r : ChallengeRow). r.session_data)
              (keep_if (is_usable (unix now) kind user) (find id t)))
  unfolding consume_challenge
  answer_consumed now id kind user wants t d =
      ap (payload_of json wants)
        (Keyed.first-returning key _ (is_usable (unix now) kind user) id t d)

  -- ConsumeChallenge either finds an unused challenge of that kind within its deadline, which is
  -- the user's if a user is named, marks it used and answers from its payload; or it finds no such
  -- challenge, answers that it is invalid, and leaves it as it is.
  pub consume_exact :
      (now : ℕ) (id kind user : Text) (wants : Bool) (t : Challenges)
      → Distinct t
      → let (answer, t') = consume_challenge json up now id kind user wants t in
        ((r : ChallengeRow) × (find id t ≡ some r)
          × MayConsume now kind user r
          × (answer ≡ payload_of json wants (some r.session_data))
          × (find id t' ≡ some (set_used (unix now) r)))
        ⊎ ((¬ ((r : ChallengeRow) × (find id t ≡ some r) × MayConsume now kind user r))
            × (answer ≡ err invalid_challenge)
            × (find id t' ≡ find id t))
  unfolding payload_of
  consume_exact now id kind user wants t d =
      elim (hit_or_miss (is_usable (unix now) kind user) (find id t)) [
        | inl (r, e, m) ↦ inl (
          r,
          e,
          (is_usable_iff now kind user r).0 m,
          answer_consumed now id kind user wants t d ∙ rw (e, m),
          find_consumed now id kind user wants id t ∙ rw (same_refl id, e, m),
        )
        | inr (e, no_hit) ↦ inr (
          λ (r, q, m). ground (arith, no_hit r q, (is_usable_iff now kind user r).1 m),
          answer_consumed now id kind user wants t d ∙ rw e,
          find_consumed now id kind user wants id t
              ∙ rw (same_refl id) (adjust_miss (is_usable (unix now) kind user) _ (find id t) e),
        )
      ]

  pub Spent-refused :
      (now : ℕ) (id kind user : Text) (wants : Bool) (t : Challenges)
      → Distinct t
      → Spent id t
      → (consume_challenge json up now id kind user wants t).0 ≡ err invalid_challenge
  unfolding Spent payload_of
  Spent-refused now id kind user wants t d spent =
      answer_consumed now id kind user wants t d
      ∙ rw (
          keep_none (is_usable (unix now) kind user) (find id t) (λ r e. ground (arith, spent r e)))

  pub consumed-Spent :
      (now : ℕ) (id kind user : Text) (wants : Bool) (t : Challenges)
      → Distinct t
      → (consume_challenge json up now id kind user wants t).0 ≢ err invalid_challenge
      → Spent id (consume_challenge json up now id kind user wants t).1
  unfolding Spent
  consumed-Spent now id kind user wants t d done = elim (consume_exact now id kind user wants t d) [
    | inl (r, _, _, _, e) ↦ λ x q. ground arith
    | inr (_, a, _) ↦ absurd (done a)
  ]
