-- ===== src/Db/Auth/Challenges/Spent.antt =====
-- Challenges that are used, or gone, and what BeginChallenge does to any challenge.
use revaulter.Base.{
  Text, text_eq, same, is_empty, ◌≡◌, ◌⊎◌, inl, inr, refl, sym, ◌∙◌, Bool, true, false, ◌&&◌,
  Option, none, some, [], ◌∷◌, ◌++◌, arith, Bool-cases, Option-cases,
}
use revaulter.Sql.{Conn, up, down, update, adjust, drop_if}
use revaulter.Sql.Keyed
use revaulter.Json.{Codec}
use revaulter.Db.Auth.Challenges.{
  ChallengeRow, AuthChallenge, Challenges, key, find, Distinct, row_of, is_unused, set_payload,
  store_payload, store_challenge,
}

-- Used already, or not in the table.
unfoldable pub Spent : Text → Challenges → Type 0
Spent k t = (r : ChallengeRow) → find k t ≡ some r → is_unused r ≡ false

pub Spent-drop :
    (p : ChallengeRow → Bool) (k : Text) (t t' : Challenges)
    → find k t' ≡ drop_if p (find k t)
    → Spent k t
    → Spent k t'
unfolding Spent
Spent-drop p k t t' e spent r q = elim (Option-cases (find k t)) [
  | inl n ↦ ground arith
  | inr (x, n) ↦ ground (arith, spent x n)
]

pub Spent-adjust :
    (p : ChallengeRow → Bool) (f : ChallengeRow → ChallengeRow) (k : Text) (t t' : Challenges)
    → ((r : ChallengeRow) → is_unused r ≡ false → is_unused (f r) ≡ false)
    → find k t' ≡ adjust p f (find k t)
    → Spent k t
    → Spent k t'
unfolding Spent
Spent-adjust p f k t t' keeps e spent r q = elim (Option-cases (find k t)) [
  | inl n ↦ ground arith
  | inr (x, n) ↦ ground (arith, spent x n, keeps x (spent x n))
]

module _ {A : Type 0} (json : Codec A) where
  -- What the second statement of BeginChallenge does to the table, if anything.
  paid :
      (c : Conn) (a : AuthChallenge) (payload : Option A) (t : Challenges)
      → ((store_payload json c a payload t).1 ≡ t)
        ⊎ ((d : Text) × ((store_payload json c a payload t).1
              ≡ update (λ r. same r.id a.id && true) (set_payload d) t))
  unfolding store_payload
  paid c a none t = inl refl
  paid down a (some p) t = elim (Bool-cases (is_empty (json.marshal p))) [
    | inl e ↦ inl (rw e)
    | inr e ↦ inl (rw e)
  ]
  paid up a (some p) t = elim (Bool-cases (is_empty (json.marshal p))) [
    | inl e ↦ inl (rw e)
    | inr e ↦ inr (json.marshal p, rw e)
  ]

  store_payload-Distinct :
      (c : Conn) (a : AuthChallenge) (payload : Option A) (t : Challenges)
      → Distinct t
      → Distinct (store_payload json c a payload t).1
  store_payload-Distinct c a payload t d = elim (paid c a payload t) [
    | inl e ↦ rw e d
    | inr (x, e) ↦ rw e (Keyed.Distinct-update key _ _ (λ r. refl) t d)
  ]

  store_payload-Spent :
      (c : Conn) (a : AuthChallenge) (payload : Option A) (k : Text) (t : Challenges)
      → Spent k t
      → Spent k (store_payload json c a payload t).1
  store_payload-Spent c a payload k t spent = elim (paid c a payload t) [
    | inl e ↦ rw e spent
    | inr (x, e) ↦ rw e (
        Spent-adjust _ (set_payload x) k t _ (λ r h. h) (Keyed.find-update key _ _ (λ r. refl) k t)
          spent)
  ]

  -- What BeginChallenge does to the table: nothing, or it stores a new challenge.
  begun :
      (c₁ c₂ : Conn) (a : AuthChallenge) (payload : Option A) (t : Challenges)
      → ((store_challenge json c₁ c₂ a payload t).1 ≡ t)
        ⊎ ((find a.id t ≡ none)
            × ((store_challenge json c₁ c₂ a payload t).1
                ≡ (store_payload json c₂ a payload (t ++ row_of a ∷ [])).1))
  unfolding store_challenge
  begun c₁ c₂ a payload t = elim (Bool-cases (is_empty a.challenge)) [
    | inl e ↦ inl (rw e)
    | inr e ↦ ran c₁ e
  ]
    where
      ran :
          (c₁ : Conn)
          → is_empty a.challenge ≡ false
          → ((store_challenge json c₁ c₂ a payload t).1 ≡ t)
            ⊎ ((find a.id t ≡ none)
                × ((store_challenge json c₁ c₂ a payload t).1
                    ≡ (store_payload json c₂ a payload (t ++ row_of a ∷ [])).1))
      ran down e = inl (rw e)
      ran up e = elim (Option-cases (find a.id t)) [
        | inl n ↦ inr (n, rw (e, store_challenge, n))
        | inr (r, n) ↦ inl (rw (e, store_challenge, n))
      ]

  pub store_challenge-Distinct :
      (c₁ c₂ : Conn) (a : AuthChallenge) (payload : Option A) (t : Challenges)
      → Distinct t
      → Distinct (store_challenge json c₁ c₂ a payload t).1
  store_challenge-Distinct c₁ c₂ a payload t d = elim (begun c₁ c₂ a payload t) [
    | inl e ↦ rw e d
    | inr (n, e) ↦
        rw e (store_payload-Distinct c₂ a payload _ (Keyed.Distinct-append key t (row_of a) n d))
  ]

  pub store_challenge-Spent :
      (c₁ c₂ : Conn) (a : AuthChallenge) (payload : Option A) (k : Text) (t : Challenges)
      → same a.id k ≡ false
      → Spent k t
      → Spent k (store_challenge json c₁ c₂ a payload t).1
  unfolding Spent
  store_challenge-Spent c₁ c₂ a payload k t other spent = elim (begun c₁ c₂ a payload t) [
    | inl e ↦ rw e spent
    | inr (n, e) ↦ rw e (
        store_payload-Spent c₂ a payload k _
          (λ r q. spent r (sym (Keyed.find-append_fresh key k t (row_of a) n ∙ rw other) ∙ q)))
  ]
