-- ===== src/Server/Notifications/Valid.antt =====
-- What the server keeps true of its subscriptions, whatever an operation does to one of them.

use revaulter.Base.{
  ℕ, ◌<◌, ◌≤◌, Text, same, same_iff, ◌≡◌, ◌≢◌, sym, ap, ◌∙◌, ◌⊎◌, inl, inr, false, none, some, [],
  arith, Bool-cases,
}
use revaulter.Chan.{Chan}
use revaulter.Server.Notifications.{Hub}

-- A channel as `make` left it.
abbrev pub idle : Chan (Unit {0})
idle = record { capacity = 1; buffer = []; is_closed = false }

-- Every subscription has an open channel of its own, on which nothing was sent.
pub record Valid (s : Hub) : Type 0 where
  pub made : (k : Text) (i : ℕ) → s.subs k ≡ some i → i < s.chans.next
  pub waits : (k : Text) (i : ℕ) → s.subs k ≡ some i → s.chans.get i ≡ idle
  pub single : (k k' : Text) (i : ℕ) → s.subs k ≡ some i → s.subs k' ≡ some i → k ≡ k'

-- What becomes of the subscription that an operation is about: it stays, it ends, or it is a new
-- one.
pub data Outcome (k : Text) (s s' : Hub) : Type 0 where
  stayed : s' ≡ s → Outcome k s s'
  ended : s'.subs k ≡ none → Outcome k s s'
  started :
      s'.subs k ≡ some s.chans.next
      → s'.chans.get s.chans.next ≡ idle
      → s.chans.next < s'.chans.next
      → Outcome k s s'

-- What an operation on a state leaves: every other subscription, and every channel but its own.
pub record Step (k : Text) (s s' : Hub) : Type 0 where
  pub grows : s.chans.next ≤ s'.chans.next
  pub others : (k' : Text) → same k k' ≡ false → s'.subs k' ≡ s.subs k'
  pub keeps : (j : ℕ) → j < s.chans.next → s.subs k ≢ some j → s'.chans.get j ≡ s.chans.get j
  pub mine : Outcome k s s'

pub some_inj : {A : Type 0} {a b : A} → some a ≡ some b → a ≡ b
some_inj e = cc

module _ (k : Text) (s s' : Hub) (v : Valid s) (t : Step k s s') where
  -- A subscription after the step is one of before, or the new one.
  unfoldable pub Source : Text → ℕ → Type 0
  Source k' i =
      ((s.subs k' ≡ some i) × (s'.chans.get i ≡ s.chans.get i))
      ⊎ ((k ≡ k') × (i ≡ s.chans.next) × (s'.chans.get i ≡ idle) × (i < s'.chans.next))

  pub source : (k' : Text) (i : ℕ) → s'.subs k' ≡ some i → Source k' i
  unfolding Source
  source k' i e = elim (Bool-cases (same k k')) [
    | inl q ↦ here ((same_iff k k').0 q) t.mine
    | inr q ↦ inl (
      sym (t.others k' q) ∙ e,
      t.keeps i (v.made k' i (sym (t.others k' q) ∙ e))
          (λ x. ground (arith, same_iff k k', v.single k k' i x (sym (t.others k' q) ∙ e))),
    )
  ]
    where
      here : k ≡ k' → Outcome k s s' → Source k' i
      here q (stayed p) = inl (sym (ap (λ h. h.subs k') p) ∙ e, ap (λ h. h.chans.get i) p)
      here q (ended p) = absurd (gone (sym p ∙ ap s'.subs q ∙ e))
        where
          gone : none ≡ some i → ⊥
          gone x = cc
      here q (started p c l) =
          let new : i ≡ s.chans.next = sym (some_inj (sym p ∙ ap s'.subs q ∙ e)) in
          inr (q, new, rw new c, rw new l)

  pub Valid-step : Valid s'
  unfolding Source
  Valid-step = record {
    made = λ k' i e. elim (source k' i e) [
      | inl (p, c) ↦ ground (arith, v.made k' i p, t.grows)
      | inr (q, n, c, l) ↦ l
    ];
    waits =
        λ k' i e. elim (source k' i e) [ inl (p, c) ↦ c ∙ v.waits k' i p | inr (q, n, c, l) ↦ c ];
    single = λ k₁ k₂ i e₁ e₂. elim (source k₁ i e₁) [
      | inl (p₁, c₁) ↦ elim (source k₂ i e₂) [
        | inl (p₂, c₂) ↦ v.single k₁ k₂ i p₁ p₂
        | inr (q₂, n₂, c₂, l₂) ↦ absurd (old p₁ n₂)
      ]
      | inr (q₁, n₁, c₁, l₁) ↦ elim (source k₂ i e₂) [
        | inl (p₂, c₂) ↦ absurd (old p₂ n₁)
        | inr (q₂, n₂, c₂, l₂) ↦ sym q₁ ∙ q₂
      ]
    ];
  }
    where
      old : {k' : Text} {i : ℕ} → s.subs k' ≡ some i → i ≡ s.chans.next → ⊥
      old {k' = k'} {i = i} p n = omega (arith, v.made k' i p, n)
