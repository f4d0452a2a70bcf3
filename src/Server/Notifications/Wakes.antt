-- ===== src/Server/Notifications/Wakes.antt =====
-- A long-poll learns which of the two happened: its request was notified, or another long-poll took
-- over.
use mathlib.Core.Path.{subst}
use revaulter.Base.{
  ◌++◌, Option-cases, inl, inr, ℕ, ◌<◌, Text, same, ◌≡◌, ◌≢◌, refl, sym, ap, ◌∙◌, false, none, some,
  List, [], ◌∷◌, arith, All,
}
use revaulter.Chan.{Chan, value, drained, receive}
use revaulter.Server.Notifications.{Hub, subscribe_state}
use revaulter.Server.Notifications.Valid.{Source, source, Valid, Step, some_inj, Valid-step}
use revaulter.Server.Notifications.Safe.{
  subscribes, notifies, evicted, woken, Operation, state_of, step, run, step_safe, subscribe_safe,
  notify_safe,
}

-- A channel that no subscription holds any more.
pub record Retired (i : ℕ) (s : Hub) : Type 0 where
  pub made : i < s.chans.next
  pub unheld : (k : Text) → s.subs k ≢ some i

Retired-Step :
    (k : Text) (i : ℕ) (s s' : Hub)
    → Valid s
    → Step k s s'
    → Retired i s
    → Retired i s' × (s'.chans.get i ≡ s.chans.get i)
unfolding Source
Retired-Step k i s s' v t r = (
  record {
    made = omega (arith, r.made, t.grows);
    unheld = λ k' e. elim (source k s s' v t k' i e) [
      | inl (p, c) ↦ r.unheld k' p
      | inr (q, n, c, l) ↦ omega (arith, r.made, n)
    ];
  },
  t.keeps i r.made (r.unheld k),
)

-- Nothing touches its channel again.
Retired-stays :
    (os : List Operation) (i : ℕ) (s : Hub)
    → Valid s
    → Retired i s
    → (s' : Hub) × (run os s ≡ some s') × (s'.chans.get i ≡ s.chans.get i)
unfolding run
Retired-stays [] i s v r = (s, refl, refl)
Retired-stays (o ∷ os) i s v r =
    let (s', e, t) = step_safe o s v in
    let (r', c) = Retired-Step (state_of o) i s s' v t r in
    let (s'', e', c') = Retired-stays os i s' (Valid-step (state_of o) s s' v t) r' in
    (s'', rw (run, e) e', c' ∙ c)

-- Operations on other states leave a subscription as it is.
waiting_stays :
    (os : List Operation) (k : Text) (i : ℕ) (s : Hub)
    → Valid s
    → s.subs k ≡ some i
    → All (λ o. same (state_of o) k ≡ false) os
    → (s' : Hub) × (run os s ≡ some s') × Valid s' × (s'.subs k ≡ some i)
unfolding run
waiting_stays [] k i s v e a = (s, refl, v, e)
waiting_stays (o ∷ os) k i s v e a =
    let (s', q, t) = step_safe o s v in
    let (s'', q', v', e') =
      waiting_stays os k i s' (Valid-step (state_of o) s s' v t) (t.others k a.0 ∙ e) a.1 in
    (s'', rw (run, q) q', v', e')

run-append :
    (os os' : List Operation) (s s' : Hub) → run os s ≡ some s' → run (os ++ os') s ≡ run os' s'
unfolding run
run-append [] os' s s' e = ap (run os') (some_inj e)
run-append (o ∷ os) os' s s' e = elim (Option-cases (step o s)) [
  | inl q ↦ absurd (stuck q)
  | inr (s₁, q) ↦ rw (run, q) (run-append os os' s₁ s' (sym (ran q) ∙ e))
]
  where
    stuck : step o s ≡ none → ⊥
    stuck q = ground arith

    ran : {s₁ : Hub} → step o s ≡ some s₁ → run (o ∷ os) s ≡ run os s₁
    ran q = rw (run, q)

-- Once the operation that ends a subscription has run, its channel is retired.
retires :
    (k : Text) (i : ℕ) (s s' : Hub)
    → Valid s
    → Step k s s'
    → s.subs k ≡ some i
    → s'.subs k ≢ some i
    → Retired i s'
unfolding Source
retires k i s s' v t e x = record {
  made = omega (arith, v.made k i e, t.grows);
  unheld = λ k' q. elim (source k s s' v t k' i q) [
    | inl (p, c) ↦ x (ap s'.subs (v.single k k' i e p) ∙ q)
    | inr (w, n, c, l) ↦ omega (arith, v.made k i e, n)
  ];
}

module _ (k : Text) (i : ℕ) (s s₁ : Hub) (before after : List Operation) (v : Valid s)
    (sub : subscribe_state k s ≡ some (i, s₁))
    (elsewhere : All (λ o. same (state_of o) k ≡ false) before) where
  -- What the channel holds in the end, if an operation on the state leaves it so.
  outcome :
      (o : Operation) (c : Chan (Unit {0}))
      → ((s₂ : Hub)
          → Valid s₂
          → s₂.subs k ≡ some i
          → (s₃ : Hub) × (step o s₂ ≡ some s₃)
            × Step k s₂ s₃
            × (s₃.subs k ≢ some i)
            × (s₃.chans.get i ≡ c))
      → (s' : Hub) × (run (before ++ o ∷ after) s₁ ≡ some s') × (s'.chans.get i ≡ c)
  unfolding run
  outcome o c ends =
      let (s', e, t, mine, _) = subscribe_safe k s v in
      let got : (s.chans.next, s') ≡ (i, s₁) = some_inj (sym e ∙ sub) in
      let v₁ : Valid s₁ = subst Valid (ap (λ m. m.1) got) (Valid-step k s s' v t) in
      let e₁ : s₁.subs k ≡ some i =
        ap (λ m. m.1.subs k) (sym got) ∙ mine ∙ ap (λ m. some m.0) got in
      let (s₂, r₂, v₂, e₂) = waiting_stays before k i s₁ v₁ e₁ elsewhere in
      let (s₃, q, t₃, x, g) = ends s₂ v₂ e₂ in
      let (s₄, r₄, g₄) =
        Retired-stays after i s₃ (Valid-step k s₂ s₃ v₂ t₃) (retires k i s₂ s₃ v₂ t₃ e₂ x) in
      (s₄, run-append before (o ∷ after) s₁ s₂ r₂ ∙ rw (run, q) r₄, g₄ ∙ g)

  -- A long-poll that subscribed to a state, and whose state is notified before anyone else uses
  -- it, receives the notification, whatever happens before on other states and after on any.
  pub poll_notified :
      (s' : Hub) × (run (before ++ notifies k ∷ after) s₁ ≡ some s')
      × (receive (s'.chans.get i) ≡ value tt)
  unfolding step
  poll_notified =
      let (s', r, g) = outcome (notifies k) woken (λ s₂ v₂ e₂.
        let (s₃, q, t, f) = notify_safe k s₂ v₂ in
        (s₃, q, t, λ x. gone s₃ (f i e₂).1 x, (f i e₂).0)) in
      (s', r, rw g)
    where
      gone : (s₃ : Hub) → s₃.subs k ≡ none → s₃.subs k ≡ some i → ⊥
      gone s₃ p x = cc

  -- A long-poll that subscribed to a state which another long-poll then takes over, before any
  -- notification, finds its channel closed with nothing on it, whatever happens before on other
  -- states and after on any.
  pub poll_evicted :
      (s' : Hub) × (run (before ++ subscribes k ∷ after) s₁ ≡ some s')
      × (receive (s'.chans.get i) ≡ drained)
  unfolding step
  poll_evicted =
      let (s', r, g) = outcome (subscribes k) evicted (λ s₂ v₂ e₂.
        let (s₃, q, t, p, f) = subscribe_safe k s₂ v₂ in
        (s₃, rw q, t, λ x. new s₂ v₂ e₂ (some_inj (sym p ∙ x)), f i e₂)) in
      (s', r, rw g)
    where
      new : (s₂ : Hub) → Valid s₂ → s₂.subs k ≡ some i → s₂.chans.next ≡ i → ⊥
      new s₂ v₂ e₂ p = omega (arith, v₂.made k i e₂, p)
