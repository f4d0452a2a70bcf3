-- ===== src/Server/Notifications/Safe.antt =====
-- The long-polls never make the server panic: no channel is closed twice, or used once closed.

use revaulter.Base.{
  ℕ, ◌<◌, Text, same_refl, ◌≡◌, ◌≢◌, refl, sym, ◌∙◌, inl, inr, true, false, Option, none, some,
  List, [], ◌∷◌, arith, Bool-cases, Option-cases, ◌==◌, ==_iff, if◌then◌else◌,
}
use revaulter.Chan.{Chan, Heap, put, close, try_send}
use revaulter.Server.Notifications.{
  Hub, set_sub, new_sub, subscribe_state, unsubscribe_state, notify_subscriber,
}
use revaulter.Server.Notifications.Valid.{
  idle, Valid, stayed, ended, started, Step, some_inj, Valid-step,
}

-- A channel that was closed with nothing sent on it, and one that was notified.
abbrev pub evicted : Chan (Unit {0})
evicted = record { capacity = 1; buffer = []; is_closed = true }

abbrev pub woken : Chan (Unit {0})
woken = record { capacity = 1; buffer = tt ∷ []; is_closed = true }

-- A channel between the send and the close of a notification.
abbrev sent : Chan (Unit {0})
sent = record { capacity = 1; buffer = tt ∷ []; is_closed = false }

self : (i : ℕ) → (i == i) ≡ true
self i = (==_iff i i).1 refl

close-idle : (i : ℕ) (h : Heap (Unit {0})) → h.get i ≡ idle → close i h ≡ some (put i evicted h)
unfolding close
close-idle i h e = rw e

module _ (k : Text) (s : Hub) (v : Valid s) where
  -- What ending the subscription of `k`, whose channel is `i`, leaves.
  ending :
      (i : ℕ) (c : Chan (Unit {0})) (h : Heap (Unit {0}))
      → s.subs k ≡ some i
      → h.next ≡ s.chans.next
      → ((j : ℕ) → h.get j ≡ (if i == j then c else s.chans.get j))
      → Step k s (record { chans = h; subs = set_sub k none s.subs })
  ending i c h e n g = record {
    grows = omega (arith, n);
    others = λ k' q. rw q;
    keeps = λ j l x. g j ∙ apart j x;
    mine = ended (rw (same_refl k));
  }
    where
      apart : (j : ℕ) → s.subs k ≢ some j → (if i == j then c else s.chans.get j) ≡ s.chans.get j
      apart j x = ground (arith, ==_iff i j)

  unchanged : Step k s s
  unchanged = record {
    grows = omega arith;
    others = λ k' q. refl;
    keeps = λ j l x. refl;
    mine = stayed refl;
  }

  pub unsubscribe_safe :
      (watch : ℕ) → (s' : Hub) × (unsubscribe_state k watch s ≡ some s') × Step k s s'
  unfolding unsubscribe_state
  unsubscribe_safe watch = elim (Option-cases (s.subs k)) [
    | inl e ↦ (s, rw (unsubscribe_state, e), unchanged)
    | inr (i, e) ↦ elim (Bool-cases (i == watch)) [
      | inl q ↦ (
        _,
        rw (unsubscribe_state, e, q, close-idle i s.chans (v.waits k i e)),
        ending i evicted (put i evicted s.chans) e refl (λ j. refl),
      )
      | inr q ↦ (s, rw (unsubscribe_state, e, q), unchanged)
    ]
  ]

  -- The heap after the send and the close of notifySubscriber.
  told : ℕ → Heap (Unit {0})
  told i = put i woken (put i sent s.chans)

  told_get : (i j : ℕ) → (told i).get j ≡ (if i == j then woken else s.chans.get j)
  unfolding told
  told_get i j = elim (Bool-cases (i == j)) [ inl q ↦ rw q | inr q ↦ rw q ]

  send_idle : (i : ℕ) → s.chans.get i ≡ idle → try_send i tt s.chans ≡ some (put i sent s.chans)
  unfolding try_send
  send_idle i e = rw e

  close-sent : (i : ℕ) → close i (put i sent s.chans) ≡ some (told i)
  unfolding close told
  close-sent i = rw (self i)

  -- A notification wakes whoever waits for the state, ends the subscription, and panics on nothing.
  pub notify_safe :
      (s' : Hub) × (notify_subscriber k s ≡ some s')
      × Step k s s'
      × ((i : ℕ) → s.subs k ≡ some i → (s'.chans.get i ≡ woken) × (s'.subs k ≡ none))
  unfolding notify_subscriber told
  notify_safe = elim (Option-cases (s.subs k)) [
    | inl e ↦ (s, rw (notify_subscriber, e), unchanged, λ i q. absurd (no_sub e q))
    | inr (i, e) ↦ (
      record { chans = told i; subs = set_sub k none s.subs },
      rw (notify_subscriber, e, send_idle i (v.waits k i e), close-sent i),
      ending i woken (told i) e refl (told_get i),
      λ j q. (told_get i j ∙ rw (same_channel e q), rw (same_refl k)),
    )
  ]
    where
      no_sub : {j : ℕ} → s.subs k ≡ none → s.subs k ≡ some j → ⊥
      no_sub e q = cc

      same_channel : {i j : ℕ} → s.subs k ≡ some i → s.subs k ≡ some j → (i == j) ≡ true
      same_channel {i = i} {j = j} e q = (==_iff i j).1 (some_inj (sym e ∙ q))

  -- The heap once subscribeState has closed the channel of the previous subscription, if any.
  subscribe_new :
      (h : Heap (Unit {0}))
      → h.next ≡ s.chans.next
      → ((j : ℕ) → j < s.chans.next → s.subs k ≢ some j → h.get j ≡ s.chans.get j)
      → Step k s (new_sub k s.subs h).1
  subscribe_new h n g = record {
    grows = omega (arith, n);
    others = λ k' q. rw q;
    keeps = λ j l x. rw (apart j l) (g j l x);
    mine = started (rw (same_refl k, n)) (rw (n, self s.chans.next)) (omega (arith, n));
  }
    where
      apart : (j : ℕ) → j < s.chans.next → (h.next == j) ≡ false
      apart j l = ground (arith, n)

  -- A subscription always succeeds, on a new channel; whoever waited for the state is evicted: its
  -- channel is closed with nothing on it.
  pub subscribe_safe :
      (s' : Hub) × (subscribe_state k s ≡ some (s.chans.next, s'))
      × Step k s s'
      × (s'.subs k ≡ some s.chans.next)
      × ((i : ℕ) → s.subs k ≡ some i → s'.chans.get i ≡ evicted)
  unfolding subscribe_state
  subscribe_safe = elim (Option-cases (s.subs k)) [
    | inl e ↦ (
      (new_sub k s.subs s.chans).1,
      rw (subscribe_state, e),
      subscribe_new s.chans refl (λ j l x. refl),
      rw (same_refl k),
      λ i q. absurd (no_sub e q),
    )
    | inr (i, e) ↦ (
      (new_sub k s.subs (put i evicted s.chans)).1,
      rw (subscribe_state, e, close-idle i s.chans (v.waits k i e)),
      subscribe_new (put i evicted s.chans) refl (λ j l x. rw (apart j e x)),
      rw (same_refl k),
      λ j q. rw (old j q, same_channel e q),
    )
  ]
    where
      no_sub : {j : ℕ} → s.subs k ≡ none → s.subs k ≡ some j → ⊥
      no_sub e q = cc

      apart : {i : ℕ} (j : ℕ) → s.subs k ≡ some i → s.subs k ≢ some j → (i == j) ≡ false
      apart {i = i} j e x = ground (arith, ==_iff i j)

      same_channel : {i j : ℕ} → s.subs k ≡ some i → s.subs k ≡ some j → (i == j) ≡ true
      same_channel {i = i} {j = j} e q = (==_iff i j).1 (some_inj (sym e ∙ q))

      old : (j : ℕ) → s.subs k ≡ some j → (s.chans.next == j) ≡ false
      old j q = ground (arith, v.made k j q)

pub data Operation : Type 0 where
  subscribes : Text → Operation
  unsubscribes : Text → ℕ → Operation
  notifies : Text → Operation

abbrev pub state_of : Operation → Text
state_of (subscribes k) = k
state_of (unsubscribes k i) = k
state_of (notifies k) = k

-- Without the channel that a subscription answers with.
abbrev pub without_channel : Option (ℕ × Hub) → Option Hub
without_channel none = none
without_channel (some m) = some m.1

unfoldable pub step : Operation → Hub → Option Hub
step (subscribes k) s = without_channel (subscribe_state k s)
step (unsubscribes k i) s = unsubscribe_state k i s
step (notifies k) s = notify_subscriber k s

unfoldable pub run : List Operation → Hub → Option Hub
run [] s = some s
run (o ∷ os) s = elim (step o s) [ none ↦ none | some s' ↦ run os s' ]

pub step_safe :
    (o : Operation) (s : Hub) → Valid s → (s' : Hub) × (step o s ≡ some s') × Step (state_of o) s s'
unfolding step
step_safe (subscribes k) s v = let (s', e, t, _, _) = subscribe_safe k s v in (s', rw e, t)
step_safe (unsubscribes k i) s v = unsubscribe_safe k s v i
step_safe (notifies k) s v = let (s', e, t, _) = notify_safe k s v in (s', e, t)

-- No sequence of subscriptions, their ends and notifications panics: from a valid state, of which
-- the server's first one is an example, every run gives a state, and that one is valid.
pub run_safe :
    (os : List Operation) (s : Hub) → Valid s → (s' : Hub) × (run os s ≡ some s') × Valid s'
unfolding run
run_safe [] s v = (s, refl, v)
run_safe (o ∷ os) s v =
    let (s', e, t) = step_safe o s v in
    let (s'', e', v') = run_safe os s' (Valid-step (state_of o) s s' v t) in
    (s'', rw (run, e) e', v')
