-- ===== src/Utils/Broker/Delivery.antt =====
-- The broker never panics and never queues more than eight messages for anyone, and a message
-- reaches every subscriber that has room for it.
use revaulter.Base.{
  ℕ, ◌≤◌, ◌≡◌, refl, ap, ◌∙◌, Bool, true, false, Option, none, some, List, [], ◌∷◌, length, ◌==◌,
  ==_iff, arith, Bool-cases, inl, inr, if◌then◌else◌, if_cases,
}
use revaulter.Chan.{Chan, Heap, put, make}
use revaulter.Utils.Broker.{
  Broker, has, remove, send_all, subscribe, unsubscribe, shutdown, publish,
}
use revaulter.Utils.Broker.Valid.{
  Unique, Open, Valid, offered, shut, Open-offered, send_all_safe, close_all_safe, close_open,
  at_index,
}

-- A method of the broker, or a subscriber's receive.
pub data Operation {ℓ} (T : Type ℓ) : Type ℓ where
  subscribes : Operation T
  unsubscribes : ℕ → Operation T
  shuts_down : Operation T
  publishes : T → Operation T
  receives : ℕ → Operation T

has-remove :
    (i j : ℕ) (l : List ℕ) → has j (remove i l) ≡ true → (has j l ≡ true) × ((i == j) ≡ false)
has-remove i j [] h = absurd (ground arith)
has-remove i j (k ∷ l) h = ground (arith, has-remove i j l, ==_iff k i, ==_iff k j, ==_iff i j)

absent-remove : (i j : ℕ) (l : List ℕ) → has j l ≡ false → has j (remove i l) ≡ false
absent-remove i j [] h = refl
absent-remove i j (k ∷ l) h = ground (arith, absent-remove i j l)

Unique-remove : (i : ℕ) (l : List ℕ) → Unique l → Unique (remove i l)
Unique-remove i [] u = u
Unique-remove i (k ∷ l) u = ground (arith, Unique-remove i l u.1, absent-remove i k l u.0)

module _ {ℓ} {T : Type ℓ} where
  -- A subscriber receives from its channel.
  abbrev pub rest : List T → List T
  rest [] = []
  rest (x ∷ xs) = xs

  abbrev pub receive_one : ℕ → Broker T → Broker T
  receive_one i b = record b {
    chans = put i (record (b.chans.get i) { buffer = rest (b.chans.get i).buffer }) b.chans;
  }

  Valid-subscribe : (b : Broker T) → Valid b → Valid (subscribe b).1
  unfolding subscribe
  Valid-subscribe b v =
      if_cases (λ (m : Option ℕ × Broker T). Valid m.1) b.is_stopped (λ _. v) (λ _. with_new)
    where
      opened : (i : ℕ) → has i (b.chans.next ∷ b.subscribers) ≡ true → Open ((make 8 b.chans).get i)
      opened i m = elim (Bool-cases (b.chans.next == i)) [
        | inl q ↦ rw q (record { unclosed = refl; room = refl; bound = omega arith })
        | inr q ↦ rw q (v.opens i (ground arith))
      ]

      with_new :
          Valid (record b { subscribers = b.chans.next ∷ b.subscribers; chans = make 8 b.chans })
      with_new = record {
        made = λ i m. ground (arith, v.made i, ==_iff b.chans.next i);
        opens = opened;
        unique = (ground (arith, v.made b.chans.next), v.unique);
      }

  -- After a step that changes channels only: those of the subscribers stay open.
  Valid-chans :
      (f : Chan T → Chan T) (b : Broker T) (p : ℕ → Bool) (h : Heap T)
      → Valid b
      → h.next ≡ b.chans.next
      → ((c : Chan T) → Open c → Open (f c))
      → ((j : ℕ) → h.get j ≡ (if p j then f (b.chans.get j) else b.chans.get j))
      → Valid (record b { chans = h })
  Valid-chans f b p h v n keeps g = record {
    made = λ i m. omega (arith, n, v.made i m);
    opens = λ i m. elim (Bool-cases (p i)) [
      | inl q ↦ rw (g i, q) (keeps _ (v.opens i m))
      | inr q ↦ rw (g i, q) (v.opens i m)
    ];
    unique = v.unique;
  }

  unclosed :
      (b : Broker T)
      → Valid b
      → (j : ℕ) → has j b.subscribers ≡ true
      → (b.chans.get j).is_closed ≡ false
  unclosed b v j m = (v.opens j m).unclosed

  running :
      (x : T) (b : Broker T) (h : Heap T)
      → b.is_stopped ≡ false
      → send_all x b.subscribers b.chans ≡ some h
      → publish x b ≡ some (record b { chans = h })
  unfolding publish
  running x b h run e =
      ap
        (λ t. if t then some b else elim (send_all x b.subscribers b.chans) [
          | none ↦ none
          | some h' ↦ some (record b { chans = h' })
        ])
        run
      ∙ ap (λ o. elim o [ none ↦ none | some h' ↦ some (record b { chans = h' }) ]) e

  -- When the broker runs, Publish appends the message for every subscriber with room, drops it for
  -- those without, leaves every other channel and the subscribers as they are, and does not panic.
  pub publish_delivers :
      (x : T) (b : Broker T)
      → Valid b
      → b.is_stopped ≡ false
      → (b' : Broker T) × (publish x b ≡ some b')
        × ((j : ℕ)
            → b'.chans.get j
              ≡ (if has j b.subscribers then offered x (b.chans.get j) else b.chans.get j))
        × (b'.subscribers ≡ b.subscribers)
        × Valid b'
  unfolding publish
  publish_delivers x b v run =
      let (h, e, t) = send_all_safe x b.subscribers b.chans v.unique (unclosed b v) in
      (
        record b { chans = h },
        running x b h run e,
        t.each,
        refl,
        Valid-chans (offered x) b (λ j. has j b.subscribers) h v t.same_next (Open-offered x)
            t.each,
      )

  -- A shutdown closes every subscriber's channel and no other; then nothing is sent or subscribed.
  pub shutdown_closes :
      (b : Broker T)
      → Valid b
      → (b' : Broker T) × (shutdown b ≡ some b')
        × ((j : ℕ)
            → b'.chans.get j
              ≡ (if has j b.subscribers then shut (b.chans.get j) else b.chans.get j))
        × ((x : T) → publish x b' ≡ some b')
        × (subscribe b' ≡ (none, b'))
        × Valid b'
  unfolding shutdown publish subscribe
  shutdown_closes b v =
      let (h, e, t) = close_all_safe b.subscribers b.chans v.unique (unclosed b v) in
      (
        record { subscribers = []; is_stopped = true; chans = h },
        rw (shutdown, e),
        t.each,
        λ x. refl,
        refl,
        record { made = λ i m. cc; opens = λ i m. cc; unique = tt },
      )

  unsubscribe_safe :
      (ch : ℕ) (b : Broker T) → Valid b → (b' : Broker T) × (unsubscribe ch b ≡ some b') × Valid b'
  unfolding unsubscribe
  unsubscribe_safe ch b v = elim (Bool-cases (has ch b.subscribers)) [
    | inr q ↦ (b, rw (unsubscribe, q), v)
    | inl q ↦
        let (h, e, n, g) = close_open ch b.chans (unclosed b v ch q) in
        (
          record b { subscribers = remove ch b.subscribers; chans = h },
          rw (unsubscribe, q, e),
          record {
            made = λ i m. omega (arith, n, v.made i (has-remove ch i b.subscribers m).0);
            opens = λ i m.
                let (mine, other) = has-remove ch i b.subscribers m in
                rw (g i, other) (v.opens i mine);
            unique = Unique-remove ch b.subscribers v.unique;
          },
        )
  ]

  publish_safe :
      (x : T) (b : Broker T) → Valid b → (b' : Broker T) × (publish x b ≡ some b') × Valid b'
  unfolding publish
  publish_safe x b v = elim (Bool-cases b.is_stopped) [
    | inl q ↦ (b, rw (publish, q), v)
    | inr q ↦ let (b', e, _, _, v') = publish_delivers x b v q in (b', e, v')
  ]

  Open-rest : (c : Chan T) → Open c → Open (record c { buffer = rest c.buffer })
  Open-rest c o = record { unclosed = o.unclosed; room = o.room; bound = shorter c.buffer o.bound }
    where
      shorter : (l : List T) → length l ≤ 8 → length (rest l) ≤ 8
      shorter [] b = b
      shorter (x ∷ xs) b = omega (arith, b)

  Valid-receive : (i : ℕ) (b : Broker T) → Valid b → Valid (receive_one i b)
  Valid-receive i b v =
      Valid-chans (λ c. record c { buffer = rest c.buffer }) b (λ j. i == j) _ v refl Open-rest
        (λ j. at_index (λ c. record c { buffer = rest c.buffer }) i j b.chans)

  unfoldable pub step : Operation T → Broker T → Option (Broker T)
  step subscribes b = some (subscribe b).1
  step (unsubscribes ch) b = unsubscribe ch b
  step shuts_down b = shutdown b
  step (publishes x) b = publish x b
  step (receives i) b = some (receive_one i b)

  unfoldable pub run : List (Operation T) → Broker T → Option (Broker T)
  run [] b = some b
  run (o ∷ os) b = elim (step o b) [ none ↦ none | some b' ↦ run os b' ]

  step_safe :
      (o : Operation T) (b : Broker T) → Valid b → (b' : Broker T) × (step o b ≡ some b') × Valid b'
  unfolding step
  step_safe subscribes b v = (_, refl, Valid-subscribe b v)
  step_safe (unsubscribes ch) b v = unsubscribe_safe ch b v
  step_safe shuts_down b v = let (b', e, _, _, _, v') = shutdown_closes b v in (b', e, v')
  step_safe (publishes x) b v = publish_safe x b v
  step_safe (receives i) b v = (_, refl, Valid-receive i b v)

  -- No sequence of the broker's methods and of receives panics, and after each one every
  -- subscriber has its own open channel with at most eight messages on it.
  pub broker_safe :
      (os : List (Operation T)) (b : Broker T)
      → Valid b
      → (b' : Broker T) × (run os b ≡ some b') × Valid b'
  unfolding run
  broker_safe [] b v = (b, refl, v)
  broker_safe (o ∷ os) b v =
      let (b', e, v') = step_safe o b v in
      let (b'', e', v'') = broker_safe os b' v' in (b'', rw (run, e) e', v'')
