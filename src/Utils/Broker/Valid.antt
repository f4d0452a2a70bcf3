-- ===== src/Utils/Broker/Valid.antt =====
-- The loops of the broker on open channels: none panics, and what each leaves of every channel.
use revaulter.Base.{
  ℕ, ◌≤◌, ◌<◌, ◌≡◌, refl, sym, ap, ◌∙◌, true, false, some, List, [], ◌∷◌, ◌++◌, length,
  length-append, ltb, ◌==◌, ==_iff, arith, Bool-cases, inl, inr, if◌then◌else◌, if_cases,
}
use revaulter.Chan.{Chan, Heap, put, close, try_send}
use revaulter.Utils.Broker.{Broker, has, close_all, send_all}

-- No channel twice.
abbrev pub Unique : List ℕ → Type 0
Unique [] = Unit
Unique (i ∷ is) = (has i is ≡ false) × Unique is

module _ {ℓ} {T : Type ℓ} where
  -- A subscriber's channel: open, and with at most eight messages on it.
  pub record Open (c : Chan T) : Type ℓ where
    pub unclosed : c.is_closed ≡ false
    pub room : c.capacity ≡ 8
    pub bound : length c.buffer ≤ 8

  pub record Valid (b : Broker T) : Type ℓ where
    pub made : (i : ℕ) → has i b.subscribers ≡ true → i < b.chans.next
    pub opens : (i : ℕ) → has i b.subscribers ≡ true → Open (b.chans.get i)
    pub unique : Unique b.subscribers

  -- A channel that the message was sent to, or dropped for.
  abbrev pub offered : T → Chan T → Chan T
  offered x c =
      if ltb (length c.buffer) c.capacity then record c { buffer = c.buffer ++ x ∷ [] } else c

  abbrev pub shut : Chan T → Chan T
  shut c = record c { is_closed = true }

  pub Open-offered : (x : T) (c : Chan T) → Open c → Open (offered x c)
  Open-offered x c o =
      if_cases Open (ltb (length c.buffer) c.capacity)
        (λ e. record {
          unclosed = o.unclosed;
          room = o.room;
          bound = ground (arith, length-append c.buffer (x ∷ []), o.room);
        })
        (λ e. o)

  pub at_index :
      (f : Chan T → Chan T) (i j : ℕ) (h : Heap T)
      → (if i == j then f (h.get i) else h.get j) ≡ (if i == j then f (h.get j) else h.get j)
  at_index f i j h = elim (Bool-cases (i == j)) [
    | inl q ↦ rw q (ap (λ k. f (h.get k)) ((==_iff i j).0 q))
    | inr q ↦ rw q
  ]

  at_nothing :
      (f : Chan T → Chan T) (i j : ℕ) (h : Heap T)
      → f (h.get i) ≡ h.get i
      → h.get j ≡ (if i == j then f (h.get j) else h.get j)
  at_nothing f i j h e = elim (Bool-cases (i == j)) [
    | inl q ↦
        rw q
          (sym (ap (λ k. f (h.get k)) (sym ((==_iff i j).0 q)) ∙ e ∙ ap h.get ((==_iff i j).0 q)))
    | inr q ↦ rw q
  ]

  -- What a loop over channels leaves: `f` of those it names.
  pub record Touched (f : Chan T → Chan T) (l : List ℕ) (h h' : Heap T) : Type ℓ where
    pub same_next : h'.next ≡ h.next
    pub each : (j : ℕ) → h'.get j ≡ (if has j l then f (h.get j) else h.get j)

  try_send_open :
      (i : ℕ) (x : T) (h : Heap T)
      → (h.get i).is_closed ≡ false
      → (h' : Heap T) × (try_send i x h ≡ some h')
        × (h'.next ≡ h.next)
        × ((j : ℕ) → h'.get j ≡ (if i == j then offered x (h.get j) else h.get j))
  unfolding try_send
  try_send_open i x h e = elim (Bool-cases (ltb (length (h.get i).buffer) (h.get i).capacity)) [
    | inl q ↦
        (put i (offered x (h.get i)) h, rw (try_send, e, q), refl, λ j. at_index (offered x) i j h)
    | inr q ↦ (h, rw (try_send, e, q), refl, λ j. at_nothing (offered x) i j h (rw q))
  ]

  pub close_open :
      (i : ℕ) (h : Heap T)
      → (h.get i).is_closed ≡ false
      → (h' : Heap T) × (close i h ≡ some h')
        × (h'.next ≡ h.next)
        × ((j : ℕ) → h'.get j ≡ (if i == j then shut (h.get j) else h.get j))
  unfolding close
  close_open i h e = (put i (shut (h.get i)) h, rw (close, e), refl, λ j. at_index shut i j h)

  -- One more channel before a loop.
  Touched-next :
      (f : Chan T → Chan T) (i : ℕ) (l : List ℕ) (h h' h'' : Heap T)
      → has i l ≡ false
      → h'.next ≡ h.next
      → ((j : ℕ) → h'.get j ≡ (if i == j then f (h.get j) else h.get j))
      → Touched f l h' h''
      → Touched f (i ∷ l) h h''
  Touched-next f i l h h' h'' u n g t = record {
    same_next = t.same_next ∙ n;
    each = λ j. t.each j ∙ elim (Bool-cases (i == j)) [
      | inl q ↦ rw (g j, q, (ap (λ k. has k l) (sym ((==_iff i j).0 q)) ∙ u))
      | inr q ↦ rw (g j, q)
    ];
  }

  -- The channels of the rest of the list are not the first one's.
  others_open :
      (f : Chan T → Chan T) (i : ℕ) (l : List ℕ) (h h' : Heap T)
      → has i l ≡ false
      → ((j : ℕ) → h'.get j ≡ (if i == j then f (h.get j) else h.get j))
      → ((j : ℕ) → has j (i ∷ l) ≡ true → (h.get j).is_closed ≡ false)
      → (j : ℕ) → has j l ≡ true
      → (h'.get j).is_closed ≡ false
  others_open f i l h h' u g o j m = elim (Bool-cases (i == j)) [
    | inl q ↦ absurd (twice ((==_iff i j).0 q))
    | inr q ↦ rw (g j, q) (o j (rw q m))
  ]
    where
      twice : i ≡ j → ⊥
      twice q = ground (arith, ap (λ k. has k l) q)

  pub send_all_safe :
      (x : T) (l : List ℕ) (h : Heap T)
      → Unique l
      → ((j : ℕ) → has j l ≡ true → (h.get j).is_closed ≡ false)
      → (h' : Heap T) × (send_all x l h ≡ some h') × Touched (offered x) l h h'
  unfolding send_all
  send_all_safe x [] h u o = (h, refl, record { same_next = refl; each = λ j. refl })
  send_all_safe x (i ∷ l) h u o =
      let (h', e, n, g) = try_send_open i x h (o i (ground (arith, ==_iff i i))) in
      let (h'', e', t) = send_all_safe x l h' u.1 (others_open (offered x) i l h h' u.0 g o) in
      (h'', rw (send_all, e) e', Touched-next (offered x) i l h h' h'' u.0 n g t)

  pub close_all_safe :
      (l : List ℕ) (h : Heap T)
      → Unique l
      → ((j : ℕ) → has j l ≡ true → (h.get j).is_closed ≡ false)
      → (h' : Heap T) × (close_all l h ≡ some h') × Touched shut l h h'
  unfolding close_all
  close_all_safe [] h u o = (h, refl, record { same_next = refl; each = λ j. refl })
  close_all_safe (i ∷ l) h u o =
      let (h', e, n, g) = close_open i h (o i (ground (arith, ==_iff i i))) in
      let (h'', e', t) = close_all_safe l h' u.1 (others_open shut i l h h' u.0 g o) in
      (h'', rw (close_all, e) e', Touched-next shut i l h h' h'' u.0 n g t)
