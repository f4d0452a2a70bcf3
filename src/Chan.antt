-- ===== src/Chan.antt =====
-- Go channels with a buffer: a heap of channels, on which a misuse panics (`none`).
use revaulter.Base.{
  ℕ, ◌+◌, Bool, true, false, Option, none, some, List, [], ◌∷◌, ◌++◌, length, ltb, ◌==◌,
  if◌then◌else◌,
}

pub record Chan {ℓ} (T : Type ℓ) : Type ℓ where
  pub capacity : ℕ
  pub buffer : List T
  pub is_closed : Bool

-- The channels that have been made are those below `next`.
pub record Heap {ℓ} (T : Type ℓ) : Type ℓ where
  pub next : ℕ
  pub get : ℕ → Chan T

module _ {ℓ} {T : Type ℓ} where
  abbrev pub put : ℕ → Chan T → Heap T → Heap T
  put i c h = record h { get = λ j. if i == j then c else h.get j }

  -- make(chan T, n): the channel is `h.next`.
  abbrev pub make : ℕ → Heap T → Heap T
  make n h = record {
    next = h.next + 1;
    get = λ j.
        if h.next == j then record { capacity = n; buffer = []; is_closed = false } else h.get j;
  }

  -- close(ch), which panics on a closed channel
  unfoldable pub close : ℕ → Heap T → Option (Heap T)
  close i h =
      let c = h.get i in
      if c.is_closed then none else some (put i (record c { is_closed = true }) h)

  -- select { case ch <- x: default: }, which panics on a closed channel
  unfoldable pub try_send : ℕ → T → Heap T → Option (Heap T)
  try_send i x h =
      let c = h.get i in
      if c.is_closed
      then none
      else if ltb (length c.buffer) c.capacity
      then some (put i (record c { buffer = c.buffer ++ x ∷ [] }) h)
      else some h

-- What a receive sees: it blocks, it takes a value, or the channel is closed and drained.
pub data Received {ℓ} (T : Type ℓ) : Type ℓ where
  blocks : Received T
  value : T → Received T
  drained : Received T

abbrev pub receive {ℓ} : {T : Type ℓ} → Chan T → Received T
receive c = elim c.buffer [ x ∷ xs ↦ value x | [] ↦ if c.is_closed then drained else blocks ]
