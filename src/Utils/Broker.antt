-- ===== src/Utils/Broker.antt =====
-- internal/utils/broker/broker.go: a broker that publishes a message to every subscriber. Each
-- method runs under the broker's lock; it answers `none` where Go panics. A subscription is the
-- number of its channel, and the order of the list is the one in which `range` visits the map.
pub mod Valid
pub mod Delivery
mod Tests
use revaulter.Base.{
  ℕ, Bool, true, false, Option, none, some, List, [], ◌∷◌, ◌||◌, ◌==◌, if◌then◌else◌,
}
use revaulter.Chan.{Heap, make, close, try_send}

-- Broker, less its lock and its logger
pub record Broker {ℓ} (T : Type ℓ) : Type ℓ where
  pub subscribers : List ℕ
  pub is_stopped : Bool
  pub chans : Heap T

abbrev pub has : ℕ → List ℕ → Bool
has i [] = false
has i (j ∷ js) = (j == i) || has i js

abbrev pub remove : ℕ → List ℕ → List ℕ
remove i [] = []
remove i (j ∷ js) = let rest = remove i js in if j == i then rest else j ∷ rest

module _ {ℓ} {T : Type ℓ} where
  -- Subscribe: no channel is ErrBrokerStopped.
  unfoldable pub subscribe : Broker T → Option ℕ × Broker T
  subscribe b = if b.is_stopped then (none, b) else (
    some b.chans.next,
    record b { subscribers = b.chans.next ∷ b.subscribers; chans = make 8 b.chans },
  )

  -- Unsubscribe
  unfoldable pub unsubscribe : ℕ → Broker T → Option (Broker T)
  unsubscribe ch b =
      if has ch b.subscribers
      then elim (close ch b.chans) [
        | none ↦ none
        | some h ↦ some (record b { subscribers = remove ch b.subscribers; chans = h })
      ]
      else some b

  -- The loop of Shutdown
  unfoldable pub close_all : List ℕ → Heap T → Option (Heap T)
  close_all [] h = some h
  close_all (ch ∷ chs) h = elim (close ch h) [ none ↦ none | some h' ↦ close_all chs h' ]

  -- Shutdown
  unfoldable pub shutdown : Broker T → Option (Broker T)
  unfolding close_all
  shutdown b = elim (close_all b.subscribers b.chans) [
    | none ↦ none
    | some h ↦ some (record { subscribers = []; is_stopped = true; chans = h })
  ]

  -- The loop of Publish
  unfoldable pub send_all : T → List ℕ → Heap T → Option (Heap T)
  send_all msg [] h = some h
  send_all msg (ch ∷ chs) h = elim (try_send ch msg h) [
    | none ↦ none
    | some h' ↦ send_all msg chs h'
  ]

  -- Publish
  unfoldable pub publish : T → Broker T → Option (Broker T)
  unfolding send_all
  publish msg b = if b.is_stopped then some b else elim (send_all msg b.subscribers b.chans) [
    | none ↦ none
    | some h ↦ some (record b { chans = h })
  ]
