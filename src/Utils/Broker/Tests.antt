-- ===== src/Utils/Broker/Tests.antt =====
-- A broker with two subscribers, and the theorems at concrete brokers.
use revaulter.Base.{
  ℕ, ◌≡◌, refl, Bool, true, false, none, some, List, [], ◌∷◌, arith, if◌then◌else◌, ◌==◌, ==_iff,
}
use revaulter.Chan.{Chan}
use revaulter.Utils.Broker.{Broker, has, subscribe, publish}
use revaulter.Utils.Broker.Valid.{Open, Valid, offered}
use revaulter.Utils.Broker.Delivery.{
  Operation, subscribes, unsubscribes, shuts_down, publishes, receives, run, publish_delivers,
  broker_safe,
}

abbrev unmade : Chan ℕ
unmade = record { capacity = 8; buffer = []; is_closed = false }

-- NewBroker
abbrev new_broker : Broker ℕ
new_broker = record {
  subscribers = [];
  is_stopped = false;
  chans = record { next = 0; get = λ i. unmade };
}

new_broker-Valid : Valid new_broker
new_broker-Valid = record { made = λ i m. cc; opens = λ i m. cc; unique = tt }

-- A slow subscriber, whose channel is full, and one that has room.
abbrev full : List ℕ
full = 1 ∷ 2 ∷ 3 ∷ 4 ∷ 5 ∷ 6 ∷ 7 ∷ 8 ∷ []

abbrev two : Broker ℕ
two = record {
  subscribers = 0 ∷ 1 ∷ [];
  is_stopped = false;
  chans = record {
    next = 2;
    get = λ i. if i == 0 then record unmade { buffer = full } else unmade;
  };
}

two-Valid : Valid two
two-Valid = record {
  made = λ i m. ground (arith, ==_iff 0 i, ==_iff 1 i);
  opens = λ i m. opened i (i == 0);
  unique = (refl, (refl, tt));
}
  where
    opened : (i : ℕ) (t : Bool) → Open (if t then record unmade { buffer = full } else unmade)
    opened i true = record { unclosed = refl; room = refl; bound = omega arith }
    opened i false = record { unclosed = refl; room = refl; bound = omega arith }

subscribe_stopped : (subscribe (record new_broker { is_stopped = true })).0 ≡ none
unfolding subscribe
subscribe_stopped = refl

abbrev operations : List (Operation ℕ)
operations =
    subscribes
    ∷ publishes 5
    ∷ unsubscribes 0
    ∷ unsubscribes 0
    ∷ shuts_down
    ∷ receives 0
    ∷ publishes 6
    ∷ []

broker_safe_example : (b' : Broker ℕ) × (run operations new_broker ≡ some b') × Valid b'
broker_safe_example = broker_safe operations new_broker new_broker-Valid

publish_delivers_example :
    (b' : Broker ℕ) × (publish 9 two ≡ some b')
    × ((j : ℕ)
        → b'.chans.get j
          ≡ (if has j two.subscribers then offered 9 (two.chans.get j) else two.chans.get j))
    × (b'.subscribers ≡ two.subscribers)
    × Valid b'
publish_delivers_example = publish_delivers 9 two two-Valid refl
