-- ===== src/Server/Announce.antt =====
-- Waking a long-poll and telling the list of requests, in a server whose channels are in order
-- (internal/server/util-notifications.go).
use mathlib.Core.Path.{subst}
use revaulter.Base.{ℕ, Text, ◌≡◌, refl, ap, ◌∙◌, inl, inr, some, Option-cases, Bool-cases, arith}
use revaulter.Utils.Broker.{Broker, publish}
use revaulter.Utils.Broker.Valid as BrokerValid
use revaulter.Utils.Broker.Delivery.{publish_delivers}
use revaulter.Server.Notifications.{Hub}
use revaulter.Server.Notifications.Valid as HubValid
use revaulter.Server.Notifications.Safe.{notify_safe, woken}
use revaulter.Server.Notifications.Valid.{some_inj}
use revaulter.Server.State.{Server, Notice, notify, publish_list_item, publish_to}

-- No channel of the server can be closed twice, or sent to when closed.
pub record IsSound (s : Server) : Type 0 where
  pub hub_valid : HubValid.Valid s.hub
  pub broker_valid : (b : Broker Notice) → s.pubsub ≡ some b → BrokerValid.Valid b

-- notifySubscriber changes the long-polls only, and wakes the one that waits for the state.
pub notify-IsSound :
    (state : Text) (s : Server)
    → IsSound s
    → (h : Hub) × (notify state s ≡ some (record s { hub = h }))
      × IsSound (record s { hub = h })
      × ((i : ℕ) → s.hub.subs state ≡ some i → h.chans.get i ≡ woken)
unfolding notify
notify-IsSound state s v =
    let (h, e, step, wakes) = notify_safe state s.hub v.hub_valid in
    (
      h,
      rw (e, notify),
      record {
        hub_valid = HubValid.Valid-step state s.hub h v.hub_valid step;
        broker_valid = v.broker_valid;
      },
      λ i q. (wakes i q).0,
    )

publish_sound :
    (x : Notice) (b : Broker Notice)
    → BrokerValid.Valid b
    → (b' : Broker Notice) × (publish x b ≡ some b') × BrokerValid.Valid b'
unfolding publish
publish_sound x b v = elim (Bool-cases b.is_stopped) [
  | inl stops ↦ (b, ground arith, v)
  | inr runs ↦ let d = publish_delivers x b v runs in (d.0, d.1, d.4)
]

-- The parts of the server but for its broker.
pub record SameButBroker (s s' : Server) : Type 0 where
  pub same_tables : s'.tables ≡ s.tables
  pub same_hub : s'.hub ≡ s.hub
  pub same_expiry : s'.expiry_queue ≡ s.expiry_queue
  pub same_deletes : s'.delete_queue ≡ s.delete_queue

-- publishListItem changes the broker only.
pub publish_list_item-IsSound :
    (x : Notice) (s : Server)
    → IsSound s
    → (s' : Server) × (publish_list_item x s ≡ some s') × SameButBroker s s' × IsSound s'
unfolding publish_list_item
publish_list_item-IsSound x s v = elim (Option-cases s.pubsub) [
  | inl e ↦ (
    s,
    ap (λ o. publish_to x o s) e,
    record { same_tables = refl; same_hub = refl; same_expiry = refl; same_deletes = refl },
    v,
  )
  | inr (b, e) ↦
      let (b', q, w) = publish_sound x b (v.broker_valid b e) in
      (
        record s { pubsub = some b' },
        ap (λ o. publish_to x o s) e ∙ rw (q, publish_to),
        record { same_tables = refl; same_hub = refl; same_expiry = refl; same_deletes = refl },
        record {
          hub_valid = v.hub_valid;
          broker_valid = λ c r. subst BrokerValid.Valid (some_inj r) w;
        },
      )
]
