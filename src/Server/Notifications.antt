-- ===== src/Server/Notifications.antt =====
-- internal/server/util-notifications.go: the long-polls that wait for a request, one for each state.
-- Each operation runs under the server's lock; it answers `none` where Go panics.
pub mod Valid
pub mod Safe
pub mod Wakes
mod Tests
use revaulter.Base.{ℕ, Text, same, Bool, Option, none, some, ◌==◌, if◌then◌else◌}
use revaulter.Chan.{Heap, make, close, try_send}

-- The field `subs` of Server, and the channels that it has made.
pub record Hub : Type 0 where
  pub chans : Heap (Unit {0})
  pub subs : Text → Option ℕ

abbrev pub set_sub : Text → Option ℕ → (Text → Option ℕ) → Text → Option ℕ
set_sub state ch subs k = if same state k then ch else subs k

-- The second half of subscribeState.
abbrev pub new_sub : Text → (Text → Option ℕ) → Heap (Unit {0}) → ℕ × Hub
new_sub state subs h =
    (h.next, record { chans = make 1 h; subs = set_sub state (some h.next) subs })

-- subscribeState
unfoldable pub subscribe_state : Text → Hub → Option (ℕ × Hub)
subscribe_state state s = elim (s.subs state) [
  | none ↦ some (new_sub state s.subs s.chans)
  | some ch ↦ elim (close ch s.chans) [ none ↦ none | some h ↦ some (new_sub state s.subs h) ]
]

abbrev pub remove_sub : Text → (Text → Option ℕ) → Option (Heap (Unit {0})) → Option Hub
remove_sub state subs none = none
remove_sub state subs (some h) = some (record { chans = h; subs = set_sub state none subs })

-- unsubscribeState
unfoldable pub unsubscribe_state : Text → ℕ → Hub → Option Hub
unsubscribe_state state watch s = elim (s.subs state) [
  | none ↦ some s
  | some ch ↦ if ch == watch then remove_sub state s.subs (close ch s.chans) else some s
]

-- notifySubscriber
unfoldable pub notify_subscriber : Text → Hub → Option Hub
notify_subscriber state s = elim (s.subs state) [
  | none ↦ some s
  | some ch ↦ elim (try_send ch tt s.chans) [
    | none ↦ none
    | some h ↦ remove_sub state s.subs (close ch h)
  ]
]
