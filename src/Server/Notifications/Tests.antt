-- ===== src/Server/Notifications/Tests.antt =====
-- A long-poll that is notified, one that is evicted, and the theorems at concrete states.
use revaulter.Base.{bytes, same, ◌≡◌, refl, true, false, none, some, List, [], ◌∷◌, ◌++◌, All}
use revaulter.Chan.{value, drained, receive, close}
use revaulter.Server.Notifications.{Hub, new_sub, subscribe_state}
use revaulter.Server.Notifications.Valid.{idle, Valid}
use revaulter.Server.Notifications.Safe.{
  Operation, subscribes, unsubscribes, notifies, state_of, run, run_safe,
}
use revaulter.Server.Notifications.Wakes.{poll_notified, poll_evicted}

-- The server as it starts.
abbrev start : Hub
start = record { chans = record { next = 0; get = λ i. idle }; subs = λ k. none }

start-Valid : Valid start
start-Valid = record { made = λ k i e. cc; waits = λ k i e. cc; single = λ k k' i e e'. cc }

abbrev polling : Hub
polling = (new_sub (bytes "s1") start.subs start.chans).1

subscribed : subscribe_state (bytes "s1") start ≡ some (0, polling)
unfolding subscribe_state
subscribed = refl

double_close : close 0 (record polling.chans { get = λ i. record idle { is_closed = true } }) ≡ none
unfolding close
double_close = refl

abbrev elsewhere : List Operation
elsewhere = subscribes (bytes "s2") ∷ notifies (bytes "s2") ∷ []

abbrev later : List Operation
later = subscribes (bytes "s1") ∷ unsubscribes (bytes "s1") 0 ∷ notifies (bytes "s1") ∷ []

apart : All (λ o. same (state_of o) (bytes "s1") ≡ false) elsewhere
unfolding same
apart = (refl, (refl, tt))

run_safe_example : (s' : Hub) × (run (elsewhere ++ later) start ≡ some s') × Valid s'
run_safe_example = run_safe (elsewhere ++ later) start start-Valid

poll_notified_example :
    (s' : Hub) × (run (elsewhere ++ notifies (bytes "s1") ∷ later) polling ≡ some s')
    × (receive (s'.chans.get 0) ≡ value tt)
poll_notified_example =
    poll_notified (bytes "s1") 0 start polling elsewhere later start-Valid subscribed apart

poll_evicted_example :
    (s' : Hub) × (run (elsewhere ++ subscribes (bytes "s1") ∷ later) polling ≡ some s')
    × (receive (s'.chans.get 0) ≡ drained)
poll_evicted_example =
    poll_evicted (bytes "s1") 0 start polling elsewhere later start-Valid subscribed apart
