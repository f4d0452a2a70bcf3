-- ===== src/Protocol/Timeouts/Tests.antt =====
-- Timeouts of a few texts, and the theorem at one of them.
use revaulter.Base.{◌<◌, ◌≤◌, ◌*◌, ℤ, pos, negsuc, bytes, ◌≡◌, refl, ◌⊎◌, none, some, arith}
use revaulter.Protocol.Timeouts.{atoi, read_decimal, get_timeout, request_timeout, add_timeout}
use revaulter.Protocol.Timeouts.Limits.{timeout_limits}

atoi_five : atoi (bytes "300") ≡ some (pos 300)
unfolding atoi read_decimal
atoi_five = refl

atoi_negative : atoi (bytes "-3") ≡ some (negsuc 2)
unfolding atoi read_decimal
atoi_negative = refl

atoi_unit : atoi (bytes "5m") ≡ none
unfolding atoi read_decimal
atoi_unit = refl

short_duration : get_timeout (λ s. some (pos 999999999)) (bytes "999999999ns") ≡ pos 0
unfolding get_timeout atoi read_decimal
short_duration = refl

atoi_wraps : atoi (bytes "9223372037") ≡ some (pos 9223372037)
unfolding atoi read_decimal
atoi_wraps = refl

-- 9223372037 seconds, of which the nanoseconds do not fit
timeout_limits_example :
    let answer =
      request_timeout (pos 300000000000) (get_timeout (λ s. none) (bytes "9223372037")) in
    ((9223372037 ≤ 86400) × (answer ≡ some (pos (9223372037 * 1000000000))))
    ⊎ ((86400 < 9223372037) × (9223372037 ≤ 9223372036) × (answer ≡ none))
    ⊎ ((9223372036 < 9223372037)
        × ((d : ℤ) × (answer ≡ some d) × (add_timeout 1700000000000000000 d < 1700000000000000000)))
timeout_limits_example =
    timeout_limits (λ s. none) (bytes "9223372037") 9223372037 1700000000000000000
      (pos 300000000000) atoi_wraps (omega arith) (omega arith) (omega arith)
