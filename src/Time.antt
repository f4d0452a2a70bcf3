-- ===== src/Time.antt =====
-- time.Time as nanoseconds since the Unix epoch; columns hold whole seconds.
use revaulter.Base.{ℕ, ◌*◌, ◌/◌, Bool, ltb}

abbrev pub second : ℕ
second = 1000000000

-- t.Unix()
abbrev pub unix : ℕ → ℕ
unix t = t / 1000000000

-- time.Unix(s, 0).Before(t)
abbrev pub before : ℕ → ℕ → Bool
before s t = ltb (s * 1000000000) t
