-- ===== src/Protocol/Timeouts/Limits.antt =====
-- Timeouts given as a number of seconds (internal/protocolv2/types.go,
-- internal/server/routes-request.go).
use revaulter.Base.{
  ℕ, ◌-◌, ◌*◌, ◌^◌, ◌≤◌, ◌<◌, ℤ, pos, negsuc, Text, is_empty, ◌∷◌, [], ◌⊎◌, inl, inr, Bool-cases,
  ◌≡◌, refl, false, Option, none, some, leb, arith,
}
use revaulter.Protocol.Timeouts.{atoi, get_timeout, request_timeout, add_timeout, int64}

atoi_nonempty : (s : Text) (n : ℕ) → atoi s ≡ some (pos n) → is_empty s ≡ false
unfolding atoi
atoi_nonempty [] n h = cc
atoi_nonempty (c ∷ s) n h = refl

module _ (parse_duration : Text → Option ℤ) where
  get_timeout_number :
      (s : Text) (n : ℕ)
      → atoi s ≡ some (pos n)
      → 0 < n
      → get_timeout parse_duration s ≡ int64 (n * 1000000000)
  unfolding get_timeout
  get_timeout_number s n h p = rw (atoi_nonempty s n h) (rw h (ground arith))

  -- A timeout that reads as a positive number of seconds, up to 18446744073: up to 24 hours it is
  -- accepted and is that long; up to 9223372036 it is refused; above that, where the product in
  -- nanoseconds does not fit an int64, it is accepted, with a deadline before the request is made.
  pub timeout_limits :
      (s : Text) (n now : ℕ) (default_timeout : ℤ)
      → atoi s ≡ some (pos n)
      → 0 < n
      → n ≤ 18446744073
      → 0 < now
      → let answer = request_timeout default_timeout (get_timeout parse_duration s) in
        ((n ≤ 86400) × (answer ≡ some (pos (n * 1000000000))))
        ⊎ ((86400 < n) × (n ≤ 9223372036) × (answer ≡ none))
        ⊎ ((9223372036 < n) × ((d : ℤ) × (answer ≡ some d) × (add_timeout now d < now)))
  unfolding request_timeout
  timeout_limits s n now default_timeout h p u later =
      let e = get_timeout_number s n h p in
      elim (Bool-cases (leb n 86400)) [
        | inl low ↦ inl (ground arith, rw e (ground arith))
        | inr high ↦ elim (Bool-cases (leb n 9223372036)) [
          | inl fits ↦ inr (inl (ground arith, ground arith, rw e (ground arith)))
          | inr wraps ↦ inr (
              inr (
                ground arith,
                (negsuc (2 ^ 64 - n * 1000000000 - 1), rw e (ground arith), omega arith),
              ))
        ]
      ]
