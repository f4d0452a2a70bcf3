-- ===== src/Protocol/Timeouts.antt =====
-- internal/protocolv2/types.go, GetTimeout: a time.Duration is an int64 of nanoseconds, and the
-- product that makes one of a number of seconds wraps around.
pub mod Limits
mod Tests
use revaulter.Base.{
  ℕ, suc, ◌+◌, ◌-◌, ◌*◌, ◌%◌, ◌^◌, ℤ, pos, negsuc, Text, is_empty, Bool, true, false, ◌&&◌, ◌||◌,
  Option, none, some, List, [], ◌∷◌, leb, ltb, ◌==◌, if◌then◌else◌,
}

-- The value of a word of 64 bits as an int64
abbrev pub int64 : ℕ → ℤ
int64 n = let w = n % 2 ^ 64 in if ltb w (2 ^ 63) then pos w else negsuc (2 ^ 64 - w - 1)

-- The digits of a number, from the most significant one.
unfoldable pub read_decimal : ℕ → Text → Option ℕ
read_decimal acc [] = some acc
read_decimal acc (c ∷ s) =
    let rest = read_decimal (acc * 10 + (c - 48)) s in if leb 48 c && leb c 57 then rest else none

-- What the sign makes of the digits; a number outside int64 is an error.
abbrev pub with_sign : Bool → Option ℕ → Option ℤ
with_sign negative none = none
with_sign true (some n) =
    if n == 0 then some (pos 0) else if leb n (2 ^ 63) then some (negsuc (n - 1)) else none
with_sign false (some n) = if ltb n (2 ^ 63) then some (pos n) else none

-- Digits are needed.
abbrev pub digits : Text → Option ℕ
digits [] = none
digits (c ∷ s) = read_decimal 0 (c ∷ s)

-- strconv.Atoi
unfoldable pub atoi : Text → Option ℤ
atoi [] = none
atoi (c ∷ s) =
    if c == b'-'
    then with_sign true (digits s)
    else if c == b'+'
    then with_sign false (digits s)
    else with_sign false (digits (c ∷ s))

abbrev pub is_positive : Option ℤ → Bool
is_positive none = false
is_positive (some (pos n)) = ltb 0 n
is_positive (some (negsuc n)) = false

-- time.Duration(n) * time.Second, for an n that is positive
abbrev pub seconds : Option ℤ → ℤ
seconds (some (pos n)) = int64 (n * 1000000000)
seconds _ = pos 0

-- `d >= time.Second`, and 0 otherwise
abbrev pub at_least_a_second : Option ℤ → ℤ
at_least_a_second (some (pos n)) = if leb 1000000000 n then pos n else pos 0
at_least_a_second _ = pos 0

-- GetTimeout, on time.ParseDuration
unfoldable pub get_timeout : (Text → Option ℤ) → Text → ℤ
get_timeout parse_duration timeout =
    if is_empty timeout
    then pos 0
    else if is_positive (atoi timeout)
    then seconds (atoi timeout)
    else at_least_a_second (parse_duration timeout)

-- The timeout of a request (internal/server/routes-request.go): the default one for 0, and none for
-- what is refused as more than 24 hours.
unfoldable pub request_timeout : ℤ → ℤ → Option ℤ
request_timeout default_timeout (pos n) =
    if n == 0 then some default_timeout else if ltb 86400000000000 n then none else some (pos n)
request_timeout default_timeout (negsuc n) = some (negsuc n)

-- now.Add(timeout); a time before 1970 counts as 1970.
abbrev pub add_timeout : ℕ → ℤ → ℕ
add_timeout now (pos n) = now + n
add_timeout now (negsuc n) = now - suc n

-- timeout + 5*time.Second
abbrev pub plus_five_seconds : ℤ → ℤ
plus_five_seconds (pos n) = int64 (n + 5000000000)
plus_five_seconds (negsuc n) =
    if ltb n 5000000000 then pos (4999999999 - n) else negsuc (n - 5000000000)
