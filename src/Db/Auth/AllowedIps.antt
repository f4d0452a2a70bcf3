-- ===== src/Db/Auth/AllowedIps.antt =====
-- internal/db/auth.go: the list of addresses from which a user's request key works, and its column
-- of comma-separated text. What the package net parses and prints again is a parameter.
pub mod Normal
pub mod Sample
mod Tests
use revaulter.Base.{
  ℕ, Text, same, is_empty, trim_space, join, split, Bool, true, false, ◌||◌, Option, none, some,
  List, [], ◌∷◌, ◌++◌, map, ◌==◌, if◌then◌else◌,
}

-- `none` where net reports an error; otherwise what the parsed value prints as.
pub record Net : Type 0 where
  -- net.ParseIP(s).String()
  pub parse_ip : Text → Option Text
  -- the network of net.ParseCIDR(s), and its String()
  pub parse_cidr : Text → Option Text

-- InvalidAllowedIPError, its kind and its value
pub data IpError : Type 0 where
  invalid_ip invalid_cidr : Text → IpError

pub data Result {ℓ} (A : Type ℓ) : Type ℓ where
  ok : A → Result A
  err : IpError → Result A

-- strings.ContainsRune(s, '/')
abbrev pub has_slash : Text → Bool
has_slash [] = false
has_slash (c ∷ s) = (c == 47) || has_slash s

abbrev pub member : Text → List Text → Bool
member t [] = false
member t (u ∷ us) = same u t || member t us

module _ (net : Net) where
  -- The entry as it is stored.
  abbrev pub canonical : Text → Result Text
  canonical entry =
      if has_slash entry
      then elim (net.parse_cidr entry) [ none ↦ err (invalid_cidr entry) | some c ↦ ok c ]
      else elim (net.parse_ip entry) [ none ↦ err (invalid_ip entry) | some c ↦ ok c ]

  -- The loop of NormalizeAllowedIPs; `seen` holds the entries of `normalized`.
  abbrev pub normalize_from : List Text → List Text → Result (List Text)
  normalize_from normalized [] = ok normalized
  normalize_from normalized (raw ∷ rest) =
      let skipped = normalize_from normalized rest in
      let entry = trim_space raw in
      if is_empty entry then skipped else elim (canonical entry) [
        | err e ↦ err e
        | ok c ↦ if member c normalized then skipped else normalize_from (normalized ++ c ∷ []) rest
      ]

  -- NormalizeAllowedIPs
  unfoldable pub normalize_allowed_ips : List Text → Result (List Text)
  normalize_allowed_ips ips = normalize_from [] ips

-- The loop of parseAllowedIPsCSV
abbrev pub keep_parts : List Text → List Text
keep_parts [] = []
keep_parts (p ∷ ps) =
    let rest = keep_parts ps in if is_empty (trim_space p) then rest else trim_space p ∷ rest

-- parseAllowedIPsCSV; Go's nil is the empty list.
unfoldable pub parse_allowed_ips_csv : Text → List Text
parse_allowed_ips_csv raw = if is_empty (trim_space raw) then [] else keep_parts (split 44 raw)

-- strings.Join(normalized, ",")
abbrev pub print_allowed_ips : List Text → Text
print_allowed_ips ips = join 44 ips
