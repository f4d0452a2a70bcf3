-- ===== src/Protocol/Algorithms/Tests.antt =====
-- Algorithm names in several spellings.
use revaulter.Base.{◌≡◌, refl, bytes, ◌++◌, ◌∷◌, true, some, same}
use revaulter.Protocol.Algorithms.{
  to_upper, to_lower, normalize_signing_algorithm, is_supported_encryption_algorithm,
}

mixed_case : normalize_signing_algorithm (bytes "ed25519Ph") ≡ some (bytes "Ed25519ph")
unfolding normalize_signing_algorithm to_upper same
mixed_case = refl

-- eſ256, with the long s
long_s : normalize_signing_algorithm (bytes "e" ++ 197 ∷ 191 ∷ bytes "256") ≡ some (bytes "ES256")
unfolding normalize_signing_algorithm to_upper same
long_s = refl

upper_case : is_supported_encryption_algorithm (bytes "ChaCha20-Poly1305") ≡ true
unfolding is_supported_encryption_algorithm to_lower same
upper_case = refl
