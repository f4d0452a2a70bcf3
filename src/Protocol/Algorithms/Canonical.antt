-- ===== src/Protocol/Algorithms/Canonical.antt =====
-- The canonical names of signing algorithms (internal/protocolv2/types.go).
use revaulter.Base.{
  Text, bytes, same, ◌≡◌, refl, inl, inr, false, some, Bool-cases, arith, is_empty, length, ltb,
}
use revaulter.Protocol.Algorithms.{to_upper, is_text, normalize_signing_algorithm}

-- A name that NormalizeSigningAlgorithm answers with is its own canonical form.
pub normalize_idem :
    (alg c : Text)
    → normalize_signing_algorithm alg ≡ some c
    → normalize_signing_algorithm c ≡ some c
unfolding normalize_signing_algorithm
normalize_idem alg c h = elim (Bool-cases (is_text (to_upper alg) (bytes "ES256"))) [
  | inl e ↦ let q : bytes "ES256" ≡ c = ground arith in rw (← q) es256
  | inr e ↦ elim (Bool-cases (is_text (to_upper alg) (bytes "ED25519"))) [
    | inl e' ↦ let q : bytes "Ed25519" ≡ c = ground arith in rw (← q) ed25519
    | inr e' ↦ let q : bytes "Ed25519ph" ≡ c = ground arith in rw (← q) ed25519ph
  ]
]
  where
    es256 : normalize_signing_algorithm (bytes "ES256") ≡ some (bytes "ES256")
    es256 = unfold to_upper same in refl

    ed25519 : normalize_signing_algorithm (bytes "Ed25519") ≡ some (bytes "Ed25519")
    ed25519 = unfold to_upper same in refl

    ed25519ph : normalize_signing_algorithm (bytes "Ed25519ph") ≡ some (bytes "Ed25519ph")
    ed25519ph = unfold to_upper same in refl

-- It is no longer than the limit of a request, and not empty.
pub normalize_short :
    (alg c : Text)
    → normalize_signing_algorithm alg ≡ some c
    → (is_empty c ≡ false) × (ltb 64 (length c) ≡ false)
unfolding normalize_signing_algorithm
normalize_short alg c h = elim (Bool-cases (is_text (to_upper alg) (bytes "ES256"))) [
  | inl e ↦ let q : bytes "ES256" ≡ c = ground arith in rw (← q) (refl, refl)
  | inr e ↦ elim (Bool-cases (is_text (to_upper alg) (bytes "ED25519"))) [
    | inl e' ↦ let q : bytes "Ed25519" ≡ c = ground arith in rw (← q) (refl, refl)
    | inr e' ↦ let q : bytes "Ed25519ph" ≡ c = ground arith in rw (← q) (refl, refl)
  ]
]
