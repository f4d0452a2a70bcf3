-- ===== src/Protocol/Labels/Canonical.antt =====
-- A key label has one canonical form.
use mathlib.Core.Path.{subst}
use revaulter.Base.{
  ℕ, ◌+◌, ◌≤◌, Text, is_empty, length, ◌≡◌, ◌≢◌, refl, sym, ap, ◌∙◌, Bool, true, false, ◌||◌, none,
  some, [], ◌∷◌, arith, All, ltb, Bool-cases, Option-cases, inl, inr, ◌⊎◌, if◌then◌else◌,
}
use revaulter.Protocol.Labels.{
  is_lower, is_upper, is_digit, is_label_mark, label_byte, label_bytes, cons_byte,
  normalize_key_label,
}

-- A byte that a label may hold, and one that a canonical label may hold.
abbrev pub is_allowed : ℕ → Bool
is_allowed c = is_lower c || (is_upper c || (is_digit c || is_label_mark c))

abbrev pub is_canonical : ℕ → Bool
is_canonical c = is_lower c || (is_digit c || is_label_mark c)

-- What the loop answers with.
record Folded (s l : Text) : Type 0 where
  size : length l ≡ length s
  allowed : All (λ c. is_allowed c ≡ true) s
  canonical : All (λ c. is_canonical c ≡ true) l
  fixed : label_bytes l ≡ some l

byte_cases :
    (c : ℕ)
    → ((label_byte c ≡ none) × (is_allowed c ≡ false))
      ⊎ ((d : ℕ) × (label_byte c ≡ some d)
          × (is_allowed c ≡ true)
          × (is_canonical d ≡ true)
          × (label_byte d ≡ some d))
byte_cases c = elim (Bool-cases (is_lower c)) [
  | inl l ↦ inr (c, ground arith, ground arith, ground arith, ground arith)
  | inr l ↦ elim (Bool-cases (is_upper c)) [
    | inl u ↦ inr (c + 32, ground arith, ground arith, ground arith, ground arith)
    | inr u ↦ elim (Bool-cases (is_digit c)) [
      | inl d ↦ inr (c, ground arith, ground arith, ground arith, ground arith)
      | inr d ↦ elim (Bool-cases (is_label_mark c)) [
        | inl m ↦ inr (c, rw (l, u, d, m), rw (l, u, d, m), rw (l, d, m), rw (l, u, d, m))
        | inr m ↦ inl (rw (l, u, d, m), rw (l, u, d, m))
      ]
    ]
  ]
]

-- The loop answers exactly when every byte is allowed.
label_bytes-Folded : (s l : Text) → label_bytes s ≡ some l → Folded s l
unfolding label_bytes
label_bytes-Folded [] [] e = record { size = refl; allowed = tt; canonical = tt; fixed = refl }
label_bytes-Folded [] (d ∷ l) e = cc
label_bytes-Folded (c ∷ s) l e = elim (byte_cases c) [
  | inl (n, a) ↦ absurd (refused n)
  | inr (d, n, a, k, f) ↦ elim (Option-cases (label_bytes s)) [
    | inl m ↦ absurd (cut d n m)
    | inr (t, m) ↦
        let r = label_bytes-Folded s t m in
        subst (Folded (c ∷ s))
          (some_inj (sym (ap (λ o. cons_byte o (label_bytes s)) n ∙ ap (cons_byte (some d)) m) ∙ e))
          (record {
            size = omega (arith, r.size);
            allowed = (a, r.allowed);
            canonical = (k, r.canonical);
            fixed = ap (λ o. cons_byte o (label_bytes t)) f ∙ ap (cons_byte (some d)) r.fixed;
          })
  ]
]
  where
    some_inj : {t : Text} → some t ≡ some l → t ≡ l
    some_inj x = cc

    refused : label_byte c ≡ none → ⊥
    refused n = stuck (sym (ap (λ o. cons_byte o (label_bytes s)) n) ∙ e)
      where
        stuck : none ≡ some l → ⊥
        stuck x = cc

    cut : (d : ℕ) → label_byte c ≡ some d → label_bytes s ≡ none → ⊥
    cut d n m =
        stuck (sym (ap (λ o. cons_byte o (label_bytes s)) n ∙ ap (cons_byte (some d)) m) ∙ e)
      where
        stuck : none ≡ some l → ⊥
        stuck x = cc

allowed-label_bytes :
    (s : Text) → All (λ c. is_allowed c ≡ true) s → (l : Text) × (label_bytes s ≡ some l)
unfolding label_bytes
allowed-label_bytes [] a = ([], refl)
allowed-label_bytes (c ∷ s) a = elim (byte_cases c) [
  | inl (n, b) ↦ absurd (ground arith)
  | inr (d, n, b, k, f) ↦
      let (l, e) = allowed-label_bytes s a.1 in
      (d ∷ l, ap (λ o. cons_byte o (label_bytes s)) n ∙ ap (cons_byte (some d)) e)
]

-- A label that NormalizeAndValidateKeyLabel accepts has 1 to 24 bytes, all of them allowed; its
-- canonical form is as long, holds no uppercase letter, and is its own canonical form.
pub key_label_canonical :
    (s l : Text)
    → normalize_key_label s ≡ some l
    → (s ≢ [])
      × (length s ≤ 24)
      × All (λ c. is_allowed c ≡ true) s
      × (length l ≡ length s)
      × All (λ c. is_canonical c ≡ true) l
      × (normalize_key_label l ≡ some l)
unfolding normalize_key_label
key_label_canonical s l e = elim (Bool-cases (is_empty s || ltb 24 (length s))) [
  | inl q ↦ absurd (refused q)
  | inr q ↦
      let r = label_bytes-Folded s l (sym (ap (λ b. if b then none else label_bytes s) q) ∙ e) in
      let bounds : is_empty l || ltb 24 (length l) ≡ false = same_bounds s l r.size q in
      (
        λ n. nothing (sym (ap is_empty n) ∙ first_test q),
        ground arith,
        r.allowed,
        r.size,
        r.canonical,
        ap (λ b. if b then none else label_bytes l) bounds ∙ r.fixed,
      )
]
  where
    refused : is_empty s || ltb 24 (length s) ≡ true → ⊥
    refused q = stuck (sym (ap (λ b. if b then none else label_bytes s) q) ∙ e)
      where
        stuck : none ≡ some l → ⊥
        stuck x = cc

    first_test : is_empty s || ltb 24 (length s) ≡ false → is_empty s ≡ false
    first_test q = ground arith

    nothing : true ≡ false → ⊥
    nothing x = cc

    same_bounds :
        (s l : Text)
        → length l ≡ length s
        → is_empty s || ltb 24 (length s) ≡ false
        → is_empty l || ltb 24 (length l) ≡ false
    same_bounds [] l n q = cc
    same_bounds (c ∷ s) [] n q = absurd (omega (arith, n))
    same_bounds (c ∷ s) (d ∷ l) n q = rw n q

-- NormalizeAndValidateKeyLabel accepts every label of 1 to 24 allowed bytes.
pub key_label_accepts :
    (s : Text)
    → s ≢ []
    → length s ≤ 24
    → All (λ c. is_allowed c ≡ true) s
    → (l : Text) × (normalize_key_label s ≡ some l)
unfolding normalize_key_label
key_label_accepts [] n b a = absurd (n refl)
key_label_accepts (c ∷ s) n b a =
    let (l, e) = allowed-label_bytes (c ∷ s) a in
    let short : ltb 24 (length (c ∷ s)) ≡ false = ground arith in
    (l, ap (λ t. if t then none else label_bytes (c ∷ s)) short ∙ e)
