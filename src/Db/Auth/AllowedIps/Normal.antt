-- ===== src/Db/Auth/AllowedIps/Normal.antt =====
-- The list that NormalizeAllowedIPs answers with holds no entry twice, is normal already, and is
-- read back from the column as it was.
use mathlib.Core.Path.{subst}
use revaulter.Base.{
  Text, same, same_iff, same_refl, is_empty, trim_space, Word, split-join, trim-Word, trim-join,
  join_nonempty, ◌≡◌, ◌≢◌, refl, sym, ap, ◌∙◌, true, false, ◌||◌, some, List, [], ◌∷◌, ◌++◌, arith,
  All, Bool-cases, Option-cases, inl, inr, ◌⊎◌,
}
use revaulter.Db.Auth.AllowedIps.{
  Net, IpError, Result, ok, err, has_slash, member, canonical, normalize_from,
  normalize_allowed_ips, keep_parts, parse_allowed_ips_csv, print_allowed_ips,
}

-- What net prints: visible ASCII, no comma.
pub record Prints (net : Net) : Type 0 where
  pub ip : (s c : Text) → net.parse_ip s ≡ some c → Word 44 c
  pub cidr : (s c : Text) → net.parse_cidr s ≡ some c → Word 44 c

abbrev pub Unique : List Text → Type 0
Unique [] = Unit
Unique (t ∷ ts) = (member t ts ≡ false) × Unique ts

nonempty : (w : Text) → Word 44 w → is_empty w ≡ false
nonempty [] v = absurd (v.something refl)
nonempty (b ∷ r) v = refl

keep_parts-words : (ws : List Text) → All (Word 44) ws → keep_parts ws ≡ ws
keep_parts-words [] a = refl
keep_parts-words (w ∷ ws) a = rw (trim-Word 44 w a.0, nonempty w a.0, keep_parts-words ws a.1)

parse-print :
    (ws : List Text) → All (Word 44) ws → parse_allowed_ips_csv (print_allowed_ips ws) ≡ ws
unfolding parse_allowed_ips_csv trim_space
parse-print [] a = refl
parse-print (w ∷ ws) a =
    rw (trim-join 44 w ws a, join_nonempty 44 w ws a, split-join 44 w ws a)
      (keep_parts-words (w ∷ ws) a)

append_nil : (l : List Text) → l ++ [] ≡ l
append_nil [] = refl
append_nil (x ∷ l) = ap (λ m. x ∷ m) (append_nil l)

ok_inj : {a b : List Text} → ok a ≡ ok b → a ≡ b
ok_inj e = cc

-- What a normal list holds: printed text that is its own canonical form.
record Settled (net : Net) (c : Text) : Type 0 where
  word : Word 44 c
  fixed : canonical net c ≡ ok c

All-append : (P : Text → Type 0) (l : List Text) (c : Text) → All P l → P c → All P (l ++ c ∷ [])
All-append P [] c a p = (p, tt)
All-append P (x ∷ l) c a p = (a.0, All-append P l c a.1 p)

member-append : (t c : Text) (l : List Text) → member t (l ++ c ∷ []) ≡ (member t l || same c t)
member-append t c [] = ground arith
member-append t c (x ∷ l) = ground (arith, member-append t c l)

Unique-append : (l : List Text) (c : Text) → Unique l → member c l ≡ false → Unique (l ++ c ∷ [])
Unique-append [] c u m = (refl, tt)
Unique-append (x ∷ l) c u m =
    ground (arith, Unique-append l c u.1, member-append x c l, same_iff x c, same_iff c x)

-- An entry in the middle is not among those before it.
Unique-middle : (l r : List Text) (c : Text) → Unique (l ++ c ∷ r) → member c l ≡ false
Unique-middle [] r c u = refl
Unique-middle (x ∷ l) r c u = ground (arith, Unique-middle l r c u.1, later l, same_iff x c)
  where
    later : (l : List Text) → member c (l ++ c ∷ r) ≡ true
    later [] = rw (same_refl c)
    later (y ∷ l) = ground (arith, later l)

middle : (l r : List Text) (c : Text) → (l ++ c ∷ []) ++ r ≡ l ++ c ∷ r
middle [] r c = refl
middle (x ∷ l) r c = ap (λ m. x ∷ m) (middle l r c)

module _ (net : Net) (prints : Prints net)
    (settles : (s c : Text) → canonical net s ≡ ok c → canonical net c ≡ ok c) where
  canonical-Word : (entry c : Text) → canonical net entry ≡ ok c → Word 44 c
  canonical-Word entry c e = elim (Bool-cases (has_slash entry)) [
    | inl q ↦ elim (Option-cases (net.parse_cidr entry)) [
      | inl n ↦ absurd (ground arith)
      | inr (d, n) ↦ prints.cidr entry c (ground arith)
    ]
    | inr q ↦ elim (Option-cases (net.parse_ip entry)) [
      | inl n ↦ absurd (ground arith)
      | inr (d, n) ↦ prints.ip entry c (ground arith)
    ]
  ]

  -- One round of the loop: the entry is left out, stored, or refused.
  data Round (normalized : List Text) (raw : Text) (rest : List Text) : Type 0 where
    skips :
        normalize_from net normalized (raw ∷ rest) ≡ normalize_from net normalized rest
        → Round normalized raw rest
    stores :
        (c : Text)
        → canonical net (trim_space raw) ≡ ok c
        → member c normalized ≡ false
        → normalize_from net normalized (raw ∷ rest)
          ≡ normalize_from net (normalized ++ c ∷ []) rest
        → Round normalized raw rest
    refuses :
        ((l : List Text) → normalize_from net normalized (raw ∷ rest) ≢ ok l)
        → Round normalized raw rest

  Result-cases : (r : Result Text) → ((e : IpError) × (r ≡ err e)) ⊎ ((c : Text) × (r ≡ ok c))
  Result-cases (err e) = inl (e, refl)
  Result-cases (ok c) = inr (c, refl)

  round : (normalized : List Text) (raw : Text) (rest : List Text) → Round normalized raw rest
  round normalized raw rest = elim (Bool-cases (is_empty (trim_space raw))) [
    | inl q ↦ skips (rw q)
    | inr q ↦ elim (Result-cases (canonical net (trim_space raw))) [
      | inl (e, n) ↦ refuses (λ l x. failed q e n l x)
      | inr (c, n) ↦ elim (Bool-cases (member c normalized)) [
        | inl m ↦ skips (rw (q, n, m))
        | inr m ↦ stores c n m (rw (q, n, m))
      ]
    ]
  ]
    where
      refused :
          is_empty (trim_space raw) ≡ false
          → (e : IpError) → canonical net (trim_space raw) ≡ err e
          → normalize_from net normalized (raw ∷ rest) ≡ err e
      refused q e n = rw (q, n)

      failed :
          is_empty (trim_space raw) ≡ false
          → (e : IpError) → canonical net (trim_space raw) ≡ err e
          → (l : List Text) → normalize_from net normalized (raw ∷ rest) ≡ ok l
          → ⊥
      failed q e n l x = apart (sym (refused q e n) ∙ x)
        where
          apart : ◌≡◌ {A = Result (List Text)} (err e) (ok l) → ⊥
          apart y = cc

  normalize-Settled :
      (normalized ips l : List Text)
      → normalize_from net normalized ips ≡ ok l
      → All (Settled net) normalized
      → Unique normalized
      → All (Settled net) l × Unique l
  normalize-Settled normalized [] l e a u = got (ok_inj e)
    where
      got : normalized ≡ l → All (Settled net) l × Unique l
      got q = subst (λ m. All (Settled net) m × Unique m) q (a, u)
  normalize-Settled normalized (raw ∷ rest) l e a u = elim (round normalized raw rest) [
    | skips q ↦ normalize-Settled normalized rest l (sym q ∙ e) a u
    | stores c n m q ↦
        normalize-Settled (normalized ++ c ∷ []) rest l (sym q ∙ e)
          (All-append (Settled net) normalized c a (record {
            word = canonical-Word (trim_space raw) c n;
            fixed = settles (trim_space raw) c n;
          }))
          (Unique-append normalized c u m)
    | refuses x ↦ absurd (x l e)
  ]

  Settled-again :
      (normalized l : List Text)
      → All (Settled net) l
      → Unique (normalized ++ l)
      → normalize_from net normalized l ≡ ok (normalized ++ l)
  Settled-again normalized [] a u = ap ok (sym (append_nil normalized))
  Settled-again normalized (c ∷ l) a u =
      let t = trim-Word 44 c a.0.word in
      let filled : is_empty (trim_space c) ≡ false = ap is_empty t ∙ nonempty c a.0.word in
      let again : canonical net (trim_space c) ≡ ok c = ap (canonical net) t ∙ a.0.fixed in
      rw (filled, again, Unique-middle normalized l c u)
        (Settled-again (normalized ++ c ∷ []) l a.1 (rw (middle normalized l c) u)
          ∙ ap ok (middle normalized l c))

  words : (l : List Text) → All (Settled net) l → All (Word 44) l
  words [] a = tt
  words (c ∷ l) a = (a.0.word, words l a.1)

  -- If net prints visible text without commas, and what it prints parses to itself, then what
  -- NormalizeAllowedIPs answers with has no entry twice, is left as it is by another
  -- NormalizeAllowedIPs, and is read back by parseAllowedIPsCSV from the column that it is stored in.
  pub normalize_round_trip :
      (ips l : List Text)
      → normalize_allowed_ips net ips ≡ ok l
      → Unique l
        × (normalize_allowed_ips net l ≡ ok l)
        × (parse_allowed_ips_csv (print_allowed_ips l) ≡ l)
  unfolding normalize_allowed_ips
  normalize_round_trip ips l e =
      let (a, u) = normalize-Settled [] ips l e tt tt in
      (u, Settled-again [] l a u, parse-print l (words l a))
