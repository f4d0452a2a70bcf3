-- ===== src/Clientcore/TrustStore/Pinned.antt =====
-- A pinned anchor is never replaced (internal/clientcore/truststore.go).
use revaulter.Base.{
  ℕ, Text, same, same_iff, same_refl, same→eq, ◌≡◌, refl, sym, ap, ◌∙◌, inl, inr, Bool, false,
  Option, none, some, List, [], ◌∷◌, arith, Bool-cases, Option-cases,
}
use revaulter.Base.Results.{Result, ok, err}
use revaulter.Clientcore.TrustStore.{
  TrustStoreEntry, Entries, trust_store_key, Anchor, TrustError, Confirmation, accepts, declines,
  fails, anchor_fingerprint, entry_of, compare_entry, pin, with_fingerprint, check_or_pin_anchor,
}

-- The entry is the anchor's.
pub record Holds (a : Anchor) (e : TrustStoreEntry) : Type 0 where
  pub es384 : e.anchor_es384_public_key ≡ a.es384_canonical
  pub mldsa87 : e.anchor_mldsa87_public_key ≡ a.mldsa87_pub_b64

-- One call of CheckOrPinAnchor
pub record Contact : Type 0 where
  pub clock : ℕ
  pub server : Text
  pub user : Text
  pub anchor : Anchor
  pub confirm : Text → Option Confirmation

compare_keeps :
    (fp : Text) (a : Anchor) (e : TrustStoreEntry) (t : Entries) → (compare_entry fp a e t).1 ≡ t
compare_keeps fp a e t = ground arith

compare-Holds :
    (fp : Text) (a : Anchor) (e : TrustStoreEntry) (t : Entries) (b : Bool)
    → (compare_entry fp a e t).0 ≡ ok b
    → Holds a e
compare-Holds fp a e t b h = record {
  es384 = ground (arith, same_iff e.anchor_es384_public_key a.es384_canonical);
  mldsa87 = ground (arith, same_iff e.anchor_mldsa87_public_key a.mldsa87_pub_b64);
}

module _ (sha256 : Text → Text) where
  unfoldable pub contact : Contact → Entries → Result TrustError Bool × Entries
  contact c t = check_or_pin_anchor sha256 c.clock c.server c.user c.anchor c.confirm t

  unfoldable pub run : List Contact → Entries → Entries
  run [] t = t
  run (c ∷ cs) t = run cs (contact c t).1

  pin_keeps :
      (now : ℕ) (key fp : Text) (a : Anchor) (o : Option Confirmation) (t : Entries) (k : Text)
      (e : TrustStoreEntry)
      → t key ≡ none
      → t k ≡ some e
      → (pin now key fp a o t).1 k ≡ some e
  pin_keeps now key fp a none t k e n h = h
  pin_keeps now key fp a (some fails) t k e n h = h
  pin_keeps now key fp a (some declines) t k e n h = h
  pin_keeps now key fp a (some accepts) t k e n h = elim (Bool-cases (same key k)) [
    | inl q ↦ let x : none ≡ some e = sym n ∙ ap t (same→eq key k q) ∙ h in cc
    | inr q ↦ rw q h
  ]

  found_keeps :
      (now : ℕ) (key : Text) (a : Anchor) (confirm : Text → Option Confirmation)
      (f : Result TrustError Text) (t : Entries) (k : Text) (e : TrustStoreEntry)
      → t k ≡ some e
      → (with_fingerprint now key a confirm f t).1 k ≡ some e
  found_keeps now key a confirm (err x) t k e h = h
  found_keeps now key a confirm (ok fp) t k e h = elim (Option-cases (t key)) [
    | inl n ↦ rw (n, with_fingerprint) (pin_keeps now key fp a (confirm fp) t k e n h)
    | inr (e', n) ↦
        rw (n, with_fingerprint) (ap (λ (x : Entries). x k) (compare_keeps fp a e' t) ∙ h)
  ]

  contact_keeps :
      (c : Contact) (t : Entries) (k : Text) (e : TrustStoreEntry)
      → t k ≡ some e
      → (contact c t).1 k ≡ some e
  unfolding contact check_or_pin_anchor
  contact_keeps c t k e h =
      found_keeps c.clock (trust_store_key c.server c.user) c.anchor c.confirm
        (anchor_fingerprint sha256 c.anchor) t k e h

  run_keeps :
      (cs : List Contact) (t : Entries) (k : Text) (e : TrustStoreEntry)
      → t k ≡ some e
      → run cs t k ≡ some e
  unfolding run
  run_keeps [] t k e h = h
  run_keeps (c ∷ cs) t k e h = run_keeps cs (contact c t).1 k e (contact_keeps c t k e h)

  pin-Holds :
      (now : ℕ) (key fp : Text) (a : Anchor) (o : Option Confirmation) (t : Entries) (b : Bool)
      → (pin now key fp a o t).0 ≡ ok b
      → (e : TrustStoreEntry) × ((pin now key fp a o t).1 key ≡ some e) × Holds a e
  pin-Holds now key fp a none t b h = absurd (cc)
  pin-Holds now key fp a (some fails) t b h = absurd (cc)
  pin-Holds now key fp a (some declines) t b h = absurd (cc)
  pin-Holds now key fp a (some accepts) t b h =
      (entry_of now fp a, rw (same_refl key), record { es384 = refl; mldsa87 = refl })

  found-Holds :
      (now : ℕ) (key : Text) (a : Anchor) (confirm : Text → Option Confirmation)
      (f : Result TrustError Text) (t : Entries) (b : Bool)
      → (with_fingerprint now key a confirm f t).0 ≡ ok b
      → (e : TrustStoreEntry) × ((with_fingerprint now key a confirm f t).1 key ≡ some e)
        × Holds a e
  found-Holds now key a confirm (err x) t b h = absurd (cc)
  found-Holds now key a confirm (ok fp) t b h = elim (Option-cases (t key)) [
    | inl n ↦
        let p = pin-Holds now key fp a (confirm fp) t b (sym (rw (n, with_fingerprint)) ∙ h) in
        (p.0, rw (n, with_fingerprint) p.1, p.2)
    | inr (e, n) ↦ (
      e,
      rw (n, with_fingerprint) (ap (λ (x : Entries). x key) (compare_keeps fp a e t) ∙ n),
      compare-Holds fp a e t b (sym (rw (n, with_fingerprint)) ∙ h),
    )
  ]

  -- A contact that meets a pinned entry.
  known-Holds :
      (now : ℕ) (key : Text) (a : Anchor) (confirm : Text → Option Confirmation)
      (f : Result TrustError Text) (t : Entries) (e : TrustStoreEntry) (b : Bool)
      → t key ≡ some e
      → (with_fingerprint now key a confirm f t).0 ≡ ok b
      → Holds a e × (b ≡ false)
  known-Holds now key a confirm (err x) t e b n h = absurd (cc)
  known-Holds now key a confirm (ok fp) t e b n h =
      let q : (compare_entry fp a e t).0 ≡ ok b = sym (rw (n, with_fingerprint)) ∙ h in
      (compare-Holds fp a e t b q, ground arith)

  -- An anchor is pinned once: after a CheckOrPinAnchor that went well, and whatever calls of it follow,
  -- with whatever confirmers, every later call for the same server and user that goes well is for the
  -- same two public keys, and pins nothing.
  pub pinned_once :
      (c c' : Contact) (between : List Contact) (t : Entries) (b b' : Bool)
      → c'.server ≡ c.server
      → c'.user ≡ c.user
      → (contact c t).0 ≡ ok b
      → (contact c' (run between (contact c t).1)).0 ≡ ok b'
      → (c'.anchor.es384_canonical ≡ c.anchor.es384_canonical)
        × (c'.anchor.mldsa87_pub_b64 ≡ c.anchor.mldsa87_pub_b64)
        × (b' ≡ false)
  unfolding contact check_or_pin_anchor
  pinned_once c c' between t b b' s u h h' =
      let key = trust_store_key c.server c.user in
      let (e, found, holds) =
        found-Holds c.clock key c.anchor c.confirm (anchor_fingerprint sha256 c.anchor) t b h in
      let same_key : trust_store_key c'.server c'.user ≡ key =
        ap (λ x. trust_store_key x c'.user) s ∙ ap (trust_store_key c.server) u in
      let (holds', old) =
        known-Holds c'.clock (trust_store_key c'.server c'.user) c'.anchor c'.confirm
          (anchor_fingerprint sha256 c'.anchor) (run between (contact c t).1) e b'
          (ap (run between (contact c t).1) same_key
            ∙ run_keeps between (contact c t).1 key e found)
          h' in
      (sym holds'.es384 ∙ holds.es384, sym holds'.mldsa87 ∙ holds.mldsa87, old)
