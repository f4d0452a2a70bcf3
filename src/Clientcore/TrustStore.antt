-- ===== src/Clientcore/TrustStore.antt =====
-- internal/clientcore/truststore.go: the anchor keys that a client has pinned, and AnchorFingerprint
-- of internal/protocolv2/anchor.go.
pub mod Pinned
mod Tests
use revaulter.Base.{
  ℕ, ◌+◌, ◌/◌, ◌%◌, Text, bytes, same, length, Bool, true, false, not, Option, none, some, List, [],
  ◌∷◌, ◌++◌, ltb, ◌==◌, if◌then◌else◌,
}
use revaulter.Base.Results.{Result, ok, err}

-- TrustStoreEntry
pub record TrustStoreEntry : Type 0 where
  pub anchor_es384_public_key : Text
  pub anchor_mldsa87_public_key : Text
  pub fingerprint : Text
  pub first_seen : ℕ

-- The map Entries of TrustStore
abbrev pub Entries : Type 0
Entries = Text → Option TrustStoreEntry

-- TrustStoreKey
unfoldable pub trust_store_key : Text → Text → Text
trust_store_key server user = server ++ (bytes "|" ++ user)

-- encoding/hex
abbrev pub hex_digit : ℕ → ℕ
hex_digit n = if ltb n 10 then n + 48 else n + 87

unfoldable pub to_hex : Text → Text
to_hex [] = []
to_hex (b ∷ s) = hex_digit (b / 16) ∷ hex_digit (b % 16) ∷ to_hex s

-- An anchor as it was fetched. The ECDSA key may be nil, and its method Bytes may fail.
pub record Anchor : Type 0 where
  pub es384_pub : Option (Option Text)
  pub es384_canonical : Text
  pub mldsa87_pub_b64 : Text
  pub mldsa87_pub_bytes : Text

pub data TrustError : Type 0 where
  no_es384_key bad_mldsa87_length bad_es384_key bad_es384_length : TrustError
  fingerprint_mismatch mldsa87_mismatch es384_mismatch : TrustError
  not_pinned confirm_failed declined : TrustError

-- What a ConfirmAnchorFunc returns.
pub data Confirmation : Type 0 where
  accepts declines fails : Confirmation

abbrev pub fingerprint_of : (Text → Text) → Text → Option (Option Text) → Result TrustError Text
fingerprint_of sha256 mldsa87 none = err no_es384_key
fingerprint_of sha256 mldsa87 (some key) =
    if not (length mldsa87 == 2592) then err bad_mldsa87_length else elim key [
      | none ↦ err bad_es384_key
      | some raw ↦
          if not (length raw == 97)
          then err bad_es384_length
          else ok (to_hex (sha256 (raw ++ mldsa87)))
    ]

-- AnchorFingerprint, on SHA-256
unfoldable pub anchor_fingerprint : (Text → Text) → Anchor → Result TrustError Text
anchor_fingerprint sha256 a = fingerprint_of sha256 a.mldsa87_pub_bytes a.es384_pub

abbrev pub entry_of : ℕ → Text → Anchor → TrustStoreEntry
entry_of now fp a = record {
  anchor_es384_public_key = a.es384_canonical;
  anchor_mldsa87_public_key = a.mldsa87_pub_b64;
  fingerprint = fp;
  first_seen = now;
}

abbrev pub set_entry : Text → TrustStoreEntry → Entries → Entries
set_entry k e t j = if same k j then some e else t j

-- What the pinned entry says to the anchor that was fetched.
abbrev pub compare_entry :
    Text → Anchor → TrustStoreEntry → Entries → Result TrustError Bool × Entries
compare_entry fp a e t =
    if not (same e.fingerprint fp)
    then (err fingerprint_mismatch, t)
    else if not (same e.anchor_mldsa87_public_key a.mldsa87_pub_b64)
    then (err mldsa87_mismatch, t)
    else if not (same e.anchor_es384_public_key a.es384_canonical)
    then (err es384_mismatch, t)
    else (ok false, t)

-- The first contact, on what the confirmer answers
abbrev pub pin :
    ℕ → Text → Text → Anchor → Option Confirmation → Entries → Result TrustError Bool × Entries
pin now key fp a none t = (err not_pinned, t)
pin now key fp a (some fails) t = (err confirm_failed, t)
pin now key fp a (some declines) t = (err declined, t)
pin now key fp a (some accepts) t = (ok true, set_entry key (entry_of now fp a) t)

abbrev pub with_fingerprint :
    ℕ
    → Text
    → Anchor
    → (Text → Option Confirmation)
    → Result TrustError Text
    → Entries
    → Result TrustError Bool × Entries
with_fingerprint now key a confirm (err e) t = (err e, t)
with_fingerprint now key a confirm (ok fp) t = elim (t key) [
  | some e ↦ compare_entry fp a e t
  | none ↦ pin now key fp a (confirm fp) t
]

-- CheckOrPinAnchor: `confirm` answers to a fingerprint, or there is no confirmer.
unfoldable pub check_or_pin_anchor :
    (Text → Text)
    → ℕ
    → Text
    → Text
    → Anchor
    → (Text → Option Confirmation)
    → Entries
    → Result TrustError Bool × Entries
check_or_pin_anchor sha256 now server user a confirm t =
    with_fingerprint now (trust_store_key server user) a confirm (anchor_fingerprint sha256 a) t
