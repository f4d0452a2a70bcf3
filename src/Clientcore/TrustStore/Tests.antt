-- ===== src/Clientcore/TrustStore/Tests.antt =====
-- First contacts, and the theorem at concrete anchors.
use revaulter.Base.{Text, bytes, same, ℕ, zero, suc, ◌≡◌, refl, true, false, none, some, [], ◌∷◌}
use revaulter.Base.Results.{ok, err}
use revaulter.Clientcore.TrustStore.{
  Entries, Anchor, accepts, declines, bad_mldsa87_length, check_or_pin_anchor, anchor_fingerprint,
  to_hex, trust_store_key,
}
use revaulter.Clientcore.TrustStore.Pinned.{Contact, contact, run, pinned_once}

abbrev no_entries : Entries
no_entries j = none

abbrev short_anchor : Anchor
short_anchor = record {
  es384_pub = some (some (bytes "k"));
  es384_canonical = bytes "e1";
  mldsa87_pub_b64 = bytes "m1";
  mldsa87_pub_bytes = bytes "m";
}

fingerprint_hex : to_hex (0 ∷ 171 ∷ 255 ∷ []) ≡ bytes "00abff"
unfolding to_hex
fingerprint_hex = refl

short_refused :
    check_or_pin_anchor
      (λ s. s)
      1700000000
      (bytes "s")
      (bytes "u")
      short_anchor
      (λ f. some accepts)
      no_entries
    ≡ (err bad_mldsa87_length, no_entries)
unfolding check_or_pin_anchor anchor_fingerprint
short_refused = refl

zeros : ℕ → Text
zeros zero = []
zeros (suc n) = 0 ∷ zeros n

-- Keys of the right lengths
abbrev anchor : Anchor
anchor = record {
  es384_pub = some (some (zeros 97));
  es384_canonical = bytes "e1";
  mldsa87_pub_b64 = bytes "m1";
  mldsa87_pub_bytes = zeros 2592;
}

abbrev first : Contact
first = record {
  clock = 1700000000;
  server = bytes "s";
  user = bytes "u";
  anchor = anchor;
  confirm = λ f. some accepts;
}

-- Another server, and a key that the user does not confirm
abbrev elsewhere : Contact
elsewhere = record first { server = bytes "t"; confirm = λ f. some declines }

abbrev again : Contact
again = record first { clock = 1700000100; confirm = λ f. none }

abbrev constant : Text → Text
constant s = 9 ∷ []

first_pins : (contact constant first no_entries).0 ≡ ok true
unfolding contact check_or_pin_anchor anchor_fingerprint zeros
first_pins = refl

again_holds :
    (contact constant again (run constant (elsewhere ∷ []) (contact constant first no_entries).1)).0
    ≡ ok false
unfolding contact run check_or_pin_anchor anchor_fingerprint zeros trust_store_key same to_hex
again_holds = refl

pinned_once_example : (bytes "e1" ≡ bytes "e1") × (bytes "m1" ≡ bytes "m1") × (false ≡ false)
pinned_once_example =
    pinned_once constant first again (elsewhere ∷ []) no_entries true false refl refl first_pins
      again_holds
