-- ===== src/Protocol/Labels/Tests.antt =====
-- Labels and notes, and the theorems at a concrete label.
use revaulter.Base.{[], ◌≤◌, bytes, length, ◌≡◌, ◌≢◌, refl, true, false, none, some, All}
use revaulter.Protocol.Labels.{label_bytes, normalize_key_label, validate_note}
use revaulter.Protocol.Labels.Canonical.{is_allowed, is_canonical, key_label_canonical}

label_run : normalize_key_label (bytes "My-Key.1") ≡ some (bytes "my-key.1")
unfolding normalize_key_label label_bytes
label_run = refl

label_space : normalize_key_label (bytes "my key") ≡ none
unfolding normalize_key_label label_bytes
label_space = refl

label_long : normalize_key_label (bytes "abcdefghijklmnopqrstuvwxy") ≡ none
unfolding normalize_key_label
label_long = refl

note_run : validate_note (bytes "Deploy v1.2/prod") ≡ true
unfolding validate_note
note_run = refl

note_bad : validate_note (bytes "a<b") ≡ false
unfolding validate_note
note_bad = refl

key_label_canonical_example :
    (bytes "My-Key.1" ≢ [])
    × (length (bytes "My-Key.1") ≤ 24)
    × All (λ c. is_allowed c ≡ true) (bytes "My-Key.1")
    × (length (bytes "my-key.1") ≡ length (bytes "My-Key.1"))
    × All (λ c. is_canonical c ≡ true) (bytes "my-key.1")
    × (normalize_key_label (bytes "my-key.1") ≡ some (bytes "my-key.1"))
key_label_canonical_example = key_label_canonical (bytes "My-Key.1") (bytes "my-key.1") label_run
