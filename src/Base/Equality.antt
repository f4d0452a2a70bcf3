-- ===== src/Base/Equality.antt =====
-- Boolean equality tests that decide equality, as instances.
use mathlib.Core.Path.{◌≡◌}
use mathlib.Core.Logic.{◌↔◌}
use mathlib.Core.Bool.{Bool, true}
use revaulter.Base.Strings.{Text, same, same_iff}

pub record Eq {ℓ} (A : Type ℓ) : Type ℓ where
  pub beq : A → A → Bool
  pub beq_iff : (a b : A) → (beq a b ≡ true) ↔ (a ≡ b)

instance abbrev pub text_eq : Eq Text
text_eq = record { beq = same; beq_iff = same_iff }
