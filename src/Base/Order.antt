-- ===== src/Base/Order.antt =====
-- The order of texts, byte by byte, as strings.Compare and the databases have it.

use mathlib.Core.Path.{◌≡◌, refl}
use mathlib.Core.Bool.{Bool, true, false, ◌&&◌, ◌||◌}
use mathlib.Core.List.{[], ◌∷◌}
use native.Mathlib.Omega.{arith}
use revaulter.Base.Tests.{ltb, ◌==◌}
use revaulter.Base.Strings.{Text}

unfoldable pub text_lt : Text → Text → Bool
text_lt [] [] = false
text_lt [] (d ∷ t) = true
text_lt (c ∷ s) [] = false
text_lt (c ∷ s) (d ∷ t) = let rest = text_lt s t in ltb c d || ((c == d) && rest)

pub text_lt_irrefl : (s : Text) → text_lt s s ≡ false
unfolding text_lt
text_lt_irrefl [] = refl
text_lt_irrefl (c ∷ s) = ground (arith, text_lt_irrefl s)

pub text_lt_trans : (s t u : Text) → text_lt s t ≡ true → text_lt t u ≡ true → text_lt s u ≡ true
unfolding text_lt
text_lt_trans [] [] u p q = cc
text_lt_trans [] (d ∷ t) [] p q = cc
text_lt_trans [] (d ∷ t) (e ∷ u) p q = refl
text_lt_trans (c ∷ s) [] u p q = cc
text_lt_trans (c ∷ s) (d ∷ t) [] p q = cc
text_lt_trans (c ∷ s) (d ∷ t) (e ∷ u) p q = ground (arith, text_lt_trans s t u)

pub text_lt_asym : (s t : Text) → text_lt s t ≡ true → text_lt t s ≡ false
unfolding text_lt
text_lt_asym [] [] p = cc
text_lt_asym [] (d ∷ t) p = refl
text_lt_asym (c ∷ s) [] p = cc
text_lt_asym (c ∷ s) (d ∷ t) p = ground (arith, text_lt_asym s t)

pub text_lt_total : (s t : Text) → text_lt s t ≡ false → text_lt t s ≡ false → s ≡ t
unfolding text_lt
text_lt_total [] [] p q = refl
text_lt_total [] (d ∷ t) p q = cc
text_lt_total (c ∷ s) [] p q = cc
text_lt_total (c ∷ s) (d ∷ t) p q = ground (arith, text_lt_total s t)
