-- ===== src/Base/Words.antt =====
-- strings.Split and strings.Join on one separator byte, and texts on which TrimSpace does nothing.
use Prim.Native.Nat.{ℕ, zero, suc}
use mathlib.Core.Path.{◌≡◌, refl, ap, ◌∙◌, sym}
use mathlib.Core.Logic.{◌≢◌}
use mathlib.Core.Bool.{Bool, true, false, ◌&&◌}
use mathlib.Core.Option.{none, some}
use mathlib.Core.List.{List, [], ◌∷◌, ◌++◌, map}
use native.Mathlib.Omega.{arith}
use revaulter.Base.Tests.{◌==◌, ==_iff, ltb, not, if◌then◌else◌}
use revaulter.Base.Lists.{length, All}
use revaulter.Base.Strings.{Text, is_empty}
use revaulter.Base.Trim.{reverse, spaces, after_any, strip, trim_space}

abbrev pub join : ℕ → List Text → Text
join sep [] = []
join sep (w ∷ ws) = elim ws [ [] ↦ w | v ∷ vs ↦ w ++ sep ∷ join sep ws ]

abbrev pub push : ℕ → List Text → List Text
push c [] = (c ∷ []) ∷ []
push c (w ∷ ws) = (c ∷ w) ∷ ws

abbrev pub split : ℕ → Text → List Text
split sep [] = [] ∷ []
split sep (c ∷ s) = let rest = split sep s in if c == sep then [] ∷ rest else push c rest

-- A visible ASCII byte.
abbrev pub is_ink : ℕ → Bool
is_ink b = ltb 32 b && ltb b 127

-- A text of visible bytes, none of them the separator.
pub record Word (sep : ℕ) (w : Text) : Type 0 where
  pub ink : All (λ b. is_ink b ≡ true) w
  pub whole : All (λ b. (b == sep) ≡ false) w
  pub something : w ≢ []

split-append :
    (sep : ℕ) (w t : Text)
    → All (λ b. (b == sep) ≡ false) w
    → split sep (w ++ sep ∷ t) ≡ w ∷ split sep t
split-append sep [] t a = ground (arith, ==_iff sep sep)
split-append sep (c ∷ w) t a = rw (a.0, split-append sep w t a.1)

split-whole : (sep : ℕ) (w : Text) → All (λ b. (b == sep) ≡ false) w → split sep w ≡ w ∷ []
split-whole sep [] a = refl
split-whole sep (c ∷ w) a = rw (a.0, split-whole sep w a.1)

pub split-join :
    (sep : ℕ) (w : Text) (ws : List Text)
    → All (Word sep) (w ∷ ws)
    → split sep (join sep (w ∷ ws)) ≡ w ∷ ws
split-join sep w [] a = split-whole sep w a.0.whole
split-join sep w (v ∷ vs) a =
    split-append sep w _ a.0.whole ∙ ap (λ l. w ∷ l) (split-join sep v vs a.1)

-- The patterns that no visible byte begins.
abbrev faint : List Text → Bool
faint [] = true
faint (p ∷ ps) = elim p [ [] ↦ false | b ∷ r ↦ not (is_ink b) && faint ps ]

after_any-ink :
    (ps : List Text) (b : ℕ) (s : Text)
    → faint ps ≡ true
    → is_ink b ≡ true
    → after_any ps (b ∷ s) ≡ none
after_any-ink [] b s f i = refl
after_any-ink ([] ∷ ps) b s f i = cc
after_any-ink ((c ∷ r) ∷ ps) b s f i = ground (arith, after_any-ink ps b s, ==_iff c b)

-- It begins with a visible byte.
pub Inked : Text → Type 0
Inked s = (b : ℕ) × (r : Text) × (s ≡ b ∷ r) × (is_ink b ≡ true)

strip-Inked : (ps : List Text) (n : ℕ) (s : Text) → faint ps ≡ true → Inked s → strip ps n s ≡ s
unfolding Inked
strip-Inked ps zero s f i = refl
strip-Inked ps (suc n) s f (b, r, e, i) =
    ap (λ o. elim o [ none ↦ s | some t ↦ strip ps n t ])
      (ap (after_any ps) e ∙ after_any-ink ps b r f i)

Inked-append : (s t : Text) → Inked s → Inked (s ++ t)
unfolding Inked
Inked-append s t (b, r, e, i) = (b, r ++ t, ap (λ x. x ++ t) e, i)

append_assoc : (a b c : Text) → (a ++ b) ++ c ≡ a ++ (b ++ c)
append_assoc [] b c = refl
append_assoc (x ∷ a) b c = ap (λ l. x ∷ l) (append_assoc a b c)

append_nil : (a : Text) → a ++ [] ≡ a
append_nil [] = refl
append_nil (x ∷ a) = ap (λ l. x ∷ l) (append_nil a)

reverse-append : (a b : Text) → reverse (a ++ b) ≡ reverse b ++ reverse a
reverse-append [] b = sym (append_nil (reverse b))
reverse-append (x ∷ a) b =
    ap (λ l. l ++ x ∷ []) (reverse-append a b) ∙ append_assoc (reverse b) (reverse a) (x ∷ [])

reverse-reverse : (a : Text) → reverse (reverse a) ≡ a
reverse-reverse [] = refl
reverse-reverse (x ∷ a) = reverse-append (reverse a) (x ∷ []) ∙ ap (λ l. x ∷ l) (reverse-reverse a)

-- TrimSpace leaves a text alone that begins and ends with a visible byte.
trim-Inked : (s : Text) → Inked s → Inked (reverse s) → trim_space s ≡ s
unfolding trim_space
trim-Inked s i j = rw (strip-Inked spaces (length s) s refl i) (
    ap reverse (strip-Inked (map reverse spaces) (length s) (reverse s) refl j) ∙ reverse-reverse s)

Inked-Word : (sep : ℕ) (w : Text) → Word sep w → Inked w
unfolding Inked
Inked-Word sep [] v = absurd (v.something refl)
Inked-Word sep (b ∷ r) v = (b, r, refl, v.ink.0)

Inked-reverse : (w : Text) → w ≢ [] → All (λ b. is_ink b ≡ true) w → Inked (reverse w)
unfolding Inked
Inked-reverse [] n a = absurd (n refl)
Inked-reverse (b ∷ []) n a = (b, [], refl, a.0)
Inked-reverse (b ∷ c ∷ r) n a =
    Inked-append (reverse (c ∷ r)) (b ∷ []) (Inked-reverse (c ∷ r) (λ e. cc) a.1)

pub trim-Word : (sep : ℕ) (w : Text) → Word sep w → trim_space w ≡ w
trim-Word sep w v = trim-Inked w (Inked-Word sep w v) (Inked-reverse w v.something v.ink)

Inked-join :
    (sep : ℕ) (w : Text) (ws : List Text) → All (Word sep) (w ∷ ws) → Inked (join sep (w ∷ ws))
Inked-join sep w [] a = Inked-Word sep w a.0
Inked-join sep w (v ∷ vs) a = Inked-append w _ (Inked-Word sep w a.0)

Inked-reverse-join :
    (sep : ℕ) (w : Text) (ws : List Text)
    → All (Word sep) (w ∷ ws)
    → Inked (reverse (join sep (w ∷ ws)))
unfolding Inked
Inked-reverse-join sep w [] a = Inked-reverse w a.0.something a.0.ink
Inked-reverse-join sep w (v ∷ vs) a =
    let later = Inked-append _ (sep ∷ []) (Inked-reverse-join sep v vs a.1) in
    rw (reverse-append w (sep ∷ join sep (v ∷ vs)))
      (Inked-append (reverse (sep ∷ join sep (v ∷ vs))) (reverse w) later)

pub trim-join :
    (sep : ℕ) (w : Text) (ws : List Text)
    → All (Word sep) (w ∷ ws)
    → trim_space (join sep (w ∷ ws)) ≡ join sep (w ∷ ws)
trim-join sep w ws a =
    trim-Inked (join sep (w ∷ ws)) (Inked-join sep w ws a) (Inked-reverse-join sep w ws a)

pub join_nonempty :
    (sep : ℕ) (w : Text) (ws : List Text)
    → All (Word sep) (w ∷ ws)
    → is_empty (join sep (w ∷ ws)) ≡ false
unfolding Inked
join_nonempty sep w ws a = let (b, r, e, i) = Inked-join sep w ws a in rw e
