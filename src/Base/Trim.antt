-- ===== src/Base/Trim.antt =====
-- strings.TrimSpace, on the UTF-8 encodings of what unicode.IsSpace accepts.
use Prim.Native.Nat.{ℕ, zero, suc}
use mathlib.Core.Option.{Option, none, some}
use mathlib.Core.List.{List, [], ◌∷◌, ◌++◌, map}
use revaulter.Base.Tests.{◌==◌, if◌then◌else◌}
use revaulter.Base.Lists.{length}
use revaulter.Base.Strings.{Text}

-- \t \n \v \f \r, the space, U+0085, U+00A0, U+1680, U+2000 to U+200A, U+2028, U+2029, U+202F,
-- U+205F and U+3000
abbrev pub spaces : List Text
spaces =
    (9 ∷ [])
    ∷ (10 ∷ [])
    ∷ (11 ∷ [])
    ∷ (12 ∷ [])
    ∷ (13 ∷ [])
    ∷ (32 ∷ [])
    ∷ (194 ∷ 133 ∷ [])
    ∷ (194 ∷ 160 ∷ [])
    ∷ (225 ∷ 154 ∷ 128 ∷ [])
    ∷ (226 ∷ 128 ∷ 128 ∷ [])
    ∷ (226 ∷ 128 ∷ 129 ∷ [])
    ∷ (226 ∷ 128 ∷ 130 ∷ [])
    ∷ (226 ∷ 128 ∷ 131 ∷ [])
    ∷ (226 ∷ 128 ∷ 132 ∷ [])
    ∷ (226 ∷ 128 ∷ 133 ∷ [])
    ∷ (226 ∷ 128 ∷ 134 ∷ [])
    ∷ (226 ∷ 128 ∷ 135 ∷ [])
    ∷ (226 ∷ 128 ∷ 136 ∷ [])
    ∷ (226 ∷ 128 ∷ 137 ∷ [])
    ∷ (226 ∷ 128 ∷ 138 ∷ [])
    ∷ (226 ∷ 128 ∷ 168 ∷ [])
    ∷ (226 ∷ 128 ∷ 169 ∷ [])
    ∷ (226 ∷ 128 ∷ 175 ∷ [])
    ∷ (226 ∷ 129 ∷ 159 ∷ [])
    ∷ (227 ∷ 128 ∷ 128 ∷ [])
    ∷ []

abbrev pub reverse : Text → Text
reverse [] = []
reverse (c ∷ s) = reverse s ++ c ∷ []

-- What follows a prefix.
abbrev pub after : Text → Text → Option Text
after [] s = some s
after (p ∷ ps) [] = none
after (p ∷ ps) (c ∷ s) = let rest = after ps s in if p == c then rest else none

abbrev pub after_any : List Text → Text → Option Text
after_any [] s = none
after_any (p ∷ ps) s = elim (after p s) [ some t ↦ some t | none ↦ after_any ps s ]

-- Each round removes a byte at least, so that as many rounds as bytes are enough.
abbrev pub strip : List Text → ℕ → Text → Text
strip ps zero s = s
strip ps (suc n) s = elim (after_any ps s) [ none ↦ s | some t ↦ strip ps n t ]

unfoldable pub trim_space : Text → Text
trim_space s =
    let l = strip spaces (length s) s in reverse (strip (map reverse spaces) (length l) (reverse l))
