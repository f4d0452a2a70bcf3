-- ===== src/Base.antt =====
-- The names that every other module shares: the libraries', passed on, and those of the children.
mod Tests
mod Lists
mod Strings
mod Equality
mod Trim
mod Words
pub mod Int
pub mod Results
pub mod Order
pub use Equality.*
pub use Order.*
pub use Int.*
pub use Tests.*
pub use Lists.*
unfoldable pub use Strings.{same}
unfoldable pub use Trim.{trim_space}
pub use Words.{join, split, is_ink, Word, split-join, trim-Word, trim-join, join_nonempty}
pub use Strings.{Text, bytes, is_empty, same_refl, same→eq, same_iff, nonempty_iff}
pub use Prim.Native.Nat.{ℕ, zero, suc, ◌+◌, ◌-◌, ◌*◌, ◌/◌, ◌%◌, ◌^◌, ◌≤◌, ◌<◌}
pub use mathlib.Core.Path.{◌≡◌, refl, sym, ap, ◌∙◌}
pub use mathlib.Core.Logic.{◌≢◌, ◌↔◌, ◌⊎◌, inl, inr}
pub use mathlib.Core.Bool.{Bool, true, false, ◌&&◌, ◌||◌}
pub use mathlib.Core.Option.{Option, none, some}
pub use mathlib.Core.List.{List, [], ◌∷◌, ◌++◌, map}
pub use native.Mathlib.Omega.{arith}
