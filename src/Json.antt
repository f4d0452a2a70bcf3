-- ===== src/Json.antt =====
-- encoding/json, as the stores use it: a value is written to a TEXT column and read back.
pub mod Sample
use revaulter.Base.{Text, ◌≡◌, false, Option, some, is_empty}

pub record Codec (A : Type 0) : Type 0 where
  -- json.Marshal, which does not fail on the values that the program writes
  pub marshal : A → Text
  -- json.Unmarshal
  pub unmarshal : Text → Option A
  pub unmarshal-marshal : (a : A) → unmarshal (marshal a) ≡ some a
  pub marshal_nonempty : (a : A) → is_empty (marshal a) ≡ false
