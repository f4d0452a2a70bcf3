-- ===== src/Sql.antt =====
-- What the SQL statements in the Go sources do to a table: WHERE, UPDATE, DELETE, RETURNING.
-- A table is the list of its rows. `Keyed` has the laws of a table with a primary key.
pub mod Keyed
pub mod Rows
pub mod Ordered
pub mod Every
use revaulter.Base.{
  ℕ, zero, suc, Bool, true, false, Option, none, some, List, [], ◌∷◌, if◌then◌else◌,
}

-- How the driver answers one statement: it runs it, or it reports an error and runs nothing.
pub data Conn : Type 0 where
  up down : Conn

module _ {ℓ} {A : Type ℓ} where
  -- SELECT … WHERE p
  unfoldable pub select : (A → Bool) → List A → List A
  select p [] = []
  select p (r ∷ rs) = let rest = select p rs in if p r then r ∷ rest else rest

  -- UPDATE … SET f WHERE p
  unfoldable pub update : (A → Bool) → (A → A) → List A → List A
  update p f [] = []
  update p f (r ∷ rs) = (if p r then f r else r) ∷ update p f rs

  -- DELETE … WHERE p
  unfoldable pub delete : (A → Bool) → List A → List A
  delete p [] = []
  delete p (r ∷ rs) = let rest = delete p rs in if p r then rest else r ∷ rest

  -- SELECT COUNT(*) … WHERE p; also the number of rows that a statement affects
  unfoldable pub count : (A → Bool) → List A → ℕ
  count p [] = zero
  count p (r ∷ rs) = let rest = count p rs in if p r then suc rest else rest

  -- The row that `QueryRow` reads: the first one.
  unfoldable pub first : List A → Option A
  first [] = none
  first (r ∷ rs) = some r

  -- What an UPDATE does to the row that a key finds.
  abbrev pub adjust : (A → Bool) → (A → A) → Option A → Option A
  adjust p f none = none
  adjust p f (some r) = some (if p r then f r else r)

  -- What a DELETE leaves of it.
  abbrev pub drop_if : (A → Bool) → Option A → Option A
  drop_if p none = none
  drop_if p (some r) = if p r then none else some r

  -- What a WHERE lets through of it.
  abbrev pub keep_if : (A → Bool) → Option A → Option A
  keep_if p none = none
  keep_if p (some r) = if p r then some r else none
