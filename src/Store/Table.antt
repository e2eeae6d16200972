-- ===== src/Store/Table.antt =====
-- SQL on one table: a table is the list of its rows, oldest first. A unique index or a primary key
-- is a test on two rows that tells whether they conflict.
pub mod Update
pub mod Unique
pub mod Page
use metery.Prelude.{
  ℤ, pos, negsuc, Bool, true, false, Option, none, some, String, List, [], ◌∷◌, ◌++◌, any, take,
  if◌then◌else◌, ◌&&◌, not, ◌==◌,
}

abbrev pub is_none {ℓ} : {A : Type ℓ} → Option A → Bool
is_none none = true
is_none (some _) = false

-- `COALESCE(column, ?)` on a column that may be NULL.
abbrev pub coalesce {ℓ} : {A : Type ℓ} → Option A → A → Option A
coalesce none b = some b
coalesce (some a) b = some a

-- Equality with a column that may be NULL, which is never true of NULL.
abbrev pub is_value : Option String → String → Bool
is_value none s = false
is_value (some r) s = r == s

module _ {ℓ} {A : Type ℓ} where
  -- `INSERT`: refused if the row conflicts with one that is there.
  abbrev pub insert_row : (A → A → Bool) → A → List A → Option (List A)
  insert_row conflict row rows = if any (conflict row) rows then none else some (rows ++ row ∷ [])

  -- `INSERT … ON CONFLICT DO NOTHING`.
  abbrev pub insert_or_ignore : (A → A → Bool) → A → List A → List A
  insert_or_ignore conflict row rows = if any (conflict row) rows then rows else rows ++ row ∷ []

  -- `UPDATE … SET … WHERE …`.
  abbrev pub update_where : (A → Bool) → (A → A) → List A → List A
  update_where p set [] = []
  update_where p set (row ∷ rows) = (if p row then set row else row) ∷ update_where p set rows

  -- No two rows conflict.
  abbrev pub is_unique : (A → A → Bool) → List A → Bool
  is_unique conflict [] = true
  is_unique conflict (row ∷ rows) = not (any (conflict row) rows) && is_unique conflict rows

  -- `ORDER BY`: a row goes behind the rows that are not after it.
  abbrev pub insert_sorted : (A → A → Bool) → A → List A → List A
  insert_sorted lt x [] = x ∷ []
  insert_sorted lt x (y ∷ ys) = if lt y x then y ∷ insert_sorted lt x ys else x ∷ y ∷ ys

  abbrev pub order_by : (A → A → Bool) → List A → List A
  order_by lt [] = []
  order_by lt (x ∷ xs) = insert_sorted lt x (order_by lt xs)

  -- `LIMIT`: a negative number is no limit (as SQLite has it).
  abbrev pub limit_rows : ℤ → List A → List A
  limit_rows (pos n) rows = take n rows
  limit_rows (negsuc n) rows = rows
