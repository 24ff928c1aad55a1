-- ===== src/Table.antt =====
-- Statements on a table, a list of rows: SELECT, UPDATE and DELETE with a test, and ORDER BY, which
-- stands for Go's sort.SliceStable as well.
pub mod Order
pub mod Change
pub mod Member
use wachd.Base.{Bool, List, [], ◌∷◌, ◌++◌, Option, none, some, if◌then◌else◌}

module _ {ℓ} {A : Type ℓ} where
  abbrev pub first_row : (A → Bool) → List A → Option A
  first_row test [] = none
  first_row test (r ∷ rows) = if test r then some r else first_row test rows

  abbrev pub select : (A → Bool) → List A → List A
  select test [] = []
  select test (r ∷ rows) = let rest = select test rows in if test r then r ∷ rest else rest

  abbrev pub update : (A → Bool) → (A → A) → List A → List A
  update test change [] = []
  update test change (r ∷ rows) = (if test r then change r else r) ∷ update test change rows

  abbrev pub delete : (A → Bool) → List A → List A
  delete test [] = []
  delete test (r ∷ rows) = let rest = delete test rows in if test r then rest else r ∷ rest

  abbrev pub flat_map {κ} : {B : Type κ} → (B → List A) → List B → List A
  flat_map f [] = []
  flat_map f (x ∷ xs) = f x ++ flat_map f xs

module _ {ℓ} {A : Type ℓ} (before : A → A → Bool) where
  -- A row goes before those that it ties with and that stood behind it.
  abbrev pub insert : A → List A → List A
  insert x [] = x ∷ []
  insert x (y ∷ ys) = let rest = y ∷ insert x ys in if before y x then rest else x ∷ y ∷ ys

  abbrev pub order_by : List A → List A
  order_by [] = []
  order_by (x ∷ xs) = insert x (order_by xs)
