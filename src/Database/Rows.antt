-- ===== src/Database/Rows.antt =====
-- Lookups in the rows of a table.
use harbour_find_my_device.Prelude.{Bool, Option, none, some, List, [], ◌∷◌, if◌then◌else◌}

-- the first row that a WHERE clause takes
module _ {ℓ} {A : Type ℓ} where
  unfoldable pub find : (A → Bool) → List A → Option A
  find p [] = none
  find p (x ∷ xs) = if p x then some x else find p xs
