-- ===== src/Table.antt =====
-- The key/value tables of the database: SELECT by key, and INSERT … ON CONFLICT(Key) DO UPDATE.
use text.Mathlib.Text.{◌==◌ as str_eq}
use harbour_find_my_device.Prelude.{
  String, ◌≡◌, Option, none, some, List, [], ◌∷◌, arith, eq_iff, if◌then◌else◌,
}

module _ {ℓ} {V : Type ℓ} where
  unfoldable pub lookup : String → List (String × V) → Option V
  lookup key [] = none
  lookup key ((k, v) ∷ rows) = if str_eq k key then some v else lookup key rows

  unfoldable pub upsert : String → V → List (String × V) → List (String × V)
  upsert key v [] = (key, v) ∷ []
  upsert key v ((k, w) ∷ rows) = if str_eq k key then (k, v) ∷ rows else (k, w) ∷ upsert key v rows

  pub lookup-upsert :
      (key other : String) (v : V) (rows : List (String × V))
      → lookup other (upsert key v rows) ≡ (if str_eq key other then some v else lookup other rows)
  unfolding lookup upsert
  lookup-upsert key other v [] = ground arith
  lookup-upsert key other v ((k, w) ∷ rows) =
      ground (arith, eq_iff k key, eq_iff k other, eq_iff key other, lookup-upsert key other v rows)
