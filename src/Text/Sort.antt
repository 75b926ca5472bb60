-- ===== src/Text/Sort.antt =====
-- Python's order of texts, and `sorted`.
use harbour_find_my_device.Prelude.{
  ◌≡◌, Bool, true, false, ◌&&◌, ◌||◌, List, [], ◌∷◌, ltb, ◌==◌, any, arith, if◌then◌else◌, All, inl,
  inr, Bool-cases,
}
use harbour_find_my_device.Text.{Text}

-- `s <= t`
unfoldable pub precedes : Text → Text → Bool
precedes [] t = true
precedes (c ∷ s) [] = false
precedes (c ∷ s) (d ∷ t) = ltb c d || c == d && precedes s t

unfoldable pub insert_sorted : Text → List Text → List Text
unfolding precedes
insert_sorted s [] = s ∷ []
insert_sorted s (t ∷ ts) = if precedes s t then s ∷ t ∷ ts else t ∷ insert_sorted s ts

unfoldable pub sorted : List Text → List Text
unfolding insert_sorted
sorted [] = []
sorted (s ∷ ts) = insert_sorted s (sorted ts)

module _ (p : Text → Bool) where
  any-insert_sorted : (s : Text) (ts : List Text) → any p (insert_sorted s ts) ≡ (p s || any p ts)
  unfolding insert_sorted any
  any-insert_sorted s [] = ground arith
  any-insert_sorted s (t ∷ ts) = ground (arith, any-insert_sorted s ts)

  -- sorting keeps the members
  pub any-sorted : (ts : List Text) → any p (sorted ts) ≡ any p ts
  unfolding sorted any
  any-sorted [] = ground arith
  any-sorted (s ∷ ts) = ground (arith, any-insert_sorted s (sorted ts), any-sorted ts)

module _ {κ} (P : Text → Type κ) where
  All-insert_sorted : (s : Text) (ts : List Text) → P s → All P ts → All P (insert_sorted s ts)
  unfolding insert_sorted
  All-insert_sorted s [] h k = (h, tt)
  All-insert_sorted s (t ∷ ts) h k = elim (Bool-cases (precedes s t)) [
    | inl y ↦ simp y (h, k)
    | inr n ↦ simp n (k.0, All-insert_sorted s ts h k.1)
  ]

  pub All-sorted : (ts : List Text) → All P ts → All P (sorted ts)
  unfolding sorted
  All-sorted [] k = k
  All-sorted (s ∷ ts) k = All-insert_sorted s (sorted ts) k.0 (All-sorted ts k.1)
