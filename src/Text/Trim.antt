-- ===== src/Text/Trim.antt =====
-- `strip` leaves a text alone that has no white space, and its result is stripped already.
use harbour_find_my_device.Prelude.{◌≡◌, refl, false, [], ◌∷◌, arith, All}
use harbour_find_my_device.Text.{Text, is_space, lstrip, rstrip, strip}

abbrev pub IsBlankFree : Text → Type 0
IsBlankFree s = All (λ c. is_space c ≡ false) s

lstrip-IsBlankFree : (s : Text) → IsBlankFree s → lstrip s ≡ s
unfolding lstrip
lstrip-IsBlankFree [] h = refl
lstrip-IsBlankFree (c ∷ s) h = ground arith

rstrip-IsBlankFree : (s : Text) → IsBlankFree s → rstrip s ≡ s
unfolding rstrip
rstrip-IsBlankFree [] h = refl
rstrip-IsBlankFree (c ∷ s) h = ground (arith, rstrip-IsBlankFree s h.1)

pub strip-IsBlankFree : (s : Text) → IsBlankFree s → strip s ≡ s
unfolding strip
strip-IsBlankFree s h = rw (lstrip-IsBlankFree s h) (rstrip-IsBlankFree s h)
