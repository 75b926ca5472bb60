-- ===== src/Devices/Ids.antt =====
-- The ids of fmd/devices.py. Python's `$` also matches before a newline that ends the text.
pub mod Laws
use harbour_find_my_device.Prelude.{
  ℕ, zero, suc, ◌+◌, ◌*◌, ◌%◌, Bool, true, false, ◌&&◌, ◌||◌, List, [], ◌∷◌, leb, ◌==◌,
  if◌then◌else◌, length,
}
use harbour_find_my_device.Text.{Text, codes}

abbrev pub id_length : ℕ
id_length = 10

unfoldable pub is_alnum : ℕ → Bool
is_alnum c = leb b'A' c && leb c b'Z' || leb b'a' c && leb c b'z' || leb b'0' c && leb c b'9'

-- what `$` matches
at_end : Text → Bool
at_end [] = true
at_end (c ∷ []) = c == b'\n'
at_end (c ∷ d ∷ s) = false

-- `_ID_RE.match`: n characters of the class, then the end
match_id : ℕ → Text → Bool
match_id zero s = at_end s
match_id (suc n) [] = false
match_id (suc n) (c ∷ s) = is_alnum c && match_id n s

unfoldable pub is_valid_id : Text → Bool
unfolding match_id at_end
is_valid_id s = match_id id_length s

alphabet : Text
alphabet = codes "abcdefghijklmnopqrstuvwxyzABCDEFGHIJKLMNOPQRSTUVWXYZ0123456789"

char_of : Text → ℕ → ℕ
char_of [] i = b'a'
char_of (c ∷ s) zero = c
char_of (c ∷ s) (suc i) = char_of s i

-- `secrets.choice(_ID_ALPHABET)`, on the random number `r`
choice : ℕ → ℕ
unfolding alphabet char_of
choice r = char_of alphabet (r % 62)

-- n characters, chosen by the random numbers from the i-th on
choices : (ℕ → ℕ) → ℕ → ℕ → Text
choices random i zero = []
choices random i (suc n) = choice (random i) ∷ choices random (i + 1) n

-- `generate_device_id`, the i-th time that it is called
unfoldable pub generate_device_id : (ℕ → ℕ) → ℕ → Text
unfolding choices choice
generate_device_id random i = choices random (i * id_length) id_length
