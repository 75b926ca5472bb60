-- ===== src/Text.antt =====
-- Python's `str`, as the daemons and the app's fmd package use it: a text is the list of its code
-- points. `is_space` is Python's table of white space. The case tables and the digits are those of
-- ASCII: any other code point has no case here and is no digit.
pub mod Decimal
pub mod Trim
pub mod Sort
use Prim.Native.Char.{code}
use harbour_find_my_device.Prelude.{
  ℕ, ◌+◌, ◌-◌, String, Bool, true, false, ◌&&◌, ◌||◌, List, [], ◌∷◌, ◌++◌, map, leb, ◌==◌, ◌=?◌,
  drop, length, if◌then◌else◌,
}

abbrev pub Text : Type 0
Text = List ℕ

-- the code points of a literal
abbrev pub codes : String → Text
codes String.[] = []
codes (String.◌∷◌ c s) = code c ∷ codes s

unfoldable pub is_digit : ℕ → Bool
is_digit c = leb b'0' c && leb c b'9'

unfoldable pub is_upper : ℕ → Bool
is_upper c = leb b'A' c && leb c b'Z'

unfoldable pub is_lower : ℕ → Bool
is_lower c = leb b'a' c && leb c b'z'

-- `str.isspace` of one code point
unfoldable pub is_space : ℕ → Bool
is_space c =
    leb 9 c && leb c 13
    || leb 28 c && leb c 32
    || c == 133
    || c == 160
    || c == 5760
    || leb 8192 c && leb c 8202
    || c == 8232
    || c == 8233
    || c == 8239
    || c == 8287
    || c == 12288

unfoldable pub upper_char : ℕ → ℕ
unfolding is_lower
upper_char c = if is_lower c then c - 32 else c

unfoldable pub lower_char : ℕ → ℕ
unfolding is_upper
lower_char c = if is_upper c then c + 32 else c

-- `s.upper()` and `s.lower()`
unfoldable pub upper : Text → Text
unfolding upper_char
upper s = map upper_char s

unfoldable pub lower : Text → Text
unfolding lower_char
lower s = map lower_char s

unfoldable pub is_empty : Text → Bool
is_empty [] = true
is_empty (c ∷ s) = false

unfoldable pub lstrip : Text → Text
lstrip [] = []
lstrip (c ∷ s) = if is_space c then lstrip s else c ∷ s

unfoldable pub rstrip : Text → Text
unfolding is_empty
rstrip [] = []
rstrip (c ∷ s) = let rest = rstrip s in if is_space c && is_empty rest then [] else c ∷ rest

-- `s.strip()`
unfoldable pub strip : Text → Text
unfolding lstrip rstrip
strip s = rstrip (lstrip s)

-- `cur` is the word begun; a word ends at white space and at the end of the text.
flush : Text → List Text → List Text
flush [] words = words
flush (c ∷ cur) words = (c ∷ cur) ∷ words

split_from : Text → Text → List Text
unfolding flush
split_from cur [] = flush cur []
split_from cur (c ∷ s) =
    let rest = split_from (if is_space c then [] else cur ++ (c ∷ [])) s in
    if is_space c then flush cur rest else rest

-- `s.split()`
unfoldable pub split : Text → List Text
unfolding split_from
split s = split_from [] s

-- `s.startswith(prefix)`
unfoldable pub starts_with : Text → Text → Bool
starts_with s [] = true
starts_with [] (p ∷ prefix) = false
starts_with (c ∷ s) (p ∷ prefix) = (c == p) && starts_with s prefix

-- `s.endswith(suffix)`
unfoldable pub ends_with : Text → Text → Bool
ends_with s suffix = drop (length s - length suffix) s =? suffix

unfoldable pub push : ℕ → List Text → List Text
push c [] = (c ∷ []) ∷ []
push c (word ∷ words) = (c ∷ word) ∷ words

-- `s.split(sep)`, for a separator of one character
unfoldable pub split_on : ℕ → Text → List Text
unfolding push
split_on sep [] = [] ∷ []
split_on sep (c ∷ s) = let rest = split_on sep s in if c == sep then [] ∷ rest else push c rest

-- `sub in s`
unfoldable pub contains : Text → Text → Bool
contains [] sub = starts_with [] sub
contains (c ∷ s) sub = starts_with (c ∷ s) sub || contains s sub
