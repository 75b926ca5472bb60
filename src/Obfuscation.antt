-- ===== src/Obfuscation.antt =====
-- fmd/obfuscation.py: the reversible obfuscation of the secrets that the database stores.
pub mod Xor
pub mod RoundTrip
use Prim.Native.Nat.{bit_xor}
use harbour_find_my_device.Prelude.{
  ℕ, zero, suc, ◌+◌, ◌%◌, Bool, ◌||◌, not, Option, none, some, List, [], ◌∷◌, ◌++◌, if◌then◌else◌,
  length, drop,
}
use harbour_find_my_device.Text.{Text, codes, starts_with, is_empty}
use harbour_find_my_device.Exception.{Result, ok, raise, unicode_error}
use harbour_find_my_device.Codec.Base64.{b64encode, b64decode}
use harbour_find_my_device.Codec.Utf8.{utf8_encode, utf8_decode}

abbrev pub marker : Text
marker = codes "obf1:"

key : List ℕ
key = codes "harbour-find-my-device/obfuscation-key/v1"

-- `_KEY[i]`
key_byte : List ℕ → ℕ → ℕ
key_byte [] i = 0
key_byte (k ∷ ks) zero = k
key_byte (k ∷ ks) (suc i) = key_byte ks i

-- `_xor`, with the index of the first byte
pub xor_from : ℕ → List ℕ → List ℕ
xor_from i [] = []
xor_from i (b ∷ bs) = bit_xor b (key_byte key (i % length key)) ∷ xor_from (i + 1) bs

-- `plaintext.startswith(_MARKER)`
unfoldable pub is_marked : Text → Bool
is_marked s = starts_with s marker

pub encoded : Option (List ℕ) → Result (Option Text)
encoded none = raise unicode_error
encoded (some raw) = ok (some (marker ++ b64encode (xor_from 0 raw)))

-- `obfuscate`; the UnicodeEncodeError of a lone surrogate goes to the caller.
unfoldable pub obfuscate : Option Text → Result (Option Text)
obfuscate none = ok none
obfuscate (some s) = if is_empty s || is_marked s then ok (some s) else encoded (utf8_encode s)

-- the `try` block of `deobfuscate`; `none` is any exception
pub decoded : Option (List ℕ) → Option Text
decoded none = none
decoded (some raw) = utf8_decode (xor_from 0 raw)

pub or_raw : Text → Option Text → Text
or_raw s none = s
or_raw s (some plain) = plain

unfoldable pub deobfuscate : Option Text → Option Text
deobfuscate none = none
deobfuscate (some s) =
    if is_empty s || not (is_marked s)
    then some s
    else some (or_raw s (decoded (b64decode (drop (length marker) s))))
