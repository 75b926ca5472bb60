-- ===== src/Tokens/Totp.antt =====
-- TOTP codes (RFC 6238) of SMS commands. `hmac_sha1 key counter_bytes` stands for the digest of
-- `hmac.new`, and `b32decode` for `base64.b32decode` of the padded secret, `none` being any error.
-- A time is in whole seconds.
pub mod Digits
pub mod Drift
use harbour_find_my_device.Prelude.{
  ℕ, zero, suc, ◌+◌, ◌-◌, ◌*◌, ◌/◌, ◌%◌, ◌^◌, Bool, true, false, Option, none, some, List, [], ◌∷◌,
  ◌++◌, not, keep, ◌==◌, length, drop, take, ltb, ◌=?◌, if◌then◌else◌, ℤ, pos, negsuc, ◌+ℤ◌, ◌-ℤ◌,
}
use harbour_find_my_device.Text.{Text, upper, strip}
use harbour_find_my_device.Text.Decimal.{show_nat}
use harbour_find_my_device.Exception.{Result, ok, raise, struct_error, decode_error, ◌>>=◌}

abbrev pub totp_step : ℕ
totp_step = 30

abbrev pub totp_digits : ℕ
totp_digits = 6

-- `struct.pack(">Q", n)`
big_endian : ℕ → ℕ → List ℕ
big_endian zero n = []
big_endian (suc w) n = n / 256 ^ w % 256 ∷ big_endian w n

pack_counter : ℤ → Result (List ℕ)
unfolding big_endian
pack_counter (negsuc n) = raise struct_error
pack_counter (pos n) = if ltb n (2 ^ 64) then ok (big_endian 8 n) else raise struct_error

-- `struct.unpack(">I", bytes)`
unpack_word : List ℕ → Result ℕ
unpack_word (a ∷ b ∷ c ∷ d ∷ []) = ok (((a * 256 + b) * 256 + c) * 256 + d)
unpack_word _ = raise struct_error

-- `mac[-1]`; a digest is not empty
last_byte : List ℕ → ℕ
last_byte [] = 0
last_byte (b ∷ []) = b
last_byte (b ∷ c ∷ bs) = last_byte (c ∷ bs)

zeros : ℕ → Text
zeros zero = []
zeros (suc n) = b'0' ∷ zeros n

-- `str(val).zfill(digits)`
unfoldable pub zfill : ℕ → Text → Text
unfolding zeros
zfill width s = zeros (width - length s) ++ s

-- the code that a digest is truncated to
unfoldable pub truncate_mac : List ℕ → ℕ → Result Text
unfolding unpack_word last_byte
truncate_mac mac digits = do
  word ← unpack_word (take 4 (drop (last_byte mac % 16) mac))
  ok (zfill digits (show_nat (word % 2 ^ 31 % 10 ^ digits)))

repeat_pad : ℕ → Text
repeat_pad zero = []
repeat_pad (suc n) = b'=' ∷ repeat_pad n

-- `_pad_b32`: stripped, in upper case, without spaces, and padded to groups of eight
unfoldable pub pad_b32 : Text → Text
unfolding repeat_pad
pad_b32 secret =
    let s = keep (λ c. not (c == b' ')) (upper (strip secret)) in
    s ++ repeat_pad ((8 - length s % 8) % 8)

module _ (hmac_sha1 : List ℕ → List ℕ → List ℕ) where
  -- `_hotp`
  unfoldable pub hotp : List ℕ → ℤ → ℕ → Result Text
  unfolding pack_counter
  hotp key counter digits = do
    bytes ← pack_counter counter
    truncate_mac (hmac_sha1 key bytes) digits

  -- the counters that are tried, in their order
  unfoldable pub any_code : List ℕ → Text → List ℤ → Result Bool
  any_code key code [] = ok false
  any_code key code (c ∷ counters) = do
    candidate ← hotp key c totp_digits
    if candidate =? code then ok true else any_code key code counters

  module _ (b32decode : Text → Option (List ℕ)) where
    now_key : Option (List ℕ) → ℕ → Result Text
    now_key none now = raise decode_error
    now_key (some key) now = hotp key (pos (now / totp_step)) totp_digits

    unfoldable pub totp_now : Text → ℕ → Result Text
    unfolding now_key
    totp_now secret now = now_key (b32decode (pad_b32 secret)) now

    verify_key : Option (List ℕ) → Text → ℕ → Result Bool
    verify_key none code now = ok false
    verify_key (some key) code now =
        let base = now / totp_step in
        any_code key (strip code) ((pos base -ℤ pos 1) ∷ pos base ∷ (pos base +ℤ pos 1) ∷ [])

    unfoldable pub verify_totp : Text → Text → ℕ → Result Bool
    unfolding verify_key
    verify_totp secret code now = verify_key (b32decode (pad_b32 secret)) code now
