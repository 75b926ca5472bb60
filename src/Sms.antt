-- ===== src/Sms.antt =====
-- daemon-rpm/src/sms_command_listener.py: the whitelist of senders and the command in a message.
-- A digit is one of ASCII.
pub mod Senders
use text.Mathlib.Text.{◌==◌ as str_eq}
use harbour_find_my_device.Prelude.{
  ℕ, ◌-◌, Bool, true, false, ◌&&◌, ◌||◌, Option, none, some, List, [], ◌∷◌, length, drop, any, keep,
  leb, ◌=?◌, if◌then◌else◌,
}
use harbour_find_my_device.Text.{Text, codes, is_digit, upper, lower, strip, split}

-- `normalize_number`
unfoldable pub normalize_number : Text → Text
normalize_number num = keep is_digit num

-- `s[-n:]`
unfoldable pub last : ℕ → Text → Text
last n s = drop (length s - n) s

-- `sender_allowed` for one entry of the whitelist, of normalized numbers; the text is long enough to
-- be compared by its end when it has `match_digits` digits, unless that is 0.
unfoldable pub same_number : ℕ → Text → Text → Bool
unfolding last
same_number match_digits s e =
    if leb 1 match_digits && leb match_digits (length s) && leb match_digits (length e)
    then last match_digits s =? last match_digits e
    else s =? e

unfoldable pub sender_allowed : Text → List Text → ℕ → Bool
unfolding normalize_number same_number
sender_allowed sender allowed match_digits =
    any (λ entry. same_number match_digits (normalize_number sender) (normalize_number entry))
      allowed

unfoldable pub is_keyword : Text → Bool
is_keyword cmd =
    cmd =? codes "CAMERA"
    || cmd =? codes "LOCK"
    || cmd =? codes "DELETE"
    || cmd =? codes "RING"
    || cmd =? codes "GPS"

-- the word is one of CAMERA_ARGS
unfoldable pub is_camera_arg : Text → Bool
is_camera_arg word = word =? codes "front" || word =? codes "back"

-- what `parse_command` returns: `none` is None
pub record Parsed : Type 0 where
  pub cmd : Text
  pub arg : Option Text
  pub code : Text

with_code : Text → Option Text → List Text → Option Parsed
with_code cmd arg [] = none
with_code cmd arg (code ∷ rest) = some (record { cmd = cmd; arg = arg; code = code })

camera_words : Text → List Text → Option Parsed
unfolding with_code
camera_words cmd [] = none
camera_words cmd (word ∷ rest) =
    if is_camera_arg (lower word)
    then with_code cmd (some (lower word)) rest
    else with_code cmd (some (codes "back")) (word ∷ rest)

parse_words : List Text → Option Parsed
unfolding camera_words
parse_words [] = none
parse_words (word ∷ rest) =
    let cmd = upper word in
    if is_keyword cmd
    then (if cmd =? codes "CAMERA" then camera_words cmd rest else with_code cmd none rest)
    else none

-- `parse_command`
unfoldable pub parse_command : Text → Option Parsed
unfolding parse_words
parse_command text = parse_words (split (strip text))
