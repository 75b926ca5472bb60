-- ===== src/Tokens/Command.antt =====
-- The HMAC tokens of MQTT commands. `hexdigest secret message` stands for
-- `hmac.new(secret, message, sha256).hexdigest()`; a time is in whole seconds.
pub mod Window
pub mod Binding
use harbour_find_my_device.Prelude.{
  ℕ, ◌/◌, Bool, true, false, ◌||◌, Option, none, some, List, [], ◌∷◌, ◌++◌, take, leb, any, ◌=?◌,
  if◌then◌else◌, ℤ, pos, ◌+ℤ◌, ◌-ℤ◌,
}
use harbour_find_my_device.Text.{Text, upper, lower, is_empty}
use harbour_find_my_device.Text.Decimal.{show_int}
use harbour_find_my_device.Exception.{Result, ok, raise, type_error}

abbrev pub hmac_step : ℕ
hmac_step = 30

abbrev pub hmac_digits : ℕ
hmac_digits = 16

-- `arg or ""`
abbrev pub or_blank : Option Text → Text
or_blank none = []
or_blank (some s) = s

-- `_hmac_message`
unfoldable pub hmac_message : Text → Option Text → ℤ → Text
hmac_message cmd arg bucket =
    upper cmd ++ (b':' ∷ (lower (or_blank arg) ++ (b':' ∷ show_int bucket)))

-- `base + w` for w in -1, 0, 1
abbrev pub buckets : ℕ → List ℤ
buckets base = (pos base -ℤ pos 1) ∷ pos base ∷ (pos base +ℤ pos 1) ∷ []

-- `hmac.compare_digest` of two texts raises TypeError at a character that is not ASCII.
unfoldable pub is_ascii : Text → Bool
is_ascii s = if any (λ c. leb 128 c) s then false else true

module _ (hexdigest : Text → Text → Text) where
  unfoldable pub mac_at : Text → Text → Option Text → ℤ → Text
  mac_at secret cmd arg bucket = take hmac_digits (hexdigest secret (hmac_message cmd arg bucket))

  unfoldable pub make_command_token : Text → Text → Option Text → ℕ → Text
  make_command_token secret cmd arg when = mac_at secret cmd arg (pos (when / hmac_step))

  unfoldable pub matches_any : Text → Text → Option Text → Text → List ℤ → Bool
  matches_any secret cmd arg token [] = false
  matches_any secret cmd arg token (b ∷ bs) =
      mac_at secret cmd arg b =? token || matches_any secret cmd arg token bs

  unfoldable pub verify_command_token :
      Option Text → Text → Option Text → Option Text → ℕ → Result Bool
  verify_command_token (some secret) cmd arg (some token) when =
      if is_empty secret || is_empty token
      then ok false
      else if is_ascii token
      then ok (matches_any secret cmd arg token (buckets (when / hmac_step)))
      else raise type_error
  verify_command_token _ cmd arg _ when = ok false
