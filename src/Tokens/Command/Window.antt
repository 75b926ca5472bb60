-- ===== src/Tokens/Command/Window.antt =====
-- For how long a token is accepted, and what an accepted token is.
use harbour_find_my_device.Prelude.{
  ℕ, ◌+◌, ◌/◌, ◌≤◌, ◌≡◌, true, false, Option, some, arith, =?_refl, ℤ, pos, ◌+ℤ◌, ◌-ℤ◌, ◌≤ℤ◌, ◌⊎◌,
}
use harbour_find_my_device.Text.{Text, is_empty}
use harbour_find_my_device.Exception.{ok}
use harbour_find_my_device.Tokens.Command.{
  buckets, is_ascii, mac_at, make_command_token, matches_any, verify_command_token,
}

-- one of the three buckets round `base`
abbrev pub IsNear : ℕ → ℤ → Type 0
IsNear base b = (pos base -ℤ pos 1 ≤ℤ b) × (b ≤ℤ pos base +ℤ pos 1)

near_bucket :
    (b base : ℕ)
    → b ≤ base + 1
    → base ≤ b + 1
    → (pos b ≡ pos base -ℤ pos 1) ⊎ ((pos b ≡ pos base) ⊎ (pos b ≡ pos base +ℤ pos 1))
unfolding ◌-ℤ◌ ◌+ℤ◌
near_bucket b base h k = ground arith

module _ (hexdigest : Text → Text → Text) (secret cmd : Text) (arg : Option Text) where
  matches-near :
      (b base : ℕ)
      → b ≤ base + 1
      → base ≤ b + 1
      → matches_any hexdigest secret cmd arg
          (mac_at hexdigest secret cmd arg (pos b))
          (buckets base)
        ≡ true
  unfolding matches_any
  matches-near b base h k =
      ground (arith, near_bucket b base h k, =?_refl (mac_at hexdigest secret cmd arg (pos b)))

  -- A token is accepted up to 30 seconds before or after the second it was made in, where the PIN is
  -- not empty and the digest is a text of ASCII characters that is not empty.
  pub verify-make_command_token :
      (made now : ℕ)
      → is_empty secret ≡ false
      → is_empty (make_command_token hexdigest secret cmd arg made) ≡ false
      → is_ascii (make_command_token hexdigest secret cmd arg made) ≡ true
      → made ≤ now + 30
      → now ≤ made + 30
      → verify_command_token hexdigest
          (some secret)
          cmd
          arg
          (some (make_command_token hexdigest secret cmd arg made))
          now
        ≡ ok true
  unfolding verify_command_token make_command_token
  verify-make_command_token made now s t a early late =
      rw (s, t, a, matches-near (made / 30) (now / 30) (omega arith) (omega arith))
