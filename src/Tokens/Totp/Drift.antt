-- ===== src/Tokens/Totp/Drift.antt =====
-- A code is accepted for a window of one step round the step that it was made in.
use harbour_find_my_device.Prelude.{
  ℕ, ◌+◌, ◌-◌, ◌/◌, ◌^◌, ◌≤◌, ◌<◌, ◌≡◌, refl, ap, sym, ◌∙◌, true, Option, some, List, [], ◌∷◌, ◌⊎◌,
  inl, inr, length, =?_refl, ℤ, pos, ◌+ℤ◌, ◌-ℤ◌, arith,
}
use harbour_find_my_device.Text.{Text, strip}
use harbour_find_my_device.Text.Trim.{strip-IsBlankFree}
use harbour_find_my_device.Exception.{ok}
use harbour_find_my_device.Tokens.Totp.{
  hotp, any_code, now_key, totp_now, verify_totp, totp_digits, pad_b32,
}
use harbour_find_my_device.Tokens.Totp.Digits.{hotp-IsCode}

one_of_three :
    (made base : ℕ)
    → 1 ≤ base
    → made ≤ base + 1
    → base ≤ made + 1
    → (made ≡ base - 1) ⊎ ((made ≡ base) ⊎ (made ≡ base + 1))
one_of_three made base p h k = omega arith

counters :
    (base : ℕ)
    → 1 ≤ base
    → (pos base -ℤ pos 1 ≡ pos (base - 1)) × (pos base +ℤ pos 1 ≡ pos (base + 1))
unfolding ◌-ℤ◌ ◌+ℤ◌
counters base h = ground arith

module _ (hmac_sha1 : List ℕ → List ℕ → List ℕ)
    (sized : (k m : List ℕ) → length (hmac_sha1 k m) ≡ 20) where
  any_code-three :
      (key : List ℕ) (code x y z : Text) (a b c : ℤ)
      → hotp hmac_sha1 key a totp_digits ≡ ok x
      → hotp hmac_sha1 key b totp_digits ≡ ok y
      → hotp hmac_sha1 key c totp_digits ≡ ok z
      → (code ≡ x) ⊎ ((code ≡ y) ⊎ (code ≡ z))
      → any_code hmac_sha1 key code (a ∷ b ∷ c ∷ []) ≡ ok true
  unfolding any_code
  any_code-three key code x y z a b c ex ey ez (inl e) = rw (ex, e, =?_refl x)
  any_code-three key code x y z a b c ex ey ez (inr (inl e)) = ground (arith, ex, ey, =?_refl y)
  any_code-three key code x y z a b c ex ey ez (inr (inr e)) = ground (arith, ex, ey, ez, =?_refl z)

  same_code :
      (key : List ℕ) (m n : ℕ) (code x : Text)
      → m ≡ n
      → hotp hmac_sha1 key (pos m) totp_digits ≡ ok code
      → hotp hmac_sha1 key (pos n) totp_digits ≡ ok x
      → code ≡ x
  same_code key m n code x e p q =
      let both : ok code ≡ ok x = sym p ∙ ap (λ i. hotp hmac_sha1 key (pos i) totp_digits) e ∙ q in
      cc

  which :
      (key : List ℕ) (made base : ℕ) (code x y z : Text)
      → (made ≡ base - 1) ⊎ ((made ≡ base) ⊎ (made ≡ base + 1))
      → hotp hmac_sha1 key (pos made) totp_digits ≡ ok code
      → hotp hmac_sha1 key (pos (base - 1)) totp_digits ≡ ok x
      → hotp hmac_sha1 key (pos base) totp_digits ≡ ok y
      → hotp hmac_sha1 key (pos (base + 1)) totp_digits ≡ ok z
      → (code ≡ x) ⊎ ((code ≡ y) ⊎ (code ≡ z))
  which key made base code x y z (inl e) p ex ey ez =
      inl (same_code key made (base - 1) code x e p ex)
  which key made base code x y z (inr (inl e)) p ex ey ez =
      inr (inl (same_code key made base code y e p ey))
  which key made base code x y z (inr (inr e)) p ex ey ez =
      inr (inr (same_code key made (base + 1) code z e p ez))

  accepted_near :
      (key : List ℕ) (made base : ℕ) (code : Text)
      → 1 ≤ base
      → base + 1 < 2 ^ 64
      → made ≤ base + 1
      → base ≤ made + 1
      → hotp hmac_sha1 key (pos made) totp_digits ≡ ok code
      → any_code hmac_sha1 key code ((pos base -ℤ pos 1) ∷ pos base ∷ (pos base +ℤ pos 1) ∷ [])
        ≡ ok true
  accepted_near key made base code p big h k e =
      let (below, above) = counters base p in
      let (x, ex, _) = hotp-IsCode hmac_sha1 sized key (base - 1) (omega arith) in
      let (y, ey, _) = hotp-IsCode hmac_sha1 sized key base (omega arith) in
      let (z, ez, _) = hotp-IsCode hmac_sha1 sized key (base + 1) big in
      rw (below, above)
        (any_code-three key code x y z (pos (base - 1)) (pos base) (pos (base + 1)) ex ey ez
          (which key made base code x y z (one_of_three made base p h k) e ex ey ez))

  module _ (b32decode : Text → Option (List ℕ)) (secret : Text) (key : List ℕ)
      (valid : b32decode (pad_b32 secret) ≡ some key) where
    -- With digests of twenty bytes and a secret that decodes, the code of one time is accepted at
    -- every other time up to 30 seconds before or after, from second 30 of the epoch to below
    -- second 2 ^ 64.
    pub verify_totp-totp_now :
        (made now : ℕ) (code : Text)
        → 30 ≤ now
        → now < 2 ^ 64
        → made ≤ now + 30
        → now ≤ made + 30
        → totp_now hmac_sha1 b32decode secret made ≡ ok code
        → verify_totp hmac_sha1 b32decode secret code now ≡ ok true
    unfolding totp_now verify_totp now_key
    verify_totp-totp_now made now code p big h k e =
        let made_code : hotp hmac_sha1 key (pos (made / 30)) totp_digits ≡ ok code =
          ap (λ o. now_key hmac_sha1 b32decode o made) (sym valid) ∙ e in
        let (c, ec, shape) = hotp-IsCode hmac_sha1 sized key (made / 30) (omega arith) in
        let same = same_code key (made / 30) (made / 30) code c refl made_code ec in
        let bare : strip code ≡ code =
          ap strip same ∙ strip-IsBlankFree c shape.blank_free ∙ sym same in
        rw (valid, bare)
          (accepted_near key (made / 30) (now / 30) code (omega arith) (omega arith) (omega arith)
            (omega arith) made_code)
