-- ===== src/Tokens/Totp/Digits.antt =====
-- The codes have six digits, and every counter of 64 bits has a code.
use harbour_find_my_device.Prelude.{
  ℕ, zero, suc, ◌+◌, ◌-◌, ◌*◌, ◌%◌, ◌^◌, ◌≤◌, ◌<◌, ◌≡◌, refl, false, List, [], ◌∷◌, length,
  length-append, length-drop, length-take, drop, take, lt→ltb, All-append, pos, arith,
}
use harbour_find_my_device.Text.{Text, is_space}
use harbour_find_my_device.Text.Decimal.{show_nat, length-show_nat, show_nat-IsBlankFree}
use harbour_find_my_device.Text.Trim.{IsBlankFree}
use harbour_find_my_device.Exception.{ok}
use harbour_find_my_device.Tokens.Totp.{
  big_endian, unpack_word, last_byte, zeros, zfill, truncate_mac, hotp, totp_digits,
}

length-zeros : (n : ℕ) → length (zeros n) ≡ n
unfolding zeros
length-zeros zero = refl
length-zeros (suc n) = omega (arith, length-zeros n)

length-zfill : (w : ℕ) (s : Text) → length s ≤ w → length (zfill w s) ≡ w
unfolding zfill
length-zfill w s h =
    omega (arith, length-append {0} (zeros (w - length s)) s, length-zeros (w - length s))

zeros-IsBlankFree : (n : ℕ) → IsBlankFree (zeros n)
unfolding zeros is_space
zeros-IsBlankFree zero = tt
zeros-IsBlankFree (suc n) = (refl, zeros-IsBlankFree n)

unpack_four : (l : List ℕ) → length l ≡ 4 → (w : ℕ) × (unpack_word l ≡ ok w)
unfolding unpack_word
unpack_four [] h = absurd (omega arith)
unpack_four (a ∷ []) h = absurd (omega arith)
unpack_four (a ∷ b ∷ []) h = absurd (omega arith)
unpack_four (a ∷ b ∷ c ∷ []) h = absurd (omega arith)
unpack_four (a ∷ b ∷ c ∷ d ∷ []) h = (((a * 256 + b) * 256 + c) * 256 + d, refl)
unpack_four (a ∷ b ∷ c ∷ d ∷ e ∷ l) h = absurd (omega arith)

-- a code: six characters, and none of them white space
pub record IsCode (code : Text) : Type 0 where
  pub six : length code ≡ 6
  pub blank_free : IsBlankFree code

truncated : (w : ℕ) → IsCode (zfill 6 (show_nat (w % 2 ^ 31 % 10 ^ 6)))
truncated w = record {
  six = length-zfill 6 _ (length-show_nat (w % 2 ^ 31 % 10 ^ 6) 6 (omega arith) (omega arith));
  blank_free =
      unfold zfill in
      All-append (λ c. is_space c ≡ false) (zeros _) _ (zeros-IsBlankFree _)
        (show_nat-IsBlankFree _);
}

truncate_mac-IsCode :
    (mac : List ℕ)
    → length mac ≡ 20
    → (code : Text) × (truncate_mac mac totp_digits ≡ ok code) × IsCode code
unfolding truncate_mac
truncate_mac-IsCode mac h =
    let i = last_byte mac % 16 in
    let (w, e) =
      unpack_four (take 4 (drop i mac))
        (omega (arith, length-take {0} 4 (drop i mac), length-drop {0} i mac)) in
    (zfill 6 (show_nat (w % 2 ^ 31 % 10 ^ 6)), rw e, truncated w)

module _ (hmac_sha1 : List ℕ → List ℕ → List ℕ)
    (sized : (k m : List ℕ) → length (hmac_sha1 k m) ≡ 20) where
  -- With digests of twenty bytes, every counter below 2 ^ 64 has a code, of six characters.
  pub hotp-IsCode :
      (key : List ℕ) (n : ℕ)
      → n < 2 ^ 64
      → (code : Text) × (hotp hmac_sha1 key (pos n) totp_digits ≡ ok code) × IsCode code
  unfolding hotp
  hotp-IsCode key n h =
      let (code, e, c) = truncate_mac-IsCode (hmac_sha1 key (big_endian 8 n)) (sized key _) in
      (code, rw (lt→ltb n (2 ^ 64) h) e, c)
