-- ===== src/Tokens/Command/Binding.antt =====
-- The signed message determines the command, the argument and the time bucket.
use harbour_find_my_device.Prelude.{ℕ, ◌≡◌, ◌≢◌, refl, Option, [], ◌∷◌, ◌++◌, arith, All, ℤ}
use harbour_find_my_device.Text.{Text, upper, lower}
use harbour_find_my_device.Text.Decimal.{show_int, show_int-injective, All-show_int}
use harbour_find_my_device.Tokens.Command.{or_blank, hmac_message}

abbrev colon : ℕ
colon = b':'

abbrev pub IsColonFree : Text → Type 0
IsColonFree s = All (λ c. c ≢ b':') s

-- a text with no colon is cut off at the first colon behind it
cut_first :
    (a a' r r' : Text)
    → IsColonFree a
    → IsColonFree a'
    → a ++ (colon ∷ r) ≡ a' ++ (colon ∷ r')
    → (a ≡ a') × (r ≡ r')
cut_first [] [] r r' h k e = ground arith
cut_first [] (c ∷ a') r r' h k e = absurd (k.0 (ground arith))
cut_first (c ∷ a) [] r r' h k e = absurd (h.0 (ground arith))
cut_first (c ∷ a) (d ∷ a') r r' h k e =
    let (x, y) = cut_first a a' r r' h.1 k.1 (ground arith) in (ground arith, y)

colon-in : (a d : Text) → IsColonFree (a ++ (colon ∷ d)) → ⊥
colon-in [] d h = h.0 refl
colon-in (c ∷ a) d h = colon-in a d h.1

-- and at the last colon before it
cut_last :
    (a a' d d' : Text)
    → IsColonFree d
    → IsColonFree d'
    → a ++ (colon ∷ d) ≡ a' ++ (colon ∷ d')
    → (a ≡ a') × (d ≡ d')
cut_last [] [] d d' h k e = ground arith
cut_last [] (c ∷ a') d d' h k e =
    let inside : d ≡ a' ++ (colon ∷ d') = ground arith in absurd (colon-in a' d' (rw inside at h))
cut_last (c ∷ a) [] d d' h k e =
    let inside : d' ≡ a ++ (colon ∷ d) = ground arith in absurd (colon-in a d (rw inside at k))
cut_last (c ∷ a) (c' ∷ a') d d' h k e =
    let (x, y) = cut_last a a' d d' h k (ground arith) in (ground arith, y)

show_int-IsColonFree : (z : ℤ) → IsColonFree (show_int z)
show_int-IsColonFree z = All-show_int (λ c. c ≢ b':') z (λ d h. omega arith) (omega arith)

-- Two commands without a colon whose messages agree are one command up to case, with one argument
-- up to case, in one time bucket.
pub hmac_message-injective :
    (cmd cmd' : Text) (arg arg' : Option Text) (b b' : ℤ)
    → IsColonFree (upper cmd)
    → IsColonFree (upper cmd')
    → hmac_message cmd arg b ≡ hmac_message cmd' arg' b'
    → (upper cmd ≡ upper cmd') × (lower (or_blank arg) ≡ lower (or_blank arg')) × (b ≡ b')
unfolding hmac_message
hmac_message-injective cmd cmd' arg arg' b b' h k e =
    let (c, rest) = cut_first (upper cmd) (upper cmd') _ _ h k e in
    let (a, d) =
      cut_last (lower (or_blank arg)) (lower (or_blank arg')) _ _ (show_int-IsColonFree b)
        (show_int-IsColonFree b') rest in
    (c, a, show_int-injective b b' d)
