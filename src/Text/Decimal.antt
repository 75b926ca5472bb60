-- ===== src/Text/Decimal.antt =====
-- `str(n)` and `int(s)` of Python. `int` takes white space round the number, a sign, and single
-- underscores between digits.
use harbour_find_my_device.Prelude.{
  ℕ, zero, suc, ◌+◌, ◌-◌, ◌*◌, ◌/◌, ◌%◌, ◌<◌, ◌≤◌, ◌^◌, length, length-append, ◌≡◌, refl, Bool,
  true, false, ◌&&◌, ◌||◌, Option, none, some, [], ◌∷◌, ◌++◌, arith, ltb, ◌==◌, if◌then◌else◌,
  Bool-cases, inl, inr, ℤ, pos, negsuc, All, All-append, sym, ◌∙◌, ap,
}
use native.Mathlib.Nat.{pow-suc}
use mathlib.Core.List.{append_assoc, append-nil}
use harbour_find_my_device.Text.{Text, codes, is_digit, is_space, strip}
use harbour_find_my_device.Text.Trim.{IsBlankFree, strip-IsBlankFree}

-- `digits_of fuel n`: the fuel bounds the number of digits, and `suc n` is always enough.
digits_of : ℕ → ℕ → Text
digits_of zero n = []
digits_of (suc f) n =
    let rest = digits_of f (n / 10) in
    if ltb n 10 then (b'0' + n) ∷ [] else rest ++ ((b'0' + n % 10) ∷ [])

unfoldable pub show_nat : ℕ → Text
unfolding digits_of
show_nat n = digits_of (suc n) n

-- `str(z)`
unfoldable pub show_int : ℤ → Text
unfolding show_nat
show_int (pos n) = show_nat n
show_int (negsuc n) = b'-' ∷ show_nat (suc n)

-- `after_digit`: the character before was a digit
read_digits : ℕ → Bool → Text → Option ℕ
unfolding is_digit
read_digits n after_digit [] = if after_digit then some n else none
read_digits n after_digit (c ∷ s) =
    let d = is_digit c in
    let rest = read_digits (if d then n * 10 + (c - b'0') else n) d s in
    if d || (c == b'_') && after_digit then rest else none

abbrev negate : ℕ → ℤ
negate zero = pos 0
negate (suc n) = negsuc n

read_negative : Option ℕ → Option ℤ
read_negative none = none
read_negative (some n) = some (negate n)

read_positive : Option ℕ → Option ℤ
read_positive none = none
read_positive (some n) = some (pos n)

read_signed : Text → Option ℤ
unfolding read_digits read_negative read_positive
read_signed [] = none
read_signed (c ∷ s) =
    if c == b'-'
    then read_negative (read_digits 0 false s)
    else if c == b'+'
    then read_positive (read_digits 0 false s)
    else read_positive (read_digits 0 false (c ∷ s))

-- `int(s)`; `none` is the ValueError
unfoldable pub parse_int : Text → Option ℤ
unfolding read_signed
parse_int s = read_signed (strip s)

read_digit :
    (k d n : ℕ) (b : Bool) (rest : Text)
    → d < 10
    → k * 10 + d ≡ n
    → read_digits k b ((b'0' + d) ∷ rest) ≡ read_digits n true rest
unfolding read_digits
read_digit k d n b rest h e = rw (← e) (ground arith)

-- Reading the digits of `n` from the start goes on as if `n` had been read.
read_digits-digits_of :
    (f n : ℕ) (b : Bool) (rest : Text)
    → n < f
    → read_digits 0 b (digits_of f n ++ rest) ≡ read_digits n true rest
unfolding digits_of
read_digits-digits_of zero n b rest h = elim h [ ]
read_digits-digits_of (suc f) n b rest h = elim (Bool-cases (ltb n 10)) [
  | inl small ↦ rw small (read_digit 0 n n b rest (ground arith) (omega arith))
  | inr large ↦
      rw (large, append_assoc)
        (read_digits-digits_of f (n / 10) b ((b'0' + n % 10) ∷ rest) (ground arith)
          ∙ read_digit (n / 10) (n % 10) n true rest (omega arith) (omega arith))
]

digit-is_space : (d : ℕ) → d < 10 → is_space (b'0' + d) ≡ false
unfolding is_space
digit-is_space d h = ground arith

-- What holds of the ten digits holds of all characters of a printed number.
All-digits_of :
    (P : ℕ → Type 0) (f n : ℕ) → ((d : ℕ) → d < 10 → P (b'0' + d)) → All P (digits_of f n)
unfolding digits_of
All-digits_of P zero n h = tt
All-digits_of P (suc f) n h = elim (Bool-cases (ltb n 10)) [
  | inl small ↦ rw small (h n (ground arith), tt)
  | inr large ↦ rw large (
      All-append P (digits_of f (n / 10)) ((b'0' + n % 10) ∷ []) (All-digits_of P f (n / 10) h)
        (h (n % 10) (omega arith), tt))
]

-- The same of a printed integer, where it holds of the minus sign too.
pub All-show_int :
    (P : ℕ → Type 0) (z : ℤ) → ((d : ℕ) → d < 10 → P (b'0' + d)) → P b'-' → All P (show_int z)
unfolding show_int
All-show_int P (pos n) h m = All-digits_of P (suc n) n h
All-show_int P (negsuc n) h m = (m, All-digits_of P (suc (suc n)) (suc n) h)

show_int-IsBlankFree : (z : ℤ) → IsBlankFree (show_int z)
show_int-IsBlankFree z =
    All-show_int (λ c. is_space c ≡ false) z digit-is_space (unfold is_space in refl)

pub show_nat-IsBlankFree : (n : ℕ) → IsBlankFree (show_nat n)
unfolding show_nat
show_nat-IsBlankFree n = All-digits_of (λ c. is_space c ≡ false) (suc n) n digit-is_space

read_digits-show_nat : (n : ℕ) (b : Bool) → read_digits 0 b (show_nat n) ≡ some n
unfolding show_nat
read_digits-show_nat n b =
    ap (read_digits 0 b) (sym (append-nil (digits_of (suc n) n)))
    ∙ read_digits-digits_of (suc n) n b [] (omega arith)
    ∙ (unfold read_digits in refl)

-- A digit is no sign.
read_signed-digits_of :
    (f n : ℕ) (rest : Text)
    → n < f
    → read_signed (digits_of f n ++ rest)
      ≡ read_positive (read_digits 0 false (digits_of f n ++ rest))
unfolding digits_of
read_signed-digits_of zero n rest h = elim h [ ]
read_signed-digits_of (suc f) n rest h = elim (Bool-cases (ltb n 10)) [
  | inl small ↦ rw small (unfold read_signed in ground arith)
  | inr large ↦
      rw (large, append_assoc)
        (read_signed-digits_of f (n / 10) ((b'0' + n % 10) ∷ rest) (ground arith))
]

read_signed-eq-read_positive :
    (n : ℕ) → read_signed (show_nat n) ≡ read_positive (read_digits 0 false (show_nat n))
unfolding show_nat
read_signed-eq-read_positive n =
    ap read_signed (sym (append-nil (digits_of (suc n) n)))
    ∙ read_signed-digits_of (suc n) n [] (omega arith)
    ∙ ap (λ s. read_positive (read_digits 0 false s)) (append-nil (digits_of (suc n) n))

read_signed-show_nat : (n : ℕ) → read_signed (show_nat n) ≡ some (pos n)
read_signed-show_nat n =
    read_signed-eq-read_positive n
    ∙ ap read_positive (read_digits-show_nat n false)
    ∙ (unfold read_positive in refl)

read_signed-show_int : (z : ℤ) → read_signed (show_int z) ≡ some z
unfolding show_int
read_signed-show_int (pos n) = read_signed-show_nat n
read_signed-show_int (negsuc n) =
    unfold read_signed in ground (arith, read_digits-show_nat (suc n) false)

-- `int(str(z))` is `z`, for every integer.
pub parse_int-show_int : (z : ℤ) → parse_int (show_int z) ≡ some z
unfolding parse_int
parse_int-show_int z =
    ap read_signed (strip-IsBlankFree (show_int z) (show_int-IsBlankFree z))
    ∙ read_signed-show_int z

positive : (n k : ℕ) → n < 10 ^ suc k → 10 ≤ n → 0 < k
positive n zero lt h = absurd (omega arith)
positive n (suc k) lt h = omega arith

length-digits_of : (f n k : ℕ) → 0 < k → n < 10 ^ k → length (digits_of f n) ≤ k
unfolding digits_of
length-digits_of zero n k h lt = omega arith
length-digits_of (suc f) n zero h lt = absurd (omega arith)
length-digits_of (suc f) n (suc k) h lt = elim (Bool-cases (ltb n 10)) [
  | inl small ↦ rw small (omega arith)
  | inr large ↦
      let smaller : n / 10 < 10 ^ k = omega (arith, pow-suc 10 k) in
      let more : 0 < k = positive n k lt (ground arith) in
      rw (large, length-append) (omega (arith, length-digits_of f (n / 10) k more smaller))
]

-- A number below 10 ^ k has k digits at most.
pub length-show_nat : (n k : ℕ) → 0 < k → n < 10 ^ k → length (show_nat n) ≤ k
unfolding show_nat
length-show_nat n k h lt = length-digits_of (suc n) n k h lt

-- Two integers that print alike are one.
pub show_int-injective : (a b : ℤ) → show_int a ≡ show_int b → a ≡ b
show_int-injective a b e =
    let same : some a ≡ some b =
      sym (parse_int-show_int a) ∙ ap parse_int e ∙ parse_int-show_int b in
    cc

parse_neg : parse_int (codes " -1_20 ") ≡ some (negsuc 119)
unfolding parse_int strip is_space
parse_neg = refl

show_neg : show_int (negsuc 119) ≡ codes "-120"
unfolding show_int
show_neg = refl
