-- ===== src/Codec/Base64.antt =====
-- `base64.b64encode` and `base64.b64decode` (the default, lenient form: characters outside the
-- alphabet are skipped, and what follows a full padding is ignored).
use harbour_find_my_device.Prelude.{
  ℕ, zero, suc, ◌+◌, ◌-◌, ◌*◌, ◌/◌, ◌%◌, ◌<◌, ◌≡◌, refl, ◌&&◌, Option, none, some, List, [], ◌∷◌,
  false, arith, lt→ltb, ltb, leb, ◌==◌, if◌then◌else◌, All,
}
use harbour_find_my_device.Text.{Text, codes}

abbrev pub pad : ℕ
pad = b'='

pub letter : ℕ → ℕ
letter n =
    if ltb n 26
    then b'A' + n
    else if ltb n 52
    then b'a' + (n - 26)
    else if ltb n 62
    then b'0' + (n - 52)
    else if n == 62
    then b'+'
    else b'/'

-- 64 stands for a character outside the alphabet
value : ℕ → ℕ
value c =
    if leb b'A' c && leb c b'Z'
    then c - b'A'
    else if leb b'a' c && leb c b'z'
    then c - b'a' + 26
    else if leb b'0' c && leb c b'9'
    then c - b'0' + 52
    else if c == b'+'
    then 62
    else if c == b'/'
    then 63
    else 64

unfoldable pub b64encode : List ℕ → Text
b64encode [] = []
b64encode (a ∷ []) = letter (a / 4) ∷ letter (a % 4 * 16) ∷ pad ∷ pad ∷ []
b64encode (a ∷ b ∷ []) =
    letter (a / 4) ∷ letter (a % 4 * 16 + b / 16) ∷ letter (b % 16 * 4) ∷ pad ∷ []
b64encode (a ∷ b ∷ c ∷ r) =
    letter (a / 4)
    ∷ letter (a % 4 * 16 + b / 16)
    ∷ letter (b % 16 * 4 + c / 64)
    ∷ letter (c % 64)
    ∷ b64encode r

-- The reader is at place `quad` of a group of four, with the bits `left` of the letter before.
next_quad : ℕ → ℕ
next_quad quad = if ltb quad 3 then suc quad else 0

next_left : ℕ → ℕ → ℕ
next_left zero v = v
next_left (suc zero) v = v % 16
next_left (suc (suc zero)) v = v % 4
next_left _ v = 0

prepend : ℕ → Option (List ℕ) → Option (List ℕ)
prepend b none = none
prepend b (some bs) = some (b ∷ bs)

emit : ℕ → ℕ → ℕ → Option (List ℕ) → Option (List ℕ)
unfolding prepend
emit zero left v rest = rest
emit (suc zero) left v rest = prepend (left * 4 + v / 16) rest
emit (suc (suc zero)) left v rest = prepend (left * 16 + v / 4) rest
emit _ left v rest = prepend (left * 64 + v) rest

-- `pads` counts the padding seen since the last letter; `none` is `binascii.Error`.
decode_from : ℕ → ℕ → ℕ → Text → Option (List ℕ)
decode_from quad left pads [] = if quad == 0 then some [] else none
decode_from quad left pads (c ∷ s) =
    let padded = decode_from quad left (if leb 2 quad then suc pads else pads) s in
    let skipped = decode_from quad left pads s in
    let v = value c in
    let read = emit quad left v (decode_from (next_quad quad) (next_left quad v) 0 s) in
    if c == pad
    then (if leb 2 quad && leb 4 (quad + suc pads) then some [] else padded)
    else if ltb v 64
    then read
    else skipped

unfoldable pub b64decode : Text → Option (List ℕ)
unfolding decode_from value next_quad next_left emit
b64decode s = decode_from 0 0 0 s

value-letter : (n : ℕ) → n < 64 → value (letter n) ≡ n
unfolding value letter
value-letter n h = ground arith

letter-ne-pad : (n : ℕ) → (letter n == pad) ≡ false
unfolding letter
letter-ne-pad n = ground arith

read_letter :
    (quad left pads v : ℕ) (s : Text)
    → v < 64
    → decode_from quad left pads (letter v ∷ s)
      ≡ emit quad left v (decode_from (next_quad quad) (next_left quad v) 0 s)
unfolding decode_from
read_letter quad left pads v s h = rw (letter-ne-pad v, value-letter v h, lt→ltb v 64 h)

module _ (pads x y : ℕ) (s : Text) (hx : x < 64) (hy : y < 64) where
  read_pair :
      {a : ℕ}
      → x * 4 + y / 16 ≡ a
      → decode_from 0 0 pads (letter x ∷ letter y ∷ s) ≡ prepend a (decode_from 2 (y % 16) 0 s)
  unfolding emit next_quad next_left
  read_pair e = rw (read_letter 0 0 pads x _ hx, read_letter 1 x 0 y _ hy, e)

  module _ (z : ℕ) (hz : z < 64) where
    read_triple :
        {a b : ℕ}
        → x * 4 + y / 16 ≡ a
        → y % 16 * 16 + z / 4 ≡ b
        → decode_from 0 0 pads (letter x ∷ letter y ∷ letter z ∷ s)
          ≡ prepend a (prepend b (decode_from 3 (z % 4) 0 s))
    unfolding emit next_quad next_left
    read_triple e f = rw (
      read_letter 0 0 pads x _ hx,
      read_letter 1 x 0 y _ hy,
      read_letter 2 (y % 16) 0 z _ hz,
      e,
      f,
    )

    read_group :
        (w : ℕ) {a b c : ℕ}
        → w < 64
        → x * 4 + y / 16 ≡ a
        → y % 16 * 16 + z / 4 ≡ b
        → z % 4 * 64 + w ≡ c
        → decode_from 0 0 pads (letter x ∷ letter y ∷ letter z ∷ letter w ∷ s)
          ≡ prepend a (prepend b (prepend c (decode_from 0 0 0 s)))
    unfolding emit next_quad next_left
    read_group w hw e f g = rw (
      read_letter 0 0 pads x _ hx,
      read_letter 1 x 0 y _ hy,
      read_letter 2 (y % 16) 0 z _ hz,
      read_letter 3 (z % 4) 0 w _ hw,
      e,
      f,
      g,
    )

decode-b64encode :
    (bs : List ℕ) (pads : ℕ) → All (λ b. b < 256) bs → decode_from 0 0 pads (b64encode bs) ≡ some bs
unfolding b64encode
decode-b64encode [] pads h = unfold decode_from in refl
decode-b64encode (a ∷ []) pads h =
    rw
      (read_pair pads (a / 4) (a % 4 * 16) (pad ∷ pad ∷ []) (omega arith) (omega arith) {a = a}
        (omega arith))
      (unfold decode_from prepend in refl)
decode-b64encode (a ∷ b ∷ []) pads h =
    rw
      (read_triple pads (a / 4) (a % 4 * 16 + b / 16) (pad ∷ []) (omega arith) (omega arith)
        (b % 16 * 4) (omega arith) {a = a} {b = b} (omega arith) (omega arith))
      (unfold decode_from prepend in refl)
decode-b64encode (a ∷ b ∷ c ∷ r) pads h =
    rw
      (read_group pads (a / 4) (a % 4 * 16 + b / 16) (b64encode r) (omega arith) (omega arith)
        (b % 16 * 4 + c / 64) (omega arith) (c % 64) {a = a} {b = b} {c = c} (omega arith)
        (omega arith) (omega arith) (omega arith))
      (rw (decode-b64encode r 0 h.1.1.1) (unfold prepend in refl))

-- Decoding what was encoded gives the bytes back.
pub b64decode-b64encode : (bs : List ℕ) → All (λ b. b < 256) bs → b64decode (b64encode bs) ≡ some bs
b64decode-b64encode bs h = unfold b64decode in decode-b64encode bs 0 h

encode_sample : b64encode (codes "abcd") ≡ codes "YWJjZA=="
unfolding b64encode letter
encode_sample = refl

decode_sample : b64decode (codes "YW Jj-ZA==zz") ≡ some (codes "abcd")
unfolding b64decode
decode_sample = refl

decode_short : b64decode (codes "YWJ") ≡ none
unfolding b64decode
decode_short = refl
