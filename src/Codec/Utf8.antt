-- ===== src/Codec/Utf8.antt =====
-- `str.encode("utf-8")` and the strict `bytes.decode("utf-8")`, on code points.
use harbour_find_my_device.Prelude.{
  ℕ, zero, suc, ◌+◌, ◌-◌, ◌*◌, ◌/◌, ◌%◌, ◌<◌, ◌≤◌, ◌≡◌, refl, ◌∙◌, Bool, ◌&&◌, Option, none, some,
  List, [], ◌∷◌, ◌++◌, arith, ltb, lt→ltb, leb, ◌==◌, if◌then◌else◌, All, All-append, true, false,
  Bool-cases, Option-cases, inl, inr,
}
use harbour_find_my_device.Text.{Text}

unfoldable pub is_surrogate : ℕ → Bool
is_surrogate c = leb 55296 c && ltb c 57344

encode_char : ℕ → List ℕ
encode_char c =
    if ltb c 128
    then c ∷ []
    else if ltb c 2048
    then (192 + c / 64) ∷ (128 + c % 64) ∷ []
    else if ltb c 65536
    then (224 + c / 4096) ∷ (128 + c / 64 % 64) ∷ (128 + c % 64) ∷ []
    else (240 + c / 262144) ∷ (128 + c / 4096 % 64) ∷ (128 + c / 64 % 64) ∷ (128 + c % 64) ∷ []

append_to : List ℕ → Option (List ℕ) → Option (List ℕ)
append_to bs none = none
append_to bs (some rest) = some (bs ++ rest)

-- `none` is the UnicodeEncodeError at a surrogate.
pub utf8_encode : Text → Option (List ℕ)
unfolding append_to
utf8_encode [] = some []
utf8_encode (c ∷ s) = if is_surrogate c then none else append_to (encode_char c) (utf8_encode s)

-- `need` bytes of the character begun are missing; its bits so far are `acc`, and the next byte
-- lies between `lo` and `hi`.
record Pending : Type 0 where
  need : ℕ
  acc : ℕ
  lo : ℕ
  hi : ℕ

abbrev pending : ℕ → ℕ → ℕ → ℕ → Option Pending
pending need acc lo hi = some (record { need = need; acc = acc; lo = lo; hi = hi })

-- `none` at a byte that begins no character
start : ℕ → Option Pending
start b =
    if leb 194 b && leb b 223
    then pending 1 (b - 192) 128 191
    else if b == 224
    then pending 2 0 160 191
    else if b == 237
    then pending 2 13 128 159
    else if leb 225 b && leb b 239
    then pending 2 (b - 224) 128 191
    else if b == 240
    then pending 3 0 144 191
    else if leb 241 b && leb b 243
    then pending 3 (b - 240) 128 191
    else if b == 244
    then pending 3 4 128 143
    else none

decode_from : ℕ → ℕ → ℕ → ℕ → List ℕ → Option (List ℕ)
decode_from zero acc lo hi [] = some []
decode_from (suc need) acc lo hi [] = none
decode_from zero acc lo hi (b ∷ s) =
    if ltb b 128
    then append_to (b ∷ []) (decode_from 0 0 0 0 s)
    else elim (start b) [ none ↦ none | some p ↦ decode_from p.need p.acc p.lo p.hi s ]
decode_from (suc zero) acc lo hi (b ∷ s) =
    if leb lo b && leb b hi
    then append_to ((acc * 64 + (b - 128)) ∷ []) (decode_from 0 0 0 0 s)
    else none
decode_from (suc (suc need)) acc lo hi (b ∷ s) =
    if leb lo b && leb b hi then decode_from (suc need) (acc * 64 + (b - 128)) 128 191 s else none

-- `none` is the UnicodeDecodeError.
pub utf8_decode : List ℕ → Option (List ℕ)
unfolding decode_from start append_to
utf8_decode s = decode_from 0 0 0 0 s

-- A text of the code points that Python admits, up to 0x10ffff.
abbrev pub IsText : Text → Type 0
IsText s = All (λ c. c < 1114112) s

-- One step of the reader: at the first byte of a character, in its middle and at its end.
decode_start :
    (b : ℕ) (s : List ℕ) {need acc lo hi : ℕ}
    → 128 ≤ b
    → start b ≡ pending need acc lo hi
    → decode_from 0 0 0 0 (b ∷ s) ≡ decode_from need acc lo hi s
unfolding decode_from
decode_start b s h e = let big : ltb b 128 ≡ false = ground arith in rw (big, e)

decode_more :
    (need acc lo hi b : ℕ) (s : List ℕ) {acc' : ℕ}
    → lo ≤ b
    → b ≤ hi
    → acc * 64 + (b - 128) ≡ acc'
    → decode_from (suc (suc need)) acc lo hi (b ∷ s) ≡ decode_from (suc need) acc' 128 191 s
unfolding decode_from
decode_more need acc lo hi b s h k e =
    let inside : (leb lo b && leb b hi) ≡ true = ground arith in rw (inside, e)

decode_last :
    (acc lo hi b : ℕ) (s : List ℕ) {c : ℕ}
    → lo ≤ b
    → b ≤ hi
    → acc * 64 + (b - 128) ≡ c
    → decode_from 1 acc lo hi (b ∷ s) ≡ append_to (c ∷ []) (decode_from 0 0 0 0 s)
unfolding decode_from
decode_last acc lo hi b s h k e =
    let inside : (leb lo b && leb b hi) ≡ true = ground arith in rw (inside, e)

start_two : (q : ℕ) → 2 ≤ q → q < 32 → start (192 + q) ≡ pending 1 q 128 191
unfolding start
start_two q h k = ground arith

start_three :
    (q : ℕ)
    → q < 16
    → start (224 + q) ≡ pending 2 q (if q == 0 then 160 else 128) (if q == 13 then 159 else 191)
unfolding start
start_three q h = ground arith

start_four :
    (q : ℕ)
    → q < 5
    → start (240 + q) ≡ pending 3 q (if q == 0 then 144 else 128) (if q == 4 then 143 else 191)
unfolding start
start_four q h = ground arith

decode_one :
    (c : ℕ) (s : List ℕ)
    → c < 128
    → decode_from 0 0 0 0 (c ∷ s) ≡ append_to (c ∷ []) (decode_from 0 0 0 0 s)
unfolding decode_from
decode_one c s h = rw (lt→ltb c 128 h)

decode_two :
    (c : ℕ) (s : List ℕ)
    → 128 ≤ c
    → c < 2048
    → decode_from 0 0 0 0 ((192 + c / 64) ∷ (128 + c % 64) ∷ s)
      ≡ append_to (c ∷ []) (decode_from 0 0 0 0 s)
decode_two c s l h =
    decode_start (192 + c / 64) _ (omega arith) (start_two (c / 64) (omega arith) (omega arith))
    ∙ decode_last (c / 64) 128 191 (128 + c % 64) s (omega arith) (omega arith) (omega arith)

decode_three :
    (c : ℕ) (s : List ℕ)
    → 2048 ≤ c
    → c < 65536
    → is_surrogate c ≡ false
    → decode_from 0 0 0 0 ((224 + c / 4096) ∷ (128 + c / 64 % 64) ∷ (128 + c % 64) ∷ s)
      ≡ append_to (c ∷ []) (decode_from 0 0 0 0 s)
unfolding is_surrogate
decode_three c s l h n =
    decode_start (224 + c / 4096) _ (omega arith) (start_three (c / 4096) (omega arith))
    ∙ decode_more 0 (c / 4096) _ _ (128 + c / 64 % 64) _ {acc' = c / 64} (ground arith)
        (ground arith) (omega arith)
    ∙ decode_last (c / 64) 128 191 (128 + c % 64) s (omega arith) (omega arith) (omega arith)

decode_four :
    (c : ℕ) (s : List ℕ)
    → 65536 ≤ c
    → c < 1114112
    → decode_from 0 0 0 0
        ((240 + c / 262144) ∷ (128 + c / 4096 % 64) ∷ (128 + c / 64 % 64) ∷ (128 + c % 64) ∷ s)
      ≡ append_to (c ∷ []) (decode_from 0 0 0 0 s)
decode_four c s l h =
    decode_start (240 + c / 262144) _ (omega arith) (start_four (c / 262144) (omega arith))
    ∙ decode_more 1 (c / 262144) _ _ (128 + c / 4096 % 64) _ {acc' = c / 4096} (ground arith)
        (ground arith) (omega arith)
    ∙ decode_more 0 (c / 4096) 128 191 (128 + c / 64 % 64) _ {acc' = c / 64} (omega arith)
        (omega arith) (omega arith)
    ∙ decode_last (c / 64) 128 191 (128 + c % 64) s (omega arith) (omega arith) (omega arith)

decode-encode_char :
    (c : ℕ) (s : List ℕ)
    → c < 1114112
    → is_surrogate c ≡ false
    → decode_from 0 0 0 0 (encode_char c ++ s) ≡ append_to (c ∷ []) (decode_from 0 0 0 0 s)
unfolding encode_char
decode-encode_char c s h n =
    ground (arith, decode_one c s, decode_two c s, decode_three c s, decode_four c s)

-- What an encoding of a text that is not empty is made of.
utf8_encode-cons :
    (c : ℕ) (s : Text) (bs : List ℕ)
    → utf8_encode (c ∷ s) ≡ some bs
    → (r : List ℕ) × (is_surrogate c ≡ false) × (utf8_encode s ≡ some r) × (encode_char c ++ r ≡ bs)
unfolding utf8_encode
utf8_encode-cons c s bs e = elim (Bool-cases (is_surrogate c)) [
  | inl bad ↦ absurd (ground arith)
  | inr good ↦ elim (Option-cases (utf8_encode s)) [
    | inl failed ↦ absurd (ground arith)
    | inr (r, rest) ↦ (r, good, rest, ground arith)
  ]
]

utf8_decode-encode_char :
    (c : ℕ) (r : List ℕ)
    → c < 1114112
    → is_surrogate c ≡ false
    → utf8_decode (encode_char c ++ r) ≡ append_to (c ∷ []) (utf8_decode r)
unfolding utf8_decode
utf8_decode-encode_char = decode-encode_char

-- The encoding of a text is decoded to the text.
pub utf8_decode-utf8_encode :
    (s : Text) (bs : List ℕ) → IsText s → utf8_encode s ≡ some bs → utf8_decode bs ≡ some s
unfolding append_to
utf8_decode-utf8_encode [] bs t e = unfold utf8_decode utf8_encode in ground arith
utf8_decode-utf8_encode (c ∷ s) bs t e =
    let (r, good, rest, made) = utf8_encode-cons c s bs e in
    rw (← made, utf8_decode-encode_char c r t.0 good, utf8_decode-utf8_encode s r t.1 rest)

encode_char-bytes : (c : ℕ) → c < 1114112 → All (λ b. b < 256) (encode_char c)
unfolding encode_char
encode_char-bytes c h = ground arith

-- What is encoded are bytes.
pub utf8_encode-IsBytes :
    (s : Text) (bs : List ℕ) → IsText s → utf8_encode s ≡ some bs → All (λ b. b < 256) bs
unfolding utf8_encode
utf8_encode-IsBytes [] [] t e = tt
utf8_encode-IsBytes [] (b ∷ bs) t e = cc
utf8_encode-IsBytes (c ∷ s) bs t e =
    let (r, good, rest, made) = utf8_encode-cons c s bs e in
    rw (← made) (
      All-append (λ b. b < 256) (encode_char c) r (encode_char-bytes c t.0)
        (utf8_encode-IsBytes s r t.1 rest))

-- A text with no lone surrogate can be encoded.
pub utf8_encode_total :
    (s : Text) → All (λ c. is_surrogate c ≡ false) s → (bs : List ℕ) × (utf8_encode s ≡ some bs)
unfolding utf8_encode append_to
utf8_encode_total [] h = ([], refl)
utf8_encode_total (c ∷ s) h =
    let (bs, e) = utf8_encode_total s h.1 in (encode_char c ++ bs, rw (h.0, e))

euro : utf8_encode (8364 ∷ []) ≡ some (226 ∷ 130 ∷ 172 ∷ [])
unfolding utf8_encode encode_char is_surrogate
euro = refl
