-- ===== src/Obfuscation/RoundTrip.antt =====
-- What is stored by `obfuscate` is read back by `deobfuscate`.
use harbour_find_my_device.Prelude.{
  ℕ, ◌≡◌, refl, false, Option, none, some, List, [], ◌∷◌, ◌++◌, All, Bool-cases, Option-cases, inl,
  inr,
}
use harbour_find_my_device.Text.{Text, starts_with, is_empty}
use harbour_find_my_device.Exception.{ok}
use harbour_find_my_device.Codec.Base64.{b64encode, b64decode, b64decode-b64encode}
use harbour_find_my_device.Codec.Utf8.{
  IsText, is_surrogate, utf8_encode, utf8_encode_total, utf8_decode-utf8_encode,
  utf8_encode-IsBytes,
}
use harbour_find_my_device.Obfuscation.{
  marker, encoded, decoded, or_raw, is_marked, obfuscate, deobfuscate, xor_from,
}
use harbour_find_my_device.Obfuscation.Xor.{xor_from-IsBytes, xor_from-xor_from}

deobfuscate-marked :
    (t : Text)
    → deobfuscate (some (marker ++ t)) ≡ some (or_raw (marker ++ t) (decoded (b64decode t)))
unfolding deobfuscate is_marked starts_with is_empty
deobfuscate-marked t = refl

-- The stored form of bytes that are the UTF-8 of a text.
deobfuscate-encoded :
    (s : Text) (raw : List ℕ)
    → IsText s
    → utf8_encode s ≡ some raw
    → deobfuscate (some (marker ++ b64encode (xor_from 0 raw))) ≡ some s
deobfuscate-encoded s raw t e =
    let bytes = utf8_encode-IsBytes s raw t e in
    rw (deobfuscate-marked, b64decode-b64encode _ (xor_from-IsBytes 0 raw bytes))
      (unfold decoded in
        rw (xor_from-xor_from 0 raw bytes, utf8_decode-utf8_encode s raw t e)
          (unfold or_raw in refl))

obfuscate-plain :
    (c : ℕ) (s : Text)
    → is_marked (c ∷ s) ≡ false
    → obfuscate (some (c ∷ s)) ≡ encoded (utf8_encode (c ∷ s))
unfolding obfuscate is_empty
obfuscate-plain c s n = rw n

-- A text of characters that Python can encode, and that does not begin with the marker, is read
-- back from its stored form.
pub deobfuscate-obfuscate :
    (s : Text) (stored : Option Text)
    → IsText s
    → is_marked s ≡ false
    → obfuscate (some s) ≡ ok stored
    → deobfuscate stored ≡ some s
deobfuscate-obfuscate [] stored t n e =
    let same : some [] ≡ stored = unfold obfuscate is_empty in cc in
    rw (← same) (unfold deobfuscate is_empty in refl)
deobfuscate-obfuscate (c ∷ s) stored t n e = elim (Option-cases (utf8_encode (c ∷ s))) [
  | inl failed ↦ absurd (unfold encoded in cc (obfuscate-plain c s n, failed))
  | inr (raw, coded) ↦
      let same : some (marker ++ b64encode (xor_from 0 raw)) ≡ stored =
        unfold encoded in cc (obfuscate-plain c s n, coded) in
      rw (← same) (deobfuscate-encoded (c ∷ s) raw t coded)
]

obfuscate-marked : (t : Text) → obfuscate (some (marker ++ t)) ≡ ok (some (marker ++ t))
unfolding obfuscate is_marked starts_with is_empty
obfuscate-marked t = refl

-- Storing a stored value again changes nothing.
pub obfuscate-obfuscate :
    (plain stored : Option Text) → obfuscate plain ≡ ok stored → obfuscate stored ≡ ok stored
obfuscate-obfuscate none stored e =
    let same : none ≡ stored = unfold obfuscate in cc in rw (← same) (unfold obfuscate in refl)
obfuscate-obfuscate (some []) stored e =
    let same : some [] ≡ stored = unfold obfuscate is_empty in cc in
    rw (← same) (unfold obfuscate is_empty in refl)
obfuscate-obfuscate (some (c ∷ s)) stored e = elim (Bool-cases (is_marked (c ∷ s))) [
  | inl marked ↦
      let kept : obfuscate (some (c ∷ s)) ≡ ok (some (c ∷ s)) =
        unfold obfuscate is_empty in rw marked in
      let same : some (c ∷ s) ≡ stored = cc in rw (← same) kept
  | inr plain ↦ elim (Option-cases (utf8_encode (c ∷ s))) [
    | inl failed ↦ absurd (unfold encoded in cc (obfuscate-plain c s plain, failed))
    | inr (raw, coded) ↦
        let same : some (marker ++ b64encode (xor_from 0 raw)) ≡ stored =
          unfold encoded in cc (obfuscate-plain c s plain, coded) in
        rw (← same) (obfuscate-marked (b64encode (xor_from 0 raw)))
  ]
]

-- A text without lone surrogates is always stored: `obfuscate` raises nothing on it.
pub obfuscate_total :
    (s : Text)
    → All (λ c. is_surrogate c ≡ false) s
    → (stored : Option Text) × (obfuscate (some s) ≡ ok stored)
obfuscate_total [] h = (some [], (unfold obfuscate is_empty in refl))
obfuscate_total (c ∷ s) h = elim (Bool-cases (is_marked (c ∷ s))) [
  | inl marked ↦ (some (c ∷ s), (unfold obfuscate is_empty in rw marked))
  | inr plain ↦
      let (raw, coded) = utf8_encode_total (c ∷ s) h in
      (
        some (marker ++ b64encode (xor_from 0 raw)),
        rw (obfuscate-plain c s plain, coded) (unfold encoded in refl),
      )
]
