-- ===== src/Obfuscation/Xor.antt =====
-- `_xor` of obfuscation.py is its own inverse on bytes.
use Prim.Native.Nat.{bit_xor}
use harbour_find_my_device.Prelude.{
  ℕ, zero, suc, ◌+◌, ◌%◌, ◌<◌, ◌≡◌, refl, Bool, true, false, Bool-cases, inl, inr, if◌then◌else◌,
  ◌&&◌, List, [], ◌∷◌, arith, ltb, ◌==◌, All, length,
}
use harbour_find_my_device.Obfuscation.{key, key_byte, xor_from}

-- a test passed by each of the n numbers below n
module _ (test : ℕ → Bool) where
  passes : ℕ → Bool
  passes zero = true
  passes (suc n) = if test n then passes n else false

  passes_at : (n : ℕ) → passes n ≡ true → (i : ℕ) → i < n → test i ≡ true
  unfolding passes
  passes_at zero _ i below = absurd (omega arith)
  passes_at (suc n) passed i below = elim (Bool-cases (test n)) [
    | inl holds ↦ ground (arith, passes_at n _ i)
    | inr fails ↦ absurd (ground (arith, passed))
  ]

-- of a byte and an ASCII character of the key
undoes : ℕ → ℕ → Bool
undoes k b = (bit_xor (bit_xor b k) k == b) && ltb (bit_xor b k) 256

undoes_table : passes (λ k. passes (undoes k) 256) 128 ≡ true
unfolding passes undoes
undoes_table = refl

undoes_at : (k b : ℕ) → k < 128 → b < 256 → undoes k b ≡ true
undoes_at k b hk hb =
    passes_at (undoes k) 256 (passes_at (λ i. passes (undoes i) 256) 128 undoes_table k hk) b hb

xor_twice : (k b : ℕ) → k < 128 → b < 256 → bit_xor (bit_xor b k) k ≡ b
unfolding undoes
xor_twice k b hk hb = ground (arith, undoes_at k b hk hb)

xor_byte : (k b : ℕ) → k < 128 → b < 256 → bit_xor b k < 256
unfolding undoes
xor_byte k b hk hb = ground (arith, undoes_at k b hk hb)

key_byte-lt : (ks : List ℕ) (i : ℕ) → All (λ k. k < 128) ks → key_byte ks i < 128
unfolding key_byte
key_byte-lt [] i h = omega arith
key_byte-lt (k ∷ ks) zero h = h.0
key_byte-lt (k ∷ ks) (suc i) h = key_byte-lt ks i h.1

key-ascii : All (λ k. k < 128) key
unfolding key
key-ascii = omega arith

pub xor_from-IsBytes :
    (i : ℕ) (bs : List ℕ) → All (λ b. b < 256) bs → All (λ b. b < 256) (xor_from i bs)
unfolding xor_from
xor_from-IsBytes i [] h = tt
xor_from-IsBytes i (b ∷ bs) h = (
  xor_byte (key_byte key (i % length key)) b (key_byte-lt key _ key-ascii) h.0,
  xor_from-IsBytes (i + 1) bs h.1,
)

pub xor_from-xor_from :
    (i : ℕ) (bs : List ℕ) → All (λ b. b < 256) bs → xor_from i (xor_from i bs) ≡ bs
unfolding xor_from
xor_from-xor_from i [] h = refl
xor_from-xor_from i (b ∷ bs) h = rw (
  xor_twice (key_byte key (i % length key)) b (key_byte-lt key _ key-ascii) h.0,
  xor_from-xor_from (i + 1) bs h.1,
)
