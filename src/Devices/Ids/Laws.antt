-- ===== src/Devices/Ids/Laws.antt =====
-- Which ids `is_valid_id` accepts, and that the ids that are generated are among them.
use harbour_find_my_device.Prelude.{
  ℕ, zero, suc, ◌+◌, ◌*◌, ◌≡◌, refl, true, false, [], ◌∷◌, ◌++◌, any, ◌==◌, arith, inl, inr, ◌⊎◌,
  ◌↔◌, ◌%◌, All, length,
}
use mathlib.Core.Path.{subst}
use harbour_find_my_device.Text.{Text, is_empty}
use harbour_find_my_device.Database.{admits_id}
use harbour_find_my_device.Devices.Ids.{
  is_alnum, is_valid_id, match_id, at_end, id_length, alphabet, char_of, choice, choices,
  generate_device_id,
}

abbrev pub IsAlnum : Text → Type 0
IsAlnum s = All (λ c. is_alnum c ≡ true) s

at_end_lem : (s : Text) → at_end s ≡ true → (s ≡ []) ⊎ (s ≡ b'\n' ∷ [])
unfolding at_end
at_end_lem [] h = inl refl
at_end_lem (c ∷ []) h = inr (ground arith)
at_end_lem (c ∷ d ∷ s) h = cc

match_id-of :
    (n : ℕ) (s : Text)
    → match_id n s ≡ true
    → (k : Text) × (length k ≡ n) × IsAlnum k × ((s ≡ k) ⊎ (s ≡ k ++ (b'\n' ∷ [])))
unfolding match_id
match_id-of zero s h = ([], refl, tt, at_end_lem s h)
match_id-of (suc n) [] h = cc
match_id-of (suc n) (c ∷ s) h =
    let (k, long, alnum, shape) = match_id-of n s (ground arith) in
    (c ∷ k, ground arith, (ground arith, alnum), ground arith)

match_id-plain :
    (k : Text)
    → IsAlnum k
    → (match_id (length k) k ≡ true) × (match_id (length k) (k ++ (b'\n' ∷ [])) ≡ true)
unfolding match_id at_end
match_id-plain [] h = (refl, refl)
match_id-plain (c ∷ k) h = ground (arith, match_id-plain k h.1, h.0)

valid_of_shape :
    (s k : Text)
    → length k ≡ 10
    → IsAlnum k
    → (s ≡ k) ⊎ (s ≡ k ++ (b'\n' ∷ []))
    → match_id 10 s ≡ true
valid_of_shape s k long alnum (inl e) =
    rw e (subst (λ n. match_id n k ≡ true) long (match_id-plain k alnum).0)
valid_of_shape s k long alnum (inr e) =
    rw e (subst (λ n. match_id n (k ++ (b'\n' ∷ [])) ≡ true) long (match_id-plain k alnum).1)

-- `is_valid_id` accepts a text exactly when it is ten letters or digits, or these and a newline.
pub is_valid_id_iff :
    (s : Text)
    → (is_valid_id s ≡ true)
      ↔ ((k : Text) × (length k ≡ 10) × IsAlnum k × ((s ≡ k) ⊎ (s ≡ k ++ (b'\n' ∷ []))))
unfolding is_valid_id
is_valid_id_iff s =
    (match_id-of 10 s, λ (k, long, alnum, shape). valid_of_shape s k long alnum shape)

char_of-alnum : (s : Text) (i : ℕ) → IsAlnum s → is_alnum (char_of s i) ≡ true
unfolding char_of
char_of-alnum [] i h = unfold is_alnum in refl
char_of-alnum (c ∷ s) zero h = h.0
char_of-alnum (c ∷ s) (suc i) h = char_of-alnum s i h.1

alphabet-IsAlnum : IsAlnum alphabet
unfolding alphabet is_alnum
alphabet-IsAlnum = ground arith

match_id-choices : (random : ℕ → ℕ) (i n : ℕ) → match_id n (choices random i n) ≡ true
unfolding match_id choices choice at_end
match_id-choices random i zero = refl
match_id-choices random i (suc n) =
    rw (char_of-alnum alphabet (random i % 62) alphabet-IsAlnum) (match_id-choices random (i + 1) n)

-- Every id that is generated is a valid one, whatever the random numbers.
pub generate_device_id-is_valid_id :
    (random : ℕ → ℕ) (i : ℕ) → is_valid_id (generate_device_id random i) ≡ true
unfolding is_valid_id generate_device_id
generate_device_id-is_valid_id random i = match_id-choices random (i * id_length) id_length

match_id-no_space : (n : ℕ) (s : Text) → match_id n s ≡ true → any (λ c. c == b' ') s ≡ false
unfolding match_id any at_end is_alnum
match_id-no_space zero [] h = refl
match_id-no_space zero (c ∷ []) h = ground arith
match_id-no_space zero (c ∷ d ∷ s) h = cc
match_id-no_space (suc n) [] h = cc
match_id-no_space (suc n) (c ∷ s) h = ground (arith, match_id-no_space n s)

-- A valid id passes the CHECK of the table.
pub admits-valid_id : (k : Text) → is_valid_id k ≡ true → admits_id k ≡ true
unfolding is_valid_id admits_id is_empty
admits-valid_id [] h = unfold match_id in cc
admits-valid_id (c ∷ k) h = rw (match_id-no_space 10 (c ∷ k) h)
