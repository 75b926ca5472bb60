-- ===== src/Exception.antt =====
-- Python exceptions that the modelled code can raise, and the result of code that may raise.
pub data Error : Type 0 where
  integrity_error unicode_error struct_error type_error decode_error : Error

pub data Result {ℓ} (A : Type ℓ) : Type ℓ where
  ok : A → Result A
  raise : Error → Result A

infixl 5 ◌>>=◌
abbrev pub ◌>>=◌ {ℓ κ} : {A : Type ℓ} {B : Type κ} → Result A → (A → Result B) → Result B
ok a >>= f = f a
raise e >>= f = raise e
