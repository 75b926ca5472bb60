-- ===== src/Tokens/Backup/Normal.antt =====
-- How a backup code is written does not matter: the dash and the case are dropped again.
use harbour_find_my_device.Prelude.{
  ◌≡◌, refl, ap, sym, ◌∙◌, [], ◌∷◌, ◌++◌, any, keep, take, drop, take-append-drop, arith,
}
use harbour_find_my_device.Text.{Text, upper, upper_char}
use harbour_find_my_device.Tokens.Backup.{in_alphabet, pretty, normalize_code}

normalize-append : (s t : Text) → normalize_code (s ++ t) ≡ normalize_code s ++ normalize_code t
unfolding normalize_code upper keep
normalize-append [] t = refl
normalize-append (c ∷ s) t = ground (arith, normalize-append s t)

normalize-dash : (t : Text) → normalize_code (b'-' ∷ t) ≡ normalize_code t
unfolding normalize_code upper keep in_alphabet any upper_char
normalize-dash t = refl

-- the dash is dropped again
pub normalize-pretty : (raw : Text) → normalize_code (pretty raw) ≡ normalize_code raw
unfolding pretty
normalize-pretty raw =
    normalize-append (take 4 raw) (b'-' ∷ drop 4 raw)
    ∙ ap (λ t. normalize_code (take 4 raw) ++ t) (normalize-dash (drop 4 raw))
    ∙ sym (normalize-append (take 4 raw) (drop 4 raw))
    ∙ ap normalize_code (take-append-drop 4 raw)
