-- ===== src/Examples/Codes.antt =====
-- The codes and the tokens.
use harbour_find_my_device.Text.Decimal.{show_nat}
use harbour_find_my_device.Prelude.{
  ℕ, ◌≡◌, refl, true, false, List, [], ◌∷◌, arith, All, length, any, ◌=?◌, keep,
}
use harbour_find_my_device.Text.{Text, codes, upper}
use harbour_find_my_device.Exception.{ok}
use harbour_find_my_device.Database.{Db, has_device}
use harbour_find_my_device.Devices.Calls.{after}
use harbour_find_my_device.Tokens.Backup.{
  consume_backup_code, generate_backup_codes, normalize_code, has_hash, in_alphabet, insert_codes,
  insert_code, delete_codes, hash_code, raw_code, pretty,
}
use harbour_find_my_device.Tokens.Backup.Consume.{consume_backup_code_once}
use harbour_find_my_device.Tokens.Backup.Generate.{generated_codes_accepted}
use harbour_find_my_device.Tokens.Totp.{hotp, totp_now, verify_totp, truncate_mac, zfill}
use harbour_find_my_device.Tokens.Totp.Drift.{verify_totp-totp_now}
use harbour_find_my_device.Examples.{
  own_key, moment, later_moment, sample, plain_hash, twenty, key_of, counting,
}

consume_backup_code_once_example :
    consume_backup_code plain_hash
      (codes "2345-6789")
      own_key
      later_moment
      (consume_backup_code plain_hash (codes "23456789") own_key moment sample).1
    ≡ (false, (consume_backup_code plain_hash (codes "23456789") own_key moment sample).1)
unfolding normalize_code upper keep in_alphabet any
consume_backup_code_once_example =
    consume_backup_code_once plain_hash (codes "23456789") own_key moment sample (codes "2345-6789")
      later_moment refl

abbrev generated : Db
generated = after sample (generate_backup_codes plain_hash counting 2 own_key moment sample)

abbrev two_codes : List Text
two_codes = codes "2345-6789" ∷ codes "ABCD-EFGH" ∷ []

generated_codes_accepted_example :
    All
      (λ code. (consume_backup_code plain_hash code own_key later_moment generated).0 ≡ true)
      two_codes
unfolding generate_backup_codes has_hash any insert_codes insert_code delete_codes keep ◌=?◌
    has_device hash_code normalize_code upper raw_code in_alphabet pretty
generated_codes_accepted_example =
    generated_codes_accepted plain_hash counting 2 own_key moment sample two_codes generated
      later_moment (refl, tt) refl

twenty-length : (k m : List ℕ) → length (twenty k m) ≡ 20
twenty-length k m = refl

verify_totp-totp_now_example :
    verify_totp twenty key_of (codes "JBSW") (codes "281096") 1020 ≡ ok true
unfolding totp_now hotp truncate_mac zfill show_nat
verify_totp-totp_now_example =
    verify_totp-totp_now twenty twenty-length key_of (codes "JBSW") (1 ∷ 2 ∷ []) refl 1000 1020
      (codes "281096") (omega arith) (omega arith) (omega arith) (omega arith) refl
