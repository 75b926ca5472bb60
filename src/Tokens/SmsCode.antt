-- ===== src/Tokens/SmsCode.antt =====
-- `verify_sms_code`: the second factor of an SMS command.
use harbour_find_my_device.Prelude.{
  ℕ, ◌≡◌, Bool, true, false, Option, none, some, List, if◌then◌else◌,
}
use harbour_find_my_device.Text.{Text, is_empty}
use harbour_find_my_device.Exception.{Result, ok, ◌>>=◌}
use harbour_find_my_device.Database.{Device, Db, Sql}
use harbour_find_my_device.Devices.{get_device}
use harbour_find_my_device.Tokens.Totp.{verify_totp}
use harbour_find_my_device.Tokens.Backup.{consume_backup_code}

abbrev pub secret_of : Option Device → Option Text
secret_of none = none
secret_of (some d) = d.totp_secret

module _ (hmac_sha1 : List ℕ → List ℕ → List ℕ) (b32decode : Text → Option (List ℕ))
    (sha256 : Text → Text) where
  -- `secret and verify_totp(secret, code)`
  unfoldable pub totp_accepts : Option Text → Text → ℕ → Result Bool
  totp_accepts none code now = ok false
  totp_accepts (some secret) code now =
      if is_empty secret then ok false else verify_totp hmac_sha1 b32decode secret code now

  -- `seconds` is the time of the check, `stamp` the same time as SQLite prints it.
  unfoldable pub verify_sms_code : Text → Text → ℕ → Text → Sql Bool
  verify_sms_code code k seconds stamp db = do
    by_totp ← totp_accepts (secret_of (get_device k db)) code seconds
    if by_totp then ok (true, db) else ok (consume_backup_code sha256 code k stamp db)

  -- A code that is right as a TOTP code is accepted, and uses up no backup code.
  pub verify_sms_code_totp :
      (code k stamp : Text) (seconds : ℕ) (db : Db)
      → totp_accepts (secret_of (get_device k db)) code seconds ≡ ok true
      → verify_sms_code code k seconds stamp db ≡ ok (true, db)
  unfolding verify_sms_code
  verify_sms_code_totp code k stamp seconds db e = rw e
