-- ===== src/Tokens/Enrol.antt =====
-- `set_own_totp_secret`: the secret that an authenticator app is enrolled with.
use harbour_find_my_device.Prelude.{
  ℕ, ◌≡◌, refl, ap, sym, ◌∙◌, true, false, Option, none, some, List, [], ◌∷◌, arith, any, ◌=?◌,
  =?_refl, All, Bool-cases, inl, inr,
}
use harbour_find_my_device.Text.{Text, is_empty}
use harbour_find_my_device.Exception.{Result, ok, raise, type_error, ◌>>=◌}
use harbour_find_my_device.Codec.Utf8.{IsText, is_surrogate}
use harbour_find_my_device.Obfuscation.{is_marked, obfuscate}
use harbour_find_my_device.Obfuscation.RoundTrip.{obfuscate_total, deobfuscate-obfuscate}
use harbour_find_my_device.Database.{Device, Db, names_device, has_device, update_rows}
use harbour_find_my_device.Database.Rows.{find}
use harbour_find_my_device.Devices.{
  reveal, as_dict, row_to_dict, get_own, get_device, ensure_own_device,
}
use harbour_find_my_device.Devices.Own.{ensure_own_device_found}
use harbour_find_my_device.Devices.Pairing.{reveal-deobfuscate}
use harbour_find_my_device.Tokens.SmsCode.{secret_of}

abbrev id_or_blank : Option Device → Text
id_or_blank none = []
id_or_blank (some d) = d.device_id

-- the UPDATE; `dev["device_id"]` of None raises TypeError
store_at : Option Device → Option Text → Text → Db → Result Db
store_at none stored now db = raise type_error
store_at (some d) stored now db = ok (record db {
  devices = update_rows d.device_id (λ r. record r { totp_secret = stored }) now db.devices;
})

-- `draw` and `now` are those of `ensure_own_device`.
unfoldable pub set_own_totp_secret : Option Text → (ℕ → Text) → Text → Db → Result Db
unfolding store_at
set_own_totp_secret secret draw now db = do
  (dev, db') ← ensure_own_device draw now db
  stored ← obfuscate secret
  store_at dev stored now db'

secret-update_rows :
    (k : Text) (stored : Option Text) (now : Text) (rows : List Device)
    → has_device k rows ≡ true
    → secret_of (
        as_dict
          (find (names_device k) (update_rows k (λ d. record d { totp_secret = stored }) now rows)))
      ≡ reveal stored
unfolding has_device any update_rows find as_dict row_to_dict
secret-update_rows k stored now [] h = absurd (ground arith)
secret-update_rows k stored now (r ∷ rows) h = elim (Bool-cases (r.device_id =? k)) [
  | inl same ↦ rw (same, same) refl
  | inr other ↦ rw (other, other) (secret-update_rows k stored now rows (ground (arith, h)))
]

own-has_device :
    (rows : List Device) (d : Device)
    → as_dict (find (λ r. r.is_own) rows) ≡ some d
    → has_device d.device_id rows ≡ true
unfolding has_device any find as_dict row_to_dict
own-has_device [] d e = absurd (ground arith)
own-has_device (r ∷ rows) d e = elim (Bool-cases r.is_own) [
  | inl own ↦
      let shown : as_dict (find (λ x. x.is_own) (r ∷ rows)) ≡ as_dict (some r) = rw own refl in
      let same : r.device_id ≡ d.device_id = ap id_or_blank (sym shown ∙ e) in
      rw (same, =?_refl d.device_id) refl
  | inr other ↦
      let rest : as_dict (find (λ x. x.is_own) rows) ≡ some d = ground (arith, e) in
      let ih : has_device d.device_id rows ≡ true = own-has_device rows d rest in ground (arith, ih)
]

-- Where there is an own device, a secret that is not empty, is not taken for a stored value and has
-- only characters that Python can encode is stored, and is then the secret that the check of an SMS
-- code reads.
pub secret-set_own_totp_secret :
    (secret : Text) (draw : ℕ → Text) (now : Text) (db : Db) (d : Device)
    → get_own db ≡ some d
    → is_empty secret ≡ false
    → is_marked secret ≡ false
    → IsText secret
    → All (λ c. is_surrogate c ≡ false) secret
    → (db' : Db) × (set_own_totp_secret (some secret) draw now db ≡ ok db')
      × (secret_of (get_device d.device_id db') ≡ some secret)
unfolding set_own_totp_secret get_device
secret-set_own_totp_secret secret draw now db d own filled plain t enc =
    let (stored, e) = obfuscate_total secret enc in
    (
      record db {
        devices = update_rows d.device_id (λ r. record r { totp_secret = stored }) now db.devices;
      },
      rw (ensure_own_device_found draw now db d own, e) refl,
      secret-update_rows d.device_id stored now db.devices
            (own-has_device db.devices d (unfold get_own in own))
          ∙ reveal-deobfuscate stored secret (deobfuscate-obfuscate secret stored t plain e) filled,
    )
