-- ===== src/Settings/Reads.antt =====
-- What `get` reads after `set`.
use text.Mathlib.Text.{◌==◌ as str_eq}
use harbour_find_my_device.Prelude.{
  String, ◌≡◌, refl, ap, sym, ◌∙◌, false, Option, some, arith, eq_iff, if◌then◌else◌, Bool-cases,
  inl, inr,
}
use harbour_find_my_device.Text.{Text}
use harbour_find_my_device.Exception.{Result, ok, raise, ◌>>=◌}
use harbour_find_my_device.Codec.Utf8.{IsText}
use harbour_find_my_device.Obfuscation.{is_marked}
use harbour_find_my_device.Obfuscation.RoundTrip.{deobfuscate-obfuscate}
use harbour_find_my_device.Database.{Db}
use harbour_find_my_device.Settings.{get, set, shown, or_default, or_blank, stored_form}
use harbour_find_my_device.Settings.Defaults.{is_secret}
use harbour_find_my_device.Table.{upsert, lookup-upsert}

set-ok :
    (key : String) (value : Option Text) (db db' : Db)
    → set key value db ≡ ok db'
    → (stored : Option Text) × (stored_form key value ≡ ok stored)
      × (upsert key stored db.settings ≡ db'.settings)
unfolding set
set-ok key value db db' e = made (stored_form key value) refl e
  where
    made :
        (r : Result (Option Text))
        → stored_form key value ≡ r
        → ◌>>=◌ {B = Db} r (λ stored. ok (record db { settings = upsert key stored db.settings }))
          ≡ ok db'
        → (stored : Option Text) × (stored_form key value ≡ ok stored)
          × (upsert key stored db.settings ≡ db'.settings)
    made (ok stored) f e' = (stored, f, ground arith)
    made (raise x) f e' = absurd (ground arith)

shown-stored :
    (key : String) (s : Text) (stored : Option Text)
    → IsText s
    → is_marked s ≡ false
    → stored_form key (some s) ≡ ok stored
    → shown key stored ≡ some s
unfolding shown stored_form or_blank
shown-stored key s stored t n e = elim (Bool-cases (is_secret key)) [
  | inl secret ↦ rw secret (deobfuscate-obfuscate s stored t n (rw secret at e))
  | inr plain ↦ let same : some s ≡ stored = ground arith in rw (plain, ← same)
]

-- A setting that was written with a text is read back, and no other setting changes. The text has
-- code points that Python admits, and is not taken for a stored secret.
pub get-set :
    (key other : String) (s : Text) (db db' : Db)
    → IsText s
    → is_marked s ≡ false
    → set key (some s) db ≡ ok db'
    → get other db' ≡ (if str_eq key other then some s else get other db)
unfolding get or_default
get-set key other s db db' t n e =
    let (stored, form, rows) = set-ok key (some s) db db' e in
    rw (← rows, lookup-upsert)
      (elim (Bool-cases (str_eq key other)) [
        | inl same ↦ rw same (
            ap (λ k. shown k stored) (sym ((eq_iff key other).0 same))
            ∙ shown-stored key s stored t n form)
        | inr differ ↦ rw differ
      ])
