-- ===== src/Settings.antt =====
-- fmd/settings.py: the settings table, with its defaults and its typed readers.
pub mod Defaults
pub mod Reads
use text.Mathlib.Text.{◌==◌ as str_eq}
use harbour_find_my_device.Prelude.{
  String, Bool, true, false, Option, none, some, List, [], ◌∷◌, ◌||◌, ◌=?◌, if◌then◌else◌, ℤ,
}
use harbour_find_my_device.Text.{Text, codes, strip}
use harbour_find_my_device.Text.Decimal.{parse_int}
use harbour_find_my_device.Exception.{Result, ok, raise, ◌>>=◌}
use harbour_find_my_device.Obfuscation.{obfuscate, deobfuscate}
use harbour_find_my_device.Database.{Db, Sql}
use harbour_find_my_device.Settings.Defaults.{default_of, is_secret}
use harbour_find_my_device.Table.{lookup, upsert}

-- a stored value as it is returned
unfoldable pub shown : String → Option Text → Option Text
shown key value = if is_secret key then deobfuscate value else value

or_default : String → Option (Option Text) → Option Text
or_default key none = default_of key
or_default key (some value) = shown key value

-- `get(key)`; `none` is None
unfoldable pub get : String → Db → Option Text
unfolding or_default
get key db = or_default key (lookup key db.settings)

unfoldable pub or_blank : Option Text → Text
or_blank none = []
or_blank (some s) = s

-- what `set` writes
unfoldable pub stored_form : String → Option Text → Result (Option Text)
unfolding or_blank
stored_form key value = if is_secret key then obfuscate value else ok (some (or_blank value))

unfoldable pub set : String → Option Text → Db → Result Db
set key value db = do
  stored ← stored_form key value
  ok (record db { settings = upsert key stored db.settings })

-- one transaction for all
unfoldable pub set_many : List (String × Option Text) → Db → Result Db
set_many [] db = ok db
set_many ((key, value) ∷ rest) db = do db' ← set key value db; set_many rest db'

-- `str(value)`
str_of : Option Text → Text
str_of none = codes "None"
str_of (some s) = s

unfoldable pub is_truthy : Text → Bool
is_truthy s =
    s =? codes "1" || s =? codes "true" || s =? codes "True" || s =? codes "yes" || s =? codes "on"

unfoldable pub get_bool : String → Db → Bool
unfolding str_of is_truthy
get_bool key db = is_truthy (strip (str_of (get key db)))

or_fallback : ℤ → Option ℤ → ℤ
or_fallback fallback none = fallback
or_fallback fallback (some n) = n

unfoldable pub get_int : String → ℤ → Db → ℤ
unfolding or_fallback str_of
get_int key fallback db = or_fallback fallback (parse_int (strip (str_of (get key db))))
