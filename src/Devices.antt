-- ===== src/Devices.antt =====
-- fmd/devices.py: the own device and the remote devices. `now` is the time that `iso_utc` and
-- SQLite's trigger write; each function runs on a connection of its own (`conn=None`).
pub mod Ids
mod Table
pub mod Calls
mod Change
pub mod Invariant
pub mod Own
pub mod Pairing
pub mod Renaming
use harbour_find_my_device.Prelude.{
  ℕ, zero, suc, ◌+◌, ◌*◌, ◌%◌, String, Bool, true, false, not, ◌&&◌, ◌||◌, Option, none, some, List,
  [], ◌∷◌, any, keep, ◌=?◌, if◌then◌else◌,
}
use harbour_find_my_device.Text.{Text, codes, is_empty, strip}
use harbour_find_my_device.Exception.{Result, ok, raise, integrity_error, unicode_error, ◌>>=◌}
use harbour_find_my_device.Codec.Utf8.{is_surrogate}
use harbour_find_my_device.Obfuscation.{obfuscate, deobfuscate}
use harbour_find_my_device.Database.{
  Device, GpsRow, BackupCode, Db, Sql, names_device, has_device, insert_device, update_rows,
}
use harbour_find_my_device.Database.Rows.{find}
use harbour_find_my_device.Devices.Ids.{is_valid_id, generate_device_id}

-- (ok, error_message)
abbrev pub Reply : Type 0
Reply = Bool × Option String

abbrev pub accepted : Reply
accepted = (true, none)

abbrev pub refused : String → Reply
refused message = (false, some message)

abbrev pub bad_id : String
bad_id = "Device-Id must be 10 letters/digits, no spaces"

abbrev pub id_taken : String
id_taken = "A device with this id already exists"

abbrev pub not_found : String
not_found = "Device not found"

-- a column that is tested for being filled before it is read
unfoldable pub reveal : Option Text → Option Text
unfolding deobfuscate
reveal none = none
reveal (some s) = if is_empty s then none else deobfuscate (some s)

-- `_row_to_dict`: the row with its secrets in clear
unfoldable pub row_to_dict : Device → Device
unfolding reveal
row_to_dict d = record d { pin = reveal d.pin; totp_secret = reveal d.totp_secret }

unfoldable pub as_dict : Option Device → Option Device
as_dict none = none
as_dict (some d) = some (row_to_dict d)

unfoldable pub get_own : Db → Option Device
unfolding as_dict
get_own db = as_dict (find (λ d. d.is_own) db.devices)

unfoldable pub get_device : Text → Db → Option Device
unfolding as_dict
get_device k db = as_dict (find (names_device k) db.devices)

unfoldable pub pin_of : Option Device → Option Text
pin_of none = none
pin_of (some d) = d.pin

unfoldable pub get_pin : Text → Db → Option Text
unfolding pin_of
get_pin k db = pin_of (get_device k db)

abbrev pub new_row : Text → Option Text → Bool → Option Text → Text → Device
new_row k label own pin now = record {
  id = 0;
  device_id = k;
  device_label = label;
  is_own = own;
  pin = pin;
  totp_secret = none;
  last_auth_result = none;
  deleted = false;
  last_ack_utc = none;
  created_utc = now;
  updated_utc = none;
}

-- The loop of `ensure_own_device`: an id that no row has, or else the last of the ids drawn.
-- `draw i` is the i-th id that is generated.
draw_id : (ℕ → Text) → ℕ → ℕ → List Device → Text
draw_id draw i zero rows = draw i
draw_id draw i (suc tries) rows =
    let next = draw_id draw (i + 1) tries rows in if has_device (draw i) rows then next else draw i

create_own : Text → Text → Sql (Option Device)
create_own k now db = do
  db' ← insert_device (new_row k (some []) true none now) db
  ok (get_own db', db')

-- `range(10)` draws ten ids at most: `draw_id` is given the tries after the first.
ensure_found : (ℕ → Text) → Text → Db → Option Device → Result (Option Device × Db)
ensure_found draw now db (some existing) = ok (some existing, db)
ensure_found draw now db none = create_own (draw_id draw 0 9 db.devices) now db

unfoldable pub ensure_own_device : (ℕ → Text) → Text → Sql (Option Device)
unfolding draw_id create_own ensure_found
ensure_own_device draw now db = ensure_found draw now db (get_own db)

-- `obfuscate(pin) if pin else None`
unfoldable pub store_secret : Option Text → Result (Option Text)
store_secret none = ok none
store_secret (some s) = if is_empty s then ok none else obfuscate (some s)

unfoldable pub or_empty : Option Text → Text
or_empty none = []
or_empty (some s) = s

-- the binding of a text to a statement of sqlite3, which encodes it
unfoldable pub bind : Text → Result Text
bind s = if any is_surrogate s then raise unicode_error else ok s

unfoldable pub add_remote : Text → Option Text → Option Text → Text → Sql Reply
unfolding store_secret or_empty bind
add_remote k label pin now db =
    if not (is_valid_id k)
    then ok (refused bad_id, db)
    else if has_device k db.devices
    then ok (refused id_taken, db)
    else do
      stored ← store_secret pin
      bound ← bind (or_empty label)
      db' ← insert_device (new_row k (some bound) false stored now) db
      ok (accepted, db')

set_label : Option Text → Device → Device
set_label none d = d
set_label (some label) d = record d { device_label = some label }

set_pin : Option Text → Option Text → Device → Device
set_pin none stored d = d
set_pin (some pin) stored d = record d { pin = stored }

no_fields : Option Text → Option Text → Bool
no_fields none none = true
no_fields _ _ = false

-- `None` for a label or a PIN leaves the column alone.
unfoldable pub update_device : Text → Option Text → Option Text → Text → Sql Reply
unfolding store_secret set_label set_pin no_fields
update_device k label pin now db =
    if not (has_device k db.devices) then ok (refused not_found, db) else do
      stored ← store_secret pin
      if no_fields label pin
          then ok (accepted, db)
          else ok (
            accepted,
            record db {
              devices = update_rows k (λ d. set_pin pin stored (set_label label d)) now db.devices;
            },
          )

rename_gps : Text → Text → List GpsRow → List GpsRow
rename_gps old new [] = []
rename_gps old new (r ∷ rows) =
    (if r.device_id =? old then record r { device_id = new } else r) ∷ rename_gps old new rows

-- UPDATE devices SET Device_Id: the foreign key of backup_codes refuses it for a row that has codes.
rename_row : Text → Text → Text → Db → Result Db
unfolding rename_gps
rename_row old new now db =
    if any (λ (c : BackupCode). c.device_id =? old) db.backup_codes
    then raise integrity_error
    else ok (record db {
      devices = update_rows old (λ d. record d { device_id = new }) now db.devices;
      gpsdata = rename_gps old new db.gpsdata;
    })

rename_found : Text → Text → Text → Db → Option Device → Result (Reply × Db)
unfolding rename_row
rename_found old new now db none = ok (refused not_found, db)
rename_found old new now db (some d) =
    if d.is_own
    then ok (refused "The own device id cannot be changed", db)
    else if has_device new db.devices
    then ok (refused id_taken, db)
    else do db' ← rename_row old new now db; ok (accepted, db')

unfoldable pub rename_device : Text → Text → Text → Sql Reply
unfolding rename_found
rename_device old new now db =
    if not (is_valid_id new)
    then ok (refused bad_id, db)
    else rename_found old new now db (find (names_device old) db.devices)

-- DELETE FROM gpsdata, and DELETE FROM devices with its cascade to backup_codes
delete_rows : Text → Db → Db
delete_rows k db = record db {
  gpsdata = keep (λ r. not (r.device_id =? k)) db.gpsdata;
  devices = keep (λ d. not (names_device k d)) db.devices;
  backup_codes = keep (λ c. not (c.device_id =? k)) db.backup_codes;
}

remove_found : Text → Db → Option Device → Result (Reply × Db)
unfolding delete_rows
remove_found k db none = ok (refused not_found, db)
remove_found k db (some d) =
    if d.is_own
    then ok (refused "The own device cannot be removed", db)
    else ok (accepted, delete_rows k db)

unfoldable pub remove_device : Text → Sql Reply
unfolding remove_found
remove_device k db = remove_found k db (find (names_device k) db.devices)

-- the CHECK of Last_Auth_Result
unfoldable pub admits_result : Option Text → Bool
admits_result none = true
admits_result (some r) = r =? codes "ok" || r =? codes "auth_failed" || r =? codes "disabled"

unfoldable pub set_auth_result : Text → Option Text → Text → Sql (Unit {0})
unfolding admits_result
set_auth_result k result now db =
    if has_device k db.devices && not (admits_result result)
    then raise integrity_error
    else ok (
      tt,
      record db {
        devices =
            update_rows k (λ d. record d { last_auth_result = result; last_ack_utc = some now }) now
              db.devices;
      },
    )

unfoldable pub set_deleted : Text → Bool → Text → Sql (Unit {0})
set_deleted k deleted now db =
    ok (
      tt,
      record db { devices = update_rows k (λ d. record d { deleted = deleted }) now db.devices },
    )

-- `display_label`
unfoldable pub display_label : Device → Text
unfolding or_empty
display_label d =
    let label = strip (or_empty d.device_label) in if is_empty label then d.device_id else label
