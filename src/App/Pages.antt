-- ===== src/App/Pages.antt =====
-- qml/utilities/api.py: what the pages show of the devices (list_devices, get_map_data) and how they change
-- them (add_device, update_device, set_own_label, remove_device, _on_remote_location).
pub mod Rows
pub mod Greyed
use harbour_find_my_device.Prelude.{
  ℕ, Bool, true, false, not, ◌&&◌, ◌||◌, Option, none, some, List, [], ◌∷◌, ◌++◌, map, ◌=?◌,
  if◌then◌else◌,
}
use harbour_find_my_device.Text.{Text, codes, is_empty, strip}
use harbour_find_my_device.Text.Sort.{precedes}
use harbour_find_my_device.Exception.{Result, ok, raise}
use harbour_find_my_device.Database.{Real, Device, GpsRow, Db}
use harbour_find_my_device.Devices
use harbour_find_my_device.Devices.{Reply, row_to_dict, display_label, set_auth_result, set_deleted}
use harbour_find_my_device.Gps.{Fix, MapRow, store_fix, get_latest, get_latest_all}
use harbour_find_my_device.Settings
use harbour_find_my_device.Settings.Defaults.{webdav_url, webdav_username, device_label}
use harbour_find_my_device.App.Timers.{Buttons, clear_ack_timeout, clear_ringing}
use harbour_find_my_device.App.{App, emit, on_buttons, devices_updated, map_updated, restart_mqtt}
use harbour_find_my_device.App.Acks.{or_blank}

-- ORDER BY Is_Own DESC, Device_Label, Device_Id; NULL comes before every text
unfoldable pub label_precedes : Option Text → Option Text → Bool
label_precedes none b = true
label_precedes (some a) none = false
label_precedes (some a) (some b) = precedes a b

unfoldable pub row_precedes : Device → Device → Bool
unfolding label_precedes
row_precedes a b =
    if a.is_own && not b.is_own
    then true
    else if not a.is_own && b.is_own
    then false
    else if not (label_precedes b.device_label a.device_label)
    then true
    else if not (label_precedes a.device_label b.device_label)
    then false
    else precedes a.device_id b.device_id

unfoldable pub insert_row : Device → List Device → List Device
unfolding row_precedes
insert_row d [] = d ∷ []
insert_row d (e ∷ rows) = if row_precedes d e then d ∷ e ∷ rows else e ∷ insert_row d rows

unfoldable pub order_rows : List Device → List Device
unfolding insert_row
order_rows [] = []
order_rows (d ∷ rows) = insert_row d (order_rows rows)

-- `list_devices` of fmd/devices.py
unfoldable pub all_devices : Db → List Device
unfolding order_rows
all_devices db = map row_to_dict (order_rows db.devices)

-- an entry of the Devices page
pub record Row : Type 0 where
  pub device_id : Text
  pub label : Text
  pub is_own : Bool
  pub has_pin : Bool
  pub auth_failed : Bool
  pub no_response : Bool
  pub deleted : Bool
  pub ringing : Bool
  pub actions_enabled : Bool
  pub camera_enabled : Bool
  pub last_fix : Option GpsRow

unfoldable pub is_filled : Option Text → Bool
is_filled none = false
is_filled (some s) = not (is_empty s)

unfoldable pub is_failed : Option Text → Bool
is_failed none = false
is_failed (some r) = r =? codes "auth_failed"

unfoldable pub actions_enabled : Buttons → Device → Bool
unfolding is_filled is_failed
actions_enabled b d =
    d.is_own
    || is_filled d.pin
      && not (is_failed d.last_auth_result)
      && not (b.timed_out d.device_id)
      && not d.deleted

-- `own_ringing` is what `_own_ringing` reads from the file of the daemon
unfoldable pub row_for : Bool → Bool → App → Device → Row
unfolding actions_enabled
row_for own_ringing webdav_ok a d = record {
  device_id = d.device_id;
  label = display_label d;
  is_own = d.is_own;
  has_pin = is_filled d.pin;
  auth_failed = is_failed d.last_auth_result;
  no_response = a.buttons.timed_out d.device_id;
  deleted = d.deleted;
  ringing = a.buttons.ringing d.device_id || d.is_own && own_ringing;
  actions_enabled = actions_enabled a.buttons d;
  camera_enabled = actions_enabled a.buttons d && webdav_ok && not d.is_own;
  last_fix = get_latest d.device_id a.db;
}

-- `list_devices` of api.py
unfoldable pub list_devices : Bool → App → List Row
unfolding row_for all_devices
list_devices own_ringing a =
    let webdav_ok =
      is_filled (Settings.get webdav_url a.db) && is_filled (Settings.get webdav_username a.db) in
    map (row_for own_ringing webdav_ok a) (all_devices a.db)

-- a marker on the map
pub record Marker : Type 0 where
  pub device_id : Text
  pub label : Text
  pub lat : Real
  pub lon : Real
  pub timestamp_local : Text
  pub battery : Option ℕ
  pub accuracy : Option Real
  pub is_own : Bool

-- `s or default`
unfoldable pub or_default : Option Text → Text → Text
or_default none default = default
or_default (some s) default = if is_empty s then default else s

unfoldable pub marker_at : Option Real → Option Real → MapRow → List Marker
unfolding or_default
marker_at (some lat) (some lon) r =
    record {
      device_id = r.fix.device_id;
      label = or_default r.device_label r.fix.device_id;
      lat = lat;
      lon = lon;
      timestamp_local = or_default r.fix.timestamp_local r.fix.timestamp_utc;
      battery = r.fix.battery_level;
      accuracy = r.fix.accuracy;
      is_own = r.is_own;
    }
    ∷ []
marker_at _ _ r = []

unfoldable pub markers_of : List MapRow → List Marker
unfolding marker_at
markers_of [] = []
markers_of (r ∷ rows) = marker_at r.fix.latitude r.fix.longitude r ++ markers_of rows

-- the markers of `get_map_data`
unfoldable pub markers : Db → List Marker
unfolding markers_of
markers db = markers_of (get_latest_all db)

-- the reply of a change, or the exception that ends it, and the state that it leaves
abbrev pub Outcome : Type 0
Outcome = Result Reply × App

-- a call of fmd/devices.py and what follows it; `after` is done when the call was accepted
unfoldable pub follow : Result (Reply × Db) → (App → App) → App → Outcome
follow (raise e) after a = (raise e, a)
follow (ok (reply, db)) after a =
    (ok reply, if reply.0 then after (record a { db = db }) else record a { db = db })

-- `add_device`
unfoldable pub add_device : Text → Option Text → Option Text → Text → App → Outcome
unfolding follow
add_device k label pin now a =
    follow (Devices.add_remote k label pin now a.db)
      (λ (b : App). emit devices_updated (emit restart_mqtt b)) a

-- `remove_device`
unfoldable pub remove_device : Text → App → Outcome
unfolding follow
remove_device k a =
    follow (Devices.remove_device k a.db)
      (λ (b : App). emit map_updated (
        emit devices_updated
          (emit restart_mqtt (on_buttons (λ t. clear_ringing k (clear_ack_timeout k t)) b))))
      a

-- a column written by a transaction of its own that cannot be refused here
unfoldable pub db_after : Result (Unit {0} × Db) → Db → Db
db_after (ok (u, db)) old = db
db_after (raise e) old = old

-- what an accepted edit does besides: no timeout, no failed login and no wipe is remembered
unfoldable pub recover : Text → Bool → Text → App → App
unfolding db_after
recover k renamed now a =
    let cleared = on_buttons (clear_ack_timeout k) a in
    let authed = record cleared {
      db = db_after (set_auth_result k none now cleared.db) cleared.db;
    } in
    let marked = record authed { db = db_after (set_deleted k false now authed.db) authed.db } in
    let restarted = if renamed then emit restart_mqtt marked else marked in
    emit map_updated (emit devices_updated restarted)

-- `pin if pin else None`
unfoldable pub pin_arg : Option Text → Option Text
unfolding is_filled
pin_arg pin = if is_filled pin then pin else none

unfoldable pub edit : Text → Option Text → Option Text → Bool → Text → App → Outcome
unfolding follow recover pin_arg
edit k label pin renamed now a =
    follow (Devices.update_device k label (pin_arg pin) now a.db) (recover k renamed now) a

-- an edit after the rename, which is a transaction of its own
unfoldable pub edit_renamed :
    Result (Reply × Db) → Text → Text → Option Text → Option Text → Text → App → Outcome
unfolding edit
edit_renamed (raise e) old k label pin now a = (raise e, a)
edit_renamed (ok (reply, db)) old k label pin now a =
    if reply.0
    then edit k label pin true now (on_buttons (clear_ack_timeout old) (record a { db = db }))
    else (ok reply, record a { db = db })

-- `update_device`
unfoldable pub update_device : Text → Option Text → Option Text → Option Text → Text → App → Outcome
unfolding edit edit_renamed
update_device k label pin new_id now a =
    let id = strip (or_blank new_id) in
    if not (is_empty id) && not (id =? k)
    then edit_renamed (Devices.rename_device k id now a.db) k id label pin now a
    else edit k label pin false now a

-- `_on_remote_location`, with the fix that the payload holds
unfoldable pub on_remote_location : Text → Fix → App → App
on_remote_location k fix a =
    if is_empty k
    then a
    else emit devices_updated (emit map_updated (record a { db = (store_fix k fix true a.db).1 }))
