-- ===== src/Daemon/Locate.antt =====
-- daemon-rpm/src/daemon_cmd.py: `_do_gps`, the GPS command, on the database. What the position
-- provider, ConnMan and the clock answer is an argument. The session of mobile data around the
-- publish is that of MobileData, and the text of the notice is left out.
pub mod Newest
use harbour_find_my_device.Prelude.{
  ℕ, Bool, true, false, not, ◌&&◌, Option, none, some, if◌then◌else◌,
}
use harbour_find_my_device.Text.{Text, is_empty}
use harbour_find_my_device.Database.{Real, GpsRow, Db}
use harbour_find_my_device.Gps.{Fix, store_fix, get_latest}
use harbour_find_my_device.Settings.{get_bool}
use harbour_find_my_device.Settings.Defaults.{mqtt_enabled, auto_enable_location}
use harbour_find_my_device.GpsDaemon.{Why, off, no_gps}
use harbour_find_my_device.Daemon.{Channel, mqtt, sms}

-- where the position that is sent comes from
pub data Source : Type 0 where
  wifi live db_row : Source

pub record Found : Type 0 where
  pub fixed : Option (Real × Real)  -- `fixed_location.get()`
  pub fixed_times : Text × Text
  pub fixed_speed : Real
  pub fixed_accuracy : Real
  pub why : Option Why  -- `needs_enable()`
  pub fix : Option Fix  -- what the reader finds, if it is asked and does not raise
  pub battery : Option ℕ
  pub has_client : Bool

-- what the command does
pub record Located : Type 0 where
  pub position : Option (Fix × Source)
  pub db : Db
  pub published : Bool  -- the position is given to the MQTT client
  pub reply : Option (Text × Real × Real)  -- the SMS that is sent
  pub location_enabled : Bool

unfoldable pub fix_of : GpsRow → Fix
fix_of row = record {
  timestamp_utc = row.timestamp_utc;
  timestamp_local = row.timestamp_local;
  lat = row.latitude;
  lon = row.longitude;
  alt = row.altitude;
  speed = row.speed;
  accuracy = row.accuracy;
  battery = row.battery_level;
}

unfoldable pub place_fix : Found → Real × Real → Fix
place_fix found place = record {
  timestamp_utc = found.fixed_times.0;
  timestamp_local = some found.fixed_times.1;
  lat = some place.0;
  lon = some place.1;
  alt = none;
  speed = some found.fixed_speed;
  accuracy = some found.fixed_accuracy;
  battery = found.battery;
}

unfoldable pub enables : Option Why → Bool → Bool
enables none auto = false
enables (some why) auto = auto

-- `try_fix`, where the place is not fixed
unfoldable pub tries : Option Why → Bool → Bool
tries (some off) false = false
tries _ auto = true

unfoldable pub stored : Text → Fix → Source → Db → Option (Fix × Source) × Db
stored own fix source db = (some (fix, source), (store_fix own fix true db).1)

unfoldable pub from_row : Option GpsRow → Option (Fix × Source)
from_row none = none
from_row (some row) = some (fix_of row, db_row)

unfoldable pub fall_back : Text → Db → Option (Fix × Source) × Db
fall_back own db = (from_row (get_latest own db), db)

unfoldable pub measured : Text → Found → Bool → Option Fix → Db → Option (Fix × Source) × Db
measured own found true (some fix) db = stored own (record fix { battery = found.battery }) live db
measured own found true none db = fall_back own db
measured own found false fix db = fall_back own db

unfoldable pub position_at : Text → Found → Option (Real × Real) → Db → Option (Fix × Source) × Db
position_at own found (some place) db = stored own (place_fix found place) wifi db
position_at own found none db =
    measured own found (tries found.why (get_bool auto_enable_location db)) found.fix db

unfoldable pub is_found : Option (Fix × Source) → Bool
is_found none = false
is_found (some p) = true

is_place : Option Real → Bool
is_place none = false
is_place (some r) = true

-- `lat is not None`
unfoldable pub has_lat : Option (Fix × Source) → Bool
unfolding is_place
has_lat none = false
has_lat (some p) = is_place p.0.lat

reply_at : Text → Option Real → Option Real → Option (Text × Real × Real)
reply_at sender (some lat) (some lon) = some (sender, lat, lon)
reply_at sender lat lon = none

-- `_reply_gps_sms`, for a command that came by SMS
unfoldable pub reply_to :
    Channel → Option Text → Option (Fix × Source) → Option (Text × Real × Real)
unfolding reply_at
reply_to sms (some sender) (some p) =
    if is_empty sender then none else reply_at sender p.0.lat p.0.lon
reply_to channel sender p = none

is_not_fixed : Option (Real × Real) → Bool
is_not_fixed none = true
is_not_fixed (some place) = false

-- `_do_gps`: whether it ends with "ok", and what it does
unfoldable pub do_gps : Text → Found → Channel → Option Text → Db → Bool × Located
unfolding is_not_fixed
do_gps own found channel sender db =
    let r = position_at own found found.fixed db in
    (
      has_lat r.0,
      record {
        position = r.0;
        db = r.1;
        published = is_found r.0 && get_bool mqtt_enabled r.1 && found.has_client;
        reply = reply_to channel sender r.0;
        location_enabled =
            is_not_fixed found.fixed && enables found.why (get_bool auto_enable_location db);
      },
    )
