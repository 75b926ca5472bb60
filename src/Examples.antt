-- ===== src/Examples.antt =====
-- Small inputs on which the theorems are applied, and runs of the operations on them.
mod Registry
mod Codes
mod Signals
mod Links
mod Sessions
mod Records
mod Apps
mod Services
mod Rounds
use harbour_find_my_device.Prelude.{ℕ, Bool, true, false, Option, none, some, List, [], ◌∷◌}
use harbour_find_my_device.Text.{Text, codes}
use harbour_find_my_device.Database.{Device, GpsRow, BackupCode, Db, empty_db}
use harbour_find_my_device.Gps.{Fix}

abbrev own_key : Text
own_key = codes "Own0000001"

abbrev friend_key : Text
friend_key = codes "Friend0002"

abbrev moment : Text
moment = codes "2024-05-01 10:00:00"

abbrev later_moment : Text
later_moment = codes "2024-05-01 10:05:00"

abbrev own_row : Device
own_row = record {
  id = 1;
  device_id = own_key;
  device_label = some (codes "Phone");
  is_own = true;
  pin = some (codes "4711");
  totp_secret = some (codes "JBSW");
  last_auth_result = none;
  deleted = false;
  last_ack_utc = none;
  created_utc = moment;
  updated_utc = none;
}

abbrev friend_row : Device
friend_row = record {
  id = 2;
  device_id = friend_key;
  device_label = some (codes "Friend");
  is_own = false;
  pin = none;
  totp_secret = none;
  last_auth_result = none;
  deleted = false;
  last_ack_utc = none;
  created_utc = moment;
  updated_utc = none;
}

abbrev sample_fix : Fix
sample_fix = record {
  timestamp_utc = moment;
  timestamp_local = none;
  lat = some 4632;
  lon = some 4620;
  alt = none;
  speed = none;
  accuracy = none;
  battery = some 80;
}

abbrev friend_fix : GpsRow
friend_fix = record {
  id = 3;
  device_id = friend_key;
  timestamp_utc = moment;
  timestamp_local = none;
  latitude = some 4632;
  longitude = some 4620;
  altitude = none;
  speed = none;
  accuracy = none;
  battery_level = none;
}

abbrev sample_code : BackupCode
sample_code = record {
  id = 1;
  device_id = own_key;
  code_hash = codes "23456789";
  used = false;
  used_utc = none;
  created_utc = moment;
}

-- the own device and one more, a fix of the latter, a backup code, and two switches that are on
abbrev sample : Db
sample = record {
  devices = own_row ∷ friend_row ∷ [];
  device_seq = 2;
  gpsdata = friend_fix ∷ [];
  gps_seq = 3;
  backup_codes = sample_code ∷ [];
  code_seq = 1;
  settings = ("sms_remote_enabled", some (codes "1")) ∷ ("ring_enabled", some (codes "1")) ∷ [];
  runtime = [];
}

-- stand-ins for the digests, the decoder and the random numbers
abbrev plain_hash : Text → Text
plain_hash s = s

abbrev joined : Text → Text → Text
joined secret message = secret

abbrev twenty : List ℕ → List ℕ → List ℕ
twenty key message =
    1 ∷ 2 ∷ 3 ∷ 4 ∷ 5 ∷ 6 ∷ 7 ∷ 8 ∷ 9 ∷ 10 ∷ 11 ∷ 12 ∷ 13 ∷ 14 ∷ 15 ∷ 16 ∷ 17 ∷ 18 ∷ 19 ∷ 20 ∷ []

abbrev key_of : Text → Option (List ℕ)
key_of s = some (1 ∷ 2 ∷ [])

abbrev counting : ℕ → ℕ
counting i = i
