-- ===== src/Gps.antt =====
-- fmd/gpsstore.py: the gpsdata table, of which the latest row of each device is kept.
pub mod Latest
use harbour_find_my_device.Prelude.{
  ℕ, ◌+◌, Bool, true, false, not, ◌&&◌, ◌||◌, Option, none, some, List, [], ◌∷◌, ◌++◌, map, any,
  keep, ltb, ◌==◌, ◌=?◌, if◌then◌else◌,
}
use harbour_find_my_device.Text.{Text}
use harbour_find_my_device.Database.{Real, Device, GpsRow, Db, names_device}
use harbour_find_my_device.Database.Rows.{find}

-- the columns that a caller of `store_fix` gives, besides the device
pub record Fix : Type 0 where
  pub timestamp_utc : Text
  pub timestamp_local : Option Text
  pub lat : Option Real
  pub lon : Option Real
  pub alt : Option Real
  pub speed : Option Real
  pub accuracy : Option Real
  pub battery : Option ℕ

abbrev pub row_of : ℕ → Text → Fix → GpsRow
row_of id k fix = record {
  id = id;
  device_id = k;
  timestamp_utc = fix.timestamp_utc;
  timestamp_local = fix.timestamp_local;
  latitude = fix.lat;
  longitude = fix.lon;
  altitude = fix.alt;
  speed = fix.speed;
  accuracy = fix.accuracy;
  battery_level = fix.battery;
}

-- WHERE Device_Id = ?
abbrev pub of_device : Text → GpsRow → Bool
of_device k r = r.device_id =? k

-- DELETE FROM gpsdata WHERE Device_Id = ? AND Id <> ?
prune : Text → ℕ → List GpsRow → List GpsRow
prune k new_id rows = keep (λ r. not (of_device k r && not (r.id == new_id))) rows

-- `keep_latest_only` is the flag of that name.
unfoldable pub store_fix : Text → Fix → Bool → Db → ℕ × Db
unfolding prune
store_fix k fix keep_latest_only db =
    let new_id = db.gps_seq + 1 in
    let rows = db.gpsdata ++ (row_of new_id k fix ∷ []) in
    (
      new_id,
      record db {
        gpsdata = if keep_latest_only then prune k new_id rows else rows;
        gps_seq = new_id;
      },
    )

unfoldable pub newer : GpsRow → Option GpsRow → Option GpsRow
newer r none = some r
newer r (some s) = if ltb s.id r.id then some r else some s

-- ORDER BY Id DESC LIMIT 1, of the rows of one device
unfoldable pub latest : Text → List GpsRow → Option GpsRow
unfolding newer
latest k [] = none
latest k (r ∷ rows) = if of_device k r then newer r (latest k rows) else latest k rows

unfoldable pub get_latest : Text → Db → Option GpsRow
get_latest k db = latest k db.gpsdata

-- a row of `get_latest_all`: the fix, with the label and the flag of its device
pub record MapRow : Type 0 where
  pub fix : GpsRow
  pub device_label : Option Text
  pub is_own : Bool

join_device : GpsRow → Option Device → MapRow
join_device r none = record { fix = r; device_label = none; is_own = false }
join_device r (some d) = record { fix = r; device_label = d.device_label; is_own = d.is_own }

has_id : ℕ → Option GpsRow → Bool
has_id i none = false
has_id i (some r) = r.id == i

-- JOIN (SELECT MAX(Id) … GROUP BY Device_Id): the row is the newest of some device
is_newest : List GpsRow → GpsRow → Bool
unfolding has_id
is_newest rows r = any (λ q. has_id r.id (latest q.device_id rows)) rows

unfoldable pub get_latest_all : Db → List MapRow
unfolding join_device is_newest
get_latest_all db =
    map (λ r. join_device r (find (names_device r.device_id) db.devices))
      (keep (is_newest db.gpsdata) db.gpsdata)
