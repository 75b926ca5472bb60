-- ===== src/Database.antt =====
-- fmd/db.py: the tables of the schema and the constraints that SQLite enforces on them.
-- A table is the list of its rows in the order of their ids. `seq` is the AUTOINCREMENT counter:
-- the largest id that the table has given out. A REAL column is the bit pattern of its number.
-- A transaction is a function from the database to its result and the new database; one that
-- raises leaves the database as it was, since the connection is closed without a commit.
pub mod Rows
use harbour_find_my_device.Prelude.{
  ℕ, ◌+◌, String, Bool, true, false, not, ◌&&◌, ◌||◌, Option, none, some, List, [], ◌∷◌, ◌++◌, map,
  any, ◌==◌, ◌=?◌, if◌then◌else◌,
}
use harbour_find_my_device.Text.{Text, codes, is_empty}
use harbour_find_my_device.Exception.{Result, ok, raise, integrity_error}

abbrev pub Real : Type 0
Real = ℕ

pub record Device : Type 0 where
  pub id : ℕ
  pub device_id : Text
  pub device_label : Option Text
  pub is_own : Bool
  pub pin : Option Text
  pub totp_secret : Option Text
  pub last_auth_result : Option Text
  pub deleted : Bool
  pub last_ack_utc : Option Text
  pub created_utc : Text
  pub updated_utc : Option Text

pub record GpsRow : Type 0 where
  pub id : ℕ
  pub device_id : Text
  pub timestamp_utc : Text
  pub timestamp_local : Option Text
  pub latitude : Option Real
  pub longitude : Option Real
  pub altitude : Option Real
  pub speed : Option Real
  pub accuracy : Option Real
  pub battery_level : Option ℕ

pub record BackupCode : Type 0 where
  pub id : ℕ
  pub device_id : Text
  pub code_hash : Text
  pub used : Bool
  pub used_utc : Option Text
  pub created_utc : Text

pub record Db : Type 0 where
  pub devices : List Device
  pub device_seq : ℕ
  pub gpsdata : List GpsRow
  pub gps_seq : ℕ
  pub backup_codes : List BackupCode
  pub code_seq : ℕ
  pub settings : List (String × Option Text)
  pub runtime : List (String × Text)

-- the database that `_SCHEMA` creates
abbrev pub empty_db : Db
empty_db = record {
  devices = [];
  device_seq = 0;
  gpsdata = [];
  gps_seq = 0;
  backup_codes = [];
  code_seq = 0;
  settings = [];
  runtime = [];
}

abbrev pub Sql {ℓ} : Type ℓ → Type ℓ
Sql A = Db → Result (A × Db)

-- WHERE Device_Id = ?
abbrev pub names_device : Text → Device → Bool
names_device k d = d.device_id =? k

unfoldable pub has_device : Text → List Device → Bool
has_device k rows = any (names_device k) rows

unfoldable pub has_own : List Device → Bool
has_own rows = any (λ d. d.is_own) rows

-- the CHECK of Device_Id: not empty, and no space in it
unfoldable pub admits_id : Text → Bool
admits_id k = not (is_empty k) && not (any (λ c. c == b' ') k)

-- the constraints on a new row of devices
unfoldable pub refuses_device : Device → Db → Bool
refuses_device d db =
    not (admits_id d.device_id)
    || has_device d.device_id db.devices
    || d.is_own && has_own db.devices

unfoldable pub put_device : Device → Db → Db
put_device d db = record db {
  devices = db.devices ++ (record d { id = db.device_seq + 1 } ∷ []);
  device_seq = db.device_seq + 1;
}

-- INSERT INTO devices, with the row's id given by the counter
unfoldable pub insert_device : Device → Db → Result Db
insert_device d db = if refuses_device d db then raise integrity_error else ok (put_device d db)

-- UPDATE devices SET … WHERE Device_Id = ?, for a `SET` that leaves Device_Id and Is_Own alone;
-- the trigger writes `now` to Updated_Utc of each row that the statement touches.
unfoldable pub update_rows : Text → (Device → Device) → Text → List Device → List Device
update_rows k set now [] = []
update_rows k set now (d ∷ rows) =
    (if names_device k d then record (set d) { updated_utc = some now } else d)
    ∷ update_rows k set now rows
