-- ===== src/Runtime.antt =====
-- fmd/runtime.py: the runtime table, by which the app and the daemons signal each other. A time is
-- in whole seconds.
pub mod Signals
pub mod Liveness
pub mod Snapshot
use text.Mathlib.Text.{◌==◌ as str_eq}
use harbour_find_my_device.Prelude.{
  ℕ, ◌+◌, ◌-◌, String, Bool, true, false, not, ◌&&◌, Option, none, some, List, [], ◌∷◌, leb, ◌=?◌,
  if◌then◌else◌, ℤ, pos, negsuc, ◌+ℤ◌, ◌-ℤ◌, leb_ℤ, pos_part,
}
use harbour_find_my_device.Text.{Text, codes, is_empty}
use harbour_find_my_device.Text.Decimal.{show_int, parse_int}
use harbour_find_my_device.Database.{Db}
use harbour_find_my_device.Table.{lookup, upsert}

abbrev pub heartbeat_fresh_s : ℕ
heartbeat_fresh_s = 90

abbrev pub generation_key : String
generation_key = "settings_generation"

abbrev pub location_request_key : String
location_request_key = "location_enable_request"

abbrev pub publish_request_key : String
publish_request_key = "location_publish_request"

unfoldable pub or_else : Text → Option Text → Text
or_else default none = default
or_else default (some s) = s

-- `get(key, default)`
unfoldable pub get : String → Text → Db → Text
unfolding or_else
get key default db = or_else default (lookup key db.runtime)

unfoldable pub set : String → Text → Db → Db
set key value db = record db { runtime = upsert key value db.runtime }

unfoldable pub or_zero : Option ℤ → ℤ
or_zero none = pos 0
or_zero (some n) = n

unfoldable pub generation : Db → ℤ
unfolding or_zero
generation db = or_zero (parse_int (get generation_key (codes "0") db))

unfoldable pub bump_generation : Db → ℤ × Db
bump_generation db = let gen = generation db +ℤ pos 1 in (gen, set generation_key (show_int gen) db)

-- `daemon` of the heartbeats
pub data Daemon : Type 0 where
  gps cmd : Daemon

unfoldable pub beat_key : Daemon → String
beat_key gps = "daemon_gps_heartbeat"
beat_key cmd = "daemon_cmd_heartbeat"

unfoldable pub state_key : Daemon → String
state_key gps = "daemon_gps_state"
state_key cmd = "daemon_cmd_state"

unfoldable pub version_key : Daemon → String
version_key gps = "daemon_gps_version"
version_key cmd = "daemon_cmd_version"

unfoldable pub applied_key : Daemon → String
applied_key gps = "daemon_gps_applied_generation"
applied_key cmd = "daemon_cmd_applied_generation"

unfoldable pub write_applied : Daemon → Option ℤ → Db → Db
write_applied d none db = db
write_applied d (some gen) db = set (applied_key d) (show_int gen) db

unfoldable pub write_heartbeat : Daemon → Text → Text → Option ℤ → ℕ → Db → Db
unfolding write_applied
write_heartbeat d state version gen now db = write_applied d gen (
    set (version_key d) version
      (set (state_key d) state (set (beat_key d) (show_int (pos now)) db)))

pub record Heartbeat : Type 0 where
  pub age_s : Option ℕ
  pub state : Text
  pub version : Text
  pub applied_generation : Option ℤ

-- `max(0, now - beat)`
unfoldable pub age_of : ℕ → Option ℤ → Option ℕ
age_of now none = none
age_of now (some beat) = some (pos_part (pos now -ℤ beat))

-- `_parse_heartbeat` of the rows that `read_heartbeat` selects
unfoldable pub read_heartbeat : Daemon → ℕ → Db → Heartbeat
unfolding age_of
read_heartbeat d now db = record {
  age_s = age_of now (parse_int (get (beat_key d) [] db));
  state = get (state_key d) [] db;
  version = get (version_key d) [] db;
  applied_generation = parse_int (get (applied_key d) [] db);
}

pub data Status : Type 0 where
  running deactivated applying not_installed_or_stopped : Status

unfoldable pub is_stale : Option ℕ → Bool
is_stale none = true
is_stale (some age) = not (leb age heartbeat_fresh_s)

unfoldable pub is_outdated : Option ℤ → ℤ → Bool
is_outdated none current = false
is_outdated (some applied) current = not (leb_ℤ applied current && leb_ℤ current applied)

unfoldable pub status_from : Heartbeat → ℤ → Status
unfolding is_stale is_outdated
status_from hb current =
    if is_stale hb.age_s
    then not_installed_or_stopped
    else if is_outdated hb.applied_generation current
    then applying
    else if hb.state =? codes "active"
    then running
    else deactivated

unfoldable pub daemon_status : Daemon → ℕ → Db → Status
daemon_status d now db = status_from (read_heartbeat d now db) (generation db)

unfoldable pub request : String → ℕ → Db → Db
request key now db = set key (show_int (pos now)) db

-- `(int(time.time()) - int(raw)) <= max_age_s`
is_recent : ℕ → ℕ → Option ℤ → Bool
is_recent now max_age none = false
is_recent now max_age (some raw) = leb_ℤ (pos now -ℤ raw) (pos max_age)

-- `consume_location_enable_request` (max_age 300) and `consume_location_publish_request` (600)
unfoldable pub consume_request : String → ℕ → ℕ → Db → Bool × Db
unfolding is_recent
consume_request key max_age now db =
    let raw = get key [] db in
    if is_empty raw then (false, db) else (is_recent now max_age (parse_int raw), set key [] db)
