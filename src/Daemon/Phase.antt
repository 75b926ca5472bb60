-- ===== src/Daemon/Phase.antt =====
-- daemon-rpm/src/daemon_cmd.py (_run_active_phase, watchdog, _process_location_requests,
-- _process_publish_requests): the command daemon while it serves.
pub mod Heartbeats
pub mod Beating
use harbour_find_my_device.Prelude.{
  ℕ, ◌+◌, ◌-◌, Bool, true, false, not, ◌&&◌, ◌||◌, Option, none, some, List, [], ◌∷◌, leb,
  if◌then◌else◌, ℤ,
}
use harbour_find_my_device.Text.{Text, codes}
use harbour_find_my_device.Database.{Real, Db}
use harbour_find_my_device.Runtime
use harbour_find_my_device.Runtime.{
  generation, write_heartbeat, consume_request, location_request_key, publish_request_key,
  is_outdated,
}
use harbour_find_my_device.Mqtt.Health.{Defect}
use harbour_find_my_device.Daemon.{Watch, first_watch, check_mqtt, features_active}
use harbour_find_my_device.Daemon.Uploads.{Photos, check_uploads}
use harbour_find_my_device.FixedLocation.{Service, publish_wifi_state}

-- HEARTBEAT_INTERVAL_S
abbrev pub heartbeat_interval_s : ℕ
heartbeat_interval_s = 30

-- What the phase keeps. `publishes` counts the publish jobs given to the worker, `enables` the calls of
-- `set_location_enabled`, `repairs` the reconnects that were started.
pub record Phase : Type 0 where
  pub generation : ℤ
  pub version : Text
  pub last_beat : ℕ
  pub watch : Watch
  pub photos : Photos
  pub published_wifi : Option Text
  pub publishes : ℕ
  pub enables : ℕ
  pub repairs : ℕ
  pub db : Db

-- What a round of the watchdog meets: `channel` is none without an MQTT client, or else whether the
-- last repair runs and the defect that is seen.
pub record Tick : Type 0 where
  pub now : ℕ
  pub stopping : Bool
  pub channel : Option (Bool × Option Defect)
  pub online : Bool
  pub services : Option (List Service)
  pub saves : Bool

-- the end of the set-up in `_run_active_phase`, before the main loop runs
unfoldable pub begin_phase : ℤ → Text → Photos → Option Text → ℕ → Db → Phase
begin_phase gen version photos wifi now db = record {
  generation = gen;
  version = version;
  last_beat = now;
  watch = first_watch;
  photos = photos;
  published_wifi = wifi;
  publishes = 0;
  enables = 0;
  repairs = 0;
  db = write_heartbeat Runtime.Daemon.cmd (codes "active") version (some gen) now db;
}

-- `_process_location_requests`
unfoldable pub process_location_requests : ℕ → Phase → Phase
process_location_requests now p =
    let r = consume_request location_request_key 300 now p.db in
    record p { db = r.1; enables = if r.0 then p.enables + 1 else p.enables }

-- `_process_publish_requests` with a worker
unfoldable pub process_publish_requests : ℕ → Phase → Phase
process_publish_requests now p =
    let r = consume_request publish_request_key 600 now p.db in
    record p { db = r.1; publishes = if r.0 then p.publishes + 1 else p.publishes }

unfoldable pub watch_channel : Option (Bool × Option Defect) → ℕ → Phase → Phase
watch_channel none now p = p
watch_channel (some (repairing, seen)) now p =
    let r = check_mqtt repairing seen now p.watch in
    record p { watch = r.1; repairs = if r.0 then p.repairs + 1 else p.repairs }

unfoldable pub watch_uploads : Tick → Phase → Phase
watch_uploads t p = record p { photos = check_uploads p.db t.now t.online p.photos }

module _ (float : Text → Option Real) (within : ℕ → Real → Bool) where
  unfoldable pub beat : Tick → Phase → Phase
  beat t p =
      let db =
        write_heartbeat Runtime.Daemon.cmd (codes "active") p.version (some p.generation) t.now
          p.db in
      let r = publish_wifi_state float within t.services t.saves (p.published_wifi, db) in
      record p { last_beat = t.now; published_wifi = r.0; db = r.1 }

  unfoldable pub beat_if_due : Tick → Phase → Phase
  unfolding beat
  beat_if_due t p = if leb heartbeat_interval_s (t.now - p.last_beat) then beat t p else p

  unfoldable pub housekeeping : Tick → Phase → Phase
  unfolding beat_if_due watch_channel watch_uploads process_location_requests
      process_publish_requests
  housekeeping t p = process_publish_requests t.now (
      process_location_requests t.now
        (watch_uploads t (watch_channel t.channel t.now (beat_if_due t p))))

  -- the settings are those that the phase was built with, and a feature is on
  unfoldable pub is_current : Phase → Bool
  is_current p = not (is_outdated (some p.generation) (generation p.db)) && features_active p.db

  -- `watchdog`; true is that the phase goes on
  unfoldable pub watchdog : Tick → Phase → Bool × Phase
  unfolding housekeeping is_current
  watchdog t p = if t.stopping then (false, p) else let q = housekeeping t p in (is_current q, q)
