-- ===== src/Examples/Rounds.antt =====
-- The network watch, the watcher of ConnMan, and the command daemon as it serves.
use harbour_find_my_device.Obfuscation.{deobfuscate, is_marked}
use harbour_find_my_device.Codec.Base64.{b64decode}
use harbour_find_my_device.Text.Decimal.{parse_int, show_int, show_nat}
use harbour_find_my_device.Settings.Defaults.{default_of, defaults, is_secret}
use harbour_find_my_device.Table.{lookup, upsert}
use harbour_find_my_device.Settings.{get, or_blank, shown}
use harbour_find_my_device.Prelude.{
  ℕ, ◌≡◌, refl, ◌⊎◌, Bool, true, false, Option, none, some, List, [], ◌∷◌, arith, ◌=?◌, ◌-ℤ◌, keep,
}
use harbour_find_my_device.Text.{
  Text, codes, starts_with, is_empty, strip, is_digit, is_space, lstrip, push, rstrip, split_on,
}
use harbour_find_my_device.Database.{Real}
use harbour_find_my_device.FixedLocation.{
  connected_wifi_names, publish_wifi_state, names_to_publish, configured, coordinates, in_range,
  is_configured, two_floats, wifi_names, publish_names, same_value, join_lines, set_connected_wifi,
}
use harbour_find_my_device.Runtime
use harbour_find_my_device.Runtime.{
  Daemon, write_heartbeat, daemon_status, running, generation, set, status_from, read_heartbeat,
  age_of, applied_key, beat_key, is_outdated, is_stale, or_else, or_zero, state_key, version_key,
  write_applied,
}
use harbour_find_my_device.NetWatch.{Info, resolve}
use harbour_find_my_device.NetWatch.Fresh.{IsRecent, resolves, resolve-resolves}
use harbour_find_my_device.Mqtt.{Client, new_client, started, force_reconnect}
use harbour_find_my_device.Daemon.Uploads.{Photos, check_uploads}
use harbour_find_my_device.Daemon.Handover.{
  Watcher, on_property_changed, forget_timer, Probe, new_watcher, reconnect_client,
}
use harbour_find_my_device.Daemon.Handover.Settled.{
  Change, IsSettling, last_worth, burst, IsSettling-new, IsSound, reconnect_client-IsSound,
}
use harbour_find_my_device.Daemon.Phase.{
  Tick, begin_phase, watchdog, housekeeping, beat_if_due, watch_uploads, watch_channel,
  process_location_requests, process_publish_requests, is_current, beat,
}
use harbour_find_my_device.Daemon.{features_active}
use harbour_find_my_device.Settings
use harbour_find_my_device.Settings.{get_bool}
use harbour_find_my_device.Text.Sort.{sorted}
use harbour_find_my_device.Daemon.Phase.Beating
use harbour_find_my_device.Daemon.Phase.Beating.{daemon_status-watchdog, wishes_location}
use harbour_find_my_device.Examples.{sample}

abbrev no_float : Text → Option Real
no_float t = none

abbrev anywhere : ℕ → Real → Bool
anywhere n x = true

abbrev broker : Info
broker = record { is_inet = true; addr = codes "192.0.2.1" }

abbrev dns : Text → ℕ → Option (List Info)
dns host now = some (broker ∷ [])

abbrev host : Text
host = codes "broker"

resolve-resolves_example :
    IsRecent dns host 1100
      (resolve host 1100 (dns host 1100) (resolves dns ((host, 1000) ∷ []) none)).0
resolve-resolves_example = resolve-resolves dns ((host, 1000) ∷ []) host 1100

abbrev changes : List Change
changes =
    (codes "State", (codes "ready", 1000))
    ∷ (codes "State", (codes "idle", 1001))
    ∷ (codes "State", (codes "online", 1003))
    ∷ []

IsSettling-new_example : IsSettling (last_worth none changes) (burst changes new_watcher)
IsSettling-new_example = IsSettling-new changes

-- A timer has fired and has not yet taken the lock when the state changes: the timer of that change is
-- then forgotten, the next change does not cancel it, and two timers wait.
abbrev fired : Watcher
fired = record (on_property_changed (codes "State") (codes "ready") 1000 new_watcher) { armed = [] }

forgotten_timer :
    (on_property_changed
      (codes "State")
      (codes "ready")
      1007
      (forget_timer (on_property_changed (codes "State") (codes "online") 1005 fired))).armed
    ≡ record { serial = 2; at = 1012 } ∷ record { serial = 1; at = 1010 } ∷ []
unfolding on_property_changed ◌=?◌ forget_timer keep
forgotten_timer = refl

abbrev probe : Probe
probe = record {
  paho = true;
  thread = true;
  now = 1000;
  ip = some (codes "10.0.0.2");
  preferred = some (codes "192.168.1.2");
}

abbrev client : Client
client = new_client (codes "broker") true

reconnect_client-IsSound_example :
    (reconnect_client false probe started (some client) ≡ some ((force_reconnect started client).1))
    ⊎ ((reconnect_client false probe started (some client) ≡ some client) × IsSound probe client)
reconnect_client-IsSound_example = reconnect_client-IsSound probe started client

abbrev no_photos : Photos
no_photos = record {
  pending = [];
  stored = [];
  uploaded = [];
  retry_at = 0;
  job_queued = false;
  jobs = 0;
  offline = false;
}

abbrev tick : Tick
tick = record {
  now = 1040;
  stopping = false;
  channel = none;
  online = false;
  services = none;
  saves = true;
}

daemon_status-watchdog_example :
    let p =
      Beating.history no_float anywhere
        (wishes_location 1010 ∷ [])
        (begin_phase (generation sample) [] no_photos none 1000 sample) in
    daemon_status Daemon.cmd 1090 (watchdog no_float anywhere tick p).1.db ≡ running
unfolding Beating.history Beating.step begin_phase watchdog is_outdated generation parse_int strip
    Runtime.get lookup is_space Runtime.consume_request publish_wifi_state set upsert
    write_heartbeat housekeeping beat_if_due watch_uploads watch_channel process_location_requests
    process_publish_requests is_current ◌-ℤ◌ ◌=?◌ age_of applied_key beat_key is_stale or_else
    or_zero state_key version_key write_applied is_secret or_blank shown show_int show_nat is_digit
    lstrip push rstrip starts_with is_empty features_active get_bool Settings.get default_of
    defaults b64decode deobfuscate is_marked Runtime.request configured names_to_publish
    is_configured coordinates two_floats in_range split_on connected_wifi_names wifi_names
    publish_names same_value join_lines sorted set_connected_wifi check_uploads beat
daemon_status-watchdog_example =
    daemon_status-watchdog no_float anywhere (generation sample) [] no_photos none 1000 sample
      (wishes_location 1010 ∷ []) tick 1090 (omega arith) refl (omega arith) (omega arith)
