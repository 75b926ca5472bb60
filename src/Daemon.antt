-- ===== src/Daemon.antt =====
-- daemon-rpm/src/daemon_cmd.py: how a command that arrives by MQTT or by SMS is admitted to the queue
-- of the command worker, and the watchdog of the MQTT channel. The admission of an SMS is that of the
-- handler of daemon-rpm/src/sms_command_listener.py with the two functions that the daemon gives it.
pub mod Admission
pub mod Watchdog
pub mod Uploads
pub mod Executor
pub mod Locate
pub mod Handover
pub mod Phase
use text.Mathlib.Text.{◌==◌ as str_eq}
use harbour_find_my_device.Prelude.{
  ℕ, ◌+◌, ◌-◌, ◌*◌, ◌^◌, min, ltb, String, Bool, true, false, ◌&&◌, ◌||◌, Option, none, some, List,
  [], ◌∷◌, ◌++◌, ◌=?◌, if◌then◌else◌,
}
use harbour_find_my_device.Text.{Text, codes, upper}
use harbour_find_my_device.Exception.{Result, ok, raise, ◌>>=◌}
use harbour_find_my_device.Database.{Db}
use harbour_find_my_device.Devices.{get_own, pin_of}
use harbour_find_my_device.Settings.{get_bool}
use harbour_find_my_device.Settings.Defaults.{
  ring_enabled, lock_enabled, delete_enabled, camera_enabled, sms_remote_enabled, sms_gps_enabled,
}
use harbour_find_my_device.Tokens.Command.{verify_command_token}
use harbour_find_my_device.Tokens.SmsCode.{verify_sms_code}
use harbour_find_my_device.Mqtt.Health.{
  Defect, no_client, network_thread_dead, disconnected, subscription_unconfirmed, healthcheck_stale,
}
use harbour_find_my_device.Sms.{Parsed, sender_allowed, parse_command}

-- `_FEATURE_KEY.get(cmd)`
unfoldable pub feature_key : Text → Option String
feature_key cmd =
    if cmd =? codes "RING" || cmd =? codes "STOP_RING"
    then some ring_enabled
    else if cmd =? codes "LOCK"
    then some lock_enabled
    else if cmd =? codes "DELETE"
    then some delete_enabled
    else if cmd =? codes "CAMERA"
    then some camera_enabled
    else if cmd =? codes "GPS"
    then some sms_gps_enabled
    else none

unfoldable pub enabled : Option String → Db → Bool
enabled none db = false
enabled (some key) db = get_bool key db

unfoldable pub feature_enabled : Text → Db → Bool
unfolding enabled
feature_enabled cmd db = enabled (feature_key cmd) db

-- `_features_active`
unfoldable pub features_active : Db → Bool
features_active db =
    get_bool ring_enabled db
    || get_bool lock_enabled db
    || get_bool delete_enabled db
    || get_bool camera_enabled db
    || get_bool sms_remote_enabled db
    || get_bool sms_gps_enabled db

pub data Channel : Type 0 where
  mqtt sms : Channel

-- a job in the queue of `_CommandWorker`
pub data Job : Type 0 where
  command : (cmd : Text) (arg : Option Text) (channel : Channel) (sender : Option Text) → Job
  ack : (cmd result : Text) → Job
  uploads publishes : Job  -- "uploads" and "publish"

-- the database, the queue of the worker, and the number of notices shown to the owner
pub record World : Type 0 where
  pub db : Db
  pub queue : List Job
  pub notices : ℕ

unfoldable pub submit : Job → World → World
submit job w = record w { queue = w.queue ++ (job ∷ []) }

-- `notify.notify` that a command was rejected
unfoldable pub notify_rejected : World → World
notify_rejected w = record w { notices = w.notices + 1 }

unfoldable pub or_blank : Option Text → Text
or_blank none = []
or_blank (some s) = s

module _ (hexdigest : Text → Text → Text) where
  unfoldable pub settle : Text → Option Text → Bool → World → World
  unfolding submit notify_rejected
  settle cmd arg true w = submit (command cmd arg mqtt none) w
  settle cmd arg false w = notify_rejected (submit (ack cmd (codes "auth_failed")) w)

  -- `on_mqtt_command` of a payload whose fields are texts or None: the coercions are done
  unfoldable pub on_mqtt_command :
      Option Text → Option Text → Option Text → ℕ → World → Result World
  unfolding settle or_blank
  on_mqtt_command raw_cmd arg token now w = do
    let cmd = upper (or_blank raw_cmd)
    right ← verify_command_token hexdigest (pin_of (get_own w.db)) cmd arg token now
    ok (settle cmd arg right w)

module _ (hmac_sha1 : List ℕ → List ℕ → List ℕ) (b32decode : Text → Option (List ℕ))
    (sha256 : Text → Text) where
  unfoldable pub checked : World → Bool × Db → Bool × World
  unfolding notify_rejected
  checked w (true, db) = (true, record w { db = db })
  checked w (false, db) = (false, notify_rejected (record w { db = db }))

  -- `sms_authorize`; `k` is the id of the own device, `now` and `stamp` are the time
  unfoldable pub sms_authorize : Text → Parsed → ℕ → Text → World → Result (Bool × World)
  unfolding checked
  sms_authorize k p now stamp w =
      if get_bool sms_remote_enabled w.db && feature_enabled (upper p.cmd) w.db
      then (do
        result ← verify_sms_code hmac_sha1 b32decode sha256 p.code k now stamp w.db
        ok (checked w result))
      else ok (false, w)

  -- `sms_on_command`, once the command is authorized
  unfoldable pub dispatched : Text → Parsed → Bool × World → World
  unfolding submit
  dispatched sender p (true, w) = submit (command (upper p.cmd) p.arg sms (some sender)) w
  dispatched sender p (false, w) = w

  unfoldable pub handle_parsed : Text → Text → ℕ → Text → Option Parsed → World → Result World
  unfolding dispatched
  handle_parsed k sender now stamp none w = ok w
  handle_parsed k sender now stamp (some p) w = do
    result ← sms_authorize k p now stamp w
    ok (dispatched sender p result)

  -- `_handle` of a message; `match_digits` is 9, as the daemon does not give it
  unfoldable pub handle : Text → List Text → Text → Text → ℕ → Text → World → Result World
  unfolding handle_parsed
  handle k allowed sender text now stamp w =
      if sender_allowed sender allowed 9
      then handle_parsed k sender now stamp (parse_command text) w
      else ok w

-- WATCHDOG_SECONDS
abbrev pub watchdog_s : ℕ
watchdog_s = 5

-- `MQTT_REPAIR_GRACE_S`
unfoldable pub repair_grace_s : Defect → ℕ
repair_grace_s no_client = 60
repair_grace_s network_thread_dead = 10
repair_grace_s disconnected = 300
repair_grace_s subscription_unconfirmed = 45
repair_grace_s healthcheck_stale = 15

unfoldable pub same_defect : Defect → Option Defect → Bool
same_defect no_client (some no_client) = true
same_defect network_thread_dead (some network_thread_dead) = true
same_defect disconnected (some disconnected) = true
same_defect subscription_unconfirmed (some subscription_unconfirmed) = true
same_defect healthcheck_stale (some healthcheck_stale) = true
same_defect d o = false

-- the part of `state` that `check_mqtt` keeps; times are in whole seconds
pub record Watch : Type 0 where
  pub defect : Option Defect
  pub defect_since : ℕ
  pub repairs : ℕ

-- the initial `state`
abbrev pub first_watch : Watch
first_watch = record { defect = none; defect_since = 0; repairs = 0 }

-- `grace`
unfoldable pub grace : Defect → ℕ → ℕ
grace d repairs = repair_grace_s d * 2 ^ min repairs 4

-- with the defect that is seen now; the Bool says that a repair is started
unfoldable pub watch_defect : Option Defect → ℕ → Watch → Bool × Watch
unfolding same_defect grace
watch_defect none now s = (false, record s { defect = none; repairs = 0 })
watch_defect (some d) now s =
    if same_defect d s.defect
    then (if ltb (now - s.defect_since) (grace d s.repairs)
        then (false, s)
        else (true, record s { defect = none; repairs = s.repairs + 1 }))
    else (false, record s { defect = some d; defect_since = now })

-- `check_mqtt` where there is a client; `repairing` says that the last repair is still alive
unfoldable pub check_mqtt : Bool → Option Defect → ℕ → Watch → Bool × Watch
unfolding watch_defect
check_mqtt repairing seen now s = if repairing then (false, s) else watch_defect seen now s
