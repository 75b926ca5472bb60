-- ===== src/Examples/Signals.antt =====
-- The settings, the signals between the app and the daemons, and the admission of commands.
use harbour_find_my_device.Tokens.Totp.{any_code, hotp, pad_b32, truncate_mac, verify_totp, zfill}
use harbour_find_my_device.Tokens.SmsCode.{totp_accepts, verify_sms_code}
use harbour_find_my_device.Text.Decimal.{show_nat}
use harbour_find_my_device.Devices.{get_device, row_to_dict}
use harbour_find_my_device.Database.Rows.{find}
use harbour_find_my_device.Codec.Base64.{b64decode}
use harbour_find_my_device.Settings.Defaults.{is_secret, default_of}
use harbour_find_my_device.Table.{lookup}
use harbour_find_my_device.Prelude.{
  ℕ, suc, ◌+◌, ◌≤◌, ◌<◌, ◌≡◌, refl, ◌⊎◌, Option, none, some, List, [], ◌∷◌, ◌++◌, ◌=?◌,
  if◌then◌else◌, pos, ◌+ℤ◌, keep, any, ◌-ℤ◌,
}
use harbour_find_my_device.Text.{
  Text, codes, upper, starts_with, is_digit, split, strip, is_space, is_empty, is_lower, is_upper,
  lower, lower_char, lstrip, rstrip, upper_char,
}
use harbour_find_my_device.Exception.{ok}
use harbour_find_my_device.Obfuscation.{is_marked, deobfuscate}
use harbour_find_my_device.Settings.{get as settings_get, get_bool, shown, is_truthy}
use harbour_find_my_device.Runtime.{cmd, read_heartbeat, gps, write_heartbeat, daemon_status}
use harbour_find_my_device.Sms.{
  normalize_number, sender_allowed, parse_command, Parsed, is_keyword, is_camera_arg, last,
  same_number,
}
use harbour_find_my_device.Runtime.Snapshot.{daemon_snapshot, daemon_snapshot-daemon_status}
use harbour_find_my_device.Mqtt.Health.{disconnected}
use harbour_find_my_device.Daemon.{
  watchdog_s, same_defect, World, command, sms, handle, first_watch, grace, sms_authorize, checked,
  dispatched, enabled, feature_enabled, feature_key, handle_parsed, notify_rejected, submit,
}
use harbour_find_my_device.Daemon.Admission.{handle_sound, handle_once, IsConfirmed}
use harbour_find_my_device.Daemon.Watchdog.{first_repair, repaired_in_time}
use harbour_find_my_device.Tokens.Backup.{
  consume_backup_code, hash_code, in_alphabet, is_usable, mark_used, normalize_code,
}
use harbour_find_my_device.Database.{Db}
use harbour_find_my_device.Examples.{own_key, moment, later_moment, sample, plain_hash, twenty}

abbrev beating : Db
beating = write_heartbeat gps (codes "active") (codes "1.0") (some (pos 0)) 1000 sample

daemon_snapshot-daemon_status_example :
    daemon_snapshot 1060 beating
    ≡ (gps, read_heartbeat gps 1060 beating, daemon_status gps 1060 beating)
      ∷ (cmd, read_heartbeat cmd 1060 beating, daemon_status cmd 1060 beating)
      ∷ []
daemon_snapshot-daemon_status_example = daemon_snapshot-daemon_status 1060 beating

abbrev phone : Text
phone = codes "+491523123456"

abbrev body : Text
body = codes "ring 2345-6789"

abbrev parsed_body : Parsed
parsed_body = record { cmd = codes "RING"; arg = none; code = codes "2345-6789" }

abbrev world : World
world = record { db = sample; queue = []; notices = 0 }

abbrev ringing : World
ringing = record {
  db = (consume_backup_code plain_hash (codes "2345-6789") own_key moment sample).1;
  queue = command (codes "RING") none sms (some phone) ∷ [];
  notices = 0;
}

abbrev no_key : Text → Option (List ℕ)
no_key s = none

handle_sound_example :
    (ringing.queue ≡ world.queue)
    ⊎ ((p : Parsed) × IsConfirmed twenty no_key plain_hash own_key
          (phone ∷ [])
          phone
          body
          1000
          moment
          world
          p
        × (ringing.queue ≡ world.queue ++ (command (upper p.cmd) p.arg sms (some phone) ∷ [])))
unfolding handle sender_allowed any keep is_digit ◌=?◌ parse_command split strip is_space is_keyword
    upper sms_authorize get_bool settings_get lookup shown is_secret b64decode checked dispatched
    enabled feature_enabled feature_key handle_parsed notify_rejected submit find get_device
    row_to_dict deobfuscate is_marked ◌+ℤ◌ ◌-ℤ◌ default_of is_truthy is_camera_arg last
    normalize_number same_number show_nat is_empty is_lower is_upper lower lower_char lstrip rstrip
    starts_with upper_char consume_backup_code hash_code in_alphabet is_usable mark_used
    normalize_code totp_accepts verify_sms_code any_code hotp pad_b32 truncate_mac verify_totp zfill
handle_sound_example =
    handle_sound twenty no_key plain_hash own_key (phone ∷ []) phone body 1000 moment world ringing
      refl

handle_once_example :
    (first second : World) × (handle twenty no_key plain_hash own_key
        (phone ∷ [])
        phone
        body
        1000
        moment
        world
      ≡ ok first)
    × (first.queue ≡ (
        if (consume_backup_code plain_hash parsed_body.code own_key moment world.db).0
        then world.queue ++ (command (upper parsed_body.cmd) parsed_body.arg sms (some phone) ∷ [])
        else world.queue))
    × (handle twenty no_key plain_hash own_key (phone ∷ []) phone body 1300 later_moment first
        ≡ ok second)
    × (second.queue ≡ first.queue)
unfolding parse_command sender_allowed any keep is_digit ◌=?◌ split strip is_space is_keyword upper
    get_bool settings_get lookup shown is_secret feature_enabled feature_key b64decode enabled
    deobfuscate is_marked default_of is_truthy is_camera_arg last normalize_number same_number
    is_empty is_lower is_upper lower lower_char lstrip rstrip starts_with upper_char totp_accepts
    get_device find row_to_dict verify_totp
handle_once_example =
    handle_once twenty no_key plain_hash own_key (phone ∷ []) phone body parsed_body 1000 1300
      moment later_moment world refl refl refl refl refl

repaired_in_time_example :
    (t : ℕ) × (first_repair disconnected
        (suc (suc (grace disconnected first_watch.repairs)))
        1000
        first_watch
      ≡ some t)
    × (1000 + grace disconnected first_watch.repairs ≤ t)
    × (t < 1000 + grace disconnected first_watch.repairs + watchdog_s)
unfolding same_defect
repaired_in_time_example = repaired_in_time disconnected 1000 first_watch refl
