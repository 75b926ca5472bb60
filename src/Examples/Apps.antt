-- ===== src/Examples/Apps.antt =====
-- The app: the commands to other devices, its polling, its position, and its pages.
use harbour_find_my_device.Settings.Defaults.{is_secret}
use harbour_find_my_device.Table.{lookup}
use harbour_find_my_device.Settings.{get_bool, get, shown}
use harbour_find_my_device.Tokens.Command.{make_command_token, mac_at, is_ascii}
use harbour_find_my_device.Obfuscation.{is_marked}
use harbour_find_my_device.Database.Rows.{find}
use harbour_find_my_device.Prelude.{
  Bool, ◌+◌, ◌≤◌, ◌≡◌, refl, true, false, not, ◌&&◌, ◌||◌, none, some, List, [], ◌∷◌, ◌++◌, any,
  arith, pos, ◌=?◌,
}
use harbour_find_my_device.Text.{Text, codes, is_empty, starts_with, upper, strip, is_space}
use harbour_find_my_device.Exception.{ok}
use harbour_find_my_device.Database.{Device, Db}
use harbour_find_my_device.Devices.{get_device, row_to_dict, pin_of, get_own}
use harbour_find_my_device.Daemon.{World, on_mqtt_command, submit, command, mqtt}
use harbour_find_my_device.App.{App, Job, Payload, twice, is_retried, send_command, arg_of}
use harbour_find_my_device.App.Acks.{Ack, on_remote_ack}
use harbour_find_my_device.App.Timers.{no_buttons, presses, press, sent, ack_late}
use harbour_find_my_device.App.Answers.{timed_out-presses, is_expiry}
use harbour_find_my_device.App.Events.{tap, turn, connected, run}
use harbour_find_my_device.App.Parked.{on_the_way, way-run}
use harbour_find_my_device.App.Delivery.{send-on_mqtt_command}
use harbour_find_my_device.App.Polling
use harbour_find_my_device.App.Polling.{not_polling, applied, fires, begins, ends, fix_found}
use harbour_find_my_device.App.Polling.Links.{IsOneChain}
use harbour_find_my_device.App.Polling.Chain.{run-IsOneChain}
use harbour_find_my_device.App.Location.{
  Place, Publish, on, found, is_set, quiet, flushes_after, publish_own_location, publish_now,
  send_amid, sent_with, flush_pending_location, flush_with,
}
use harbour_find_my_device.App.Location.Kept
use harbour_find_my_device.App.Location.Newest.{run-IsKept}
use harbour_find_my_device.App.Pages.{is_filled, is_failed, actions_enabled}
use harbour_find_my_device.App.Pages.Rows.{is_wipe, result_after}
use harbour_find_my_device.App.Pages.Greyed.{actions_enabled-on_remote_ack}
use harbour_find_my_device.Gps.{Fix}
use harbour_find_my_device.Examples.{
  own_key, own_row, friend_key, friend_row, moment, sample, sample_fix,
}

-- the database of the app, which knows the PIN of the friend
abbrev paired_row : Device
paired_row = record friend_row { pin = some (codes "4711") }

abbrev paired : Db
paired = record sample { devices = own_row ∷ paired_row ∷ [] }

abbrev app : App
app = record {
  db = paired;
  buttons = no_buttons;
  queue = [];
  pending_commands = [];
  published = [];
  signals = [];
}

-- the phone of the friend, whose own PIN is the same
abbrev phone : World
phone = record { db = sample; queue = []; notices = 0 }

abbrev digest : Text → Text → Text
digest secret message = codes "0123456789abcdef"

send-on_mqtt_command_example :
    (j : Job) × ((send_command digest friend_key (codes "ring") [] 1000 app).1.queue
      ≡ app.queue ++ (j ∷ []))
    × (j.device_id ≡ friend_key)
    × (on_mqtt_command digest (some j.payload.cmd) j.payload.arg (some j.payload.token) 1010 phone
        ≡ ok (submit (command (codes "RING") (arg_of []) mqtt none) phone))
unfolding get_device find ◌=?◌ row_to_dict is_empty is_marked starts_with pin_of get_own
    make_command_token mac_at is_ascii any upper
send-on_mqtt_command_example =
    send-on_mqtt_command digest (codes "4711") (codes "ring") [] 1000 paired_row friend_key app 1010
      phone refl refl refl refl refl refl (omega arith) (omega arith)

timed_out-presses_example :
    (presses
        (ack_late own_key 1 ∷ ack_late friend_key 1 ∷ [])
        (press (sent friend_key) no_buttons)).timed_out
      friend_key
    ≡ any (is_expiry friend_key 1) (ack_late own_key 1 ∷ ack_late friend_key 1 ∷ [])
timed_out-presses_example =
    timed_out-presses friend_key (ack_late own_key 1 ∷ ack_late friend_key 1 ∷ []) no_buttons
      (refl, (refl, tt))

-- the flush hands every command to paho
abbrev takes_all : Payload → Bool × Bool
takes_all p = (true, true)

way-run_example :
    on_the_way
      (λ k c. c =? codes "STOP_RING")
      (run digest own_key
        (tap friend_key (codes "STOP_RING") [] 1000
          ∷ turn (record { sends = twice; taken = false }) 1001
          ∷ connected (some takes_all) 1002
          ∷ connected (some takes_all) 1003
          ∷ [])
        app)
    ≤ 3 + on_the_way (λ k c. c =? codes "STOP_RING") app
unfolding ◌=?◌ upper is_retried
way-run_example =
    way-run (λ k c. c =? codes "STOP_RING") digest own_key
      (tap friend_key (codes "STOP_RING") [] 1000
        ∷ turn (record { sends = twice; taken = false }) 1001
        ∷ connected (some takes_all) 1002
        ∷ connected (some takes_all) 1003
        ∷ [])
      app

idle-IsOneChain : IsOneChain not_polling
unfolding is_set Polling.is_set
idle-IsOneChain = record { current = refl; later = λ g l. refl }

-- a save of the settings while a tick is busy
run-IsOneChain_example : IsOneChain (
    Polling.run
      (applied false
        ∷ fires 0
        ∷ begins 1 false
        ∷ applied true
        ∷ applied false
        ∷ ends 1 (pos 5) fix_found
        ∷ [])
      not_polling)
run-IsOneChain_example =
    run-IsOneChain
      (applied false
        ∷ fires 0
        ∷ begins 1 false
        ∷ applied true
        ∷ applied false
        ∷ ends 1 (pos 5) fix_found
        ∷ [])
      not_polling idle-IsOneChain

abbrev online_db : Db
online_db = record sample {
  settings = ("mqtt_enabled", some (codes "1")) ∷ ("mqtt_server", some (codes "host")) ∷ [];
}

abbrev place : Place
place = record { db = online_db; pending = none; sent = []; notes = [] }

abbrev failing : Publish
failing = record { taken = false; meanwhile = quiet }

abbrev fixes : List Kept.Event
fixes =
    Kept.refreshed true true none on (found sample_fix) failing 1000 ∷ Kept.connected true true ∷ []

run-IsKept_example : Kept.IsKept (some sample_fix) (Kept.run own_key fixes place)
unfolding get_bool ◌=?◌ strip get lookup shown is_secret is_space is_set
run-IsKept_example = run-IsKept own_key fixes place refl

abbrev later_fix : Fix
later_fix = record sample_fix { battery = some 79 }

-- A publish reconnects, and the flush of the older position comes after the newer one: the retained
-- position of the broker is then the older one.
abbrev behind : Place
behind = record place { pending = some sample_fix }

overtaken :
    (publish_own_location
      (record { taken = true; meanwhile = flushes_after true })
      later_fix
      1000
      behind).sent
    ≡ sample_fix ∷ later_fix ∷ []
unfolding get_bool ◌=?◌ strip get lookup shown is_secret is_space is_set publish_own_location
    publish_now send_amid sent_with flush_pending_location flush_with
overtaken = refl

abbrev refusal : Ack
refusal = record { cmd = some (codes "RING"); result = some (codes "auth_failed") }

actions_enabled-on_remote_ack_example :
    (b : App) × (on_remote_ack own_key friend_key refusal moment app ≡ ok b)
    × ((e : Device) × (get_device friend_key b.db ≡ some e)
        × (actions_enabled b.buttons e ≡ (
            is_filled (some (codes "4711"))
            && (not (is_failed (result_after refusal none)) && not (is_wipe refusal || false)))))
unfolding is_empty ◌=?◌ get_device find row_to_dict is_marked starts_with
actions_enabled-on_remote_ack_example =
    actions_enabled-on_remote_ack own_key friend_key refusal moment app paired_row refl refl refl
      refl
