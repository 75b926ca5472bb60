-- ===== src/App.antt =====
-- qml/utilities/api.py: the app behind its QML pages. This module has the commands to other devices:
-- the signing of a command, the worker that publishes it, and the buttons. `own` is the
-- id of the own device, a time is in whole seconds.
pub mod Timers
pub mod Acks
pub mod Answers
pub mod Events
pub mod Parked
pub mod Delivery
pub mod Polling
pub mod Location
pub mod Pages
use harbour_find_my_device.Prelude.{
  ℕ, ◌+◌, Bool, true, false, not, ◌&&◌, ◌||◌, Option, none, some, List, [], ◌∷◌, ◌++◌, map, ltb,
  keep, ◌=?◌, if◌then◌else◌,
}
use harbour_find_my_device.Text.{Text, codes, is_empty, upper}
use harbour_find_my_device.Exception.{Result, ok, raise, ◌>>=◌}
use harbour_find_my_device.Database.{Device, Db}
use harbour_find_my_device.Devices.{get_device, set_auth_result, set_deleted}
use harbour_find_my_device.Tokens.Command.{make_command_token}
use harbour_find_my_device.App.Timers.{
  Buttons, mark_ringing, clear_ringing, on_ring_autoclear, arm_ack_timeout, clear_ack_timeout,
  on_ack_timeout,
}

-- the object that is published
pub record Payload : Type 0 where
  pub cmd : Text
  pub token : Text
  pub arg : Option Text

-- an entry of `_command_queue`
pub record Job : Type 0 where
  pub device_id : Text
  pub cmd : Text
  pub payload : Payload
  pub is_own : Bool

-- an entry of `_pending_commands`
pub record Pending : Type 0 where
  pub device_id : Text
  pub cmd : Text
  pub payload : Payload
  pub deadline : ℕ

-- what `_emit` sends to the pages; `restart_mqtt` is that `_restart_ui_mqtt` was called
pub data Signal : Type 0 where
  devices_updated map_updated restart_mqtt : Signal
  command_result : (device_id : Text) (cmd : Option Text) (result : Text) → Signal

-- The module's state. `published` is what was handed to paho, newest first, whether or not the broker got
-- it; a payload that is sent again stands in it again.
pub record App : Type 0 where
  pub db : Db
  pub buttons : Buttons
  pub queue : List Job
  pub pending_commands : List Pending
  pub published : List (Text × Payload)
  pub signals : List Signal

-- `_PENDING_CMD_TTL_S`
abbrev pub pending_cmd_ttl_s : ℕ
pending_cmd_ttl_s = 60

unfoldable pub emit : Signal → App → App
emit s a = record a { signals = a.signals ++ (s ∷ []) }

unfoldable pub on_buttons : (Buttons → Buttons) → App → App
on_buttons f a = record a { buttons = f a.buttons }

-- `if arg: payload["arg"] = arg`
unfoldable pub arg_of : Text → Option Text
arg_of arg = if is_empty arg then none else some arg

-- what a tap on RING or STOP_RING does at once
unfoldable pub follow_finger : Text → Text → App → App
unfolding emit on_buttons
follow_finger device_id cmd a =
    if cmd =? codes "RING"
    then emit devices_updated (on_buttons (mark_ringing device_id) a)
    else if cmd =? codes "STOP_RING"
    then emit devices_updated (on_buttons (clear_ringing device_id) a)
    else a

-- the answer to a tap
pub data Tapped : Type 0 where
  queued unknown_device no_pin : Tapped

module _ (hexdigest : Text → Text → Text) where
  unfoldable pub payload_for : Text → Text → Text → ℕ → Payload
  unfolding arg_of
  payload_for pin cmd arg now = record {
    cmd = cmd;
    token = make_command_token hexdigest pin cmd (some arg) now;
    arg = arg_of arg;
  }

  unfoldable pub enqueue : Device → Text → Text → Text → Text → ℕ → App → App
  unfolding payload_for
  enqueue dev pin device_id cmd arg now a = record a {
    queue =
        a.queue
        ++ (record {
          device_id = device_id;
          cmd = cmd;
          payload = payload_for pin cmd arg now;
          is_own = dev.is_own;
        }
            ∷ []);
  }

  unfoldable pub send_with : Device → Option Text → Text → Text → Text → ℕ → App → Tapped × App
  unfolding enqueue follow_finger
  send_with dev none device_id cmd arg now a = (no_pin, a)
  send_with dev (some pin) device_id cmd arg now a =
      if is_empty pin
      then (no_pin, a)
      else (queued, enqueue dev pin device_id cmd arg now (follow_finger device_id cmd a))

  unfoldable pub send_to : Option Device → Text → Text → Text → ℕ → App → Tapped × App
  unfolding send_with
  send_to none device_id cmd arg now a = (unknown_device, a)
  send_to (some dev) device_id cmd arg now a = send_with dev dev.pin device_id cmd arg now a

  -- `send_command`
  unfoldable pub send_command : Text → Text → Text → ℕ → App → Tapped × App
  unfolding send_to
  send_command device_id cmd arg now a =
      send_to (get_device device_id a.db) device_id (upper cmd) arg now a

unfoldable pub publish : Text → Payload → App → App
publish device_id payload a = record a { published = (device_id, payload) ∷ a.published }

-- `_RETRY_COMMANDS`
unfoldable pub is_retried : Text → Bool
is_retried cmd = cmd =? codes "STOP_RING"

-- `_pending_commands[device_id] = …`: a dictionary keeps the place of a key that it has
unfoldable pub park : Pending → List Pending → List Pending
park p [] = p ∷ []
park p (q ∷ rest) = if q.device_id =? p.device_id then p ∷ rest else q ∷ park p rest

unfoldable pub queue_pending_command : Text → Text → Payload → ℕ → App → Bool × App
unfolding is_retried park
queue_pending_command device_id cmd payload now a = if not (is_retried cmd) then (false, a) else (
  true,
  record a {
    pending_commands =
        park
          (record {
            device_id = device_id;
            cmd = cmd;
            payload = payload;
            deadline = now + pending_cmd_ttl_s;
          })
          a.pending_commands;
  },
)

unfoldable pub delivered : Job → App → App
unfolding emit on_buttons
delivered j a =
    emit (command_result j.device_id (some j.cmd) (codes "sent"))
      (if j.is_own then a else on_buttons (arm_ack_timeout j.device_id) a)

unfoldable pub undo_ring : Job → App → App
unfolding emit on_buttons
undo_ring j a =
    if j.cmd =? codes "RING"
    then emit devices_updated (on_buttons (clear_ringing j.device_id) a)
    else a

unfoldable pub undelivered : Job → ℕ → App → App
unfolding undo_ring queue_pending_command emit
undelivered j now a =
    let r = queue_pending_command j.device_id j.cmd j.payload now (undo_ring j a) in
    emit
      (command_result j.device_id (some j.cmd)
        (if r.0 then codes "pending" else codes "mqtt_offline"))
      r.1

-- How often a verified publish hands its payload to paho: `_publish` sends it again once, at most.
pub data Sends : Type 0 where
  never once twice : Sends

-- What becomes of a verified publish. `taken` says that there is a client and that the publish
-- succeeded; one that fails may have handed over the payload too.
pub record Verified : Type 0 where
  pub sends : Sends
  pub taken : Bool

unfoldable pub publish_times : Sends → Text → Payload → App → App
unfolding publish
publish_times never device_id payload a = a
publish_times once device_id payload a = publish device_id payload a
publish_times twice device_id payload a = publish device_id payload (publish device_id payload a)

unfoldable pub after_publish : Bool → Job → ℕ → App → App
unfolding delivered undelivered
after_publish true j now a = delivered j a
after_publish false j now a = undelivered j now a

-- `_dispatch_command`. The repair after a handover replaces the client and leaves the rest of the state
-- alone.
unfoldable pub dispatch_command : Verified → Job → ℕ → App → App
unfolding publish_times after_publish
dispatch_command verified j now a =
    after_publish verified.taken j now (publish_times verified.sends j.device_id j.payload a)

-- a turn of `_command_worker_run`
unfoldable pub work_on : List Job → Verified → ℕ → App → App
unfolding dispatch_command
work_on [] verified now a = a
work_on (j ∷ rest) verified now a = dispatch_command verified j now (record a { queue = rest })

unfoldable pub work : Verified → ℕ → App → App
unfolding work_on
work verified now a = work_on a.queue verified now a

-- `deadline > now`
unfoldable pub is_due : ℕ → Pending → Bool
is_due now p = ltb now p.deadline

-- one command of the flush; `takes` is whether `publish_command` without a wait hands it to paho, which
-- it does once, and what it answers
unfoldable pub resend : (Payload → Bool × Bool) → Pending → App → App
unfolding publish emit
resend takes p a =
    let r = takes p.payload in
    emit
      (command_result p.device_id (some p.cmd) (if r.1 then codes "sent" else codes "mqtt_offline"))
      (if r.0 then publish p.device_id p.payload a else a)

unfoldable pub resend_all : (Payload → Bool × Bool) → List Pending → App → App
unfolding resend
resend_all takes [] a = a
resend_all takes (p ∷ rest) a = resend_all takes rest (resend takes p a)

-- `_flush_pending_commands`; `none` is that there is no client
unfoldable pub flush_pending_commands : Option (Payload → Bool × Bool) → ℕ → App → App
unfolding is_due resend_all
flush_pending_commands none now a = record a { pending_commands = [] }
flush_pending_commands (some takes) now a =
    resend_all takes (keep (is_due now) a.pending_commands) (record a { pending_commands = [] })
