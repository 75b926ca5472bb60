-- ===== src/App/Acks.antt =====
-- qml/utilities/api.py (_on_remote_ack): what the answer of another device changes. `own` is the id of
-- the own device.
use harbour_find_my_device.Prelude.{
  Bool, true, false, not, ◌&&◌, ◌||◌, Option, none, some, [], ◌=?◌, if◌then◌else◌,
}
use harbour_find_my_device.Text.{Text, codes, is_empty, upper}
use harbour_find_my_device.Exception.{Result, ok, ◌>>=◌}
use harbour_find_my_device.Database.{Db}
use harbour_find_my_device.Devices.{set_auth_result, set_deleted}
use harbour_find_my_device.App.Timers.{Buttons, clear_ringing, clear_ack_timeout}
use harbour_find_my_device.App.{App, emit, devices_updated, command_result}

-- the fields of an ack, "?" standing for a missing command
pub record Ack : Type 0 where
  pub cmd : Option Text
  pub result : Option Text

unfoldable pub or_blank : Option Text → Text
or_blank none = []
or_blank (some s) = s

-- `result in ("ok", "auth_failed", "disabled")`
unfoldable pub is_verdict : Option Text → Bool
is_verdict none = false
is_verdict (some r) = r =? codes "ok" || r =? codes "auth_failed" || r =? codes "disabled"

unfoldable pub is_ok : Option Text → Bool
is_ok none = false
is_ok (some r) = r =? codes "ok"

unfoldable pub note_verdict : Text → Option Text → Text → Db → Result Db
unfolding is_verdict
note_verdict device_id result now db =
    if is_verdict result then (do r ← set_auth_result device_id result now db; ok (r.1)) else ok db

unfoldable pub note_wipe : Text → Ack → Text → Db → Result Db
unfolding or_blank is_ok
note_wipe device_id ack now db =
    if upper (or_blank ack.cmd) =? codes "DELETE" && is_ok ack.result
    then (do r ← set_deleted device_id true now db; ok (r.1))
    else ok db

unfoldable pub note_ring : Text → Ack → Buttons → Buttons
unfolding or_blank is_ok
note_ring device_id ack b =
    if upper (or_blank ack.cmd) =? codes "RING" && not (is_ok ack.result)
    then clear_ringing device_id b
    else b

unfoldable pub answered : Text → Ack → Text → App → Result App
unfolding note_verdict note_wipe note_ring or_blank emit
answered device_id ack now a = do
  db ← note_verdict device_id ack.result now a.db
  db' ← note_wipe device_id ack now db
  ok (
      emit devices_updated (
        emit (command_result device_id ack.cmd (or_blank ack.result)) (record a {
          db = db';
          buttons = note_ring device_id ack (clear_ack_timeout device_id a.buttons);
        })))

-- `_on_remote_ack`
unfoldable pub on_remote_ack : Text → Text → Ack → Text → App → Result App
unfolding answered emit
on_remote_ack own device_id ack now a =
    if is_empty device_id
    then ok a
    else if device_id =? own
    then ok (emit devices_updated a)
    else answered device_id ack now a
