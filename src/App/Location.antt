-- ===== src/App/Location.antt =====
-- qml/utilities/api.py: the own position, taken by the app (_do_refresh_location), published by it
-- (_publish_own_location, _flush_pending_location), and the request of a fix from the page (_qml_fix,
-- qml_fix_result).
pub mod Kept
pub mod Newest
use harbour_find_my_device.Prelude.{
  ℕ, ◌+◌, Bool, true, false, not, ◌&&◌, ◌||◌, Option, none, some, List, [], ◌∷◌, ◌++◌, ◌==◌, ◌=?◌,
  if◌then◌else◌,
}
use harbour_find_my_device.Text.{Text, codes, is_empty, contains, lower}
use harbour_find_my_device.Database.{Real, Db}
use harbour_find_my_device.Gps.{Fix, store_fix}
use harbour_find_my_device.Settings
use harbour_find_my_device.Settings.Defaults.{
  mqtt_enabled, mqtt_server, auto_enable_mobile_data, auto_enable_location,
}
use harbour_find_my_device.Runtime.{
  Daemon, daemon_status, request, location_request_key, publish_request_key,
}
use harbour_find_my_device.FixedLocation.{is_stopped}

-- what the page is told
pub data Note : Type 0 where
  map_updated devices_updated : Note
  location_fix : (success : Bool) (code : Text) → Note

-- `_pending_location` with the device id left out, which is always the own one; `sent` is what was
-- published with success, newest first
pub record Place : Type 0 where
  pub db : Db
  pub pending : Option Fix
  pub sent : List Fix
  pub notes : List Note

unfoldable pub emit : Note → Place → Place
emit n p = record p { notes = p.notes ++ (n ∷ []) }

unfoldable pub is_set : Option Text → Bool
is_set none = false
is_set (some s) = not (is_empty s)

-- the position goes to the command daemon, where that runs and may switch mobile data on
unfoldable pub hand_over : ℕ → Place → Place
unfolding is_stopped
hand_over now p =
    if Settings.get_bool auto_enable_mobile_data p.db
      && not (is_stopped (daemon_status Daemon.cmd now p.db))
    then record p { db = request publish_request_key now p.db }
    else p

unfoldable pub flush_with : Option Fix → Bool → Place → Place
flush_with none taken p = p
flush_with (some fix) taken p =
    if taken then record p { pending = none; sent = fix ∷ p.sent } else p

-- `_flush_pending_location`; `client` says that there is a client, `taken` what its publish answers
unfoldable pub flush_pending_location : Bool → Bool → Place → Place
unfolding flush_with
flush_pending_location client taken p = if client then flush_with p.pending taken p else p

-- What `_flush_pending_location` does on the network thread while a position is published, which may
-- reconnect: nothing, or it runs before or after the broker has the position, with this answer.
pub data Meanwhile : Type 0 where
  quiet : Meanwhile
  flushes_before flushes_after : (taken : Bool) → Meanwhile

-- the publish of a position: `taken` says that there is a client and that its publish succeeded
pub record Publish : Type 0 where
  pub taken : Bool
  pub meanwhile : Meanwhile

unfoldable pub sent_with : Fix → Place → Place
sent_with fix p = record p { sent = fix ∷ p.sent }

unfoldable pub send_amid : Meanwhile → Fix → Place → Place
unfolding sent_with flush_pending_location
send_amid quiet fix p = sent_with fix p
send_amid (flushes_before taken) fix p = sent_with fix (flush_pending_location true taken p)
send_amid (flushes_after taken) fix p = flush_pending_location true taken (sent_with fix p)

unfoldable pub flush_amid : Meanwhile → Place → Place
unfolding flush_pending_location
flush_amid quiet p = p
flush_amid (flushes_before taken) p = flush_pending_location true taken p
flush_amid (flushes_after taken) p = flush_pending_location true taken p

unfoldable pub publish_now : Bool → Meanwhile → Fix → ℕ → Place → Place
unfolding hand_over send_amid flush_amid
publish_now true meanwhile fix now p = record (send_amid meanwhile fix p) { pending = none }
publish_now false meanwhile fix now p =
    hand_over now (record (flush_amid meanwhile p) { pending = some fix })

-- `_publish_own_location`
unfoldable pub publish_own_location : Publish → Fix → ℕ → Place → Place
unfolding publish_now is_set
publish_own_location publish fix now p =
    if Settings.get_bool mqtt_enabled p.db && is_set (Settings.get mqtt_server p.db)
    then publish_now publish.taken publish.meanwhile fix now p
    else p

-- `_location_state`: the text of a configuration file that can be read gives whether its switches
-- `enabled` and `gps\enabled` let the position through
pub data LocationState : Type 0 where
  on off no_gps : LocationState

pub record Conf : Type 0 where
  pub enabled : Bool  -- a line `enabled=true`
  pub gps_off : Bool  -- a line `gps\enabled=false`

unfoldable pub some_enabled : List Conf → Bool
some_enabled [] = false
some_enabled (c ∷ confs) = c.enabled || some_enabled confs

unfoldable pub some_gps : List Conf → Bool
some_gps [] = false
some_gps (c ∷ confs) = c.enabled && not c.gps_off || some_gps confs

unfoldable pub location_state : List Conf → LocationState
unfolding some_enabled some_gps
location_state [] = on
location_state (c ∷ confs) =
    if not (some_enabled (c ∷ confs)) then off else if some_gps (c ∷ confs) then on else no_gps

-- `_fix_error_code`
unfoldable pub fix_error_code : Text → Text
fix_error_code err =
    let e = lower err in
    if contains e (codes "geoclue")
      || contains e (codes "serviceunknown")
      || contains e (codes "hybris")
      || contains e (codes "provider")
    then codes "gps_unavailable"
    else codes "no_fix"

-- the fix that the page was asked for, or the text of its error
pub data Answer : Type 0 where
  found : Fix → Answer
  not_found : Text → Answer

unfoldable pub notify_if : Bool → Note → Place → Place
unfolding emit
notify_if wanted n p = if wanted then emit n p else p

-- after the fix; the Bool of the result is `ok`
unfoldable pub conclude : Text → Bool → Bool → Publish → Answer → ℕ → Place → Bool × Place
unfolding emit notify_if publish_own_location fix_error_code
conclude own notify notify_fail taken (not_found err) now p =
    (false, emit map_updated (notify_if notify_fail (location_fix false (fix_error_code err)) p))
conclude own notify notify_fail taken (found fix) now p =
    let stored = record p { db = (store_fix own fix true p.db).1 } in
    let published = publish_own_location taken fix now stored in
    (
      true,
      emit devices_updated
          (emit map_updated (notify_if notify (location_fix true (codes "fix stored")) published)),
    )

-- what a refresh does about the location switch; `none` is that it gives up
unfoldable pub prepare : LocationState → ℕ → Place → Option Place
prepare on now p = some p
prepare off now p =
    if Settings.get_bool auto_enable_location p.db
    then some (record p { db = request location_request_key now p.db })
    else none
prepare no_gps now p =
    if Settings.get_bool auto_enable_location p.db
    then some (record p { db = request location_request_key now p.db })
    else some p

unfoldable pub refresh_prepared :
    Text → Bool → Bool → Publish → Answer → ℕ → Place → Option Place → Bool × Place
unfolding conclude emit notify_if
refresh_prepared own notify notify_fail taken answer now p none =
    (false, emit map_updated (notify_if notify_fail (location_fix false (codes "gps_disabled")) p))
refresh_prepared own notify notify_fail taken answer now p (some q) =
    conclude own notify notify_fail taken answer now q

-- `_do_refresh_location`. `fixed` is the fix with the fixed coordinates, if they apply; `answer` is
-- what the page reports when it is asked.
unfoldable pub do_refresh_location :
    Text → Bool → Bool → Option Fix → LocationState → Answer → Publish → ℕ → Place → Bool × Place
unfolding conclude prepare refresh_prepared
do_refresh_location own notify notify_fail (some fixed) state answer taken now p =
    conclude own notify notify_fail taken (found fixed) now p
do_refresh_location own notify notify_fail none state answer taken now p =
    refresh_prepared own notify notify_fail taken answer now p (prepare state now p)

-- `_qml_fix_state`: the number of the last request, and the answer that came, with its number
pub record Asked : Type 0 where
  pub seq : ℕ
  pub result : Option (ℕ × Answer)

-- the beginning of `_qml_fix`, which gives the number of the request
unfoldable pub ask : Asked → ℕ × Asked
ask a = (a.seq + 1, record { seq = a.seq + 1; result = none })

-- `qml_fix_result`
unfoldable pub qml_fix_result : ℕ → Answer → Asked → Asked
qml_fix_result seq answer a = record a { result = some (seq, answer) }

unfoldable pub answer_for : ℕ → Option (ℕ × Answer) → Answer
answer_for seq none = not_found (codes "superseded fix request")
answer_for seq (some (n, answer)) =
    if n == seq then answer else not_found (codes "superseded fix request")

-- the end of `_qml_fix`; `woken` says that the event was set before the timeout
unfoldable pub receive : Bool → ℕ → Asked → Answer
unfolding answer_for
receive woken seq a =
    if woken then answer_for seq a.result else not_found (codes "timeout waiting for QML fix")
