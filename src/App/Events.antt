-- ===== src/App/Events.antt =====
-- qml/utilities/api.py: what can happen to the app, in any order: the taps of the owner, the turns of the
-- command worker, the connects of the broker, the answers and the timers.
use harbour_find_my_device.Prelude.{ℕ, Bool, Option, List, [], ◌∷◌}
use harbour_find_my_device.Text.{Text}
use harbour_find_my_device.Exception.{Result, ok, raise}
use harbour_find_my_device.App.Timers.{on_ring_autoclear, on_ack_timeout}
use harbour_find_my_device.App.{
  App, Payload, Verified, on_buttons, send_command, work, flush_pending_commands,
}
use harbour_find_my_device.App.Acks.{Ack, on_remote_ack}

pub data Event : Type 0 where
  tap : (device_id cmd arg : Text) (now : ℕ) → Event
  turn : (verified : Verified) (now : ℕ) → Event
  connected : (takes : Option (Payload → Bool × Bool)) (now : ℕ) → Event
  ack : (device_id : Text) (ack : Ack) (now : Text) → Event
  ring_timer ack_timer : (device_id : Text) (token : ℕ) → Event

-- an exception of a callback ends the callback
unfoldable pub or_same : App → Result App → App
or_same a (ok b) = b
or_same a (raise e) = a

unfoldable pub step : (Text → Text → Text) → Text → Event → App → App
unfolding or_same
step hexdigest own (tap device_id cmd arg now) a =
    (send_command hexdigest device_id cmd arg now a).1
step hexdigest own (turn verified now) a = work verified now a
step hexdigest own (connected takes now) a = flush_pending_commands takes now a
step hexdigest own (ack device_id answer now) a =
    or_same a (on_remote_ack own device_id answer now a)
step hexdigest own (ring_timer device_id token) a = on_buttons (on_ring_autoclear device_id token) a
step hexdigest own (ack_timer device_id token) a = on_buttons (on_ack_timeout device_id token) a

unfoldable pub run : (Text → Text → Text) → Text → List Event → App → App
run hexdigest own [] a = a
run hexdigest own (e ∷ es) a = run hexdigest own es (step hexdigest own e a)
