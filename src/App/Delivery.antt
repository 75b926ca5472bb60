-- ===== src/App/Delivery.antt =====
-- From the tap in the app to the queue of the other phone: the command that api.py signs is one that
-- on_mqtt_command of daemon_cmd.py admits, where both know the same PIN.
use harbour_find_my_device.Prelude.{
  ℕ, ◌+◌, ◌≤◌, ◌≡◌, refl, true, false, none, some, List, [], ◌∷◌, ◌++◌, arith, ap,
}
use harbour_find_my_device.Text.{Text, upper, upper_char, is_lower, is_empty}
use harbour_find_my_device.Exception.{ok}
use harbour_find_my_device.Database.{Device}
use harbour_find_my_device.Devices.{get_device, get_own, pin_of}
use harbour_find_my_device.Tokens.Command.{make_command_token, is_ascii, mac_at, hmac_message}
use harbour_find_my_device.Tokens.Command.Window.{verify-make_command_token}
use harbour_find_my_device.Daemon.{World, command, mqtt, submit, settle, on_mqtt_command}
use harbour_find_my_device.App.{
  App, Job, queued, send_command, send_to, send_with, enqueue, payload_for, arg_of, follow_finger,
  emit, on_buttons,
}

upper_char_idem : (c : ℕ) → upper_char (upper_char c) ≡ upper_char c
unfolding upper_char is_lower
upper_char_idem c = ground arith

upper_idem : (s : Text) → upper (upper s) ≡ upper s
unfolding upper
upper_idem [] = refl
upper_idem (c ∷ s) = rw (upper_char_idem c, upper_idem s)

token-arg_of :
    (h : Text → Text → Text) (pin cmd arg : Text) (made : ℕ)
    → make_command_token h pin cmd (arg_of arg) made ≡ make_command_token h pin cmd (some arg) made
unfolding make_command_token mac_at hmac_message arg_of is_empty
token-arg_of h pin cmd [] made = refl
token-arg_of h pin cmd (c ∷ arg) made = refl

-- what a tap on a device with a PIN adds to the queue of the app
abbrev job_for : (Text → Text → Text) → Device → Text → Text → Text → Text → ℕ → Job
job_for h dev pin k cmd arg made = record {
  device_id = k;
  cmd = upper cmd;
  payload = payload_for h pin (upper cmd) arg made;
  is_own = dev.is_own;
}

module _ (hexdigest : Text → Text → Text) (pin cmd arg : Text) (made : ℕ) where
  queue-follow_finger : (k c : Text) (a : App) → (follow_finger k c a).queue ≡ a.queue
  unfolding follow_finger emit on_buttons
  queue-follow_finger k c a = ground arith

  queue-send_command :
      (dev : Device) (k : Text) (a : App)
      → get_device k a.db ≡ some dev
      → dev.pin ≡ some pin
      → is_empty pin ≡ false
      → ((send_command hexdigest k cmd arg made a).0 ≡ queued)
        × ((send_command hexdigest k cmd arg made a).1.queue
            ≡ a.queue ++ (job_for hexdigest dev pin k cmd arg made ∷ []))
  unfolding send_command send_to send_with enqueue
  queue-send_command dev k a found p filled = rw found (
      rw p (
        rw filled (
          refl,
          ap (λ (q : List Job). q ++ (job_for hexdigest dev pin k cmd arg made ∷ []))
              (queue-follow_finger k (upper cmd) a),
        )))

  admitted :
      (now : ℕ) (w : World)
      → pin_of (get_own w.db) ≡ some pin
      → is_empty pin ≡ false
      → is_empty (make_command_token hexdigest pin (upper cmd) (some arg) made) ≡ false
      → is_ascii (make_command_token hexdigest pin (upper cmd) (some arg) made) ≡ true
      → made ≤ now + 30
      → now ≤ made + 30
      → on_mqtt_command hexdigest
          (some (upper cmd))
          (arg_of arg)
          (some (make_command_token hexdigest pin (upper cmd) (some arg) made))
          now
          w
        ≡ ok (submit (command (upper cmd) (arg_of arg) mqtt none) w)
  unfolding on_mqtt_command settle
  admitted now w own filled token ascii early late =
      let e = token-arg_of hexdigest pin (upper cmd) arg made in
      rw (upper_idem cmd, own)
        (rw (← e) (
          rw
            (verify-make_command_token hexdigest pin (upper cmd) (arg_of arg) made now filled
              (rw e token) (rw e ascii) early late)
            refl))

  -- A tap on a device whose PIN the app has stored puts a job into the queue of the app. When the
  -- payload of that job comes to a phone whose own PIN is the same, up to 30 seconds earlier or
  -- later by the clock of that phone, the phone queues the tapped command with its argument, and does
  -- nothing else. The conditions: neither the PIN nor the token is empty, and the token has only
  -- characters of ASCII.
  pub send-on_mqtt_command :
      (dev : Device) (k : Text) (a : App) (now : ℕ) (w : World)
      → get_device k a.db ≡ some dev
      → dev.pin ≡ some pin
      → pin_of (get_own w.db) ≡ some pin
      → is_empty pin ≡ false
      → is_empty (make_command_token hexdigest pin (upper cmd) (some arg) made) ≡ false
      → is_ascii (make_command_token hexdigest pin (upper cmd) (some arg) made) ≡ true
      → made ≤ now + 30
      → now ≤ made + 30
      → (j : Job) × ((send_command hexdigest k cmd arg made a).1.queue ≡ a.queue ++ (j ∷ []))
        × (j.device_id ≡ k)
        × (on_mqtt_command hexdigest (some j.payload.cmd) j.payload.arg (some j.payload.token) now w
            ≡ ok (submit (command (upper cmd) (arg_of arg) mqtt none) w))
  unfolding payload_for
  send-on_mqtt_command dev k a now w found p own filled token ascii early late = (
    job_for hexdigest dev pin k cmd arg made,
    (queue-send_command dev k a found p filled).1,
    refl,
    admitted now w own filled token ascii early late,
  )
