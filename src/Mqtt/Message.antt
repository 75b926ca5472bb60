-- ===== src/Mqtt/Message.antt =====
-- `_handle_message`: which handler a message goes to.
use harbour_find_my_device.Prelude.{ℕ, Bool, false, not, Option, none, some, ◌=?◌, if◌then◌else◌}
use harbour_find_my_device.Text.{Text, codes, ends_with}
use harbour_find_my_device.Mqtt.{Client, is_current}
use harbour_find_my_device.Mqtt.Topic.{device_from_topic}

-- the payload as `json.loads` reads it, and whether that is an object
pub data Body {ℓ} (P : Type ℓ) : Type ℓ where
  not_json not_object : Body P
  object : P → Body P

-- the handler that is called, with the device and the payload
pub data Call {ℓ} (P : Type ℓ) : Type ℓ where
  no_call : Call P
  on_ack on_command on_location : Option Text → P → Call P

-- the handlers that the wrapper was given
pub record Handlers : Type 0 where
  pub has_ack : Bool
  pub has_command : Bool
  pub has_location : Bool

unfoldable pub is_topic : Text → Option Text → Bool
is_topic topic none = false
is_topic topic (some own) = topic =? own

module _ {ℓ} {P : Type ℓ} where
  unfoldable pub route : Handlers → Text → P → Call P
  route handlers topic payload =
      if ends_with topic (codes "/cmd/ack")
      then (if handlers.has_ack then on_ack (device_from_topic topic) payload else no_call)
      else if ends_with topic (codes "/cmd")
      then (if handlers.has_command then on_command (device_from_topic topic) payload else no_call)
      else if handlers.has_location
      then on_location (device_from_topic topic) payload
      else no_call

  unfoldable pub call_of : Handlers → Text → Body P → Call P
  unfolding route
  call_of handlers topic not_json = no_call
  call_of handlers topic not_object = no_call
  call_of handlers topic (object payload) = route handlers topic payload

  unfoldable pub handle_message : Handlers → ℕ → Text → Body P → ℕ → Client → Call P × Client
  unfolding call_of is_topic
  handle_message handlers from topic body now c =
      if not (is_current c.client from)
      then (no_call, c)
      else if ends_with topic (codes "/hc")
      then (
        no_call,
        (if is_topic topic c.hc_topic
            then record c { hc_last_echo = now; hc_unanswered_since = 0 }
            else c),
      )
      else (call_of handlers topic body, c)
