-- ===== src/Mqtt/Routing.antt =====
-- Where the messages of a device go.
use harbour_find_my_device.Prelude.{
  ℕ, ◌≤◌, ◌≡◌, refl, true, some, [], ◌∷◌, arith, length, if◌then◌else◌,
}
use harbour_find_my_device.Text.{Text}
use harbour_find_my_device.Devices.Ids.{is_alnum}
use harbour_find_my_device.Devices.Ids.Laws.{IsAlnum}
use harbour_find_my_device.Mqtt.{Client, is_current}
use harbour_find_my_device.Mqtt.Topic.{topic_location, topic_cmd, topic_ack}
use harbour_find_my_device.Mqtt.Topic.Laws.{
  Plain, device-topic_cmd, device-topic_ack, device-topic_location, suffixes-topic_cmd,
  suffixes-topic_ack, suffixes-topic_location,
}
use harbour_find_my_device.Mqtt.Message.{
  Handlers, object, no_call, on_ack, on_command, on_location, route, call_of, handle_message,
}

alnum-Plain : (s : Text) → IsAlnum s → Plain s
unfolding is_alnum
alnum-Plain [] h = tt
alnum-Plain (c ∷ s) h = (ground (arith, h.0), alnum-Plain s h.1)

-- The message of the current paho client, with a JSON object as its payload, on a topic of a device
-- whose id is ten letters or digits, goes to the handler of that topic, if there is one, with that
-- device and payload, and changes nothing.
pub handle_message-topics {ℓ} :
    {P : Type ℓ} (handlers : Handlers) (from : ℕ) (device_id : Text) (payload : P) (now : ℕ)
    (c : Client)
    → is_current c.client from ≡ true
    → length device_id ≡ 10
    → IsAlnum device_id
    → (handle_message handlers from (topic_cmd device_id) (object payload) now c
        ≡ ((if handlers.has_command then on_command (some device_id) payload else no_call), c))
      × (handle_message handlers from (topic_ack device_id) (object payload) now c
          ≡ ((if handlers.has_ack then on_ack (some device_id) payload else no_call), c))
      × (handle_message handlers from (topic_location device_id) (object payload) now c
          ≡ ((if handlers.has_location then on_location (some device_id) payload else no_call), c))
unfolding handle_message call_of route
handle_message-topics handlers from device_id payload now c current ten alnum =
    let plain = alnum-Plain device_id alnum in
    let long : 8 ≤ length device_id = omega (arith, ten) in
    let s = suffixes-topic_cmd device_id plain long in
    let a = suffixes-topic_ack device_id plain long in
    let l = suffixes-topic_location device_id plain long in
    (
      rw (current, s.0, s.1, s.2, device-topic_cmd device_id plain) refl,
      rw (current, a.0, a.1, device-topic_ack device_id plain) refl,
      rw (current, l.0, l.1, l.2, device-topic_location device_id plain) refl,
    )
