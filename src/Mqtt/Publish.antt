-- ===== src/Mqtt/Publish.antt =====
-- Publishing with a check of the delivery and one repair.
use harbour_find_my_device.Prelude.{
  ℕ, Bool, true, false, not, ◌&&◌, Option, none, some, if◌then◌else◌,
}
use harbour_find_my_device.Text.{Text}
use harbour_find_my_device.Mqtt.{
  Client, Start, Answers, new_client, connect, close, force_reconnect, handle_connect, is_some,
  is_really_connected,
}

-- What becomes of one `client.publish`: it raises, it queues nothing, the wait for the PUBACK
-- raises, the wait ends without a PUBACK, or the PUBACK arrives.
pub data Sent : Type 0 where
  raised rejected unconfirmed no_puback delivered : Sent

unfoldable pub is_success : Bool → Sent → Bool
is_success wait raised = false
is_success wait rejected = false
is_success wait unconfirmed = not wait
is_success wait no_puback = not wait
is_success wait delivered = true

-- `paho` is what `is_connected()` says
unfoldable pub refresh_connected : Bool → Client → Client
refresh_connected paho c = record c { connected = is_some c.client && paho }

-- `_send_once`; `paho` is what `is_connected()` says once it has failed
unfoldable pub send_once : Bool → Sent → Bool → Client → Bool × Client
send_once wait sent paho c =
    if is_some c.client && is_success wait sent
    then (true, c)
    else (false, refresh_connected paho c)

-- What happens around one `_publish`: what `is_connected()` says before it and after each failure,
-- the fate of the two sends, and the reconnect between them: how `connect` ends, and, when the
-- CONNACK arrives in time, what paho answers to the subscriptions that are then renewed.
pub record Link : Type 0 where
  pub paho : Bool
  pub first : Sent
  pub first_paho : Bool
  pub start : Start
  pub connack : Option Answers
  pub second : Sent
  pub second_paho : Bool

unfoldable pub accepted_by : Option ℕ → Answers → Client → Client
accepted_by none answers c = c
accepted_by (some serial) answers c = handle_connect serial 0 answers c

-- `wait_connected`, in which the CONNACK may arrive
unfoldable pub wait_connected : Option Answers → Client → Bool × Client
unfolding accepted_by
wait_connected none c = (c.conn_event, c)
wait_connected (some answers) c = let c' = accepted_by c.client answers c in (c'.conn_event, c')

-- `force_reconnect() and wait_connected()`
unfoldable pub repair : Start → Option Answers → Client → Bool × Client
repair start connack c =
    let r = force_reconnect start c in if r.0 then wait_connected connack r.1 else (false, r.1)

unfoldable pub republish : Bool → Link → Client → Bool × Client
republish wait link c =
    let r = repair link.start link.connack c in
    if r.0 then send_once wait link.second link.second_paho r.1 else (false, r.1)

-- `_publish`
unfoldable pub publish : Bool → Link → Client → Bool × Client
unfolding republish
publish wait link c =
    if not (is_really_connected link.paho c)
    then (if wait then republish wait link c else (false, c))
    else let s = send_once wait link.first link.first_paho c in
      if s.0 then (true, s.1) else if wait then republish wait link s.1 else (false, s.1)

-- What happens around `publish_location_once`: its first connect, its retry, and its publish.
pub record Once : Type 0 where
  pub start : Start
  pub connack : Option Answers
  pub retry_start : Start
  pub retry_connack : Option Answers
  pub link : Link

unfoldable pub connect_once : Once → Client → Bool × Client
connect_once once c =
    let first = connect once.start c in
    let up = if first.0 then wait_connected once.connack first.1 else (false, first.1) in
    if up.0 then up else repair once.retry_start once.retry_connack up.1

unfoldable pub publish_location_once : Once → Text → Bool → Bool × Client
publish_location_once once server have_paho =
    let up = connect_once once (new_client server have_paho) in
    let result = if up.0 then publish true once.link up.1 else (false, up.1) in
    (result.0, close result.1)
