-- ===== src/Mqtt/Events.antt =====
-- Everything that can happen to a client, in any order: the calls of its owner and the callbacks of
-- the paho clients, the abandoned ones included, whole or, where they reconnect, in their parts.
use harbour_find_my_device.Prelude.{ℕ, zero, suc, Bool, List, [], ◌∷◌, if◌then◌else◌}
use harbour_find_my_device.Text.{Text}
use harbour_find_my_device.Mqtt.{
  Kind, Client, Start, Answers, refuses, make_client, connect, disconnect, stop_healthcheck, close,
  force_reconnect, add_sub, handle_connect, handle_disconnect, handle_subscribe,
}
use harbour_find_my_device.Mqtt.Health.{start_healthcheck, beat}
use harbour_find_my_device.Mqtt.Message.{Handlers, Body, handle_message}
use harbour_find_my_device.Mqtt.Publish.{Link, publish, refresh_connected}

pub data Event : Type 0 where
  do_connect do_reconnect : Start → Event
  do_disconnect do_close do_stop : Event
  do_subscribe : Answers → Text → Kind → Event
  do_publish : Bool → Link → Event
  do_health : Answers → Text → ℕ → ℕ → Event
  on_beat : Link → ℕ → Event
  on_connect : ℕ → ℕ → Answers → Event
  on_disconnect : ℕ → Event
  on_subscribe : ℕ → ℕ → List ℕ → Event
  on_message : Handlers → ℕ → Text → Body Text → ℕ → Event

unfoldable pub step : Event → Client → Client
step (do_connect start) c = (connect start c).1
step (do_reconnect start) c = (force_reconnect start c).1
step do_disconnect c = disconnect c
step do_close c = close c
step do_stop c = stop_healthcheck c
step (do_subscribe answers topic kind) c = add_sub answers topic kind c
step (do_publish wait link) c = (publish wait link c).1
step (do_health answers device_id interval timeout) c =
    start_healthcheck answers device_id interval timeout c
step (on_beat link now) c = beat link now c
step (on_connect from rc answers) c = handle_connect from rc answers c
step (on_disconnect from) c = handle_disconnect from c
step (on_subscribe from mid granted) c = handle_subscribe from mid granted c
step (on_message handlers from topic body now) c = (handle_message handlers from topic body now c).1

-- The client as the threads share it: `inside` counts the calls of `connect`, also those of
-- `force_reconnect` and of a publish, that have made their checks and have no new paho client yet.
pub record Shared : Type 0 where
  pub client : Client
  pub inside : ℕ

-- A whole call or callback, or a part of one: the checks of `connect`, the rest of it, and the
-- `_refresh_connected` after a failed send.
pub data Step : Type 0 where
  whole : Event → Step
  checks : Step
  makes : Start → Step
  refreshes : Bool → Step

unfoldable pub make_inside : ℕ → Start → Client → Shared
make_inside zero start c = record { client = c; inside = zero }
make_inside (suc n) start c = record { client = (make_client start c).1; inside = n }

unfoldable pub move : Step → Shared → Shared
unfolding step make_inside
move (whole e) s = record s { client = step e s.client }
move checks s = if refuses s.client then s else record s { inside = suc s.inside }
move (makes start) s = make_inside s.inside start s.client
move (refreshes paho) s = record s { client = refresh_connected paho s.client }

unfoldable pub moves : List Step → Shared → Shared
moves [] s = s
moves (e ∷ steps) s = moves steps (move e s)
