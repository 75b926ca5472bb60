-- ===== src/Examples/Links.antt =====
-- The MQTT client: a connection, its subscriptions, its health check and its messages.
use harbour_find_my_device.Prelude.{
  ℕ, ◌≡◌, refl, true, false, not, ◌&&◌, ◌||◌, some, List, [], ◌∷◌, any, ltb, ◌-◌, ◌==◌, length,
  ◌=?◌,
}
use harbour_find_my_device.Text.{codes, ends_with, is_empty}
use harbour_find_my_device.Mqtt.{
  Client, started, Answers, cmd, new_client, connect, close, add_sub, handle_connect,
  is_really_connected, is_some, subscribe_all, put_sub, subscribe_now,
}
use harbour_find_my_device.Mqtt.Topic.{topic_cmd, topic_health}
use harbour_find_my_device.Mqtt.Message.{Handlers, object}
use harbour_find_my_device.Mqtt.Health.{start_healthcheck, is_stale, subscriptions_ok}
use harbour_find_my_device.Mqtt.Publish.{no_puback, delivered, Link, publish}
use harbour_find_my_device.Mqtt.Events.{
  Step, Shared, whole, checks, makes, do_reconnect, on_connect, on_message, move, moves,
  make_inside,
}
use harbour_find_my_device.Mqtt.Closed.{IsShut, moves-close}
use harbour_find_my_device.Mqtt.Delivery.{can_connect, is_started, is_delivered, publish-true_iff}
use harbour_find_my_device.Mqtt.Suback.{subacks, grants, subscriptions_ok-subacks}
use harbour_find_my_device.Mqtt.Beats.{
  Pulse, sent_at, echo_at, pulses, first_unanswered, is_stale-pulses,
}
use harbour_find_my_device.Examples.{own_key}

-- each topic has a mid of its own
abbrev mids : Answers
mids topic = some (length topic)

abbrev opened : Client
opened =
    (connect started (add_sub mids (topic_cmd own_key) cmd (new_client (codes "broker") true))).1

-- the first send is lost, and the second one arrives after a reconnect
abbrev repaired : Link
repaired = record {
  paho = true;
  first = no_puback;
  first_paho = false;
  start = started;
  connack = some mids;
  second = delivered;
  second_paho = true;
}

abbrev all_handlers : Handlers
all_handlers = record { has_ack = true; has_command = true; has_location = false }

abbrev late_steps : List Step
late_steps =
    checks
    ∷ makes started
    ∷ whole (do_reconnect started)
    ∷ whole (on_connect 1 0 mids)
    ∷ whole (on_message all_handlers 1 (topic_cmd own_key) (object (codes "RING")) 20)
    ∷ []

moves-close_example :
    let s = moves late_steps (record { client = close opened; inside = 0 }) in
    IsShut s.client × (s.inside ≡ 0) × ((publish true repaired s.client).0 ≡ false)
moves-close_example = moves-close late_steps opened true repaired

-- a `close` between the checks of a `connect` and its new paho client: the client is closed and lives
abbrev revived : Shared
revived = moves (makes started ∷ []) (record { client = close opened; inside = 1 })

revived_lives : (revived.client.closed ≡ true) × (revived.client.client ≡ some 2)
unfolding moves move make_inside connect close add_sub new_client is_empty any topic_cmd
revived_lives = (refl, refl)

publish-true_iff_example : (publish true repaired (handle_connect 1 0 mids opened)).0 ≡ (
    is_really_connected repaired.paho (handle_connect 1 0 mids opened)
      && is_delivered repaired.first
    || can_connect (handle_connect 1 0 mids opened)
      && is_started repaired.start
      && is_some repaired.connack
      && is_delivered repaired.second)
publish-true_iff_example = publish-true_iff repaired (handle_connect 1 0 mids opened)

-- one SUBACK of another packet, and the one of the command topic
abbrev two_acks : List (ℕ × List ℕ)
two_acks = (3, 128 ∷ []) ∷ (length (topic_cmd own_key), 1 ∷ []) ∷ []

subscriptions_ok-subacks_example :
    subscriptions_ok (subacks 1 two_acks (handle_connect 1 0 mids opened))
    ≡ not (
        any
          (λ s. not (any (grants (handle_connect 1 0 mids opened).subs_pending s.0) two_acks))
          opened.subs)
unfolding connect add_sub new_client is_empty any topic_cmd
subscriptions_ok-subacks_example =
    subscriptions_ok-subacks 1 mids two_acks opened refl (refl, (refl, tt))

abbrev beating : Client
beating = start_healthcheck mids own_key 60 45 (handle_connect 1 0 mids opened)

abbrev some_pulses : List Pulse
some_pulses = sent_at 100 ∷ echo_at 101 ∷ sent_at 160 ∷ sent_at 220 ∷ []

is_stale-pulses_example :
    is_stale 230 (pulses all_handlers 1 (topic_health own_key) some_pulses beating) ≡ (
      not (beating.hc_interval == 0)
      && not (first_unanswered some_pulses == 0)
      && ltb beating.hc_timeout (230 - first_unanswered some_pulses))
unfolding ends_with ◌=?◌ topic_health start_healthcheck handle_connect connect add_sub new_client
    is_empty subscribe_all put_sub subscribe_now is_really_connected
is_stale-pulses_example =
    is_stale-pulses all_handlers 1 (topic_health own_key) some_pulses 230 beating refl
      (refl, refl, refl, refl, refl) refl (refl, (refl, (refl, tt)))
