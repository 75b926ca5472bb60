-- ===== src/Mqtt/Health.antt =====
-- The health check of the client: the beats that it publishes on a topic of its own and subscribes to,
-- and the defects that it reports.
use harbour_find_my_device.Prelude.{
  ℕ, ◌-◌, Bool, true, false, not, ◌&&◌, ◌||◌, Option, none, some, any, ltb, ◌==◌, ◌=?◌,
  if◌then◌else◌,
}
use harbour_find_my_device.Text.{Text}
use harbour_find_my_device.Mqtt.{Client, Answers, hc, is_some, is_really_connected, add_sub}
use harbour_find_my_device.Mqtt.Publish.{Link, publish}
use harbour_find_my_device.Mqtt.Topic.{topic_health}

-- `start_healthcheck`; the thread that it starts runs `beat` once in each interval.
unfoldable pub start_healthcheck : Answers → Text → ℕ → ℕ → Client → Client
start_healthcheck answers device_id interval timeout c =
    if c.hc_thread
    then c
    else record (add_sub answers (topic_health device_id) hc (record c {
      hc_topic = some (topic_health device_id);
      hc_interval = interval;
      hc_timeout = timeout;
      hc_unanswered_since = 0;
      hc_last_echo = 0;
    })) { hc_stop = false; hc_thread = true }

-- the first beat of an unanswered run starts the clock
unfoldable pub start_clock : ℕ → Bool × Client → Client
start_clock now r =
    if r.0 && r.1.hc_unanswered_since == 0 then record r.1 { hc_unanswered_since = now } else r.1

-- One round of `_healthcheck_loop`, which publishes without a wait for the PUBACK; `now` is the time
-- after it.
unfoldable pub beat : Link → ℕ → Client → Client
unfolding start_clock
beat link now c =
    if c.hc_stop || c.closed || not (is_really_connected link.paho c)
    then c
    else start_clock now (publish false link c)

unfoldable pub is_stale : ℕ → Client → Bool
is_stale now c =
    if c.hc_interval == 0
    then false
    else if c.hc_unanswered_since == 0
    then false
    else ltb c.hc_timeout (now - c.hc_unanswered_since)

unfoldable pub is_confirmed : Text → Client → Bool
is_confirmed topic c = any (λ t. t =? topic) c.subs_confirmed

unfoldable pub subscriptions_ok : Client → Bool
subscriptions_ok c = not (any (λ s. not (is_confirmed s.0 c)) c.subs)

-- what `health_defect` reports
pub data Defect : Type 0 where
  no_client network_thread_dead disconnected subscription_unconfirmed healthcheck_stale : Defect

-- `paho` is what `is_connected()` says, `thread` whether the network thread runs.
unfoldable pub health_defect : Bool → Bool → ℕ → Client → Option Defect
health_defect paho thread now c =
    if not (is_some c.client)
    then some no_client
    else if not thread
    then some network_thread_dead
    else if not (is_really_connected paho c)
    then some disconnected
    else if not (subscriptions_ok c)
    then some subscription_unconfirmed
    else if is_stale now c
    then some healthcheck_stale
    else none
