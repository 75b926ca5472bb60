-- ===== src/Mqtt/Beats.antt =====
-- What the health check knows of its own beats.
use harbour_find_my_device.Prelude.{
  ℕ, ◌-◌, ◌≡◌, refl, Bool, true, false, not, ◌&&◌, ◌||◌, some, List, [], ◌∷◌, arith, any, ltb, ◌==◌,
  ◌=?◌, =?_iff, if◌then◌else◌, none,
}
use harbour_find_my_device.Text.{Text, codes, ends_with}
use harbour_find_my_device.Mqtt.{Client, failed, is_current, is_really_connected}
use harbour_find_my_device.Mqtt.Publish.{Link, raised, no_puback, is_success, send_once, publish}
use harbour_find_my_device.Mqtt.Health.{start_clock, beat, is_stale}
use harbour_find_my_device.Mqtt.Message.{Handlers, Body, is_topic, handle_message}

-- A beat that was sent at a time, or the message of the own topic at a time.
pub data Pulse : Type 0 where
  sent_at echo_at : ℕ → Pulse

-- a connection on which a beat is sent
abbrev pub sending : Link
sending = record {
  paho = true;
  first = no_puback;
  first_paho = true;
  start = failed;
  connack = none;
  second = raised;
  second_paho = true;
}

-- the payload of a beat is its time
abbrev raw : ℕ → Body ℕ
raw now = Body.object now

unfoldable pub pulse : Handlers → ℕ → Text → Pulse → Client → Client
pulse handlers from topic (sent_at now) c = beat sending now c
pulse handlers from topic (echo_at now) c = (handle_message handlers from topic (raw now) now c).1

unfoldable pub pulses : Handlers → ℕ → Text → List Pulse → Client → Client
unfolding pulse
pulses handlers from topic [] c = c
pulses handlers from topic (p ∷ ps) c =
    pulses handlers from topic ps (pulse handlers from topic p c)

abbrev pub is_echo : Pulse → Bool
is_echo (sent_at now) = false
is_echo (echo_at now) = true

-- the time of the first beat with no echo after it, or 0
unfoldable pub first_unanswered : List Pulse → ℕ
first_unanswered [] = 0
first_unanswered (echo_at now ∷ ps) = first_unanswered ps
first_unanswered (sent_at now ∷ ps) = if any is_echo ps then first_unanswered ps else now

-- beats have a time of their own
abbrev pub Timed : List Pulse → Type 0
Timed [] = Unit
Timed (echo_at now ∷ ps) = Timed ps
Timed (sent_at now ∷ ps) = ((now == 0) ≡ false) × Timed ps

-- beats are sent, and the messages of the topic come in
abbrev pub IsBeating : ℕ → Text → Client → Type 0
IsBeating from topic c =
    (c.hc_stop ≡ false)
    × (c.closed ≡ false)
    × (is_really_connected true c ≡ true)
    × (is_current c.client from ≡ true)
    × (c.hc_topic ≡ some topic)

abbrev pub SameTimes : Client → Client → Type 0
SameTimes c' c = (c'.hc_interval ≡ c.hc_interval) × (c'.hc_timeout ≡ c.hc_timeout)

module _ (handlers : Handlers) (from : ℕ) (topic : Text)
    (own : ends_with topic (codes "/hc") ≡ true) where
  topic-same : topic =? topic ≡ true
  topic-same = (=?_iff topic topic).1 refl

  sent_once : (c : Client) → is_really_connected true c ≡ true → publish false sending c ≡ (true, c)
  unfolding publish send_once is_success is_really_connected
  sent_once c h = ground (arith, h)

  beat-beating :
      (now : ℕ) (c : Client)
      → IsBeating from topic c
      → beat sending now c
        ≡ (if c.hc_unanswered_since == 0 then record c { hc_unanswered_since = now } else c)
  unfolding beat start_clock
  beat-beating now c h = let sent = sent_once c h.2 in ground (arith, sent)

  beat-since :
      (now : ℕ) (c : Client)
      → IsBeating from topic c
      → IsBeating from topic (beat sending now c)
        × ((beat sending now c).hc_unanswered_since
            ≡ (if c.hc_unanswered_since == 0 then now else c.hc_unanswered_since))
        × SameTimes (beat sending now c) c
  unfolding is_really_connected
  beat-since now c h = ground (arith, beat-beating now c h)

  echo-since :
      (now : ℕ) (c : Client)
      → IsBeating from topic c
      → IsBeating from topic (pulse handlers from topic (echo_at now) c)
        × ((pulse handlers from topic (echo_at now) c).hc_unanswered_since ≡ 0)
        × SameTimes (pulse handlers from topic (echo_at now) c) c
  unfolding is_really_connected pulse handle_message is_topic
  echo-since now c h = ground (arith, topic-same, own)

  pulses-since :
      (ps : List Pulse) (c : Client)
      → IsBeating from topic c
      → Timed ps
      → ((pulses handlers from topic ps c).hc_unanswered_since ≡ (
          if c.hc_unanswered_since == 0 || any is_echo ps
          then first_unanswered ps
          else c.hc_unanswered_since))
        × SameTimes (pulses handlers from topic ps c) c
  unfolding pulses pulse first_unanswered any
  pulses-since [] c h timed = ground arith
  pulses-since (echo_at now ∷ ps) c h timed =
      let one = echo-since now c h in
      let rest = pulses-since ps (pulse handlers from topic (echo_at now) c) one.0 timed in
      ground (arith, one, rest)
  pulses-since (sent_at now ∷ ps) c h timed =
      let one = beat-since now c h in
      let rest = pulses-since ps (beat sending now c) one.0 timed.1 in
      ground (arith, one, rest, timed.0)

-- Take a client whose health check runs on the topic of its own, an "/hc" topic, over a connection
-- that is up, with no beat unanswered so far. After any sequence of beats, each at a time other
-- than 0, and messages on that topic, the check is stale just when it has an interval and the
-- first beat with no message after it is longer ago than the timeout.
pub is_stale-pulses :
    (handlers : Handlers) (from : ℕ) (topic : Text) (ps : List Pulse) (now : ℕ) (c : Client)
    → ends_with topic (codes "/hc") ≡ true
    → IsBeating from topic c
    → c.hc_unanswered_since ≡ 0
    → Timed ps
    → is_stale now (pulses handlers from topic ps c) ≡ (
        not (c.hc_interval == 0)
        && not (first_unanswered ps == 0)
        && ltb c.hc_timeout (now - first_unanswered ps))
unfolding is_stale
is_stale-pulses handlers from topic ps now c own h zero_first timed =
    ground (arith, pulses-since handlers from topic own ps c h timed)
