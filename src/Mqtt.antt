-- ===== src/Mqtt.antt =====
-- qml/utilities/mqtt_client.py: the state of one FmdMqttClient, its lifecycle and its callbacks. A
-- paho client is known by a serial number; what paho answers is an argument of each operation. The
-- teardown of a replaced paho client (its thread and its socket) leaves no trace in the wrapper.
-- A time is in whole seconds; 0 stands for "never", as 0.0 does in the source.
pub mod Topic
pub mod Message
pub mod Health
pub mod Delivery
pub mod Beats
pub mod Publish
pub mod Events
pub mod Closed
pub mod Suback
pub mod Routing
use harbour_find_my_device.Prelude.{
  ℕ, suc, ◌+◌, Bool, true, false, not, ◌&&◌, ◌||◌, Option, none, some, List, [], ◌∷◌, ◌++◌, any,
  keep, leb, length, ◌==◌, ◌=?◌, if◌then◌else◌,
}
use harbour_find_my_device.Text.{Text, codes, is_empty, ends_with}
use Topic.{topic_location, topic_cmd, topic_ack, topic_health, device_from_topic}

pub data Kind : Type 0 where
  cmd loc ack hc : Kind

pub record Client : Type 0 where
  pub server : Text
  pub have_paho : Bool
  pub client : Option ℕ  -- `_client`
  pub made : ℕ  -- the paho clients created so far
  pub connected : Bool
  pub closed : Bool
  pub conn_event : Bool
  pub subs : List (Text × Kind)
  pub subs_confirmed : List Text
  pub subs_pending : List (ℕ × Text)
  pub hc_topic : Option Text
  pub hc_interval : ℕ
  pub hc_timeout : ℕ
  pub hc_unanswered_since : ℕ
  pub hc_last_echo : ℕ
  pub hc_stop : Bool
  pub hc_thread : Bool

unfoldable pub new_client : Text → Bool → Client
new_client server have_paho = record {
  server = server;
  have_paho = have_paho;
  client = none;
  made = 0;
  connected = false;
  closed = false;
  conn_event = false;
  subs = [];
  subs_confirmed = [];
  subs_pending = [];
  hc_topic = none;
  hc_interval = 0;
  hc_timeout = 45;
  hc_unanswered_since = 0;
  hc_last_echo = 0;
  hc_stop = false;
  hc_thread = false;
}

-- How the body of `connect` ends: with an exception before there is a paho client, with one after,
-- or with the network loop started.
pub data Start : Type 0 where
  no_object failed started : Start

unfoldable pub new_object : Client → Client
new_object c = record c { client = some (c.made + 1); made = c.made + 1 }

unfoldable pub dispatch : Start → Client → Bool × Client
unfolding new_object
dispatch no_object c = (false, c)
dispatch failed c = (false, new_object c)
dispatch started c = (true, new_object c)

-- the checks at the beginning of `connect`, and the rest of it
abbrev pub refuses : Client → Bool
refuses c = c.closed || not c.have_paho || is_empty c.server

unfoldable pub make_client : Start → Client → Bool × Client
unfolding dispatch
make_client start c = dispatch start (record c { conn_event = false })

unfoldable pub connect : Start → Client → Bool × Client
unfolding make_client
connect start c = if refuses c then (false, c) else make_client start c

unfoldable pub disconnect : Client → Client
disconnect c = record c {
  client = none;
  connected = false;
  conn_event = false;
  subs_confirmed = [];
  subs_pending = [];
}

unfoldable pub stop_healthcheck : Client → Client
stop_healthcheck c = record c { hc_stop = true; hc_thread = false }

unfoldable pub close : Client → Client
unfolding stop_healthcheck disconnect
close c = disconnect (stop_healthcheck (record c { closed = true }))

-- `force_reconnect`. Its lock keeps out other reconnects, but not a `close`: Events has the checks and the
-- rest of `connect` as two steps, too.
unfoldable pub force_reconnect : Start → Client → Bool × Client
unfolding connect disconnect
force_reconnect start c = connect start (disconnect c)

abbrev pub is_current : Option ℕ → ℕ → Bool
is_current none from = false
is_current (some serial) from = serial == from

abbrev pub is_some {ℓ} : {A : Type ℓ} → Option A → Bool
is_some none = false
is_some (some a) = true

-- `paho` is what `_client.is_connected()` says
unfoldable pub is_really_connected : Bool → Client → Bool
is_really_connected paho c = c.connected && is_some c.client && paho

-- the dicts `_subs` and `_subs_pending`
unfoldable pub put_sub : Text → Kind → List (Text × Kind) → List (Text × Kind)
put_sub topic kind [] = (topic, kind) ∷ []
put_sub topic kind ((t, k) ∷ subs) =
    if t =? topic then (t, kind) ∷ subs else (t, k) ∷ put_sub topic kind subs

unfoldable pub put_pending : ℕ → Text → List (ℕ × Text) → List (ℕ × Text)
put_pending mid topic [] = (mid, topic) ∷ []
put_pending mid topic ((m, t) ∷ rows) =
    if m == mid then (m, topic) ∷ rows else (m, t) ∷ put_pending mid topic rows

unfoldable pub find_pending : ℕ → List (ℕ × Text) → Option Text
find_pending mid [] = none
find_pending mid ((m, t) ∷ rows) = if m == mid then some t else find_pending mid rows

unfoldable pub drop_pending : ℕ → List (ℕ × Text) → List (ℕ × Text)
drop_pending mid rows = keep (λ r. not (r.0 == mid)) rows

-- What `client.subscribe` answers for a topic: the mid of the packet that was queued, or none when
-- it raised or queued nothing.
abbrev pub Answers : Type 0
Answers = Text → Option ℕ

unfoldable pub record_mid : Text → Option ℕ → Client → Client
unfolding put_pending
record_mid topic none c = c
record_mid topic (some mid) c = record c { subs_pending = put_pending mid topic c.subs_pending }

unfoldable pub subscribe_now : Answers → Text → Client → Client
unfolding record_mid
subscribe_now answers topic c = record_mid topic (answers topic) c

unfoldable pub subscribe_all : Answers → List (Text × Kind) → Client → Client
subscribe_all answers [] c = c
subscribe_all answers ((topic, kind) ∷ topics) c =
    subscribe_all answers topics (subscribe_now answers topic c)

unfoldable pub add_sub : Answers → Text → Kind → Client → Client
add_sub answers topic kind c =
    let c' : Client = record c { subs = put_sub topic kind c.subs } in
    if is_some c.client && c.connected then subscribe_now answers topic c' else c'

unfoldable pub subscribe_commands : Answers → Text → Client → Client
subscribe_commands answers device_id c = add_sub answers (topic_cmd device_id) cmd c

unfoldable pub subscribe_location : Answers → Text → Client → Client
subscribe_location answers device_id c = add_sub answers (topic_location device_id) loc c

unfoldable pub subscribe_ack : Answers → Text → Client → Client
subscribe_ack answers device_id c = add_sub answers (topic_ack device_id) ack c

-- `_handle_connect`; the callback `on_connected` runs after it
unfoldable pub handle_connect : ℕ → ℕ → Answers → Client → Client
handle_connect from rc answers c =
    if not (is_current c.client from)
    then c
    else if rc == 0
    then record (subscribe_all answers c.subs (record c {
      connected = true;
      conn_event = true;
      subs_confirmed = [];
      subs_pending = [];
    })) { hc_unanswered_since = 0; hc_last_echo = 0 }
    else record c { connected = false }

unfoldable pub handle_disconnect : ℕ → Client → Client
handle_disconnect from c =
    if not (is_current c.client from)
    then c
    else record c { connected = false; conn_event = false; subs_confirmed = []; subs_pending = [] }

-- the codes of a SUBACK grant the subscription
unfoldable pub is_granted : List ℕ → Bool
is_granted granted = leb 1 (length granted) && not (any (λ c. leb 128 c) granted)

-- `set.add`
unfoldable pub confirm : Text → List Text → List Text
confirm topic topics = if any (λ t. t =? topic) topics then topics else topic ∷ topics

unfoldable pub suback_found : Option Text → List ℕ → Client → Client
unfolding is_granted confirm
suback_found none granted c = c
suback_found (some topic) granted c =
    if is_granted granted then record c { subs_confirmed = confirm topic c.subs_confirmed } else c

-- `_handle_subscribe`
unfoldable pub handle_subscribe : ℕ → ℕ → List ℕ → Client → Client
unfolding suback_found drop_pending
handle_subscribe from mid granted c =
    if not (is_current c.client from)
    then c
    else suback_found (find_pending mid c.subs_pending) granted
        (record c { subs_pending = drop_pending mid c.subs_pending })
