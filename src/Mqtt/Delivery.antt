-- ===== src/Mqtt/Delivery.antt =====
-- When a verified publish succeeds.
use harbour_find_my_device.Prelude.{
  ℕ, ◌+◌, ◌≡◌, refl, ◌∙◌, Bool, true, false, not, ◌&&◌, ◌||◌, Option, none, some, List, [], ◌∷◌,
  arith, Bool-cases, inl, inr,
}
use harbour_find_my_device.Text.{Text, is_empty}
use harbour_find_my_device.Mqtt.{
  Kind, Client, Start, no_object, failed, started, Answers, is_some, connect, new_object, dispatch,
  disconnect, force_reconnect, subscribe_now, record_mid, subscribe_all, handle_connect,
  is_really_connected, close, new_client,
}
use harbour_find_my_device.Mqtt.Publish.{
  Sent, raised, rejected, unconfirmed, no_puback, delivered, is_success, Link, Once, publish,
  republish, repair, wait_connected, accepted_by, send_once, refresh_connected, connect_once,
  publish_location_once,
}

-- `connect` is not refused
abbrev pub can_connect : Client → Bool
can_connect c = not (c.closed || not c.have_paho || is_empty c.server)

abbrev pub is_started : Start → Bool
is_started started = true
is_started _ = false

abbrev pub is_delivered : Sent → Bool
is_delivered delivered = true
is_delivered _ = false

record_mid-same :
    (topic : Text) (o : Option ℕ) (c : Client)
    → ((record_mid topic o c).client ≡ c.client)
      × ((record_mid topic o c).conn_event ≡ c.conn_event)
unfolding record_mid
record_mid-same topic none c = (refl, refl)
record_mid-same topic (some mid) c = (refl, refl)

subscribe_all-same :
    (answers : Answers) (topics : List (Text × Kind)) (c : Client)
    → ((subscribe_all answers topics c).client ≡ c.client)
      × ((subscribe_all answers topics c).conn_event ≡ c.conn_event)
unfolding subscribe_all subscribe_now
subscribe_all-same answers [] c = (refl, refl)
subscribe_all-same answers ((topic, kind) ∷ topics) c =
    let one = record_mid-same topic (answers topic) c in
    let rest = subscribe_all-same answers topics (record_mid topic (answers topic) c) in
    (rest.0 ∙ one.0, rest.1 ∙ one.1)

ready :
    (serial : ℕ) (answers : Answers) (c : Client)
    → c.client ≡ some serial
    → ((handle_connect serial 0 answers c).client ≡ some serial)
      × ((handle_connect serial 0 answers c).conn_event ≡ true)
unfolding handle_connect
ready serial answers c e =
    let back : Client = record c {
      connected = true;
      conn_event = true;
      subs_confirmed = [];
      subs_pending = [];
    } in
    ground (arith, subscribe_all-same answers c.subs back)

-- the connection is repaired when `connect` is not refused and goes through, and the CONNACK arrives
repair_lem :
    (start : Start) (connack : Option Answers) (c : Client)
    → ((repair start connack c).0 ≡ (can_connect c && is_started start && is_some connack))
      × ((repair start connack c).0 ≡ true → is_some (repair start connack c).1.client ≡ true)
unfolding repair force_reconnect connect dispatch new_object disconnect wait_connected accepted_by
repair_lem no_object connack c = ground arith
repair_lem failed connack c = ground arith
repair_lem started none c = ground arith
repair_lem started (some answers) c =
    let fresh : Client = record c {
      client = some (c.made + 1);
      made = c.made + 1;
      connected = false;
      conn_event = false;
      subs_confirmed = [];
      subs_pending = [];
    } in
    ground (arith, ready (c.made + 1) answers fresh refl)

send_once-true :
    (sent : Sent) (paho : Bool) (c : Client)
    → is_some c.client ≡ true
    → (send_once true sent paho c).0 ≡ is_delivered sent
unfolding send_once is_success
send_once-true raised paho c h = ground arith
send_once-true rejected paho c h = ground arith
send_once-true unconfirmed paho c h = ground arith
send_once-true no_puback paho c h = ground arith
send_once-true delivered paho c h = ground arith

republish_lem :
    (link : Link) (c : Client)
    → (republish true link c).0
      ≡ (can_connect c && is_started link.start && is_some link.connack && is_delivered link.second)
unfolding republish
republish_lem link c =
    let r = repair_lem link.start link.connack c in
    elim (Bool-cases (repair link.start link.connack c).0) [
      | inl up ↦
          let sent =
            send_once-true link.second link.second_paho (repair link.start link.connack c).1
              (r.1 up) in
          rw up (sent ∙ ground (arith, r.0, up))
      | inr down ↦ rw down (ground (arith, r.0, down))
    ]

send_once-can_connect :
    (wait : Bool) (sent : Sent) (paho : Bool) (c : Client)
    → can_connect (send_once wait sent paho c).1 ≡ can_connect c
unfolding send_once refresh_connected
send_once-can_connect wait sent paho c =
    elim (Bool-cases (is_some c.client && is_success wait sent)) [
      | inl good ↦ rw good refl
      | inr bad ↦ rw bad refl
    ]

really-client :
    (paho : Bool) (c : Client) → is_really_connected paho c ≡ true → is_some c.client ≡ true
unfolding is_really_connected
really-client paho c h = ground arith

-- A verified publish succeeds just when the PUBACK of its first send arrives, on a connection that
-- is up, or else `connect` is not refused and goes through, the CONNACK arrives in time, and the
-- PUBACK of the one second send arrives.
pub publish-true_iff :
    (link : Link) (c : Client)
    → (publish true link c).0 ≡ (
        is_really_connected link.paho c && is_delivered link.first
        || can_connect c
          && is_started link.start
          && is_some link.connack
          && is_delivered link.second)
unfolding publish
publish-true_iff link c = elim (Bool-cases (is_really_connected link.paho c)) [
  | inr dead ↦ rw dead (republish_lem link c)
  | inl live ↦
      let first = send_once-true link.first link.first_paho c (really-client link.paho c live) in
      elim (Bool-cases (is_delivered link.first)) [
        | inl arrived ↦ rw (live, first, arrived) refl
        | inr lost ↦
            rw (live, first, lost)
              (republish_lem link (send_once true link.first link.first_paho c).1
                ∙ rw (send_once-can_connect true link.first link.first_paho c) refl)
      ]
]

-- `publish_location_once` leaves no connection behind, and is true only when a send was confirmed
-- by its PUBACK.
pub publish_location_once_lem :
    (once : Once) (server : Text) (have_paho : Bool)
    → ((publish_location_once once server have_paho).1.closed ≡ true)
      × ((publish_location_once once server have_paho).1.client ≡ none)
      × (((publish_location_once once server have_paho).0
            && not (is_delivered once.link.first || is_delivered once.link.second))
          ≡ false)
unfolding publish_location_once close
publish_location_once_lem once server have_paho =
    let up = connect_once once (new_client server have_paho) in
    (
      refl,
      refl,
      elim (Bool-cases up.0) [
        | inl ready_now ↦ rw (ready_now, publish-true_iff once.link up.1) (ground arith)
        | inr never ↦ rw never refl
      ],
    )
