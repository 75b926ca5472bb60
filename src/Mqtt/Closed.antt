-- ===== src/Mqtt/Closed.antt =====
-- A client that was closed stays closed.
use harbour_find_my_device.Prelude.{
  ℕ, zero, suc, ◌≡◌, refl, Bool, true, false, none, List, [], ◌∷◌, arith, if◌then◌else◌,
}
use harbour_find_my_device.Text.{Text}
use harbour_find_my_device.Mqtt.{
  Kind, hc, refuses, Client, Start, Answers, is_current, connect, disconnect, stop_healthcheck,
  close, force_reconnect, add_sub, handle_connect, handle_disconnect, handle_subscribe,
  is_really_connected,
}
use harbour_find_my_device.Mqtt.Topic.{topic_health}
use harbour_find_my_device.Mqtt.Health.{start_healthcheck, beat}
use harbour_find_my_device.Mqtt.Message.{no_call, Handlers, Body, handle_message}
use harbour_find_my_device.Mqtt.Publish.{Link, publish, republish, repair, refresh_connected}
use harbour_find_my_device.Mqtt.Events.{
  Event, do_connect, do_reconnect, do_disconnect, do_close, do_stop, do_subscribe, do_publish,
  do_health, on_beat, on_connect, on_disconnect, on_subscribe, on_message, step, Shared, Step,
  whole, checks, makes, refreshes, make_inside, move, moves,
}

-- shut for good: no paho client, and no way to one
abbrev pub IsShut : Client → Type 0
IsShut c = (c.closed ≡ true) × (c.client ≡ none) × (c.connected ≡ false)

pub close-IsShut : (c : Client) → IsShut (close c)
unfolding close
close-IsShut c = (refl, refl, refl)

if-IsShut : (b : Bool) (x y : Client) → IsShut x → IsShut y → IsShut (if b then x else y)
if-IsShut true x y h k = h
if-IsShut false x y h k = k

pub connect-shut : (start : Start) (c : Client) → IsShut c → connect start c ≡ (false, c)
unfolding connect
connect-shut start c h = ground arith

disconnect-IsShut : (c : Client) → IsShut c → IsShut (disconnect c)
unfolding disconnect
disconnect-IsShut c h = (h.0, refl, refl)

pub reconnect-shut :
    (start : Start) (c : Client) → IsShut c → force_reconnect start c ≡ (false, disconnect c)
unfolding force_reconnect
reconnect-shut start c h = connect-shut start (disconnect c) (disconnect-IsShut c h)

pub add_sub-IsShut :
    (answers : Answers) (topic : Text) (kind : Kind) (c : Client)
    → IsShut c
    → IsShut (add_sub answers topic kind c)
unfolding add_sub
add_sub-IsShut answers topic kind c h = ground arith

shut-really : (paho : Bool) (c : Client) → IsShut c → is_really_connected paho c ≡ false
unfolding is_really_connected
shut-really paho c h = ground arith

-- A publish on a client that was closed sends nothing: it fails, and leaves the client shut.
pub publish-IsShut :
    (wait : Bool) (link : Link) (c : Client)
    → IsShut c
    → ((publish wait link c).0 ≡ false) × IsShut (publish wait link c).1
unfolding publish republish repair
publish-IsShut true link c h =
    rw (shut-really link.paho c h, reconnect-shut link.start c h) (refl, disconnect-IsShut c h)
publish-IsShut false link c h = rw (shut-really link.paho c h) (refl, h)

stale : (from : ℕ) (c : Client) → IsShut c → is_current c.client from ≡ false
stale from c h = ground arith

ap-IsShut {ℓ} :
    {A : Type ℓ} {r : A × Client} {b : A} {c : Client} → r ≡ (b, c) → IsShut c → IsShut r.1
ap-IsShut e h = rw e h

health-IsShut :
    (answers : Answers) (device_id : Text) (interval timeout : ℕ) (c : Client)
    → IsShut c
    → IsShut (start_healthcheck answers device_id interval timeout c)
unfolding start_healthcheck
health-IsShut answers device_id interval timeout c h =
    if-IsShut c.hc_thread c _ h (add_sub-IsShut answers (topic_health device_id) hc _ h)

beat-IsShut : (link : Link) (now : ℕ) (c : Client) → IsShut c → IsShut (beat link now c)
unfolding beat
beat-IsShut link now c h = ground (arith, shut-really link.paho c h)

message-stale :
    (handlers : Handlers) (from : ℕ) (topic : Text) (body : Body Text) (now : ℕ) (c : Client)
    → is_current c.client from ≡ false
    → handle_message handlers from topic body now c ≡ (no_call, c)
unfolding handle_message
message-stale handlers from topic body now c e = rw e refl

step-IsShut : (e : Event) (c : Client) → IsShut c → IsShut (step e c)
unfolding step
step-IsShut (do_connect start) c h = ap-IsShut (connect-shut start c h) h
step-IsShut (do_reconnect start) c h = ap-IsShut (reconnect-shut start c h) (disconnect-IsShut c h)
step-IsShut do_disconnect c h = disconnect-IsShut c h
step-IsShut do_close c h = close-IsShut c
step-IsShut do_stop c h = unfold stop_healthcheck in h
step-IsShut (do_subscribe answers topic kind) c h = add_sub-IsShut answers topic kind c h
step-IsShut (do_publish wait link) c h = (publish-IsShut wait link c h).1
step-IsShut (do_health answers device_id interval timeout) c h =
    health-IsShut answers device_id interval timeout c h
step-IsShut (on_beat link now) c h = beat-IsShut link now c h
step-IsShut (on_connect from rc answers) c h = unfold handle_connect in rw (stale from c h) h
step-IsShut (on_disconnect from) c h = unfold handle_disconnect in rw (stale from c h) h
step-IsShut (on_subscribe from mid granted) c h = unfold handle_subscribe in rw (stale from c h) h
step-IsShut (on_message handlers from topic body now) c h =
    ap-IsShut (message-stale handlers from topic body now c (stale from c h)) h

-- shut for good, with no `connect` under way
abbrev pub IsSettled : Shared → Type 0
IsSettled s = IsShut s.client × (s.inside ≡ 0)

makes-IsSettled :
    (n : ℕ) (start : Start) (c : Client) → IsShut c → n ≡ 0 → IsSettled (make_inside n start c)
unfolding make_inside
makes-IsSettled zero start c h e = (h, refl)
makes-IsSettled (suc n) start c h e = absurd (omega (arith, e))

refresh-IsShut : (paho : Bool) (c : Client) → IsShut c → IsShut (refresh_connected paho c)
unfolding refresh_connected
refresh-IsShut paho c h = (h.0, h.1, ground (arith, h.1))

shut-refuses : (c : Client) → IsShut c → refuses c ≡ true
shut-refuses c h = ground arith

checked-IsSettled :
    (b : Bool) (s : Shared)
    → b ≡ true
    → IsSettled s
    → IsSettled (if b then s else record s { inside = suc s.inside })
checked-IsSettled true s e h = h
checked-IsSettled false s e h = cc

move-IsSettled : (e : Step) (s : Shared) → IsSettled s → IsSettled (move e s)
unfolding move
move-IsSettled (whole e) s (h, z) = (step-IsShut e s.client h, z)
move-IsSettled checks s (h, z) =
    checked-IsSettled (refuses s.client) s (shut-refuses s.client h) (h, z)
move-IsSettled (makes start) s (h, z) = makes-IsSettled s.inside start s.client h z
move-IsSettled (refreshes paho) s (h, z) = (refresh-IsShut paho s.client h, z)

moves-IsSettled : (steps : List Step) (s : Shared) → IsSettled s → IsSettled (moves steps s)
unfolding moves
moves-IsSettled [] s h = h
moves-IsSettled (e ∷ steps) s h = moves-IsSettled steps (move e s) (move-IsSettled e s h)

-- Once `close` was called while no other call or callback of the client was under way, nothing revives
-- the client. Whatever calls and callbacks follow, those of abandoned connections included, and
-- however the parts of their reconnects mix, it is closed, has no paho client and is not connected,
-- no `connect` gets past its checks, and a publish on it fails.
pub moves-close :
    (steps : List Step) (c : Client) (wait : Bool) (link : Link)
    → let s = moves steps (record { client = close c; inside = 0 }) in
      IsShut s.client × (s.inside ≡ 0) × ((publish wait link s.client).0 ≡ false)
moves-close steps c wait link =
    let shut =
      moves-IsSettled steps (record { client = close c; inside = 0 }) (close-IsShut c, refl) in
    (shut.0, shut.1, (publish-IsShut wait link _ shut.0).0)
