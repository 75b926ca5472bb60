-- ===== src/Daemon/Handover.antt =====
-- daemon-rpm/src/daemon_cmd.py (_ConnmanWatcher): a reconnect of the command channel after ConnMan's state
-- has settled. The state has, besides the attributes of the watcher, the timers that wait. Times are in
-- whole seconds.
pub mod Settled
use harbour_find_my_device.Prelude.{
  ℕ, ◌+◌, Bool, true, false, not, ◌&&◌, ◌||◌, Option, none, some, List, [], ◌∷◌, keep, ◌==◌, ◌=?◌,
  if◌then◌else◌,
}
use harbour_find_my_device.Text.{Text, codes}
use harbour_find_my_device.Mqtt.{Client, Start, force_reconnect}
use harbour_find_my_device.Mqtt.Health.{Defect, health_defect}

-- SETTLE_S
abbrev pub settle_s : ℕ
settle_s = 5

-- a threading.Timer that waits: its identity and when it fires
pub record Timer : Type 0 where
  pub serial : ℕ
  pub at : ℕ

pub record Watcher : Type 0 where
  pub state : Option Text
  pub timer : Option ℕ
  pub next : ℕ
  pub armed : List Timer

abbrev pub new_watcher : Watcher
new_watcher = record { state = none; timer = none; next = 0; armed = [] }

-- ACTIONABLE_STATES
unfoldable pub is_actionable : Text → Bool
is_actionable state = state =? codes "ready" || state =? codes "online"

unfoldable pub cancel : Option ℕ → List Timer → List Timer
cancel none timers = timers
cancel (some serial) timers = keep (λ t. not (t.serial == serial)) timers

unfoldable pub rearm : Text → ℕ → Watcher → Watcher
unfolding cancel
rearm state now w = record w {
  state = some state;
  timer = some w.next;
  next = w.next + 1;
  armed = record { serial = w.next; at = now + settle_s } ∷ cancel w.timer w.armed;
}

-- `_on_property_changed`
unfoldable pub on_property_changed : Text → Text → ℕ → Watcher → Watcher
unfolding is_actionable rearm
on_property_changed name value now w =
    if not (name =? codes "State") then w else if is_actionable value then rearm value now w else w

-- `stop`
unfoldable pub stop : Watcher → Watcher
unfolding cancel
stop w = record w { timer = none; armed = cancel w.timer w.armed }

unfoldable pub same_address : Option Text → Option Text → Bool
same_address (some ip) (some preferred) = preferred =? ip
same_address _ _ = false

unfoldable pub is_healthy : Option Defect → Bool
is_healthy none = true
is_healthy (some d) = false

-- What the watcher learns of the client when the timer fires: `paho` is `is_connected()`, `thread` that
-- the network thread runs, then the address of the socket and the one that the kernel would choose.
pub record Probe : Type 0 where
  pub paho : Bool
  pub thread : Bool
  pub now : ℕ
  pub ip : Option Text
  pub preferred : Option Text

unfoldable pub is_settled : Probe → Client → Bool
unfolding is_healthy same_address
is_settled p c = is_healthy (health_defect p.paho p.thread p.now c) && same_address p.ip p.preferred

-- the client after `_reconnect`
unfoldable pub reconnect_client : Bool → Probe → Start → Option Client → Option Client
unfolding is_settled
reconnect_client stopping p start none = none
reconnect_client stopping p start (some c) =
    if stopping || is_settled p c then some c else some ((force_reconnect start c).1)

-- the watcher after `_reconnect`
unfoldable pub forget_timer : Watcher → Watcher
forget_timer w = record w { timer = none }
