-- ===== src/App/Polling.antt =====
-- qml/utilities/api.py: the foreground polling of the position (_start_foreground_gps,
-- _stop_foreground_gps, _schedule_foreground_tick_locked, _foreground_tick, _apply_foreground_gps). The
-- state has, besides the variables of the module, the threads that these leave behind: the timers that
-- wait, the ticks that have fired and not taken the lock yet, and the ticks that are busy with a fix.
pub mod Links
pub mod Chain
use harbour_find_my_device.Prelude.{
  ℕ, ◌+◌, ◌*◌, Bool, true, false, not, ◌&&◌, Option, none, some, List, [], ◌∷◌, ◌++◌, any, keep,
  ◌==◌, leb_ℤ, ℤ, pos, pos_part, if◌then◌else◌,
}

-- a threading.Timer that waits: its identity, the argument of its tick, and its delay in seconds
pub record Timer : Type 0 where
  pub serial : ℕ
  pub gen : ℕ
  pub delay_s : ℕ

-- what a tick or a stop sends to the page
pub data Banner : Type 0 where
  no_fix cleared : Banner

pub record Polling : Type 0 where
  pub timer : Option ℕ
  pub gen : ℕ
  pub in_failure : Bool
  pub next : ℕ
  pub armed : List Timer
  pub fired : List ℕ
  pub busy : List ℕ
  pub banners : List Banner

abbrev pub not_polling : Polling
not_polling = record {
  timer = none;
  gen = 0;
  in_failure = false;
  next = 0;
  armed = [];
  fired = [];
  busy = [];
  banners = [];
}

-- `timer.cancel()`, which does nothing to a timer that has fired
unfoldable pub cancel : ℕ → List Timer → List Timer
cancel serial timers = keep (λ t. not (t.serial == serial)) timers

-- the interval in the settings, of a minute at least
unfoldable pub interval_s : ℤ → ℕ
interval_s minutes = if not (leb_ℤ (pos 1) minutes) then 60 else pos_part minutes * 60

-- `_schedule_foreground_tick_locked`
unfoldable pub schedule_foreground_tick : ℕ → Polling → Polling
schedule_foreground_tick delay_s p = record p {
  timer = some p.next;
  next = p.next + 1;
  armed = record { serial = p.next; gen = p.gen; delay_s = delay_s } ∷ p.armed;
}

unfoldable pub start_if : Option ℕ → Polling → Polling
unfolding schedule_foreground_tick
start_if none p = schedule_foreground_tick 15 (record p { gen = p.gen + 1 })
start_if (some serial) p = p

unfoldable pub start_foreground_gps : Polling → Polling
unfolding start_if
start_foreground_gps p = start_if p.timer p

-- the banner of the foreground polling goes away with it
unfoldable pub clear_banner : Polling → Polling
clear_banner p =
    if p.in_failure
    then record p { in_failure = false; banners = p.banners ++ (cleared ∷ []) }
    else p

unfoldable pub stop_if : Option ℕ → Polling → Polling
unfolding cancel clear_banner
stop_if none p = p
stop_if (some serial) p =
    clear_banner (record p { armed = cancel serial p.armed; timer = none; gen = p.gen + 1 })

unfoldable pub stop_foreground_gps : Polling → Polling
unfolding stop_if
stop_foreground_gps p = stop_if p.timer p

-- `_apply_foreground_gps`; `owns` is `_background_daemon_owns_gps()`
unfoldable pub apply_foreground_gps : Bool → Polling → Polling
unfolding stop_foreground_gps start_foreground_gps
apply_foreground_gps owns p = if owns then stop_foreground_gps p else start_foreground_gps p

-- how the fix of a tick ends
pub data Outcome : Type 0 where
  fix_found fix_failed fix_raised : Outcome

-- the banner of a fix, and the flag that remembers a failure
unfoldable pub settle : Outcome → Polling → Polling
unfolding clear_banner
settle fix_found p = clear_banner p
settle fix_failed p =
    if p.in_failure then p else record p { in_failure = true; banners = p.banners ++ (no_fix ∷ []) }
settle fix_raised p = p

unfoldable pub is_set : Option ℕ → Bool
is_set none = false
is_set (some serial) = true

-- the end of a tick of the chain `gen`, with the interval that the settings hold then
unfoldable pub finish : ℕ → ℤ → Outcome → Polling → Polling
unfolding settle is_set schedule_foreground_tick interval_s
finish gen minutes outcome p =
    let q = settle outcome p in
    if is_set q.timer && (gen == q.gen) then schedule_foreground_tick (interval_s minutes) q else q

-- the start of a tick, until it asks for a fix
unfoldable pub begin_tick : ℕ → Bool → Polling → Polling
unfolding stop_foreground_gps
begin_tick gen owns p =
    if not (gen == p.gen)
    then p
    else if owns
    then stop_foreground_gps p
    else record p { busy = gen ∷ p.busy }

-- a list without the first occurrence of a number
unfoldable pub remove : ℕ → List ℕ → List ℕ
remove g [] = []
remove g (x ∷ xs) = if x == g then xs else x ∷ remove g xs

-- the chain of the first timer with a serial, and the timers without it
unfoldable pub gen_of : ℕ → List Timer → Option ℕ
gen_of serial [] = none
gen_of serial (t ∷ ts) = if t.serial == serial then some t.gen else gen_of serial ts

unfoldable pub drop_timer : ℕ → List Timer → List Timer
drop_timer serial [] = []
drop_timer serial (t ∷ ts) = if t.serial == serial then ts else t ∷ drop_timer serial ts

-- what can happen, in any order: the app applies its settings, a timer fires, a tick takes the lock,
-- a tick has its fix
pub data Event : Type 0 where
  applied : (owns : Bool) → Event
  fires : (serial : ℕ) → Event
  begins : (gen : ℕ) (owns : Bool) → Event
  ends : (gen : ℕ) (minutes : ℤ) (outcome : Outcome) → Event

unfoldable pub fire : ℕ → Option ℕ → Polling → Polling
unfolding drop_timer
fire serial none p = p
fire serial (some gen) p = record p { armed = drop_timer serial p.armed; fired = gen ∷ p.fired }

unfoldable pub step : Event → Polling → Polling
unfolding apply_foreground_gps fire begin_tick finish remove gen_of
step (applied owns) p = apply_foreground_gps owns p
step (fires serial) p = fire serial (gen_of serial p.armed) p
step (begins gen owns) p =
    if any (λ x. x == gen) p.fired
    then begin_tick gen owns (record p { fired = remove gen p.fired })
    else p
step (ends gen minutes outcome) p =
    if any (λ x. x == gen) p.busy
    then finish gen minutes outcome (record p { busy = remove gen p.busy })
    else p

unfoldable pub run : List Event → Polling → Polling
run [] p = p
run (e ∷ es) p = run es (step e p)
