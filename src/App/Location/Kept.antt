-- ===== src/App/Location/Kept.antt =====
-- What a refresh of the position leaves alone, and what one publish does.
use harbour_find_my_device.Prelude.{
  ℕ, ◌≡◌, refl, ◌⊎◌, inl, inr, Bool, true, false, not, ◌&&◌, Option, none, some, List, [], ◌∷◌,
  if◌then◌else◌, Bool-cases, ◌∙◌,
}
use harbour_find_my_device.Text.{Text}
use harbour_find_my_device.Database.{Db}
use harbour_find_my_device.Gps.{Fix}
use harbour_find_my_device.Settings
use harbour_find_my_device.Settings.Defaults.{
  mqtt_enabled, mqtt_server, auto_enable_location, auto_enable_mobile_data,
}
use harbour_find_my_device.Runtime
use harbour_find_my_device.Runtime.{Daemon, location_request_key}
use harbour_find_my_device.FixedLocation.{is_stopped}
use harbour_find_my_device.App.Location.{
  Place, Publish, Meanwhile, quiet, flushes_before, flushes_after, send_amid, flush_amid, sent_with,
  flush_with, Note, emit, notify_if, is_set, hand_over, publish_now, publish_own_location,
  flush_pending_location, LocationState, off, Answer, found, not_found, do_refresh_location,
}

-- What moves a position: a refresh, of the owner or of the foreground polling, and a new connection.
pub data Event : Type 0 where
  refreshed :
      (notify notify_fail : Bool) (fixed : Option Fix) (state : LocationState) (answer : Answer)
      (publish : Publish) (now : ℕ)
      → Event
  connected : (client taken : Bool) → Event

unfoldable pub step : Text → Event → Place → Place
step own (refreshed notify notify_fail fixed state answer publish now) p =
    (do_refresh_location own notify notify_fail fixed state answer publish now p).1
step own (connected client taken) p = flush_pending_location client taken p

unfoldable pub run : Text → List Event → Place → Place
run own [] p = p
run own (e ∷ es) p = run own es (step own e p)

-- MQTT is set up in the settings
abbrev pub IsSetUp : Db → Type 0
IsSetUp db = (Settings.get_bool mqtt_enabled db && is_set (Settings.get mqtt_server db)) ≡ true

-- the position that a refresh yields
abbrev pub taken_fix : Option Fix → LocationState → Answer → Bool → Option Fix
taken_fix (some fixed) state answer auto = some fixed
taken_fix none state (not_found err) auto = none
taken_fix none off (found fix) auto = if auto then some fix else none
taken_fix none _ (found fix) auto = some fix

abbrev pub newer : Option Fix → Option Fix → Option Fix
newer (some fix) last = some fix
newer none last = last

-- the newest position of the events, `auto` being the switch for enabling the location
abbrev pub newest : Bool → Option Fix → List Event → Option Fix
newest auto last [] = last
newest auto last (refreshed notify notify_fail fixed state answer publish now ∷ es) =
    newest auto (newer (taken_fix fixed state answer auto) last) es
newest auto last (connected client taken ∷ es) = newest auto last es

abbrev pub IsAmong : Fix → List Fix → Type 0
IsAmong fix [] = ⊥
IsAmong fix (x ∷ xs) = (x ≡ fix) ⊎ IsAmong fix xs

-- `fix` is pending, or nothing is and it was published
abbrev pub IsKept : Option Fix → Place → Type 0
IsKept none p = Unit
IsKept (some fix) p = (p.pending ≡ some fix) ⊎ ((p.pending ≡ none) × IsAmong fix p.sent)

abbrev pub auto_of : Db → Bool
auto_of db = Settings.get_bool auto_enable_location db

-- the parts that the notes to the page and the requests to the daemons leave alone
abbrev pub Same : Place → Place → Type 0
Same q p = (q.pending ≡ p.pending) × (q.sent ≡ p.sent) × (q.db.settings ≡ p.db.settings)

pub Same-notify_if : (wanted : Bool) (n : Note) (p : Place) → Same (notify_if wanted n p) p
unfolding notify_if emit
Same-notify_if true n p = (refl, refl, refl)
Same-notify_if false n p = (refl, refl, refl)

pub Same-hand_over : (now : ℕ) (p : Place) → Same (hand_over now p) p
unfolding hand_over Runtime.request Runtime.set
Same-hand_over now p =
    elim (Bool-cases (
      Settings.get_bool auto_enable_mobile_data p.db
      && not (is_stopped (Runtime.daemon_status Daemon.cmd now p.db)))) [
        | inl y ↦ simp y (refl, refl, refl)
        | inr n ↦ simp n (refl, refl, refl)
      ]

pub IsKept-Same : (last : Option Fix) (q p : Place) → Same q p → IsKept last p → IsKept last q
IsKept-Same none q p s k = tt
IsKept-Same (some fix) q p (a, b, c) k = rw (a, b) k

pub setup-settings : (a b : Db) → a.settings ≡ b.settings → IsSetUp b → IsSetUp a
unfolding Settings.get_bool Settings.get
setup-settings a b e h = rw e h

pub auto-settings : (a b : Db) → a.settings ≡ b.settings → auto_of a ≡ auto_of b
unfolding Settings.get_bool Settings.get
auto-settings a b e = rw e

settings-flush :
    (o : Option Fix) (taken : Bool) (p : Place) → (flush_with o taken p).db.settings ≡ p.db.settings
unfolding flush_with
settings-flush none taken p = refl
settings-flush (some fix) true p = refl
settings-flush (some fix) false p = refl

-- a flush takes nothing back that was published
IsAmong-flush :
    (o : Option Fix) (taken : Bool) (fix : Fix) (p : Place)
    → IsAmong fix p.sent
    → IsAmong fix (flush_with o taken p).sent
unfolding flush_with
IsAmong-flush none taken fix p h = h
IsAmong-flush (some f) true fix p h = inr h
IsAmong-flush (some f) false fix p h = h

send_amid-IsAmong :
    (m : Meanwhile) (fix : Fix) (p : Place)
    → IsAmong fix (send_amid m fix p).sent × ((send_amid m fix p).db.settings ≡ p.db.settings)
unfolding send_amid sent_with flush_pending_location
send_amid-IsAmong quiet fix p = (inl refl, refl)
send_amid-IsAmong (flushes_before taken) fix p = (inl refl, settings-flush p.pending taken p)
send_amid-IsAmong (flushes_after taken) fix p =
    let q : Place = record p { sent = fix ∷ p.sent } in
    (IsAmong-flush p.pending taken fix q (inl refl), settings-flush p.pending taken q)

flush_amid-settings : (m : Meanwhile) (p : Place) → (flush_amid m p).db.settings ≡ p.db.settings
unfolding flush_amid flush_pending_location
flush_amid-settings quiet p = refl
flush_amid-settings (flushes_before taken) p = settings-flush p.pending taken p
flush_amid-settings (flushes_after taken) p = settings-flush p.pending taken p

now-IsKept :
    (taken : Bool) (m : Meanwhile) (fix : Fix) (now : ℕ) (p : Place)
    → IsKept (some fix) (publish_now taken m fix now p)
      × ((publish_now taken m fix now p).db.settings ≡ p.db.settings)
unfolding publish_now
now-IsKept true m fix now p = let r = send_amid-IsAmong m fix p in (inr (refl, r.0), r.1)
now-IsKept false m fix now p =
    let waiting : Place = record (flush_amid m p) { pending = some fix } in
    let s = Same-hand_over now waiting in
    (
      IsKept-Same (some fix) (hand_over now waiting) waiting s (inl refl),
      s.2 ∙ flush_amid-settings m p,
    )

-- one position that is published
pub IsKept-publish :
    (publish : Publish) (fix : Fix) (now : ℕ) (p : Place)
    → IsSetUp p.db
    → IsKept (some fix) (publish_own_location publish fix now p)
      × ((publish_own_location publish fix now p).db.settings ≡ p.db.settings)
unfolding publish_own_location
IsKept-publish publish fix now p up = simp up (now-IsKept publish.taken publish.meanwhile fix now p)
