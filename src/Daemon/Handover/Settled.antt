-- ===== src/Daemon/Handover/Settled.antt =====
-- A burst of state changes leads to one reconnect, and a reconnect is left out only where the channel
-- works and goes the way that the kernel would choose.
use harbour_find_my_device.Prelude.{
  ℕ, ◌+◌, ◌≡◌, refl, true, false, ◌&&◌, Option, none, some, List, [], ◌∷◌, keep, ◌==◌, ◌=?◌, =?_iff,
  ap, ◌⊎◌, arith, if◌then◌else◌, inl, inr, Bool-cases,
}
use harbour_find_my_device.Text.{Text, codes}
use harbour_find_my_device.Mqtt.{Client, Start, force_reconnect, is_really_connected}
use harbour_find_my_device.Mqtt.Health.{health_defect, subscriptions_ok, is_stale}
use harbour_find_my_device.Daemon.Handover.{
  Timer, Watcher, new_watcher, settle_s, is_actionable, cancel, rearm, on_property_changed,
  same_address, is_healthy, Probe, is_settled, reconnect_client,
}

-- a signal of ConnMan: the name of the property, its value, and when it comes
abbrev pub Change : Type 0
Change = Text × (Text × ℕ)

unfoldable pub burst : List Change → Watcher → Watcher
burst [] w = w
burst ((name, (value, now)) ∷ rest) w = burst rest (on_property_changed name value now w)

-- the last change to a state that is worth a reconnect
abbrev pub last_worth : Option (Text × ℕ) → List Change → Option (Text × ℕ)
last_worth last [] = last
last_worth last ((name, (value, now)) ∷ rest) =
    last_worth (if name =? codes "State" && is_actionable value then some (value, now) else last)
      rest

-- the one timer that the last change has set
abbrev pub IsSettling : Option (Text × ℕ) → Watcher → Type 0
IsSettling none w = (w.timer ≡ none) × (w.armed ≡ [])
IsSettling (some (value, now)) w =
    (t : Timer) × (w.armed ≡ t ∷ [])
    × (w.timer ≡ some t.serial)
    × (t.at ≡ now + settle_s)
    × (w.state ≡ some value)

==_refl : (n : ℕ) → (n == n) ≡ true
==_refl n = ground arith

cancel-settling :
    (last : Option (Text × ℕ)) (w : Watcher) → IsSettling last w → cancel w.timer w.armed ≡ []
unfolding cancel keep
cancel-settling none w h = rw (h.0, h.1)
cancel-settling (some (value, now)) w (t, a, s, x, y) = rw (a, s) (rw (==_refl t.serial) refl)

IsSettling-change :
    (name value : Text) (now : ℕ) (last : Option (Text × ℕ)) (w : Watcher)
    → IsSettling last w
    → IsSettling
        (if name =? codes "State" && is_actionable value then some (value, now) else last)
        (on_property_changed name value now w)
unfolding on_property_changed rearm
IsSettling-change name value now last w h = elim (Bool-cases (name =? codes "State")) [
  | inl y ↦ elim (Bool-cases (is_actionable value)) [
    | inl z ↦
        simp (y, z)
          (
            record { serial = w.next; at = now + settle_s },
            rw (cancel-settling last w h) refl,
            refl,
            refl,
            refl,
          )
    | inr z ↦ simp (y, z) h
  ]
  | inr n ↦ simp n h
]

IsSettling-burst :
    (changes : List Change) (last : Option (Text × ℕ)) (w : Watcher)
    → IsSettling last w
    → IsSettling (last_worth last changes) (burst changes w)
unfolding burst
IsSettling-burst [] last w h = h
IsSettling-burst ((name, (value, now)) ∷ rest) last w h =
    IsSettling-burst rest
      (if name =? codes "State" && is_actionable value then some (value, now) else last)
      (on_property_changed name value now w) (IsSettling-change name value now last w h)

-- However many signals of ConnMan a new watcher gets before a timer fires: one timer waits, which fires
-- five seconds after the last change of the state to "ready" or "online" and for that state, and
-- none waits where there was no such change.
pub IsSettling-new :
    (changes : List Change) → IsSettling (last_worth none changes) (burst changes new_watcher)
IsSettling-new changes = IsSettling-burst changes none new_watcher (refl, refl)

-- The channel works: its network thread runs and it is connected, its subscriptions are confirmed and
-- its health check is not stale, and its socket has the address that the kernel would choose now.
abbrev pub IsSound : Probe → Client → Type 0
IsSound p c =
    (p.thread ≡ true)
    × (is_really_connected p.paho c ≡ true)
    × (subscriptions_ok c ≡ true)
    × (is_stale p.now c ≡ false)
    × ((ip : Text) × (p.ip ≡ some ip) × (p.preferred ≡ some ip))

same-address :
    (a b : Option Text) → same_address a b ≡ true → (ip : Text) × (a ≡ some ip) × (b ≡ some ip)
unfolding same_address
same-address none none h = cc
same-address none (some b) h = cc
same-address (some a) none h = cc
same-address (some a) (some b) h = (a, refl, ap some ((=?_iff b a).0 h))

healthy :
    (p : Probe) (c : Client)
    → is_healthy (health_defect p.paho p.thread p.now c) ≡ true
    → (p.thread ≡ true)
      × (is_really_connected p.paho c ≡ true)
      × (subscriptions_ok c ≡ true)
      × (is_stale p.now c ≡ false)
unfolding health_defect is_healthy
healthy p c h = ground arith

-- When the watcher fires while the daemon is not shutting down, either it reconnects the client, or it
-- leaves the client as it is and the channel works and has the address that the kernel would choose.
pub reconnect_client-IsSound :
    (p : Probe) (start : Start) (c : Client)
    → (reconnect_client false p start (some c) ≡ some ((force_reconnect start c).1))
      ⊎ ((reconnect_client false p start (some c) ≡ some c) × IsSound p c)
unfolding reconnect_client is_settled
reconnect_client-IsSound p start c = elim (Bool-cases (is_settled p c)) [
  | inl y ↦
      let h = healthy p c (ground arith) in
      let a = same-address p.ip p.preferred (ground arith) in
      inr (rw y refl, (h.0, h.1, h.2, h.3, a))
  | inr n ↦ inl (rw n refl)
]
