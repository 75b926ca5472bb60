-- ===== src/Daemon/Phase/Beating.antt =====
-- A command daemon that serves shows as running.
use harbour_find_my_device.Prelude.{
  ℕ, ◌+◌, ◌-◌, ◌≤◌, ◌<◌, ◌≡◌, refl, ◌∙◌, Bool, true, false, Option, some, List, [], ◌∷◌, leb, arith,
  ℤ, inl, inr, Bool-cases, ◌=?◌,
}
use harbour_find_my_device.Text.{Text, codes}
use harbour_find_my_device.Database.{Real, Db}
use harbour_find_my_device.Runtime
use harbour_find_my_device.Runtime.{
  Daemon, Heartbeat, read_heartbeat, daemon_status, status_from, running, age_of, is_stale,
  is_outdated, generation, write_heartbeat, consume_request, location_request_key,
  publish_request_key, bump_generation, generation_key, beat_key, state_key, version_key,
  applied_key,
}
use harbour_find_my_device.Runtime.Liveness.{read_heartbeat-write_heartbeat, beat_age}
use harbour_find_my_device.FixedLocation.{publish_wifi_state, names_to_publish}
use harbour_find_my_device.Daemon.Uploads.{Photos}
use harbour_find_my_device.Daemon.Phase.{
  Phase, Tick, begin_phase, process_location_requests, process_publish_requests, watch_channel,
  watch_uploads, beat, beat_if_due, housekeeping, is_current, watchdog, heartbeat_interval_s,
}
use harbour_find_my_device.Daemon.Phase.Heartbeats.{
  read_heartbeat-publish_names, Keeps-publish, IsBeating, read_heartbeat-set, Keeps,
  IsBeating-Keeps, Keeps-channel, Keeps-uploads, Keeps-location, IsBeating-begin,
}

-- what happens while the daemon serves: a round of the watchdog, or a wish or a save of the app
pub data Happening : Type 0 where
  ticks : Tick → Happening
  wishes_location wishes_publish : ℕ → Happening
  saves : Happening

module _ (float : Text → Option Real) (within : ℕ → Real → Bool) where
  IsBeating-beat : (t : Tick) (p : Phase) → IsBeating (beat float within t p)
  unfolding beat publish_wifi_state
  IsBeating-beat t p at =
      let db =
        write_heartbeat Daemon.cmd (codes "active") p.version (some p.generation) t.now p.db in
      read_heartbeat-publish_names (names_to_publish float within t.services db) t.saves at
        (p.published_wifi, db)
      ∙ read_heartbeat-write_heartbeat Daemon.cmd (codes "active") p.version p.generation t.now p.db
          at Daemon.cmd

  last-beat : (t : Tick) (p : Phase) → (beat float within t p).last_beat ≡ t.now
  unfolding beat
  last-beat t p = refl

  -- the beat of a round is at most 30 seconds old when the round is over
  abbrev IsRecent : ℕ → Phase → Type 0
  IsRecent now p = IsBeating p × (p.last_beat ≤ now) × (now < p.last_beat + 30)

  IsBeating-due : (t : Tick) (p : Phase) → IsBeating p → IsBeating (beat_if_due float within t p)
  unfolding beat_if_due
  IsBeating-due t p b = elim (Bool-cases (leb heartbeat_interval_s (t.now - p.last_beat))) [
    | inl y ↦ simp y (IsBeating-beat t p)
    | inr n ↦ simp n b
  ]

  IsRecent-beat :
      (t : Tick) (p : Phase)
      → IsBeating p
      → p.last_beat ≤ t.now
      → IsRecent t.now (beat_if_due float within t p)
  unfolding beat_if_due
  IsRecent-beat t p b l = elim (Bool-cases (leb heartbeat_interval_s (t.now - p.last_beat))) [
    | inl y ↦
        simp y
          (IsBeating-beat t p, rw (last-beat t p) (omega arith), rw (last-beat t p) (omega arith))
    | inr n ↦ simp n (b, l, ground arith)
  ]

  IsRecent-Keeps : (now : ℕ) (q p : Phase) → Keeps q p → IsRecent now p → IsRecent now q
  IsRecent-Keeps now q p k (b, l, h) = (IsBeating-Keeps q p k b, rw k.beats l, rw k.beats h)

  IsRecent-housekeeping :
      (t : Tick) (p : Phase)
      → IsBeating p
      → p.last_beat ≤ t.now
      → IsRecent t.now (housekeeping float within t p)
  unfolding housekeeping
  IsRecent-housekeeping t p b l =
      let a = beat_if_due float within t p in
      let c = watch_channel t.channel t.now a in
      let d = watch_uploads t c in
      let e = process_location_requests t.now d in
      IsRecent-Keeps t.now (process_publish_requests t.now e) e (Keeps-publish t.now e) (
        IsRecent-Keeps t.now e d (Keeps-location t.now d) (
          IsRecent-Keeps t.now d c (Keeps-uploads t c)
            (IsRecent-Keeps t.now c a (Keeps-channel t.channel t.now a) (IsRecent-beat t p b l))))

  -- the app's view of a phase that is current
  shows-running :
      (at now : ℕ) (p : Phase)
      → IsRecent now p
      → is_current float within p ≡ true
      → now ≤ at
      → at ≤ now + 60
      → daemon_status Daemon.cmd at p.db ≡ running
  unfolding daemon_status status_from age_of is_stale is_current ◌=?◌
  shows-running at now p (b, l, h) current early late =
      let fresh : leb (at - p.last_beat) 90 ≡ true = ground arith in
      let known : is_outdated (some p.generation) (generation p.db) ≡ false = ground arith in
      rw (b at) (rw (beat_age p.last_beat at (omega arith), fresh, known) refl)

  IsBeating-housekeeping :
      (t : Tick) (p : Phase) → IsBeating p → IsBeating (housekeeping float within t p)
  unfolding housekeeping
  IsBeating-housekeeping t p b =
      let a = beat_if_due float within t p in
      let c = watch_channel t.channel t.now a in
      let d = watch_uploads t c in
      let e = process_location_requests t.now d in
      IsBeating-Keeps (process_publish_requests t.now e) e (Keeps-publish t.now e) (
        IsBeating-Keeps e d (Keeps-location t.now d) (
          IsBeating-Keeps d c (Keeps-uploads t c)
            (IsBeating-Keeps c a (Keeps-channel t.channel t.now a) (IsBeating-due t p b))))

  unfoldable pub step : Happening → Phase → Phase
  step (ticks t) p = (watchdog float within t p).1
  step (wishes_location now) p = record p { db = Runtime.request location_request_key now p.db }
  step (wishes_publish now) p = record p { db = Runtime.request publish_request_key now p.db }
  step saves p = record p { db = (bump_generation p.db).1 }

  unfoldable pub history : List Happening → Phase → Phase
  history [] p = p
  history (e ∷ es) p = history es (step e p)

  IsBeating-watchdog :
      (t : Tick) (p : Phase) → IsBeating p → IsBeating (watchdog float within t p).1
  unfolding watchdog
  IsBeating-watchdog t p b = elim (Bool-cases t.stopping) [
    | inl y ↦ simp y b
    | inr n ↦ simp n (IsBeating-housekeeping t p b)
  ]

  IsBeating-step : (e : Happening) (p : Phase) → IsBeating p → IsBeating (step e p)
  unfolding step Runtime.request bump_generation beat_key state_key version_key applied_key
  IsBeating-step (ticks t) p b = IsBeating-watchdog t p b
  IsBeating-step (wishes_location now) p b =
      λ at. read_heartbeat-set location_request_key _ at p.db (refl, refl, refl, refl) ∙ b at
  IsBeating-step (wishes_publish now) p b =
      λ at. read_heartbeat-set publish_request_key _ at p.db (refl, refl, refl, refl) ∙ b at
  IsBeating-step saves p b =
      λ at. read_heartbeat-set generation_key _ at p.db (refl, refl, refl, refl) ∙ b at

  IsBeating-history : (es : List Happening) (p : Phase) → IsBeating p → IsBeating (history es p)
  unfolding history
  IsBeating-history [] p b = b
  IsBeating-history (e ∷ es) p b = IsBeating-history es (step e p) (IsBeating-step e p b)

  -- After a round of the watchdog that goes on, the app shows the command daemon as running for the
  -- next 60 seconds: whatever rounds, wishes and saves of the app came before in this phase, and
  -- whatever it met in them. The condition: the clock of the round is not before the last heartbeat.
  pub daemon_status-watchdog :
      (gen : ℤ) (version : Text) (photos : Photos) (wifi : Option Text) (start : ℕ) (db : Db)
      (es : List Happening) (t : Tick) (at : ℕ)
      → let p = history es (begin_phase gen version photos wifi start db) in
        p.last_beat ≤ t.now
        → (watchdog float within t p).0 ≡ true
        → t.now ≤ at
        → at ≤ t.now + 60
        → daemon_status Daemon.cmd at (watchdog float within t p).1.db ≡ running
  unfolding watchdog
  daemon_status-watchdog gen version photos wifi start db es t at l go early late =
      let p = history es (begin_phase gen version photos wifi start db) in
      let b =
        IsBeating-history es (begin_phase gen version photos wifi start db)
          (IsBeating-begin gen version photos wifi start db) in
      elim (Bool-cases t.stopping) [
        | inl y ↦ absurd (cc (simp y at go))
        | inr n ↦ simp n (
            shows-running at t.now (housekeeping float within t p) (IsRecent-housekeeping t p b l)
              (simp n at go) early late)
      ]
