-- ===== src/Runtime/Liveness.antt =====
-- The status that the app derives from the heartbeats of a daemon.
use harbour_find_my_device.Prelude.{
  ℕ, ◌+◌, ◌-◌, ◌≤◌, ◌<◌, ◌≡◌, refl, true, false, some, [], arith, leb, ◌=?◌, if◌then◌else◌, ℤ, pos,
  negsuc, ◌-ℤ◌, pos_part,
}
use harbour_find_my_device.Text.{Text, codes}
use harbour_find_my_device.Text.Decimal.{show_int, parse_int-show_int}
use harbour_find_my_device.Database.{Db}
use harbour_find_my_device.Runtime.{
  get, generation, Daemon, gps, cmd, beat_key, state_key, version_key, applied_key, write_applied,
  write_heartbeat, age_of, read_heartbeat, running, deactivated, not_installed_or_stopped, is_stale,
  is_outdated, status_from, daemon_status,
}
use harbour_find_my_device.Runtime.Signals.{get-set_key, get-set_self}

pub beat_age : (made now : ℕ) → made ≤ now → pos_part (pos now -ℤ pos made) ≡ now - made
unfolding ◌-ℤ◌
beat_age made now h = ground arith

module _ (d : Daemon) (state version : Text) (gen : ℤ) (made : ℕ) (db : Db) where
  generation-beaten :
      (d : Daemon) → generation (write_heartbeat d state version (some gen) made db) ≡ generation db
  unfolding generation write_heartbeat write_applied applied_key version_key state_key beat_key
  generation-beaten gps = rw (get-set_key, get-set_key, get-set_key, get-set_key) refl
  generation-beaten cmd = rw (get-set_key, get-set_key, get-set_key, get-set_key) refl

  get-beat_key :
      (d : Daemon)
      → get (beat_key d) [] (write_heartbeat d state version (some gen) made db)
        ≡ show_int (pos made)
  unfolding write_heartbeat write_applied applied_key version_key state_key beat_key
  get-beat_key gps = rw (get-set_key, get-set_key, get-set_key, get-set_key) refl
  get-beat_key cmd = rw (get-set_key, get-set_key, get-set_key, get-set_key) refl

  get-state_key :
      (d : Daemon)
      → get (state_key d) [] (write_heartbeat d state version (some gen) made db) ≡ state
  unfolding write_heartbeat write_applied applied_key version_key state_key beat_key
  get-state_key gps = rw (get-set_key, get-set_key, get-set_key) refl
  get-state_key cmd = rw (get-set_key, get-set_key, get-set_key) refl

  get-version_key :
      (d : Daemon)
      → get (version_key d) [] (write_heartbeat d state version (some gen) made db) ≡ version
  unfolding write_heartbeat write_applied applied_key version_key state_key beat_key
  get-version_key gps = rw (get-set_key, get-set_key) refl
  get-version_key cmd = rw (get-set_key, get-set_key) refl

  get-applied_key :
      (d : Daemon)
      → get (applied_key d) [] (write_heartbeat d state version (some gen) made db) ≡ show_int gen
  unfolding write_heartbeat write_applied
  get-applied_key d = rw get-set_self refl

  pub read_heartbeat-write_heartbeat :
      (now : ℕ) (d : Daemon)
      → read_heartbeat d now (write_heartbeat d state version (some gen) made db) ≡ record {
        age_s = age_of now (some (pos made));
        state = state;
        version = version;
        applied_generation = some gen;
      }
  unfolding read_heartbeat
  read_heartbeat-write_heartbeat now d =
      rw
        (
          get-beat_key d,
          get-state_key d,
          get-version_key d,
          get-applied_key d,
          parse_int-show_int gen,
          parse_int-show_int (pos made),
        )
        refl

same_ℤ : (a : ℤ) → is_outdated (some a) a ≡ false
unfolding is_outdated
same_ℤ (pos n) = ground arith
same_ℤ (negsuc n) = ground arith

-- A daemon that has applied the current settings, and whose last heartbeat is at most 90 seconds old,
-- shows as running when the state it reported is "active", and else as deactivated.
pub daemon_status-write_heartbeat :
    (d : Daemon) (state version : Text) (made now : ℕ) (db : Db)
    → made ≤ now
    → now ≤ made + 90
    → daemon_status d now (write_heartbeat d state version (some (generation db)) made db)
      ≡ (if state =? codes "active" then running else deactivated)
unfolding daemon_status status_from age_of is_stale
daemon_status-write_heartbeat d state version made now db h h' =
    let fresh : leb (now - made) 90 ≡ true = ground arith in
    rw
      (
        read_heartbeat-write_heartbeat,
        generation-beaten,
        beat_age made now h,
        fresh,
        same_ℤ (generation db),
      )
      refl

-- A daemon whose last heartbeat is more than 90 seconds old shows as not installed or stopped,
-- whatever it reported and whatever the settings are.
pub daemon_status_stale :
    (d : Daemon) (state version : Text) (gen : ℤ) (made now : ℕ) (db : Db)
    → made + 90 < now
    → daemon_status d now (write_heartbeat d state version (some gen) made db)
      ≡ not_installed_or_stopped
unfolding daemon_status status_from age_of is_stale
daemon_status_stale d state version gen made now db h =
    let stale : leb (now - made) 90 ≡ false = ground arith in
    rw (read_heartbeat-write_heartbeat, beat_age made now (omega arith), stale) refl
