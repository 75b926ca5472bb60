-- ===== src/Daemon/Phase/Heartbeats.antt =====
-- The heartbeat of a phase in the database, and the housekeeping that leaves it alone.
use harbour_find_my_device.Prelude.{
  ℕ, ◌≡◌, refl, ◌∙◌, String, Bool, false, Option, none, some, List, [], ℤ, pos, inl, inr,
  Bool-cases,
}
use text.Mathlib.Text.{◌==◌ as str_eq}
use harbour_find_my_device.Text.{Text, codes, is_empty}
use harbour_find_my_device.Database.{Db}
use harbour_find_my_device.Runtime
use harbour_find_my_device.Runtime.{
  Daemon, Heartbeat, read_heartbeat, daemon_status, status_from, running, age_of, is_stale,
  is_outdated, generation, write_heartbeat, consume_request, location_request_key,
  publish_request_key, bump_generation, generation_key, beat_key, state_key, version_key,
  applied_key,
}
use harbour_find_my_device.Runtime.Signals.{get-set_key}
use harbour_find_my_device.Runtime.Liveness.{read_heartbeat-write_heartbeat}
use harbour_find_my_device.FixedLocation.{
  publish_names, set_connected_wifi, same_value, join_lines, connected_wifi_key,
}
use harbour_find_my_device.Text.Sort.{sorted}
use harbour_find_my_device.Mqtt.Health.{Defect}
use harbour_find_my_device.Daemon.Uploads.{Photos}
use harbour_find_my_device.Daemon.Phase.{
  Phase, Tick, begin_phase, process_location_requests, process_publish_requests, watch_channel,
  watch_uploads,
}

-- The heartbeat in the database is that of the phase, whatever the time.
abbrev pub Beats : Phase → Db → Type 0
Beats p db =
    (at : ℕ)
    → read_heartbeat Daemon.cmd at db ≡ record {
      age_s = age_of at (some (pos p.last_beat));
      state = codes "active";
      version = p.version;
      applied_generation = some p.generation;
    }

abbrev pub IsBeating : Phase → Type 0
IsBeating p = Beats p p.db

-- a key that no heartbeat of the command daemon has
abbrev pub IsOther : String → Type 0
IsOther key =
    (str_eq key (beat_key Daemon.cmd) ≡ false)
    × (str_eq key (state_key Daemon.cmd) ≡ false)
    × (str_eq key (version_key Daemon.cmd) ≡ false)
    × (str_eq key (applied_key Daemon.cmd) ≡ false)

pub read_heartbeat-set :
    (key : String) (value : Text) (at : ℕ) (db : Db)
    → IsOther key
    → read_heartbeat Daemon.cmd at (Runtime.set key value db) ≡ read_heartbeat Daemon.cmd at db
unfolding read_heartbeat
read_heartbeat-set key value at db (b, s, v, a) = simp (get-set_key, b, s, v, a) refl

pub read_heartbeat-consume :
    (key : String) (age now at : ℕ) (db : Db)
    → IsOther key
    → read_heartbeat Daemon.cmd at (consume_request key age now db).1
      ≡ read_heartbeat Daemon.cmd at db
unfolding consume_request
read_heartbeat-consume key age now at db other =
    elim (Bool-cases (is_empty (Runtime.get key [] db))) [
      | inl y ↦ simp y refl
      | inr n ↦ simp n (read_heartbeat-set key [] at db other)
    ]

pub read_heartbeat-publish_names :
    (names : List Text) (saves : Bool) (at : ℕ) (s : Option Text × Db)
    → read_heartbeat Daemon.cmd at (publish_names names saves s).1
      ≡ read_heartbeat Daemon.cmd at s.1
unfolding publish_names set_connected_wifi beat_key state_key version_key applied_key
read_heartbeat-publish_names names saves at s =
    elim (Bool-cases (same_value (join_lines (sorted names)) s.0)) [
      | inl y ↦ simp y refl
      | inr n ↦ elim (Bool-cases saves) [
        | inl z ↦
            simp (n, z)
              (read_heartbeat-set connected_wifi_key (join_lines (sorted names)) at s.1
                (refl, refl, refl, refl))
        | inr z ↦ simp (n, z) refl
      ]
    ]

-- a part of the housekeeping that writes no heartbeat
pub record Keeps (q p : Phase) : Type 0 where
  pub beats : q.last_beat ≡ p.last_beat
  pub versions : q.version ≡ p.version
  pub generations : q.generation ≡ p.generation
  pub reads : (at : ℕ) → read_heartbeat Daemon.cmd at q.db ≡ read_heartbeat Daemon.cmd at p.db

pub IsBeating-Keeps : (q p : Phase) → Keeps q p → IsBeating p → IsBeating q
IsBeating-Keeps q p k b at = rw (k.beats, k.versions, k.generations) (k.reads at ∙ b at)

pub Keeps-channel :
    (c : Option (Bool × Option Defect)) (now : ℕ) (p : Phase) → Keeps (watch_channel c now p) p
unfolding watch_channel
Keeps-channel none now p = record {
  beats = refl;
  versions = refl;
  generations = refl;
  reads = λ at. refl;
}
Keeps-channel (some (repairing, seen)) now p = record {
  beats = refl;
  versions = refl;
  generations = refl;
  reads = λ at. refl;
}

pub Keeps-uploads : (t : Tick) (p : Phase) → Keeps (watch_uploads t p) p
unfolding watch_uploads
Keeps-uploads t p = record { beats = refl; versions = refl; generations = refl; reads = λ at. refl }

pub Keeps-location : (now : ℕ) (p : Phase) → Keeps (process_location_requests now p) p
unfolding process_location_requests beat_key state_key version_key applied_key
Keeps-location now p = record {
  beats = refl;
  versions = refl;
  generations = refl;
  reads =
      λ at. read_heartbeat-consume location_request_key 300 now at p.db (refl, refl, refl, refl);
}

pub Keeps-publish : (now : ℕ) (p : Phase) → Keeps (process_publish_requests now p) p
unfolding process_publish_requests beat_key state_key version_key applied_key
Keeps-publish now p = record {
  beats = refl;
  versions = refl;
  generations = refl;
  reads = λ at. read_heartbeat-consume publish_request_key 600 now at p.db (refl, refl, refl, refl);
}

pub IsBeating-begin :
    (gen : ℤ) (version : Text) (photos : Photos) (wifi : Option Text) (now : ℕ) (db : Db)
    → IsBeating (begin_phase gen version photos wifi now db)
unfolding begin_phase
IsBeating-begin gen version photos wifi now db at =
    read_heartbeat-write_heartbeat Daemon.cmd (codes "active") version gen now db at Daemon.cmd
