-- ===== src/Runtime/Snapshot.antt =====
-- `daemon_snapshot`, which reads both heartbeats and the generation in one query.
use text.Mathlib.Text.{◌==◌ as str_eq}
use harbour_find_my_device.Prelude.{
  ℕ, String, ◌≡◌, refl, Bool, true, List, [], ◌∷◌, map, any, keep, arith, eq_iff, ℤ,
}
use harbour_find_my_device.Text.{Text, codes}
use harbour_find_my_device.Text.Decimal.{parse_int}
use harbour_find_my_device.Database.{Db}
use harbour_find_my_device.Table.{lookup}
use harbour_find_my_device.Runtime.{
  get, or_else, or_zero, generation_key, generation, Daemon, gps, cmd, beat_key, state_key,
  version_key, applied_key, Heartbeat, age_of, read_heartbeat, Status, status_from, daemon_status,
}

-- `_heartbeat_keys`
abbrev heartbeat_keys : Daemon → List String
heartbeat_keys d = beat_key d ∷ state_key d ∷ version_key d ∷ applied_key d ∷ []

-- `keys`, for the daemons that the function takes when the caller names none
abbrev snapshot_keys : List String
snapshot_keys =
    generation_key
    ∷ beat_key gps
    ∷ state_key gps
    ∷ version_key gps
    ∷ applied_key gps
    ∷ beat_key cmd
    ∷ state_key cmd
    ∷ version_key cmd
    ∷ applied_key cmd
    ∷ []

in_keys : List String → String → Bool
in_keys keys key = any (λ k. str_eq k key) keys

-- SELECT Key, Value FROM runtime WHERE Key IN (…)
select_rows : List String → List (String × Text) → List (String × Text)
unfolding in_keys
select_rows keys rows = keep (λ r. in_keys keys r.0) rows

-- `data.get(key, default)`
value_of : List (String × Text) → String → Text → Text
value_of found key default = or_else default (lookup key found)

-- `_parse_heartbeat` of the rows that were read
parse_heartbeat : List (String × Text) → Daemon → ℕ → Heartbeat
unfolding value_of
parse_heartbeat found d now = record {
  age_s = age_of now (parse_int (value_of found (beat_key d) []));
  state = value_of found (state_key d) [];
  version = value_of found (version_key d) [];
  applied_generation = parse_int (value_of found (applied_key d) []);
}

shown_daemon : List (String × Text) → ℤ → ℕ → Daemon → Daemon × Heartbeat × Status
unfolding parse_heartbeat
shown_daemon found gen now d = let hb = parse_heartbeat found d now in (d, hb, status_from hb gen)

unfoldable pub daemon_snapshot : ℕ → Db → List (Daemon × Heartbeat × Status)
unfolding shown_daemon select_rows value_of
daemon_snapshot now db =
    let found = select_rows snapshot_keys db.runtime in
    let gen = or_zero (parse_int (value_of found generation_key (codes "0"))) in
    map (shown_daemon found gen now) (gps ∷ cmd ∷ [])

lookup-select_rows :
    (keys : List String) (key : String) (rows : List (String × Text))
    → in_keys keys key ≡ true
    → lookup key (select_rows keys rows) ≡ lookup key rows
unfolding lookup select_rows keep
lookup-select_rows keys key [] h = refl
lookup-select_rows keys key ((k, v) ∷ rows) h =
    ground (arith, eq_iff k key, lookup-select_rows keys key rows h)

value_of-select_rows :
    (keys : List String) (key : String) (default : Text) (db : Db)
    → in_keys keys key ≡ true
    → value_of (select_rows keys db.runtime) key default ≡ get key default db
unfolding value_of get
value_of-select_rows keys key default db h = rw (lookup-select_rows keys key db.runtime h) refl

module _ (db : Db) where
  abbrev selected : List (String × Text)
  selected = select_rows snapshot_keys db.runtime

  parse_heartbeat-selected :
      (now : ℕ) (d : Daemon) → parse_heartbeat selected d now ≡ read_heartbeat d now db
  unfolding parse_heartbeat read_heartbeat beat_key state_key version_key applied_key in_keys any
  parse_heartbeat-selected now gps =
      rw
        (
          value_of-select_rows snapshot_keys (beat_key gps) [] db refl,
          value_of-select_rows snapshot_keys (state_key gps) [] db refl,
          value_of-select_rows snapshot_keys (version_key gps) [] db refl,
          value_of-select_rows snapshot_keys (applied_key gps) [] db refl,
        )
        refl
  parse_heartbeat-selected now cmd =
      rw
        (
          value_of-select_rows snapshot_keys (beat_key cmd) [] db refl,
          value_of-select_rows snapshot_keys (state_key cmd) [] db refl,
          value_of-select_rows snapshot_keys (version_key cmd) [] db refl,
          value_of-select_rows snapshot_keys (applied_key cmd) [] db refl,
        )
        refl

  generation-selected :
      or_zero (parse_int (value_of selected generation_key (codes "0"))) ≡ generation db
  unfolding generation in_keys any
  generation-selected =
      rw (value_of-select_rows snapshot_keys generation_key (codes "0") db refl) refl

-- The snapshot of one query shows the heartbeat and the status of each daemon that the separate
-- reads give.
pub daemon_snapshot-daemon_status :
    (now : ℕ) (db : Db)
    → daemon_snapshot now db
      ≡ (gps, read_heartbeat gps now db, daemon_status gps now db)
        ∷ (cmd, read_heartbeat cmd now db, daemon_status cmd now db)
        ∷ []
unfolding daemon_snapshot shown_daemon daemon_status
daemon_snapshot-daemon_status now db =
    rw
      (
        parse_heartbeat-selected db now gps,
        parse_heartbeat-selected db now cmd,
        generation-selected db,
      )
      refl
