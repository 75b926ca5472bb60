-- ===== src/Examples/Services.antt =====
-- The privileged helper and the fixed location.
use harbour_find_my_device.Obfuscation.{deobfuscate, is_marked}
use harbour_find_my_device.Codec.Base64.{b64decode}
use harbour_find_my_device.Text.Decimal.{parse_int, show_int, show_nat}
use harbour_find_my_device.Settings.Defaults.{default_of, defaults, is_secret}
use harbour_find_my_device.Table.{lookup, upsert}
use harbour_find_my_device.Settings.{get, or_blank, shown}
use harbour_find_my_device.Prelude.{
  length, ℕ, ◌+◌, ◌≤◌, ◌≡◌, refl, Bool, true, Option, none, some, List, [], ◌∷◌, ◌++◌, ◌=?◌, ◌-ℤ◌,
  any,
}
use harbour_find_my_device.Text.{
  Text, codes, starts_with, is_empty, strip, is_digit, is_space, lstrip, push, rstrip, split_on,
}
use harbour_find_my_device.Database.{Real, Db}
use harbour_find_my_device.Spool.{
  Written, Spool, Action, reboot, send_sms, queue, request_for, find_file, json, work, plain_file,
  request,
}
use harbour_find_my_device.Spool.Service.{Turn, calm, after_action, serve, requests, is_hidden}
use harbour_find_my_device.Spool.Counts.{acted, waiting}
use harbour_find_my_device.Spool.Once.{Event, queues, runs, history, acted-history}
use harbour_find_my_device.Spool.Trust.{AllAsked, asked-serve}
use harbour_find_my_device.Spool.Done.{serve-queue}
use harbour_find_my_device.FixedLocation.{
  Service, match, connected_wifi, connected_wifi_names, publish_wifi_state, names_to_publish,
  configured, is_stopped, coordinates, in_range, is_configured, two_floats, wifi_names,
}
use harbour_find_my_device.FixedLocation.Mirror.{IsMirrored, match-publish_wifi_state}
use harbour_find_my_device.Runtime
use harbour_find_my_device.Runtime.{
  Daemon, write_heartbeat, daemon_status, running, generation, set, status_from, read_heartbeat,
  age_of, applied_key, beat_key, is_outdated, is_stale, or_else, or_zero, state_key, version_key,
  write_applied,
}
use harbour_find_my_device.Examples.{sample}

abbrev written : Written
written = record {
  name = codes "req-1";
  uid = 100000;
  creates = true;
  writes = true;
  renames = true;
  cleans = true;
}

-- a service that is killed just after it has begun the reboot
abbrev killed : Text → Turn
killed name = record calm { dies = after_action }

abbrev twice : List Event
twice =
    queues written (request_for reboot)
    ∷ runs (λ n. true) killed
    ∷ runs (λ n. true) (λ n. calm)
    ∷ []

acted-history_example :
    acted (codes "req-1") (history 100000 twice ([], [])).1
      + waiting (codes "req-1") (history 100000 twice ([], [])).0
    ≤ 0 + 0 + 1
unfolding ◌=?◌
acted-history_example =
    acted-history (codes "req-1") 100000 twice ([], []) ((λ n. refl), ((λ n. refl), tt))

abbrev spool : Spool
spool =
    record {
      name = codes "req-1";
      ext = json;
      file = plain_file 100000 (request (request_for reboot));
    }
    ∷ []

asked-serve_example :
    AllAsked 100000 (λ n. calm) spool (serve 100000 (λ n. true) (λ n. calm) (spool, [])).1
asked-serve_example = asked-serve 100000 (λ n. true) (λ n. calm) spool

abbrev sms : Action
sms = send_sms (codes "+49") (codes "hello")

serve-queue_example :
    let q = queue written (request_for sms) [] in
    let s = serve 100000 (λ _. true) (λ _. calm) (q.1, []) in
    (q.0 ≡ true)
    × (s.1 ≡ [] ++ ((codes "req-1", sms) ∷ []))
    × (find_file (codes "req-1") json s.0 ≡ none)
    × (find_file (codes "req-1") work s.0 ≡ none)
unfolding is_hidden starts_with is_empty requests
serve-queue_example =
    serve-queue 100000 written sms (λ _. true) [] [] refl refl refl refl refl refl refl

-- a connected network
abbrev home : Service
home = record { name = codes "home"; kind = codes "wifi"; state = codes "online" }

abbrev no_float : Text → Option Real
no_float t = none

abbrev anywhere : ℕ → Real → Bool
anywhere n x = true

-- a network whose coordinates are in the settings
abbrev chosen : Db
chosen = record sample {
  settings =
      ("fixed_location_wifi", some (codes "home"))
      ∷ ("fixed_location_coords", some (codes "48.1, 11.5"))
      ∷ [];
}

-- a stand-in for Python's float: the length
abbrev a_float : Text → Option Real
a_float t = some (length t)

abbrev beating_db : Db
beating_db = write_heartbeat Daemon.cmd (codes "active") [] (some (generation chosen)) 1000 chosen

match-publish_wifi_state_example :
    let t = publish_wifi_state a_float anywhere (some (home ∷ [])) true (none, beating_db) in
    (match a_float anywhere (connected_wifi 1005 t.1) t.1
      ≡ match a_float anywhere (connected_wifi_names (some (home ∷ []))) beating_db)
    × IsMirrored t
unfolding names_to_publish configured is_empty strip get lookup write_heartbeat set default_of
    defaults is_stopped daemon_status status_from read_heartbeat parse_int Runtime.get upsert
    b64decode connected_wifi_names coordinates in_range is_configured two_floats wifi_names
    deobfuscate is_marked ◌-ℤ◌ ◌=?◌ age_of applied_key beat_key generation is_outdated is_stale
    or_else or_zero state_key version_key write_applied is_secret or_blank shown show_int show_nat
    is_digit is_space lstrip push rstrip split_on starts_with any
match-publish_wifi_state_example =
    match-publish_wifi_state a_float anywhere (some (home ∷ [])) 1005 (none, beating_db) (λ v e. cc)
      ((refl, refl), tt) refl
