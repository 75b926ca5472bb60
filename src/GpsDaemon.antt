-- ===== src/GpsDaemon.antt =====
-- daemon-rpm/src/daemon_gps.py: one cycle of the GPS daemon, the fix that waits for a connection, and
-- the naps between the cycles. The state of a cycle is that of the phone (mobile data); the database
-- and the pending fix are passed along. What the position provider, ConnMan and the clock answer is
-- part of a cycle.
pub mod Delivery
pub mod Positions
pub mod Naps
use harbour_find_my_device.Prelude.{
  ℕ, ◌+◌, ◌*◌, Bool, true, false, not, ◌&&◌, ◌||◌, Option, none, some, List, [], ◌∷◌, leb, ltb,
  if◌then◌else◌, ℤ, leb_ℤ,
}
use harbour_find_my_device.Text.{Text, is_empty}
use harbour_find_my_device.Exception.{Result, ok, raise, integrity_error}
use harbour_find_my_device.Database.{Real, Device, Db, Sql}
use harbour_find_my_device.Devices.{ensure_own_device}
use harbour_find_my_device.Gps.{Fix, store_fix}
use harbour_find_my_device.Settings.{get, get_bool}
use harbour_find_my_device.Settings.Defaults.{
  mqtt_enabled, mqtt_server, auto_enable_location, auto_enable_mobile_data,
}
use harbour_find_my_device.Runtime.{generation}
use harbour_find_my_device.Mqtt.Publish.{Once, publish_location_once}
use harbour_find_my_device.MobileData.{Phone, Session}
use harbour_find_my_device.MobileData.Calls.{Io, pure, ◌>>=◌}
use harbour_find_my_device.MobileData.Sessions.{Setting, temporarily_enabled}

-- the fields of a published position, with the id of the device
abbrev pub Payload : Type 0
Payload = Option Text × Fix

-- why `needs_enable` says that location must be switched on
pub data Why : Type 0 where
  off no_gps : Why

-- what surrounds one cycle
pub record Cycle : Type 0 where
  pub draw : ℕ → Text  -- the ids that are generated
  pub now : Text
  pub fixed : Option (Real × Real)  -- `fixed_location.get()`
  pub fixed_times : Text × Text  -- UTC and local
  pub fixed_speed : Real
  pub fixed_accuracy : Real
  pub battery : Option ℕ
  pub why : Option Why
  pub found : Option Fix  -- the fix, when there is one
  pub stopping : Bool  -- `_stop` after the wait for the fix
  pub after : Db  -- the database after that wait
  pub have_paho : Bool
  pub once : Once
  pub setting : Setting  -- the session of mobile data

-- `own_device_id`
unfoldable pub id_of : Option Device → Option Text
id_of none = none
id_of (some d) = some d.device_id

unfoldable pub with_id : Result (Option Device × Db) → Result (Option Text × Db)
unfolding id_of
with_id (ok r) = ok (id_of r.0, r.1)
with_id (raise e) = raise e

unfoldable pub own_device_id : (ℕ → Text) → Text → Sql (Option Text)
unfolding with_id
own_device_id draw now db = with_id (ensure_own_device draw now db)

unfoldable pub has_server : Option Text → Bool
has_server none = false
has_server (some server) = not (is_empty server)

unfoldable pub server_text : Option Text → Text
server_text none = []
server_text (some server) = server

unfoldable pub online_timeout : ℕ
online_timeout = 30000

-- `_connect_and_publish`
unfoldable pub connect_and_publish : Cycle → Db → Session → Io Phone Bool
unfolding server_text
connect_and_publish c db session =
    pure (publish_location_once c.once (server_text (get mqtt_server db)) c.have_paho).0

-- there is something to publish to
unfoldable pub is_configured : Cycle → Db → Bool
unfolding has_server
is_configured c db = get_bool mqtt_enabled db && has_server (get mqtt_server db) && c.have_paho

unfoldable pub publish_if : Bool → Cycle → Db → Io Phone Bool
unfolding online_timeout
publish_if false c db = pure true
publish_if true c db =
    temporarily_enabled (get_bool auto_enable_mobile_data db) c.setting online_timeout
      (connect_and_publish c db)

-- `_publish`
unfoldable pub publish : Cycle → Db → Io Phone Bool
unfolding publish_if
publish c db = publish_if (is_configured c db) c db

unfoldable pub keep_unless : Bool → Payload → Option Payload
keep_unless true payload = none
keep_unless false payload = some payload

-- `_publish_new`; the fix that was pending gives way first
unfoldable pub publish_new : Cycle → Db → Payload → Io Phone (Option Payload)
unfolding keep_unless
publish_new c db payload = do delivered ← publish c db; pure (keep_unless delivered payload)

unfoldable pub flush_found : Bool → Cycle → Db → Option Payload → Io Phone (Option Payload)
unfolding keep_unless
flush_found enabled c db none = pure none
flush_found false c db (some payload) = pure none
flush_found true c db (some payload) = do
  delivered ← publish c db
  pure (keep_unless delivered payload)

-- `_flush_pending`
unfoldable pub flush_pending : Cycle → Db → Option Payload → Io Phone (Option Payload)
unfolding flush_found
flush_pending c db pending = flush_found (get_bool mqtt_enabled db) c db pending

-- What a cycle leaves. An error that ends it is only logged by the loop.
pub record Done : Type 0 where
  pub pending : Option Payload
  pub db : Db
  pub location_enabled : Bool

unfoldable pub fixed_fix : Cycle → Real × Real → Fix
fixed_fix c place = record {
  timestamp_utc = c.fixed_times.0;
  timestamp_local = some c.fixed_times.1;
  lat = some place.0;
  lon = some place.1;
  alt = none;
  speed = some c.fixed_speed;
  accuracy = some c.fixed_accuracy;
  battery = c.battery;
}

unfoldable pub with_battery : Cycle → Fix → Fix
with_battery c fix = record fix { battery = c.battery }

module _ (c : Cycle) (located : Bool) where
  -- stores the fix, for which the device id must not be NULL, and publishes it
  unfoldable pub store_and_publish : Option Text → Fix → Option Payload → Db → Io Phone Done
  store_and_publish none fix pending db =
      pure (record { pending = pending; db = db; location_enabled = located })
  store_and_publish (some k) fix pending db =
      let stored = (store_fix k fix true db).1 in
      do
        kept ← publish_new c stored (some k, fix)
        pure (record { pending = kept; db = stored; location_enabled = located })

  unfoldable pub flush_and_return : Option Payload → Db → Io Phone Done
  flush_and_return pending db = do
    kept ← flush_pending c db pending
    pure (record { pending = kept; db = db; location_enabled = located })

  unfoldable pub has_changed : Option ℤ → ℤ → Bool
  has_changed none now = false
  has_changed (some gen) now = not (leb_ℤ gen now && leb_ℤ now gen)

  unfoldable pub after_wait : Option Fix → Option ℤ → Option Text → Option Payload → Io Phone Done
  unfolding has_changed
  after_wait (some fix) gen own pending = store_and_publish own (with_battery c fix) pending c.after
  after_wait none gen own pending =
      if has_changed gen (generation c.after)
      then pure (record { pending = pending; db = c.after; location_enabled = located })
      else flush_and_return pending c.after

  unfoldable pub wait_for_fix : Bool → Option ℤ → Option Text → Option Payload → Io Phone Done
  wait_for_fix true gen own pending =
      pure (record { pending = pending; db = c.after; location_enabled = located })
  wait_for_fix false gen own pending = after_wait c.found gen own pending

-- whether to wait for a fix, with location as it is or switched on
unfoldable pub locate :
    Cycle → Option Why → Bool → Option ℤ → Option Text → Option Payload → Db → Io Phone Done
locate c none auto gen own pending db = wait_for_fix c false c.stopping gen own pending
locate c (some why) true gen own pending db = wait_for_fix c true c.stopping gen own pending
locate c (some off) false gen own pending db = flush_and_return c false pending db
locate c (some no_gps) false gen own pending db = wait_for_fix c false c.stopping gen own pending

unfoldable pub cycle_at :
    Cycle → Option (Real × Real) → Option ℤ → Option Text → Option Payload → Db → Io Phone Done
cycle_at c (some place) gen own pending db =
    store_and_publish c false own (fixed_fix c place) pending db
cycle_at c none gen own pending db =
    locate c c.why (get_bool auto_enable_location db) gen own pending db

unfoldable pub own_found :
    Cycle → Option ℤ → Option Payload → Db → Result (Option Text × Db) → Io Phone Done
own_found c gen pending db (raise e) =
    pure (record { pending = pending; db = db; location_enabled = false })
own_found c gen pending db (ok (own, db')) = cycle_at c c.fixed gen own pending db'

-- `tick`
unfoldable pub tick : Cycle → Option ℤ → Option Payload → Db → Io Phone Done
unfolding own_found
tick c gen pending db = own_found c gen pending db (own_device_id c.draw c.now db)
