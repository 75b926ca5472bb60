-- ===== src/GpsDaemon/Positions.antt =====
-- What becomes of the newest position in a cycle.
use harbour_find_my_device.Prelude.{Bool, true, false, Option, none, some}
use harbour_find_my_device.Text.{Text}
use harbour_find_my_device.Database.{Real, Db}
use harbour_find_my_device.Gps.{Fix}
use harbour_find_my_device.Settings.{get_bool}
use harbour_find_my_device.Settings.Defaults.{auto_enable_location}
use harbour_find_my_device.GpsDaemon.{Payload, Why, off, Cycle, Done, fixed_fix, with_battery}
use harbour_find_my_device.GpsDaemon.Delivery.{KeptOr}

-- the fix that the wait gives, and the fix that a cycle gives
unfoldable pub fix_of_wait : Cycle → Bool → Option Fix → Option Fix
fix_of_wait c true found = none
fix_of_wait c false none = none
fix_of_wait c false (some fix) = some (with_battery c fix)

unfoldable pub fix_located : Cycle → Option Why → Bool → Option Fix
fix_located c (some off) false = none
fix_located c why auto = fix_of_wait c c.stopping c.found

unfoldable pub newest_fix : Cycle → Option (Real × Real) → Db → Option Fix
newest_fix c (some place) db = some (fixed_fix c place)
newest_fix c none db = fix_located c c.why (get_bool auto_enable_location db)

-- the position that should be published next: the new one, or the one that was pending
unfoldable pub newest_position : Option Fix → Text → Option Payload → Option Payload
newest_position none own pending = pending
newest_position (some fix) own pending = some (some own, fix)

module _ (c : Cycle) (own : Text) (pending : Option Payload) where
  -- a cycle is over, and the position is pending, or released
  abbrev Cared : Option Payload → Done → Type 0
  Cared position done = KeptOr c position done.pending done.db
