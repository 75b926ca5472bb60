-- ===== src/Daemon/Locate/Newest.antt =====
-- The position that the GPS command sends.
use harbour_find_my_device.Prelude.{
  ◌+◌, ◌≡◌, refl, ap, sym, ◌∙◌, Bool, true, false, Option, none, some, ◌=?◌, =?_refl,
}
use harbour_find_my_device.Text.{Text}
use harbour_find_my_device.Database.{Real, GpsRow, Db}
use harbour_find_my_device.Gps.{Fix, row_of, store_fix, get_latest}
use harbour_find_my_device.Gps.Latest.{IdsBelow, get_latest-store_fix}
use harbour_find_my_device.Settings.{get_bool}
use harbour_find_my_device.Settings.Defaults.{auto_enable_location}
use harbour_find_my_device.Daemon.{Channel}
use harbour_find_my_device.Daemon.Locate.{
  Source, wifi, live, Found, fix_of, place_fix, tries, stored, from_row, fall_back, measured,
  position_at, do_gps,
}

abbrev pub fix_sent : Option (Fix × Source) → Option Fix
fix_sent none = none
fix_sent (some p) = some p.0

abbrev pub fix_stored : Option GpsRow → Option Fix
fix_stored none = none
fix_stored (some row) = some (fix_of row)

-- what is sent is the latest row of the own device, and the other devices keep theirs
abbrev pub IsNewest : Text → Db → Option (Fix × Source) × Db → Type 0
IsNewest own before r =
    (fix_sent r.0 ≡ fix_stored (get_latest own r.1))
    × ((j : Text) → (own =? j) ≡ false → get_latest j r.1 ≡ get_latest j before)

module _ (own : Text) (db : Db) (below : IdsBelow db.gps_seq db.gpsdata) where
  stored-IsNewest : (fix : Fix) (source : Source) → IsNewest own db (stored own fix source db)
  unfolding stored fix_of
  stored-IsNewest fix source =
      let row = get_latest-store_fix own fix db below own true in
      let same : get_latest own (store_fix own fix true db).1
          ≡ some (row_of (db.gps_seq + 1) own fix) =
        row ∙ rw (=?_refl own) refl in
      (
        sym (ap fix_stored same),
        λ j other. get_latest-store_fix own fix db below j true ∙ rw other refl,
      )

  from_row_lem : (o : Option GpsRow) → fix_sent (from_row o) ≡ fix_stored o
  unfolding from_row
  from_row_lem none = refl
  from_row_lem (some row) = refl

  fall_back-IsNewest : IsNewest own db (fall_back own db)
  unfolding fall_back
  fall_back-IsNewest = (from_row_lem (get_latest own db), λ j other. refl)

  measured-IsNewest :
      (found : Found) (try_fix : Bool) (fix : Option Fix)
      → IsNewest own db (measured own found try_fix fix db)
  unfolding measured
  measured-IsNewest found true (some fix) =
      stored-IsNewest (record fix { battery = found.battery }) live
  measured-IsNewest found true none = fall_back-IsNewest
  measured-IsNewest found false fix = fall_back-IsNewest

  position_at-IsNewest :
      (found : Found) (fixed : Option (Real × Real))
      → IsNewest own db (position_at own found fixed db)
  unfolding position_at
  position_at-IsNewest found (some place) = stored-IsNewest (place_fix found place) wifi
  position_at-IsNewest found none =
      measured-IsNewest found (tries found.why (get_bool auto_enable_location db)) found.fix

-- Where no id passes the counter of the gpsdata table: the position that the GPS command sends,
-- whether it is the fixed one, a fix or an old one, is the latest fix of the own device in the
-- database afterwards, and it sends none just when there is none; the latest fix of any other
-- device stays.
pub do_gps-get_latest :
    (own : Text) (found : Found) (channel : Channel) (sender : Option Text) (db : Db) (j : Text)
    → IdsBelow db.gps_seq db.gpsdata
    → (own =? j) ≡ false
    → (fix_sent (do_gps own found channel sender db).1.position
        ≡ fix_stored (get_latest own (do_gps own found channel sender db).1.db))
      × (get_latest j (do_gps own found channel sender db).1.db ≡ get_latest j db)
unfolding do_gps
do_gps-get_latest own found channel sender db j below other =
    let newest = position_at-IsNewest own db below found found.fixed in (newest.0, newest.1 j other)
