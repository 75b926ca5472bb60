-- ===== src/Devices/Renaming.antt =====
-- What a caller sees of `rename_device`: the fixes of the device move along with its id.
use harbour_find_my_device.Prelude.{
  ◌≡◌, refl, ap, true, false, Option, none, some, List, [], ◌∷◌, any, arith, Bool-cases, inl, inr,
  ◌=?◌, =?_iff, =?_refl, if◌then◌else◌,
}
use mathlib.Core.Path.{subst}
use harbour_find_my_device.Text.{Text}
use harbour_find_my_device.Exception.{Result, ok, raise, ◌>>=◌}
use harbour_find_my_device.Database.{
  Device, GpsRow, BackupCode, Db, names_device, has_device, update_rows,
}
use harbour_find_my_device.Database.Rows.{find}
use harbour_find_my_device.Gps.{latest, newer, get_latest}
use harbour_find_my_device.Devices.{
  Reply, accepted, rename_gps, rename_row, rename_found, rename_device,
}
use harbour_find_my_device.Devices.Ids.{is_valid_id}
use harbour_find_my_device.Devices.Table.{renamed}

-- a fix under the new id
abbrev pub moved_fix : Text → Option GpsRow → Option GpsRow
moved_fix new none = none
moved_fix new (some r) = some (record r { device_id = new })

latest-rename_new :
    (old new : Text) (rows : List GpsRow)
    → (old =? new) ≡ false
    → latest new rows ≡ none
    → latest new (rename_gps old new rows) ≡ moved_fix new (latest old rows)
unfolding latest rename_gps newer
latest-rename_new old new [] n h = refl
latest-rename_new old new (r ∷ rows) n h = ground (
  arith,
  latest-rename_new old new rows n,
  =?_iff r.device_id old,
  =?_iff r.device_id new,
  =?_iff old new,
  =?_refl new,
)

latest-rename_old :
    (old new : Text) (rows : List GpsRow)
    → (old =? new) ≡ false
    → latest old (rename_gps old new rows) ≡ none
unfolding latest rename_gps
latest-rename_old old new [] n = refl
latest-rename_old old new (r ∷ rows) n =
    ground (arith, latest-rename_old old new rows n, =?_iff new old, =?_iff old new)

latest-rename_other :
    (old new j : Text) (rows : List GpsRow)
    → (old =? j) ≡ false
    → (new =? j) ≡ false
    → latest j (rename_gps old new rows) ≡ latest j rows
unfolding latest rename_gps
latest-rename_other old new j [] n m = refl
latest-rename_other old new j (r ∷ rows) n m = ground (
  arith,
  latest-rename_other old new j rows n m,
  =?_iff r.device_id old,
  =?_iff r.device_id j,
  =?_iff old j,
)

latest-rename_gps :
    (old new j : Text) (rows : List GpsRow)
    → (old =? new) ≡ false
    → latest new rows ≡ none
    → latest j (rename_gps old new rows) ≡ (
        if old =? j
        then none
        else if new =? j
        then moved_fix new (latest old rows)
        else latest j rows)
latest-rename_gps old new j rows n h = elim (Bool-cases (old =? j)) [
  | inl e ↦ rw e (
      subst (λ i. latest i (rename_gps old new rows) ≡ none) ((=?_iff old j).0 e)
        (latest-rename_old old new rows n))
  | inr d ↦ elim (Bool-cases (new =? j)) [
    | inl e ↦
        rw (d, e)
          (subst (λ i. latest i (rename_gps old new rows) ≡ moved_fix new (latest old rows))
            ((=?_iff new j).0 e) (latest-rename_new old new rows n h))
    | inr f ↦ rw (d, f) (latest-rename_other old new j rows d f)
  ]
]

has_device-renamed :
    (old new now : Text) (rows : List Device)
    → (old =? new) ≡ false
    → has_device old (renamed old new now rows) ≡ false
unfolding has_device any update_rows
has_device-renamed old new now [] n = refl
has_device-renamed old new now (r ∷ rows) n =
    ground (arith, has_device-renamed old new now rows n, =?_iff new old, =?_iff old new)

has_device-renamed_new :
    (old new now : Text) (rows : List Device)
    → has_device old rows ≡ true
    → has_device new (renamed old new now rows) ≡ true
unfolding has_device any update_rows
has_device-renamed_new old new now [] h = cc
has_device-renamed_new old new now (r ∷ rows) h =
    ground (arith, has_device-renamed_new old new now rows, =?_refl new)

pub record IsRenamed (old new : Text) (before after : Db) : Type 0 where
  pub old_gone : has_device old after.devices ≡ false
  pub new_there : has_device new after.devices ≡ true
  pub fix_at :
      (j : Text)
      → get_latest j after ≡ (
          if old =? j
          then none
          else if new =? j
          then moved_fix new (get_latest old before)
          else get_latest j before)

find-has_device :
    (k : Text) (rows : List Device) (d : Device)
    → find (names_device k) rows ≡ some d
    → has_device k rows ≡ true
unfolding find has_device any
find-has_device k [] d e = cc
find-has_device k (r ∷ rows) d e = ground (arith, find-has_device k rows d)

apart :
    (old new : Text) (rows : List Device)
    → has_device old rows ≡ true
    → has_device new rows ≡ false
    → (old =? new) ≡ false
apart old new rows h n = elim (Bool-cases (old =? new)) [
  | inl e ↦ cc (h, n, ap (λ k. has_device k rows) ((=?_iff old new).0 e))
  | inr differ ↦ differ
]

rename_row-ok :
    (r : Result Db) (db' : Db)
    → ◌>>=◌ {B = Reply × Db} r (λ db''. ok (accepted, db'')) ≡ ok (accepted, db')
    → r ≡ ok db'
rename_row-ok (ok db'') db' e = ground arith
rename_row-ok (raise x) db' e = absurd (ground arith)

rename_row-IsRenamed :
    (old new now : Text) (db db' : Db)
    → has_device old db.devices ≡ true
    → has_device new db.devices ≡ false
    → get_latest new db ≡ none
    → rename_row old new now db ≡ ok db'
    → IsRenamed old new db db'
unfolding rename_row get_latest
rename_row-IsRenamed old new now db db' there free none_new e =
    elim (Bool-cases (any (λ (c : BackupCode). c.device_id =? old) db.backup_codes)) [
      | inl blocked ↦ absurd (ground arith)
      | inr clear ↦
          let rows : renamed old new now db.devices ≡ db'.devices = ground arith in
          let fixes : rename_gps old new db.gpsdata ≡ db'.gpsdata = ground arith in
          let differ : (old =? new) ≡ false = apart old new db.devices there free in
          record {
            old_gone = rw (← rows) (has_device-renamed old new now db.devices differ);
            new_there = rw (← rows) (has_device-renamed_new old new now db.devices there);
            fix_at = λ j. rw (← fixes) (latest-rename_gps old new j db.gpsdata differ none_new);
          }
    ]

IsRenamed-found :
    (old new now : Text) (db db' : Db) (o : Option Device)
    → find (names_device old) db.devices ≡ o
    → get_latest new db ≡ none
    → rename_found old new now db o ≡ ok (accepted, db')
    → IsRenamed old new db db'
unfolding rename_found
IsRenamed-found old new now db db' none f m e = absurd (ground arith)
IsRenamed-found old new now db db' (some d) f m e = elim (Bool-cases d.is_own) [
  | inl own ↦ absurd (ground arith)
  | inr remote ↦ elim (Bool-cases (has_device new db.devices)) [
    | inl taken ↦ absurd (ground arith)
    | inr free ↦
        rename_row-IsRenamed old new now db db' (find-has_device old db.devices d f) free m
          (rename_row-ok (rename_row old new now db) db' (rw (remote, free) at e))
  ]
]

-- Where the new id has no fixes, an accepted `rename_device` leaves no device of the old id and one
-- of the new id. The latest fix of the new id is the one that the old id had, the old id has none,
-- and every other device keeps its own.
pub rename_device-IsRenamed :
    (old new now : Text) (db db' : Db)
    → get_latest new db ≡ none
    → rename_device old new now db ≡ ok (accepted, db')
    → IsRenamed old new db db'
unfolding rename_device
rename_device-IsRenamed old new now db db' m e = elim (Bool-cases (is_valid_id new)) [
  | inr bad ↦ absurd (ground arith)
  | inl v ↦ IsRenamed-found old new now db db' _ refl m (ground arith)
]
