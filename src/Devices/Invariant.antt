-- ===== src/Devices/Invariant.antt =====
-- What every sequence of calls of devices.py keeps: the ids of the devices are distinct, one device
-- at most is the own one, and the own device keeps its id.
use harbour_find_my_device.Prelude.{
  ◌≡◌, refl, ◌∙◌, not, Option, none, some, List, [], ◌∷◌, ◌++◌, any, keep, arith,
}
use harbour_find_my_device.Text.{Text}
use harbour_find_my_device.Database.{Device, Db, names_device, update_rows}
use harbour_find_my_device.Database.Rows.{find}
use harbour_find_my_device.Devices.Table.{
  DistinctIds, SingleOwn, KeepsIdentity, renamed, DistinctIds-append, SingleOwn-append,
  DistinctIds-keep, SingleOwn-keep, DistinctIds-update_rows, SingleOwn-update_rows,
  DistinctIds-renamed, SingleOwn-renamed,
}
use harbour_find_my_device.Devices.Calls.{Call, run_call, run_calls}
use harbour_find_my_device.Devices.Change.{
  IsRemote, Change, same, inserted, updated, moved, dropped, run_call-IsChange,
}

pub record IsValid (db : Db) : Type 0 where
  pub distinct : DistinctIds db.devices
  pub single_own : SingleOwn db.devices

DistinctIds-Change :
    {rows after : List Device} → Change rows after → DistinctIds rows → DistinctIds after
DistinctIds-Change same h = h
DistinctIds-Change {rows} (inserted d free own) h = DistinctIds-append rows d h free
DistinctIds-Change {rows} (updated k set now keeps) h =
    DistinctIds-update_rows k set now keeps rows h
DistinctIds-Change {rows} (moved old new now free remote) h =
    DistinctIds-renamed old new now rows h free
DistinctIds-Change {rows} (dropped k remote) h =
    DistinctIds-keep (λ d. not (names_device k d)) rows h

SingleOwn-Change : {rows after : List Device} → Change rows after → SingleOwn rows → SingleOwn after
SingleOwn-Change same h = h
SingleOwn-Change {rows} (inserted d free own) h = SingleOwn-append rows d h own
SingleOwn-Change {rows} (updated k set now keeps) h = SingleOwn-update_rows k set now keeps rows h
SingleOwn-Change {rows} (moved old new now free remote) h = SingleOwn-renamed old new now rows h
SingleOwn-Change {rows} (dropped k remote) h = SingleOwn-keep (λ d. not (names_device k d)) rows h

pub run_call-IsValid : (c : Call) (db : Db) → IsValid db → IsValid (run_call c db)
run_call-IsValid c db v =
    let change = run_call-IsChange c db v.distinct in
    record {
      distinct = DistinctIds-Change change v.distinct;
      single_own = SingleOwn-Change change v.single_own;
    }

-- From a database whose device ids are distinct and which has one own device at most, every
-- sequence of calls, raising ones included, leads to such a database.
pub run_calls-IsValid : (calls : List Call) (db : Db) → IsValid db → IsValid (run_calls calls db)
unfolding run_calls
run_calls-IsValid [] db v = v
run_calls-IsValid (c ∷ calls) db v =
    run_calls-IsValid calls (run_call c db) (run_call-IsValid c db v)

-- the id of the own device
abbrev id_of : Option Device → Option Text
id_of none = none
id_of (some d) = some d.device_id

unfoldable pub own_id : Db → Option Text
own_id db = id_of (find (λ d. d.is_own) db.devices)

abbrev own_in : List Device → Option Text
own_in rows = id_of (find (λ d. d.is_own) rows)

own_in-append :
    (rows : List Device) (d : Device) (k : Text)
    → own_in rows ≡ some k
    → own_in (rows ++ (d ∷ [])) ≡ some k
unfolding find
own_in-append [] d k h = ground arith
own_in-append (r ∷ rows) d k h = ground (arith, own_in-append rows d k)

own_in-update_rows :
    (j : Text) (set : Device → Device) (now : Text)
    → KeepsIdentity set
    → (rows : List Device) → own_in (update_rows j set now rows) ≡ own_in rows
unfolding find update_rows
own_in-update_rows j set now keeps [] = refl
own_in-update_rows j set now keeps (r ∷ rows) =
    ground (arith, own_in-update_rows j set now keeps rows, keeps.same_id r, keeps.same_own r)

own_in-renamed :
    (old new now : Text) (rows : List Device)
    → IsRemote old rows
    → own_in (renamed old new now rows) ≡ own_in rows
unfolding find update_rows any
own_in-renamed old new now [] h = refl
own_in-renamed old new now (r ∷ rows) h = ground (arith, own_in-renamed old new now rows)

own_in-dropped :
    (j : Text) (rows : List Device)
    → IsRemote j rows
    → own_in (keep (λ d. not (names_device j d)) rows) ≡ own_in rows
unfolding find keep any
own_in-dropped j [] h = refl
own_in-dropped j (r ∷ rows) h = ground (arith, own_in-dropped j rows)

own_in-Change :
    {rows after : List Device} (k : Text)
    → Change rows after
    → own_in rows ≡ some k
    → own_in after ≡ some k
own_in-Change k same h = h
own_in-Change {rows} k (inserted d free own) h = own_in-append rows d k h
own_in-Change {rows} k (updated j set now keeps) h = own_in-update_rows j set now keeps rows ∙ h
own_in-Change {rows} k (moved old new now free remote) h =
    own_in-renamed old new now rows remote ∙ h
own_in-Change {rows} k (dropped j remote) h = own_in-dropped j rows remote ∙ h

own_id-run_call :
    (c : Call) (db : Db) (k : Text)
    → IsValid db
    → own_id db ≡ some k
    → own_id (run_call c db) ≡ some k
unfolding own_id
own_id-run_call c db k v h = own_in-Change k (run_call-IsChange c db v.distinct) h

-- From a database whose device ids are distinct and which has an own device and no second one, no
-- sequence of calls changes the id of the own device or removes it.
pub own_id-run_calls :
    (calls : List Call) (db : Db) (k : Text)
    → IsValid db
    → own_id db ≡ some k
    → own_id (run_calls calls db) ≡ some k
unfolding run_calls
own_id-run_calls [] db k v h = h
own_id-run_calls (c ∷ calls) db k v h =
    own_id-run_calls calls (run_call c db) k (run_call-IsValid c db v) (own_id-run_call c db k v h)
