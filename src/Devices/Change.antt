-- ===== src/Devices/Change.antt =====
-- How the operations of devices.py change the devices table: one constructor for each statement.
use harbour_find_my_device.Prelude.{
  ℕ, ◌+◌, ◌≡◌, refl, ap, ◌∙◌, Bool, true, false, not, ◌&&◌, Option, none, some, List, [], ◌∷◌, ◌++◌,
  any, keep, arith, Bool-cases, inl, inr, ◌=?◌, =?_iff,
}
use harbour_find_my_device.Text.{Text}
use harbour_find_my_device.Exception.{integrity_error, ok, raise, ◌>>=◌}
use harbour_find_my_device.Database.{
  BackupCode, Device, Db, names_device, has_device, has_own, refuses_device, put_device,
  insert_device, update_rows,
}
use harbour_find_my_device.Database.Rows.{find}
use harbour_find_my_device.Devices.{
  get_own, admits_result, accepted, create_own, ensure_own_device, ensure_found, rename_found,
  remove_found, store_secret, bind, or_empty, add_remote, set_label, set_pin, no_fields,
  update_device, rename_row, rename_device, remove_device, set_auth_result, set_deleted,
}
use harbour_find_my_device.Devices.Ids.{is_valid_id}
use harbour_find_my_device.Devices.Table.{DistinctIds, KeepsIdentity, renamed}
use harbour_find_my_device.Devices.Calls.{
  Call, ensure_own, add, update, rename, remove, auth_result, mark_deleted, run_call, Leaves,
  Leaves-if, Leaves-bind, after-Leaves,
}

-- no row of this id is the own one
abbrev pub IsRemote : Text → List Device → Type 0
IsRemote k rows = any (λ d. names_device k d && d.is_own) rows ≡ false

pub data Change (rows : List Device) : List Device → Type 0 where
  same : Change rows rows
  inserted :
      (d : Device)
      → has_device d.device_id rows ≡ false
      → (d.is_own ≡ true → has_own rows ≡ false)
      → Change rows (rows ++ (d ∷ []))
  updated :
      (k : Text) (set : Device → Device) (now : Text)
      → KeepsIdentity set
      → Change rows (update_rows k set now rows)
  moved :
      (old new now : Text)
      → has_device new rows ≡ false
      → IsRemote old rows
      → Change rows (renamed old new now rows)
  dropped : (k : Text) → IsRemote k rows → Change rows (keep (λ d. not (names_device k d)) rows)

abbrev pub IsChange : Db → Db → Type 0
IsChange db db' = Change db.devices db'.devices

put_device-IsChange :
    (d : Device) (db : Db) → refuses_device d db ≡ false → IsChange db (put_device d db)
unfolding put_device
put_device-IsChange d db h =
    inserted (record d { id = db.device_seq + 1 }) (unfold refuses_device in ground arith)
      (λ own. unfold refuses_device in ground arith)

insert_device-IsChange : (d : Device) (db db' : Db) → insert_device d db ≡ ok db' → IsChange db db'
unfolding insert_device
insert_device-IsChange d db db' e = elim (Bool-cases (refuses_device d db)) [
  | inl bad ↦ absurd (ground arith)
  | inr good ↦
      let made : put_device d db ≡ db' = ground arith in rw (← made) (put_device-IsChange d db good)
]

absent-IsRemote : (k : Text) (rows : List Device) → has_device k rows ≡ false → IsRemote k rows
unfolding has_device any
absent-IsRemote k [] h = refl
absent-IsRemote k (r ∷ rows) h = ground (arith, absent-IsRemote k rows)

-- The row that is looked up is the only one of its id.
find-IsRemote :
    (k : Text) (rows : List Device) (d : Device)
    → DistinctIds rows
    → find (names_device k) rows ≡ some d
    → d.is_own ≡ false
    → IsRemote k rows
unfolding find any
find-IsRemote k [] d h e n = refl
find-IsRemote k (r ∷ rows) d h e n = elim (Bool-cases (names_device k r)) [
  | inl named ↦
      let one : r ≡ d = ground arith in
      let remote : r.is_own ≡ false = ap (λ (x : Device). x.is_own) one ∙ n in
      let absent : has_device k rows ≡ false = ground (arith, =?_iff r.device_id k, h.0) in
      rw (remote, named) (absent-IsRemote k rows absent)
  | inr other ↦ rw other (find-IsRemote k rows d h.1 (ground arith) n)
]

module _ (db : Db) where
  insert-IsChange :
      {A : Type 0} (d : Device) (f : Db → A)
      → Leaves (IsChange db) (insert_device d db >>= λ db'. ok (f db', db'))
  insert-IsChange d f =
      Leaves-bind (IsChange db) (insert_device d db) (λ db'. ok (f db', db'))
        λ db' e. insert_device-IsChange d db db' e

  ensure_found-IsChange :
      (draw : ℕ → Text) (now : Text) (o : Option Device)
      → Leaves (IsChange db) (ensure_found draw now db o)
  unfolding ensure_found create_own
  ensure_found-IsChange draw now none = insert-IsChange _ get_own
  ensure_found-IsChange draw now (some d) = same

  ensure_own_device-IsChange :
      (draw : ℕ → Text) (now : Text) → Leaves (IsChange db) (ensure_own_device draw now db)
  unfolding ensure_own_device
  ensure_own_device-IsChange draw now = ensure_found-IsChange draw now (get_own db)

  add_remote-IsChange :
      (k : Text) (label pin : Option Text) (now : Text)
      → Leaves (IsChange db) (add_remote k label pin now db)
  unfolding add_remote
  add_remote-IsChange k label pin now =
      Leaves-if (IsChange db) (not (is_valid_id k)) _ _ (λ _. same)
        λ _.
          Leaves-if (IsChange db) (has_device k db.devices) _ _ (λ _. same)
            λ _. Leaves-bind (IsChange db) (store_secret pin) _ λ stored _.
              Leaves-bind (IsChange db) (bind (or_empty label)) _
                λ bound _. insert-IsChange _ (λ _. accepted)

  set_fields-KeepsIdentity :
      (label pin stored : Option Text) → KeepsIdentity (λ d. set_pin pin stored (set_label label d))
  unfolding set_pin set_label
  set_fields-KeepsIdentity label pin stored = record {
    same_id = λ d. ground arith;
    same_own = λ d. ground arith;
  }

  update_device-IsChange :
      (k : Text) (label pin : Option Text) (now : Text)
      → Leaves (IsChange db) (update_device k label pin now db)
  unfolding update_device
  update_device-IsChange k label pin now =
      Leaves-if (IsChange db) (not (has_device k db.devices)) _ _ (λ _. same)
        λ _. Leaves-bind (IsChange db) (store_secret pin) _ λ stored _.
          Leaves-if (IsChange db) (no_fields label pin) _ _ (λ _. same)
            λ _. updated k _ now (set_fields-KeepsIdentity label pin stored)

  rename_row-IsChange :
      (old new now : Text)
      → has_device new db.devices ≡ false
      → IsRemote old db.devices
      → (db' : Db) → rename_row old new now db ≡ ok db'
      → IsChange db db'
  unfolding rename_row
  rename_row-IsChange old new now free remote db' e =
      elim (Bool-cases (any (λ (c : BackupCode). c.device_id =? old) db.backup_codes)) [
        | inl blocked ↦ absurd (ground arith)
        | inr clear ↦
            let rows : renamed old new now db.devices ≡ db'.devices = ground arith in
            rw (← rows) (moved old new now free remote)
      ]

  module _ (distinct : DistinctIds db.devices) where
    rename_found-IsChange :
        (old new now : Text) (o : Option Device)
        → find (names_device old) db.devices ≡ o
        → Leaves (IsChange db) (rename_found old new now db o)
    unfolding rename_found
    rename_found-IsChange old new now none e = same
    rename_found-IsChange old new now (some d) e =
        Leaves-if (IsChange db) d.is_own _ _ (λ _. same)
          λ remote.
            Leaves-if (IsChange db) (has_device new db.devices) _ _ (λ _. same)
              λ free. Leaves-bind (IsChange db) (rename_row old new now db) _ λ db' moves.
                rename_row-IsChange old new now free
                  (find-IsRemote old db.devices d distinct e remote) db' moves

    rename_device-IsChange :
        (old new now : Text) → Leaves (IsChange db) (rename_device old new now db)
    unfolding rename_device
    rename_device-IsChange old new now =
        Leaves-if (IsChange db) (not (is_valid_id new)) _ _ (λ _. same)
          λ _. rename_found-IsChange old new now _ refl

    remove_found-IsChange :
        (k : Text) (o : Option Device)
        → find (names_device k) db.devices ≡ o
        → Leaves (IsChange db) (remove_found k db o)
    unfolding remove_found
    remove_found-IsChange k none e = same
    remove_found-IsChange k (some d) e =
        Leaves-if (IsChange db) d.is_own _ _ (λ _. same)
          λ remote. dropped k (find-IsRemote k db.devices d distinct e remote)

    remove_device-IsChange : (k : Text) → Leaves (IsChange db) (remove_device k db)
    unfolding remove_device
    remove_device-IsChange k = remove_found-IsChange k _ refl

  set_auth_result-IsChange :
      (k : Text) (result : Option Text) (now : Text)
      → Leaves (IsChange db) (set_auth_result k result now db)
  unfolding set_auth_result
  set_auth_result-IsChange k result now =
      Leaves-if {A = Unit {0}} (IsChange db) (has_device k db.devices && not (admits_result result))
        (raise integrity_error) _ (λ _. tt)
        λ _.
          updated k (λ d. record d { last_auth_result = result; last_ack_utc = some now }) now
            (record { same_id = λ d. refl; same_own = λ d. refl })

  set_deleted-IsChange :
      (k : Text) (flag : Bool) (now : Text) → Leaves (IsChange db) (set_deleted k flag now db)
  unfolding set_deleted
  set_deleted-IsChange k flag now =
      updated k (λ d. record d { deleted = flag }) now
        (record { same_id = λ d. refl; same_own = λ d. refl })

-- Each call makes one change of the devices table, or none.
pub run_call-IsChange : (c : Call) (db : Db) → DistinctIds db.devices → IsChange db (run_call c db)
unfolding run_call
run_call-IsChange (ensure_own draw now) db h =
    after-Leaves (IsChange db) db _ same (ensure_own_device-IsChange db draw now)
run_call-IsChange (add k label pin now) db h =
    after-Leaves (IsChange db) db _ same (add_remote-IsChange db k label pin now)
run_call-IsChange (update k label pin now) db h =
    after-Leaves (IsChange db) db _ same (update_device-IsChange db k label pin now)
run_call-IsChange (rename old new now) db h =
    after-Leaves (IsChange db) db _ same (rename_device-IsChange db h old new now)
run_call-IsChange (remove k) db h =
    after-Leaves (IsChange db) db _ same (remove_device-IsChange db h k)
run_call-IsChange (auth_result k result now) db h =
    after-Leaves (IsChange db) db _ same (set_auth_result-IsChange db k result now)
run_call-IsChange (mark_deleted k flag now) db h =
    after-Leaves (IsChange db) db _ same (set_deleted-IsChange db k flag now)
