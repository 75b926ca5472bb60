-- ===== src/Devices/Own.antt =====
-- `ensure_own_device` and the ids that it draws.
use harbour_find_my_device.Prelude.{
  ℕ, zero, suc, ◌+◌, ◌≤◌, ◌<◌, ◌≡◌, ◌≢◌, ap, refl, true, false, none, some, List, [], ◌∷◌, ◌++◌,
  any, arith, Bool-cases, inl, inr,
}
use harbour_find_my_device.Text.{Text}
use harbour_find_my_device.Exception.{ok}
use harbour_find_my_device.Database.{
  Device, Db, has_device, has_own, refuses_device, put_device, insert_device,
}
use harbour_find_my_device.Database.Rows.{find}
use harbour_find_my_device.Devices.Ids.{is_valid_id, generate_device_id}
use harbour_find_my_device.Devices.Ids.Laws.{generate_device_id-is_valid_id, admits-valid_id}
use harbour_find_my_device.Devices.{
  new_row, as_dict, row_to_dict, get_own, draw_id, ensure_own_device,
}

draw_id-fresh :
    (draw : ℕ → Text) (i tries j : ℕ) (rows : List Device)
    → i ≤ j
    → j ≤ i + tries
    → has_device (draw j) rows ≡ false
    → has_device (draw_id draw i tries rows) rows ≡ false
unfolding draw_id
draw_id-fresh draw i zero j rows l h free = let e : i ≡ j = omega arith in rw e free
draw_id-fresh draw i (suc tries) j rows l h free = elim (Bool-cases (has_device (draw i) rows)) [
  | inl taken ↦
      let later : i ≢ j = λ e. cc (free, taken, ap (λ n. has_device (draw n) rows) e) in
      rw taken (draw_id-fresh draw (i + 1) tries j rows (omega arith) (omega arith) free)
  | inr unused ↦ rw unused unused
]

draw_id-valid :
    (draw : ℕ → Text) (i tries : ℕ) (rows : List Device)
    → ((n : ℕ) → is_valid_id (draw n) ≡ true)
    → is_valid_id (draw_id draw i tries rows) ≡ true
unfolding draw_id
draw_id-valid draw i zero rows valid = valid i
draw_id-valid draw i (suc tries) rows valid = elim (Bool-cases (has_device (draw i) rows)) [
  | inl taken ↦ rw taken (draw_id-valid draw (i + 1) tries rows valid)
  | inr unused ↦ rw unused (valid i)
]

find-absent : (rows : List Device) → find (λ d. d.is_own) rows ≡ none → has_own rows ≡ false
unfolding find has_own any
find-absent [] h = refl
find-absent (r ∷ rows) h = ground (arith, find-absent rows)

find-append_own :
    (rows : List Device) (d : Device)
    → has_own rows ≡ false
    → d.is_own ≡ true
    → find (λ x. x.is_own) (rows ++ (d ∷ [])) ≡ some d
unfolding find has_own any
find-append_own [] d h own = ground arith
find-append_own (r ∷ rows) d h own = ground (arith, find-append_own rows d)

module _ (random : ℕ → ℕ) (now : Text) (db : Db) where
  chosen : Text
  chosen = draw_id (generate_device_id random) 0 9 db.devices

  abbrev own_row : Device
  own_row = record (new_row chosen (some []) true none now) { id = db.device_seq + 1 }

  get_own-none : get_own db ≡ none → has_own db.devices ≡ false
  unfolding get_own as_dict
  get_own-none h = find-absent db.devices (ground arith)

  own_row-is_valid_id : is_valid_id chosen ≡ true
  unfolding chosen
  own_row-is_valid_id =
      draw_id-valid (generate_device_id random) 0 9 db.devices
        (generate_device_id-is_valid_id random)

  insert_own :
      (j : ℕ)
      → j < 10
      → has_own db.devices ≡ false
      → has_device (generate_device_id random j) db.devices ≡ false
      → refuses_device (new_row chosen (some []) true none now) db ≡ false
  unfolding refuses_device
  insert_own j lt absent free =
      let fresh : has_device chosen db.devices ≡ false =
        unfold chosen in
        draw_id-fresh (generate_device_id random) 0 9 j db.devices (omega arith) (omega arith)
          free in
      rw (admits-valid_id chosen own_row-is_valid_id, fresh, absent)

  get_own-put :
      has_own db.devices ≡ false
      → get_own (put_device (new_row chosen (some []) true none now) db) ≡ some own_row
  unfolding get_own put_device row_to_dict as_dict
  get_own-put absent = rw (find-append_own db.devices own_row absent refl)

  -- On a database without an own device, where one of ten ids drawn is new, the call succeeds with
  -- an own device that has a valid id; a second call finds the same device and changes nothing.
  pub ensure_own_device_once :
      (j : ℕ)
      → j < 10
      → get_own db ≡ none
      → has_device (generate_device_id random j) db.devices ≡ false
      → (d : Device) × (db' : Db) × (ensure_own_device (generate_device_id random) now db
          ≡ ok (some d, db'))
        × (is_valid_id d.device_id ≡ true)
        × (d.is_own ≡ true)
        × ((draw : ℕ → Text) (later : Text) → ensure_own_device draw later db' ≡ ok (some d, db'))
  unfolding ensure_own_device insert_device chosen
  ensure_own_device_once j lt absent free =
      let alone = get_own-none absent in
      let found = get_own-put alone in
      (
        own_row,
        put_device (new_row chosen (some []) true none now) db,
        rw (absent, insert_own j lt alone free, found),
        own_row-is_valid_id,
        refl,
        λ draw later. rw found,
      )

-- an own device is found, and nothing is created
pub ensure_own_device_found :
    (draw : ℕ → Text) (now : Text) (db : Db) (d : Device)
    → get_own db ≡ some d
    → ensure_own_device draw now db ≡ ok (some d, db)
unfolding ensure_own_device
ensure_own_device_found draw now db d e = rw e refl
