-- ===== src/Gps/Latest.antt =====
-- `get_latest` after the operations that write the gpsdata table.
use harbour_find_my_device.Prelude.{
  ℕ, ◌+◌, ◌≤◌, ◌<◌, ◌≡◌, refl, ◌∙◌, Bool, true, false, some, List, [], ◌∷◌, ◌++◌, keep, arith,
  Bool-cases, inl, inr, ◌=?◌, =?_iff, =?_refl, if◌then◌else◌, All, All-append,
}
use mathlib.Core.Path.{subst}
use harbour_find_my_device.Text.{Text}
use harbour_find_my_device.Database.{GpsRow, Db}
use harbour_find_my_device.Gps.{Fix, row_of, of_device, prune, store_fix, latest, get_latest}

-- the counter of the table is not behind its rows
abbrev pub IdsBelow : ℕ → List GpsRow → Type 0
IdsBelow n rows = All (λ r. r.id ≤ n) rows

latest-append_self :
    (k : Text) (rows : List GpsRow) (r : GpsRow) (n : ℕ)
    → IdsBelow n rows
    → n < r.id
    → of_device k r ≡ true
    → latest k (rows ++ (r ∷ [])) ≡ some r
unfolding latest
latest-append_self k [] r n h lt e = rw e
latest-append_self k (q ∷ rows) r n h lt e = ground (arith, latest-append_self k rows r n h.1, h.0)

latest-append_other :
    (k : Text) (rows : List GpsRow) (r : GpsRow)
    → of_device k r ≡ false
    → latest k (rows ++ (r ∷ [])) ≡ latest k rows
unfolding latest
latest-append_other k [] r e = rw e
latest-append_other k (q ∷ rows) r e = ground (arith, latest-append_other k rows r)

latest-prune_other :
    (k j : Text) (i : ℕ) (rows : List GpsRow)
    → (k =? j) ≡ false
    → latest j (prune k i rows) ≡ latest j rows
unfolding latest prune keep
latest-prune_other k j i [] n = refl
latest-prune_other k j i (q ∷ rows) n =
    ground
      (arith, latest-prune_other k j i rows, =?_iff q.device_id k, =?_iff q.device_id j, =?_iff k j)

-- of its device only the new row is left, and it is found
keep-prune :
    (k : Text) (rows : List GpsRow) (r : GpsRow) (n : ℕ)
    → IdsBelow n rows
    → n < r.id
    → of_device k r ≡ true
    → keep (of_device k) (prune k r.id (rows ++ (r ∷ []))) ≡ r ∷ []
unfolding prune keep
keep-prune k [] r n h lt e = ground arith
keep-prune k (q ∷ rows) r n h lt e = ground (arith, keep-prune k rows r n h.1, h.0)

latest-prune_self :
    (k : Text) (rows : List GpsRow) (r : GpsRow) (n : ℕ)
    → IdsBelow n rows
    → n < r.id
    → of_device k r ≡ true
    → latest k (prune k r.id (rows ++ (r ∷ []))) ≡ some r
unfolding latest prune keep
latest-prune_self k [] r n h lt e = ground arith
latest-prune_self k (q ∷ rows) r n h lt e = ground (arith, latest-prune_self k rows r n h.1, h.0)

module _ (k : Text) (fix : Fix) (db : Db) (below : IdsBelow db.gps_seq db.gpsdata) where
  abbrev new_row : GpsRow
  new_row = row_of (db.gps_seq + 1) k fix

  get_latest-store_fix_self :
      (flag : Bool) → get_latest k (store_fix k fix flag db).1 ≡ some new_row
  unfolding get_latest store_fix
  get_latest-store_fix_self true =
      latest-prune_self k db.gpsdata new_row db.gps_seq below (omega arith) (=?_refl k)
  get_latest-store_fix_self false =
      latest-append_self k db.gpsdata new_row db.gps_seq below (omega arith) (=?_refl k)

  get_latest-store_fix_other :
      (j : Text) (flag : Bool)
      → (k =? j) ≡ false
      → get_latest j (store_fix k fix flag db).1 ≡ get_latest j db
  unfolding get_latest store_fix
  get_latest-store_fix_other j true n =
      latest-prune_other k j (db.gps_seq + 1) (db.gpsdata ++ (new_row ∷ [])) n
      ∙ latest-append_other j db.gpsdata new_row n
  get_latest-store_fix_other j false n = latest-append_other j db.gpsdata new_row n

  -- Where no id passes the counter of the table, the fix that was stored is the latest of its
  -- device, and the latest fix of every other device is the one of before.
  pub get_latest-store_fix :
      (j : Text) (flag : Bool)
      → get_latest j (store_fix k fix flag db).1
        ≡ (if k =? j then some (row_of (db.gps_seq + 1) k fix) else get_latest j db)
  get_latest-store_fix j flag = elim (Bool-cases (k =? j)) [
    | inl e ↦ rw e (
        subst (λ i. get_latest i (store_fix k fix flag db).1 ≡ some new_row) ((=?_iff k j).0 e)
          (get_latest-store_fix_self flag))
    | inr n ↦ rw n (get_latest-store_fix_other j flag n)
  ]

  -- Where no id passes the counter, a store that keeps the latest only leaves one row of the
  -- device, the new one, under the id that it returns.
  pub store_fix_single :
      (keep (of_device k) (store_fix k fix true db).1.gpsdata
        ≡ row_of (store_fix k fix true db).0 k fix ∷ [])
  unfolding store_fix
  store_fix_single = keep-prune k db.gpsdata new_row db.gps_seq below (omega arith) (=?_refl k)

IdsBelow-mono : (n m : ℕ) (rows : List GpsRow) → n ≤ m → IdsBelow n rows → IdsBelow m rows
IdsBelow-mono n m [] le h = tt
IdsBelow-mono n m (r ∷ rows) le h = (omega arith, IdsBelow-mono n m rows le h.1)

IdsBelow-keep :
    (n : ℕ) (p : GpsRow → Bool) (rows : List GpsRow) → IdsBelow n rows → IdsBelow n (keep p rows)
unfolding keep
IdsBelow-keep n p [] h = tt
IdsBelow-keep n p (r ∷ rows) h = elim (Bool-cases (p r)) [
  | inl kept ↦ rw kept (h.0, IdsBelow-keep n p rows h.1)
  | inr gone ↦ rw gone (IdsBelow-keep n p rows h.1)
]

store_fix-flag :
    (k : Text) (flag : Bool) (n : ℕ) (rows : List GpsRow)
    → IdsBelow n rows
    → IdsBelow n (if flag then prune k n rows else rows)
unfolding prune
store_fix-flag k true n rows h = IdsBelow-keep n _ rows h
store_fix-flag k false n rows h = h

-- The counter stays ahead of the rows.
pub store_fix-IdsBelow :
    (k : Text) (fix : Fix) (flag : Bool) (db : Db)
    → IdsBelow db.gps_seq db.gpsdata
    → IdsBelow (store_fix k fix flag db).1.gps_seq (store_fix k fix flag db).1.gpsdata
unfolding store_fix
store_fix-IdsBelow k fix flag db h =
    let grown : IdsBelow (db.gps_seq + 1) (db.gpsdata ++ (row_of (db.gps_seq + 1) k fix ∷ [])) =
      All-append (λ r. r.id ≤ db.gps_seq + 1) db.gpsdata _
        (IdsBelow-mono db.gps_seq (db.gps_seq + 1) db.gpsdata (omega arith) h) (omega arith, tt) in
    store_fix-flag k flag (db.gps_seq + 1) _ grown
