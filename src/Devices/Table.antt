-- ===== src/Devices/Table.antt =====
-- The rows of the devices table under the statements of devices.py: which ids there are, which row
-- is the own one, and which row a lookup finds.
use harbour_find_my_device.Prelude.{
  Bool-cases, inl, inr, ◌≡◌, refl, Bool, true, false, ◌||◌, List, [], ◌∷◌, ◌++◌, any, keep, arith,
  ◌=?◌, =?_iff,
}
use harbour_find_my_device.Text.{Text}
use harbour_find_my_device.Database.{Device, names_device, has_device, has_own, update_rows}

pub has_device-append :
    (k : Text) (rows : List Device) (d : Device)
    → has_device k (rows ++ (d ∷ [])) ≡ (has_device k rows || names_device k d)
unfolding has_device any
has_device-append k [] d = ground arith
has_device-append k (r ∷ rows) d = ground (arith, has_device-append k rows d)

pub has_own-append :
    (rows : List Device) (d : Device) → has_own (rows ++ (d ∷ [])) ≡ (has_own rows || d.is_own)
unfolding has_own any
has_own-append [] d = ground arith
has_own-append (r ∷ rows) d = ground (arith, has_own-append rows d)

pub has_device-keep :
    (k : Text) (p : Device → Bool) (rows : List Device)
    → has_device k rows ≡ false
    → has_device k (keep p rows) ≡ false
unfolding has_device any keep
has_device-keep k p [] h = refl
has_device-keep k p (r ∷ rows) h = ground (arith, has_device-keep k p rows)

pub has_own-keep :
    (p : Device → Bool) (rows : List Device) → has_own rows ≡ false → has_own (keep p rows) ≡ false
unfolding has_own any keep
has_own-keep p [] h = refl
has_own-keep p (r ∷ rows) h = ground (arith, has_own-keep p rows)

-- no two rows have one id
abbrev pub DistinctIds : List Device → Type 0
DistinctIds [] = Unit
DistinctIds (d ∷ rows) = (has_device d.device_id rows ≡ false) × DistinctIds rows

-- one row at most is the own one
abbrev pub SingleOwn : List Device → Type 0
SingleOwn [] = Unit
SingleOwn (d ∷ rows) = (d.is_own ≡ true → has_own rows ≡ false) × SingleOwn rows

pub DistinctIds-append :
    (rows : List Device) (d : Device)
    → DistinctIds rows
    → has_device d.device_id rows ≡ false
    → DistinctIds (rows ++ (d ∷ []))
DistinctIds-append [] d h n = (unfold has_device any in refl, tt)
DistinctIds-append (r ∷ rows) d h n = (
  unfold has_device any in
      ground (
        arith,
        has_device-append r.device_id rows d,
        =?_iff d.device_id r.device_id,
        =?_iff r.device_id d.device_id,
      ),
  DistinctIds-append rows d h.1 (unfold has_device any in ground arith),
)

pub SingleOwn-append :
    (rows : List Device) (d : Device)
    → SingleOwn rows
    → (d.is_own ≡ true → has_own rows ≡ false)
    → SingleOwn (rows ++ (d ∷ []))
SingleOwn-append [] d h n = ((λ _. unfold has_own any in refl), tt)
SingleOwn-append (r ∷ rows) d h n = (
  (λ own. unfold has_own any in ground (arith, has_own-append rows d, h.0 own)),
  SingleOwn-append rows d h.1 (λ own. unfold has_own any in ground (arith, n own)),
)

pub DistinctIds-keep :
    (p : Device → Bool) (rows : List Device) → DistinctIds rows → DistinctIds (keep p rows)
unfolding keep
DistinctIds-keep p [] h = tt
DistinctIds-keep p (r ∷ rows) h = elim (Bool-cases (p r)) [
  | inl kept ↦ rw kept (has_device-keep r.device_id p rows h.0, DistinctIds-keep p rows h.1)
  | inr dropped ↦ rw dropped (DistinctIds-keep p rows h.1)
]

pub SingleOwn-keep :
    (p : Device → Bool) (rows : List Device) → SingleOwn rows → SingleOwn (keep p rows)
unfolding keep
SingleOwn-keep p [] h = tt
SingleOwn-keep p (r ∷ rows) h = elim (Bool-cases (p r)) [
  | inl kept ↦ rw kept ((λ own. has_own-keep p rows (h.0 own)), SingleOwn-keep p rows h.1)
  | inr dropped ↦ rw dropped (SingleOwn-keep p rows h.1)
]

-- An UPDATE that leaves Device_Id and Is_Own alone.
pub record KeepsIdentity (set : Device → Device) : Type 0 where
  pub same_id : (d : Device) → (set d).device_id ≡ d.device_id
  pub same_own : (d : Device) → (set d).is_own ≡ d.is_own

module _ (k : Text) (set : Device → Device) (now : Text) (same : KeepsIdentity set) where
  pub has_device-update_rows :
      (j : Text) (rows : List Device)
      → has_device j (update_rows k set now rows) ≡ has_device j rows
  unfolding has_device any update_rows
  has_device-update_rows j [] = refl
  has_device-update_rows j (r ∷ rows) =
      ground (arith, has_device-update_rows j rows, same.same_id r)

  pub has_own-update_rows :
      (rows : List Device) → has_own (update_rows k set now rows) ≡ has_own rows
  unfolding has_own any update_rows
  has_own-update_rows [] = refl
  has_own-update_rows (r ∷ rows) = ground (arith, has_own-update_rows rows, same.same_own r)

  pub DistinctIds-update_rows :
      (rows : List Device) → DistinctIds rows → DistinctIds (update_rows k set now rows)
  unfolding update_rows
  DistinctIds-update_rows [] h = tt
  DistinctIds-update_rows (r ∷ rows) h = (
    ground (arith, has_device-update_rows r.device_id rows, same.same_id r, h.0),
    DistinctIds-update_rows rows h.1,
  )

  pub SingleOwn-update_rows :
      (rows : List Device) → SingleOwn rows → SingleOwn (update_rows k set now rows)
  unfolding update_rows
  SingleOwn-update_rows [] h = tt
  SingleOwn-update_rows (r ∷ rows) h = (
    (λ own. ground (arith, has_own-update_rows rows, same.same_own r, h.0)),
    SingleOwn-update_rows rows h.1,
  )

pub has_device-cons :
    (k : Text) (r : Device) (rows : List Device)
    → has_device k (r ∷ rows) ≡ false
    → (names_device k r ≡ false) × (has_device k rows ≡ false)
unfolding has_device any
has_device-cons k r rows h = ground arith

-- The UPDATE of `rename_device`, by which Device_Id changes.
module _ (old new now : Text) where
  abbrev pub renamed : List Device → List Device
  renamed rows = update_rows old (λ d. record d { device_id = new }) now rows

  pub has_own-renamed : (rows : List Device) → has_own (renamed rows) ≡ has_own rows
  unfolding has_own any update_rows
  has_own-renamed [] = refl
  has_own-renamed (r ∷ rows) = ground (arith, has_own-renamed rows)

  pub has_device-renamed_other :
      (j : Text) (rows : List Device)
      → (new =? j) ≡ false
      → has_device j rows ≡ false
      → has_device j (renamed rows) ≡ false
  unfolding has_device any update_rows
  has_device-renamed_other j [] n h = refl
  has_device-renamed_other j (r ∷ rows) n h = ground (arith, has_device-renamed_other j rows n)

  pub renamed-absent : (rows : List Device) → has_device old rows ≡ false → renamed rows ≡ rows
  unfolding has_device any update_rows
  renamed-absent [] h = refl
  renamed-absent (r ∷ rows) h = ground (arith, renamed-absent rows)

  pub DistinctIds-renamed :
      (rows : List Device)
      → DistinctIds rows
      → has_device new rows ≡ false
      → DistinctIds (renamed rows)
  unfolding update_rows
  DistinctIds-renamed [] h n = tt
  DistinctIds-renamed (r ∷ rows) h n = elim (Bool-cases (names_device old r)) [
    | inl named ↦
        let absent : has_device old rows ≡ false = ground (arith, =?_iff r.device_id old, h.0) in
        rw (named, renamed-absent rows absent) ((has_device-cons new r rows n).1, h.1)
    | inr other ↦
        let (apart, absent) = has_device-cons new r rows n in
        let flipped : (new =? r.device_id) ≡ false =
          ground (arith, =?_iff r.device_id new, =?_iff new r.device_id) in
        rw other (
          has_device-renamed_other r.device_id rows flipped h.0,
          DistinctIds-renamed rows h.1 absent,
        )
  ]

  pub SingleOwn-renamed : (rows : List Device) → SingleOwn rows → SingleOwn (renamed rows)
  unfolding update_rows
  SingleOwn-renamed [] h = tt
  SingleOwn-renamed (r ∷ rows) h =
      ((λ own. ground (arith, has_own-renamed rows, h.0)), SingleOwn-renamed rows h.1)
