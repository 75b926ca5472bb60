-- ===== src/App/Pages/Rows.antt =====
-- The rows of the devices, as the buttons need them, after a column of one was written.
use harbour_find_my_device.Prelude.{
  ◌≡◌, refl, sym, ap, ◌∙◌, inl, inr, Bool, true, ◌&&◌, ◌||◌, Option, none, some, List, [], ◌∷◌,
  ◌=?◌, =?_iff, arith, if◌then◌else◌, Bool-cases, Option-cases,
}
use harbour_find_my_device.Text.{Text, codes, upper}
use harbour_find_my_device.Exception.{ok}
use harbour_find_my_device.Database.{Device, Db, names_device, has_device, update_rows}
use harbour_find_my_device.Database.Rows.{find}
use harbour_find_my_device.Devices.{
  get_device, as_dict, row_to_dict, set_auth_result, set_deleted, admits_result,
}
use harbour_find_my_device.App.Acks.{Ack, or_blank, is_verdict, is_ok, note_verdict, note_wipe}
use harbour_find_my_device.App.Pages.{is_filled}

abbrev pub stamped : (Device → Device) → Text → Device → Device
stamped set now d = record (set d) { updated_utc = some now }

abbrev pub map_option : (Device → Device) → Option Device → Option Device
map_option f none = none
map_option f (some d) = some (f d)

pub find-update_rows :
    (k : Text) (set : Device → Device) (now : Text) (rows : List Device)
    → ((d : Device) → (set d).device_id ≡ d.device_id)
    → find (names_device k) (update_rows k set now rows)
      ≡ map_option (stamped set now) (find (names_device k) rows)
unfolding find update_rows
find-update_rows k set now [] same = refl
find-update_rows k set now (d ∷ rows) same = elim (Bool-cases (d.device_id =? k)) [
  | inl y ↦ simp (y, same) refl
  | inr n ↦ simp (n, find-update_rows k set now rows same) refl
]

pub some-injective : {a b : Device} → some a ≡ some b → a ≡ b
some-injective e = cc

pub find-names :
    (k : Text) (rows : List Device) (d : Device)
    → find (names_device k) rows ≡ some d
    → d.device_id ≡ k
unfolding find
find-names k [] d e = cc
find-names k (r ∷ rows) d e = elim (Bool-cases (r.device_id =? k)) [
  | inl y ↦ (=?_iff d.device_id k).0 (ground (arith, e))
  | inr n ↦ find-names k rows d (rw n at e)
]

pub device_id-get_device :
    (k : Text) (db : Db) (d : Device) → get_device k db ≡ some d → d.device_id ≡ k
unfolding get_device as_dict row_to_dict
device_id-get_device k db d e = elim (Option-cases (find (names_device k) db.devices)) [
  | inl x ↦ absurd (cc (rw x at e))
  | inr (r, x) ↦
      ap (λ (c : Device). c.device_id) (some-injective (sym (rw x at e)))
      ∙ find-names k db.devices r x
]

-- a row is read after an update that leaves the secrets alone
pub get_device-update_rows :
    (k : Text) (set : Device → Device) (now : Text) (db : Db)
    → ((d : Device) → (set d).device_id ≡ d.device_id)
    → ((d : Device) → row_to_dict (stamped set now d) ≡ stamped set now (row_to_dict d))
    → get_device k (record db { devices = update_rows k set now db.devices })
      ≡ map_option (stamped set now) (get_device k db)
unfolding get_device
get_device-update_rows k set now db same commutes =
    rw (find-update_rows k set now db.devices same)
      (elim (Option-cases (find (names_device k) db.devices)) [
        | inl x ↦ rw x refl
        | inr (r, x) ↦ rw x (ap some (commutes r))
      ])

abbrev pub with_result : Option Text → Text → Device → Device
with_result r now d = record d { last_auth_result = r; last_ack_utc = some now }

abbrev pub with_mark : Bool → Device → Device
with_mark flag d = record d { deleted = flag }

abbrev pub authed : Text → Option Text → Text → Db → Db
authed k r now db = record db { devices = update_rows k (with_result r now) now db.devices }

abbrev pub marked : Text → Bool → Text → Db → Db
marked k flag now db = record db { devices = update_rows k (with_mark flag) now db.devices }

pub get_device-authed :
    (k : Text) (r : Option Text) (now : Text) (db : Db)
    → get_device k (authed k r now db)
      ≡ map_option (stamped (with_result r now) now) (get_device k db)
unfolding row_to_dict
get_device-authed k r now db =
    get_device-update_rows k (with_result r now) now db (λ d. refl) (λ d. refl)

pub get_device-marked :
    (k : Text) (flag : Bool) (now : Text) (db : Db)
    → get_device k (marked k flag now db)
      ≡ map_option (stamped (with_mark flag) now) (get_device k db)
unfolding row_to_dict
get_device-marked k flag now db =
    get_device-update_rows k (with_mark flag) now db (λ d. refl) (λ d. refl)

-- an ack that says that the device has wiped itself
abbrev pub is_wipe : Ack → Bool
is_wipe ack = upper (or_blank ack.cmd) =? codes "DELETE" && is_ok ack.result

-- the answer to the last command that is remembered after an ack
abbrev pub result_after : Ack → Option Text → Option Text
result_after ack old = if is_verdict ack.result then ack.result else old

-- the row of a device, as the buttons need it
abbrev pub Shown : Text → Db → Bool → Bool → Option Text → Bool → Type 0
Shown k db own pin result deleted =
    (d : Device) × (get_device k db ≡ some d)
    × (d.is_own ≡ own)
    × (is_filled d.pin ≡ pin)
    × (d.last_auth_result ≡ result)
    × (d.deleted ≡ deleted)

pub Shown-authed :
    (k : Text) (r : Option Text) (now : Text) (db : Db) (d : Device)
    → get_device k db ≡ some d
    → Shown k (authed k r now db) d.is_own (is_filled d.pin) r d.deleted
Shown-authed k r now db d e = (
  stamped (with_result r now) now d,
  get_device-authed k r now db ∙ ap (map_option _) e,
  refl,
  refl,
  refl,
  refl,
)

pub set_auth_result-ok :
    (k : Text) (r : Option Text) (now : Text) (db : Db)
    → admits_result r ≡ true
    → set_auth_result k r now db ≡ ok (tt, authed k r now db)
unfolding set_auth_result
set_auth_result-ok k r now db y = elim (Bool-cases (has_device k db.devices)) [
  | inl h ↦ rw (h, y) refl
  | inr n ↦ rw n refl
]

pub admits-verdict : (r : Option Text) → is_verdict r ≡ true → admits_result r ≡ true
unfolding is_verdict admits_result
admits-verdict none y = cc
admits-verdict (some r) y = y

pub Shown-verdict :
    (k : Text) (r : Option Text) (now : Text) (db : Db) (d : Device)
    → get_device k db ≡ some d
    → (db' : Db) × (note_verdict k r now db ≡ ok db')
      × Shown k db' d.is_own
          (is_filled d.pin)
          (if is_verdict r then r else d.last_auth_result)
          d.deleted
unfolding note_verdict
Shown-verdict k r now db d e = elim (Bool-cases (is_verdict r)) [
  | inl y ↦ (
    authed k r now db,
    rw y (rw (set_auth_result-ok k r now db (admits-verdict r y)) refl),
    rw y (Shown-authed k r now db d e),
  )
  | inr n ↦ (db, rw n refl, rw n (d, e, refl, refl, refl, refl))
]

pub Shown-wipe :
    (k : Text) (ack : Ack) (now : Text) (db : Db) (d : Device)
    → get_device k db ≡ some d
    → (db' : Db) × (note_wipe k ack now db ≡ ok db')
      × Shown k db' d.is_own (is_filled d.pin) d.last_auth_result (is_wipe ack || d.deleted)
unfolding note_wipe set_deleted
Shown-wipe k ack now db d e = elim (Bool-cases (is_wipe ack)) [
  | inl y ↦ (
    marked k true now db,
    rw y refl,
    (
      stamped (with_mark true) now d,
      get_device-marked k true now db ∙ ap (map_option (stamped (with_mark true) now)) e,
      refl,
      refl,
      refl,
      rw y refl,
    ),
  )
  | inr n ↦ (db, rw n refl, (d, e, refl, refl, refl, rw n refl))
]
