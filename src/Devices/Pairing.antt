-- ===== src/Devices/Pairing.antt =====
-- What a caller sees of `add_remote`, `remove_device` and `rename_device`.
use harbour_find_my_device.Prelude.{
  ◌+◌, ◌≡◌, refl, ap, ◌∙◌, true, false, not, Option, none, some, List, [], ◌∷◌, ◌++◌, any, arith,
  Bool-cases, inl, inr, ◌=?◌, =?_refl, if◌then◌else◌, All,
}
use harbour_find_my_device.Text.{Text, is_empty}
use harbour_find_my_device.Exception.{ok}
use harbour_find_my_device.Codec.Utf8.{IsText, is_surrogate}
use harbour_find_my_device.Obfuscation.{is_marked, deobfuscate}
use harbour_find_my_device.Obfuscation.RoundTrip.{deobfuscate-obfuscate, obfuscate_total}
use harbour_find_my_device.Database.{
  Device, Db, names_device, has_device, refuses_device, put_device, insert_device,
}
use harbour_find_my_device.Database.Rows.{find}
use harbour_find_my_device.Gps.{get_latest}
use harbour_find_my_device.Devices.{
  Reply, accepted, refused, bad_id, id_taken, new_row, as_dict, reveal, row_to_dict, get_device,
  get_pin, pin_of, store_secret, or_empty, bind, add_remote, rename_device, remove_device,
}
use harbour_find_my_device.Devices.Ids.{is_valid_id}
use harbour_find_my_device.Devices.Ids.Laws.{admits-valid_id}

-- the reply of `add_remote`
abbrev pub add_reply : Text → Db → Reply
add_reply k db =
    if not (is_valid_id k)
    then refused bad_id
    else if has_device k db.devices
    then refused id_taken
    else accepted

-- a PIN or a label that Python can encode
abbrev pub IsEncodable : Option Text → Type 0
IsEncodable none = Unit
IsEncodable (some s) = All (λ c. is_surrogate c ≡ false) s

store_secret_total :
    (pin : Option Text) → IsEncodable pin → (stored : Option Text) × (store_secret pin ≡ ok stored)
unfolding store_secret
store_secret_total none h = (none, refl)
store_secret_total (some []) h = (none, (unfold is_empty in refl))
store_secret_total (some (c ∷ s)) h = unfold is_empty in obfuscate_total (c ∷ s) h

any-surrogate : (s : Text) → All (λ c. is_surrogate c ≡ false) s → any is_surrogate s ≡ false
unfolding any
any-surrogate [] h = refl
any-surrogate (c ∷ s) h = rw (h.0, any-surrogate s h.1)

bind_total : (label : Option Text) → IsEncodable label → bind (or_empty label) ≡ ok (or_empty label)
unfolding bind or_empty any
bind_total none h = refl
bind_total (some s) h = rw (any-surrogate s h)

refuses_device-new :
    (k : Text) (label stored : Option Text) (now : Text) (db : Db)
    → is_valid_id k ≡ true
    → has_device k db.devices ≡ false
    → refuses_device (new_row k label false stored now) db ≡ false
unfolding refuses_device
refuses_device-new k label stored now db v f = rw (admits-valid_id k v, f)

module _ (k : Text) (label pin : Option Text) (now : Text) (db : Db) where
  -- the database after the row was added
  abbrev pub added : Option Text → Db
  added stored = put_device (new_row k (some (or_empty label)) false stored now) db

  add_remote-new :
      (stored : Option Text)
      → is_valid_id k ≡ true
      → has_device k db.devices ≡ false
      → store_secret pin ≡ ok stored
      → IsEncodable label
      → add_remote k label pin now db ≡ ok (accepted, added stored)
  unfolding add_remote insert_device
  add_remote-new stored v f e l =
      rw (
        v,
        f,
        e,
        bind_total label l,
        refuses_device-new k (some (or_empty label)) stored now db v f,
      )

  -- With a PIN and a label that can be encoded, `add_remote` raises nothing: it adds the row of a
  -- valid id that is new, and refuses any other id with its message, leaving the database as it was.
  pub add_remote_total :
      IsEncodable pin
      → IsEncodable label
      → (stored : Option Text) × (store_secret pin ≡ ok stored)
        × (add_remote k label pin now db
            ≡ ok (add_reply k db, (if (add_reply k db).0 then added stored else db)))
  add_remote_total h l =
      let (stored, e) = store_secret_total pin h in
      (
        stored,
        e,
        (elim (Bool-cases (is_valid_id k)) [
          | inr bad ↦ rw bad (unfold add_remote in rw bad)
          | inl v ↦ elim (Bool-cases (has_device k db.devices)) [
            | inl taken ↦ rw (v, taken) (unfold add_remote in rw (v, taken))
            | inr free ↦ rw (v, free) (add_remote-new stored v free e l)
          ]
        ]),
      )

find-append_new :
    (k : Text) (rows : List Device) (d : Device)
    → has_device k rows ≡ false
    → d.device_id ≡ k
    → find (names_device k) (rows ++ (d ∷ [])) ≡ some d
unfolding find has_device any
find-append_new k [] d h e = rw (e, =?_refl k)
find-append_new k (r ∷ rows) d h e = ground (arith, find-append_new k rows d)

pub reveal-deobfuscate :
    (stored : Option Text) (p : Text)
    → deobfuscate stored ≡ some p
    → is_empty p ≡ false
    → reveal stored ≡ some p
reveal-deobfuscate none p e filled = absurd (unfold deobfuscate in cc)
reveal-deobfuscate (some []) p e filled =
    let same : some [] ≡ some p = (unfold deobfuscate is_empty in e) in
    let none_left : [] ≡ p = cc in
    absurd (let t : is_empty [] ≡ false = ap is_empty none_left ∙ filled in unfold is_empty in cc)
reveal-deobfuscate (some (c ∷ s)) p e filled = unfold reveal is_empty in e

get_pin-added :
    (k : Text) (label : Option Text) (p : Text) (now : Text) (db : Db) (stored : Option Text)
    → has_device k db.devices ≡ false
    → reveal stored ≡ some p
    → get_pin k (added k label (some p) now db stored) ≡ some p
unfolding get_pin get_device put_device as_dict row_to_dict
get_pin-added k label p now db stored free shown =
    ap (λ o. pin_of (as_dict o))
      (find-append_new k db.devices
        (record (new_row k (some (or_empty label)) false stored now) { id = db.device_seq + 1 })
        free refl)
    ∙ shown

-- A PIN that is not empty, is not taken for a stored value and has only characters that Python can
-- encode is what `get_pin` gives back for the device that was added with it, where the id is valid
-- and new, and Python can encode the label.
pub get_pin-add_remote :
    (k : Text) (label : Option Text) (p : Text) (now : Text) (db : Db)
    → is_valid_id k ≡ true
    → has_device k db.devices ≡ false
    → is_empty p ≡ false
    → is_marked p ≡ false
    → IsText p
    → All (λ c. is_surrogate c ≡ false) p
    → IsEncodable label
    → (db' : Db) × (add_remote k label (some p) now db ≡ ok (accepted, db'))
      × (get_pin k db' ≡ some p)
get_pin-add_remote k label p now db v free filled plain t enc l =
    let (stored, e) = obfuscate_total p enc in
    (
      added k label (some p) now db stored,
      add_remote-new k label (some p) now db stored v free (unfold store_secret in rw (filled, e))
          l,
      get_pin-added k label p now db stored free
          (reveal-deobfuscate stored p (deobfuscate-obfuscate p stored t plain e) filled),
    )

-- what is left of a device after it was removed
pub record IsRemoved (k : Text) (before after : Db) : Type 0 where
  pub no_codes : any (λ c. c.device_id =? k) after.backup_codes ≡ false
  pub device_at : (j : Text) → get_device j after ≡ (if k =? j then none else get_device j before)
  pub fix_at : (j : Text) → get_latest j after ≡ (if k =? j then none else get_latest j before)

-- The own device is never removed or renamed: `remove_device` refuses it, and so does
-- `rename_device` for a new id that is valid, and neither changes anything.
pub own_device_stays :
    (k new now : Text) (db : Db) (d : Device)
    → find (names_device k) db.devices ≡ some d
    → d.is_own ≡ true
    → is_valid_id new ≡ true
    → (remove_device k db ≡ ok (refused "The own device cannot be removed", db))
      × (rename_device k new now db ≡ ok (refused "The own device id cannot be changed", db))
unfolding remove_device rename_device
own_device_stays k new now db d e own v = (rw (e, own), rw (v, e, own))
