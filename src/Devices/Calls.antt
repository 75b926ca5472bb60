-- ===== src/Devices/Calls.antt =====
-- The calls of devices.py in any order, each in a transaction of its own.
use harbour_find_my_device.Prelude.{
  ℕ, ◌≡◌, refl, Bool, true, false, if◌then◌else◌, Option, List, [], ◌∷◌,
}
use harbour_find_my_device.Text.{Text}
use harbour_find_my_device.Exception.{Result, ok, raise, ◌>>=◌}
use harbour_find_my_device.Database.{Db}
use harbour_find_my_device.Devices.{
  ensure_own_device, add_remote, update_device, rename_device, remove_device, set_auth_result,
  set_deleted,
}

-- A call of devices.py, with the ids that are drawn and the time of day.
pub data Call : Type 0 where
  ensure_own : (ℕ → Text) → Text → Call
  add : Text → Option Text → Option Text → Text → Call
  update : Text → Option Text → Option Text → Text → Call
  rename : Text → Text → Text → Call
  remove : Text → Call
  auth_result : Text → Option Text → Text → Call
  mark_deleted : Text → Bool → Text → Call

-- A transaction that raises leaves the database as it was.
abbrev pub after {ℓ} : {A : Type ℓ} → Db → Result (A × Db) → Db
after db (ok (a, db')) = db'
after db (raise e) = db

unfoldable pub run_call : Call → Db → Db
run_call (ensure_own draw now) db = after db (ensure_own_device draw now db)
run_call (add k label pin now) db = after db (add_remote k label pin now db)
run_call (update k label pin now) db = after db (update_device k label pin now db)
run_call (rename old new now) db = after db (rename_device old new now db)
run_call (remove k) db = after db (remove_device k db)
run_call (auth_result k result now) db = after db (set_auth_result k result now db)
run_call (mark_deleted k flag now) db = after db (set_deleted k flag now db)

unfoldable pub run_calls : List Call → Db → Db
run_calls [] db = db
run_calls (c ∷ calls) db = run_calls calls (run_call c db)

-- A property of the database that a transaction leaves when it does not raise.
abbrev pub Leaves {ℓ} : {A : Type ℓ} → (Db → Type 0) → Result (A × Db) → Type 0
Leaves P (ok (a, db)) = P db
Leaves P (raise e) = Unit

pub after-Leaves {ℓ} :
    {A : Type ℓ} (P : Db → Type 0) (db : Db) (r : Result (A × Db))
    → P db
    → Leaves P r
    → P (after db r)
after-Leaves P db (ok (a, db')) h k = k
after-Leaves P db (raise e) h k = h

module _ {ℓ} {A : Type ℓ} (P : Db → Type 0) where
  pub Leaves-if :
      (b : Bool) (m n : Result (A × Db))
      → (b ≡ true → Leaves P m)
      → (b ≡ false → Leaves P n)
      → Leaves P (if b then m else n)
  Leaves-if true m n h k = h refl
  Leaves-if false m n h k = k refl

  pub Leaves-bind {κ} :
      {B : Type κ} (m : Result B) (f : B → Result (A × Db))
      → ((b : B) → m ≡ ok b → Leaves P (f b))
      → Leaves P (m >>= f)
  Leaves-bind (ok b) f h = h b refl
  Leaves-bind (raise e) f h = tt
