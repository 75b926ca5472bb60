-- ===== src/Runtime/Signals.antt =====
-- The generation counter and the queued requests.
use text.Mathlib.Text.{◌==◌ as str_eq}
use text.Mathlib.TextPositions.{eq_refl}
use harbour_find_my_device.Prelude.{
  ℕ, ◌+◌, ◌≤◌, String, ◌≡◌, refl, true, false, some, [], ◌∷◌, arith, if◌then◌else◌, ℤ, pos, ◌+ℤ◌,
  ◌-ℤ◌, Bool-cases, inl, inr,
}
use harbour_find_my_device.Text.{Text, is_empty, strip}
use harbour_find_my_device.Text.Decimal.{show_int, parse_int, parse_int-show_int}
use harbour_find_my_device.Database.{Db}
use harbour_find_my_device.Table.{lookup-upsert}
use harbour_find_my_device.Runtime.{
  get, or_else, set, or_zero, generation, bump_generation, request, is_recent, consume_request,
}

pub get-set_key :
    (key other : String) (value default : Text) (db : Db)
    → get other default (set key value db)
      ≡ (if str_eq key other then value else get other default db)
unfolding get set or_else
get-set_key key other value default db = rw lookup-upsert (ground arith)

pub get-set_self :
    (key : String) (value default : Text) (db : Db) → get key default (set key value db) ≡ value
get-set_self key value default db = rw (get-set_key, eq_refl)

-- A bump counts one further, and the counter is read back as what the bump returned.
pub generation-bump_generation :
    (db : Db)
    → ((bump_generation db).0 ≡ generation db +ℤ pos 1)
      × (generation (bump_generation db).1 ≡ (bump_generation db).0)
unfolding generation bump_generation
generation-bump_generation db =
    (refl, rw (get-set_self, parse_int-show_int) (unfold or_zero in refl))

filled : (s : Text) (z : ℤ) → parse_int s ≡ some z → is_empty s ≡ false
filled [] z e = absurd (unfold parse_int strip in cc)
filled (c ∷ s) z e = unfold is_empty in refl

recent :
    (now max_age made : ℕ) → now ≤ made + max_age → is_recent now max_age (some (pos made)) ≡ true
unfolding is_recent ◌-ℤ◌
recent now max_age made h = ground arith

-- A request that is fetched up to `max_age` seconds after it was made is granted, and fetched once:
-- the next fetch finds none.
pub consume-request :
    (key : String) (max_age made now later : ℕ) (db : Db)
    → now ≤ made + max_age
    → ((consume_request key max_age now (request key made db)).0 ≡ true)
      × ((consume_request key max_age later
            (consume_request key max_age now (request key made db)).1).0
          ≡ false)
unfolding consume_request request
consume-request key max_age made now later db h =
    rw
      (
        get-set_self,
        filled (show_int (pos made)) (pos made) (parse_int-show_int (pos made)),
        parse_int-show_int,
        recent now max_age made h,
        get-set_self,
      )
      (unfold is_empty in (refl, refl))

-- Fetching a request, whether it is granted or too old, clears it.
pub consume_request_clears :
    (key : String) (max_age later now : ℕ) (db : Db)
    → (consume_request key max_age later (consume_request key max_age now db).1).0 ≡ false
unfolding consume_request
consume_request_clears key max_age later now db = elim (Bool-cases (is_empty (get key [] db))) [
  | inl blank ↦ rw (blank, blank)
  | inr queued ↦ rw (queued, get-set_self) (unfold is_empty in refl)
]
