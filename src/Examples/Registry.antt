-- ===== src/Examples/Registry.antt =====
-- The devices, their fixes, the settings and the stored secrets.
use harbour_find_my_device.Prelude.{
  ◌≡◌, refl, Option, none, some, List, [], ◌∷◌, arith, any, ◌=?◌, if◌then◌else◌,
}
use harbour_find_my_device.Text.{Text, codes, is_empty, starts_with}
use harbour_find_my_device.Exception.{ok}
use harbour_find_my_device.Codec.Utf8.{is_surrogate}
use harbour_find_my_device.Obfuscation.{is_marked}
use harbour_find_my_device.Database.{has_own, Db, has_device}
use harbour_find_my_device.Database.Rows.{find}
use harbour_find_my_device.Devices.{
  accepted, get_own, get_pin, add_remote, store_secret, rename_device,
}
use harbour_find_my_device.Devices.Ids.{is_valid_id, is_alnum}
use harbour_find_my_device.Devices.Calls.{after, Call, remove, rename, add, run_calls}
use harbour_find_my_device.Devices.Invariant.{IsValid, run_calls-IsValid, own_id, own_id-run_calls}
use harbour_find_my_device.Devices.Pairing.{added, add_reply, add_remote_total, get_pin-add_remote}
use harbour_find_my_device.Devices.Renaming.{IsRenamed, rename_device-IsRenamed}
use harbour_find_my_device.Gps.{get_latest, latest}
use harbour_find_my_device.Examples.{own_key, friend_key, moment, sample}

sample-IsValid : IsValid sample
unfolding has_device has_own any ◌=?◌
sample-IsValid = record {
  distinct = (refl, (refl, tt));
  single_own = ((λ own. refl), ((λ own. refl), tt));
}

abbrev calls : List Call
calls =
    remove friend_key
    ∷ rename own_key (codes "Other00003") moment
    ∷ add (codes "Other00003") none (some (codes "77")) moment
    ∷ remove own_key
    ∷ []

run_calls-IsValid_example : IsValid (run_calls calls sample)
run_calls-IsValid_example = run_calls-IsValid calls sample sample-IsValid

own_id-run_calls_example : own_id (run_calls calls sample) ≡ some own_key
unfolding own_id get_own find
own_id-run_calls_example = own_id-run_calls calls sample own_key sample-IsValid refl

get_pin-add_remote_example :
    (db : Db) × (add_remote (codes "Other00003") none (some (codes "77")) moment sample
      ≡ ok (accepted, db))
    × (get_pin (codes "Other00003") db ≡ some (codes "77"))
unfolding is_valid_id has_device is_empty is_marked is_surrogate is_alnum any ◌=?◌ starts_with
get_pin-add_remote_example =
    get_pin-add_remote (codes "Other00003") none (codes "77") moment sample refl refl refl refl
      (omega arith, (omega arith, tt)) (refl, (refl, tt)) tt

add_remote_total_example :
    (stored : Option Text) × (store_secret (some (codes "77")) ≡ ok stored)
    × (add_remote (codes "short") none (some (codes "77")) moment sample
        ≡ ok (
          add_reply (codes "short") sample,
          (if (add_reply (codes "short") sample).0
              then added (codes "short") none (some (codes "77")) moment sample stored
              else sample),
        ))
unfolding is_surrogate
add_remote_total_example =
    add_remote_total (codes "short") none (some (codes "77")) moment sample (refl, (refl, tt)) tt

rename_device-IsRenamed_example :
    IsRenamed friend_key
      (codes "Other00003")
      sample
      (after sample (rename_device friend_key (codes "Other00003") moment sample))
unfolding rename_device get_latest is_valid_id latest ◌=?◌ is_alnum find has_device any
rename_device-IsRenamed_example =
    rename_device-IsRenamed friend_key (codes "Other00003") moment sample
      (after sample (rename_device friend_key (codes "Other00003") moment sample)) refl refl
