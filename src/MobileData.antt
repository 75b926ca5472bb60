-- ===== src/MobileData.antt =====
-- daemon-rpm/src/mobiledata_control.py: mobile data switched on for a network action and off again.
-- The state is that of the phone: ConnMan's services, the SIMs that oFono reports, and the file that
-- records what was switched on. A time is in milliseconds since the loop that reads it began.
pub mod Calls
pub mod Sessions
pub mod Rules
pub mod Switch
pub mod Crash
pub mod Finding
pub mod Restoring
pub mod Recovery
pub mod Calm
pub mod Policy
pub mod Waiting
use harbour_find_my_device.Prelude.{
  ℕ, zero, suc, ◌*◌, Bool, true, false, not, ◌&&◌, ◌||◌, Option, none, some, List, [], ◌∷◌, ◌++◌,
  map, any, keep, leb, ◌=?◌, if◌then◌else◌,
}
use harbour_find_my_device.Text.{Text, codes, is_empty, strip, contains}
use Calls.{
  write_as, Fate, Io, Outcome, returned, killed, World, pure, attempt, finally, read, write, ◌>>=◌,
}

pub record Service : Type 0 where
  pub path : Text
  pub type : Text
  pub state : Text
  pub auto_connect : Bool
  pub roaming : Bool

pub record Phone : Type 0 where
  pub services : List Service  -- ConnMan's GetServices
  pub sims : Option (List Text)  -- GetAll of the modem manager, or none when it raises
  pub owned : Option Text  -- the file with the record of ownership

pub record Session : Type 0 where
  pub enabled_by_us : Bool
  pub service : Option Text
  pub note : Option Text
  pub online : Option Bool

unfoldable pub new_session : Session
new_session = record { enabled_by_us = false; service = none; note = none; online = none }

unfoldable pub of_type : Text → List Service → List Service
of_type kind services = keep (λ s. s.type =? kind) services

unfoldable pub in_use : Service → Bool
in_use s = (s.state =? codes "ready") || (s.state =? codes "online")

-- what `wifi_connected` finds
unfoldable pub wifi_among : List Service → Bool
unfolding in_use of_type
wifi_among services = any in_use (of_type (codes "wifi") services)

unfoldable pub item : ℕ → List Text → Option Text
item n [] = none
item zero (t ∷ texts) = some t
item (suc n) (t ∷ texts) = item n texts

unfoldable pub not_blank : Option Text → Option Text
not_blank none = none
not_blank (some t) = if is_empty t then none else some t

-- what `_data_imsi` takes from the answer
unfoldable pub imsi_in : Option (List Text) → Option Text
unfolding item not_blank
imsi_in none = none
imsi_in (some values) = not_blank (item 3 values)

unfoldable pub matching : Text → List Service → Option Service
matching imsi [] = none
matching imsi (s ∷ services) =
    if contains s.path (codes "cellular_" ++ (imsi ++ codes "_"))
    then some s
    else matching imsi services

unfoldable pub single : List Service → Option Service
single (s ∷ []) = some s
single _ = none

unfoldable pub or_single : Option Service → List Service → Option Service
unfolding single
or_single none services = single services
or_single (some s) services = some s

-- `data_service`, of the cellular services and the IMSI of the data SIM
unfoldable pub choose_service : Option Text → List Service → Option Service
unfolding or_single matching
choose_service none services = single services
choose_service (some imsi) services = or_single (matching imsi services) services

unfoldable pub find_service : Text → List Service → Option Service
find_service path [] = none
find_service path (s ∷ services) = if s.path =? path then some s else find_service path services

unfoldable pub with_auto : Bool → Service → Service
with_auto value s = record s { auto_connect = value }

unfoldable pub set_one : Text → Bool → Service → Service
unfolding with_auto
set_one path value s = if s.path =? path then with_auto value s else s

unfoldable pub set_service : Text → Bool → List Service → List Service
unfolding set_one
set_service path value services = map (set_one path value) services

unfoldable pub switched : Text → Bool → Phone → Phone
unfolding set_service
switched path value phone = record phone { services = set_service path value phone.services }

unfoldable pub recorded : Option Text → Phone → Phone
recorded owned phone = record phone { owned = owned }

-- `_set_autoconnect`
unfoldable pub set_autoconnect : Text → Bool → Io Phone Bool
unfolding switched
set_autoconnect path value = write (switched path value) (switched path value)

unfoldable pub bus : Io Phone Bool
bus = read (λ phone. some true)

-- the last clause of `_read_owned`
unfoldable pub owned_in : Option Text → Option Text
unfolding not_blank
owned_in none = none
owned_in (some content) = not_blank (some (strip content))

module _ {ℓ} {A : Type ℓ} where
  unfoldable pub or_none : Option (Option A) → Option A
  or_none none = none
  or_none (some o) = o

-- `_mark_owned`: opening the file empties it. An error is only logged.
unfoldable pub mark_owned : Fate → Text → Io Phone (Option Bool)
unfolding recorded
mark_owned fate path = attempt (write_as fate (recorded (some path)) (recorded (some [])))

-- `_read_owned`
unfoldable pub read_owned : Io Phone (Option Text)
unfolding owned_in or_none
read_owned = do o ← attempt (read (λ phone. some (owned_in phone.owned))); pure (or_none o)

-- `_clear_owned`
unfoldable pub clear_owned : Io Phone (Option Bool)
unfolding recorded
clear_owned = attempt (write (recorded none) (recorded none))

-- `_service_props`: the properties of a service, which ConnMan has to know
unfoldable pub service_props : Text → Io Phone Service
service_props path = read (λ phone. find_service path phone.services)

unfoldable pub switch_off_if_on : Text → Bool → Io Phone Bool
switch_off_if_on path true = set_autoconnect path false
switch_off_if_on path false = pure false

unfoldable pub undo_interrupted : Text → Io Phone Bool
unfolding switch_off_if_on
undo_interrupted path = do _ ← bus; s ← service_props path; switch_off_if_on path s.auto_connect

unfoldable pub clear_if_done : Option Bool → Io Phone (Option Bool)
clear_if_done none = pure none
clear_if_done (some done) = clear_owned

unfoldable pub recover_found : Option Text → Io Phone (Option Bool)
unfolding clear_if_done
recover_found none = pure none
recover_found (some path) = do done ← attempt (undo_interrupted path); clear_if_done done

-- `_recover`
unfoldable pub recover : Io Phone (Option Bool)
unfolding recover_found
recover = do service ← read_owned; recover_found service
