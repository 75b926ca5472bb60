-- ===== src/MobileData/Sessions.antt =====
-- enable_if_needed, restore, temporarily_enabled and recover_interrupted, with the lock between the
-- two daemons and the wait for the connection.
use harbour_find_my_device.Prelude.{
  ℕ, Bool, true, false, not, ◌&&◌, Option, none, some, List, [], ◌∷◌, leb, ◌=?◌, if◌then◌else◌,
}
use harbour_find_my_device.Text.{Text, codes}
use harbour_find_my_device.MobileData.{
  Service, Phone, Session, new_session, wifi_among, imsi_in, of_type, choose_service, or_none, bus,
  mark_owned, set_autoconnect, clear_owned, recover,
}
use harbour_find_my_device.MobileData.Calls.{
  Fate, Io, pure, hang, throw, attempt, finally, read, ◌>>=◌,
}

-- One round of `_wait_online`: the state that is read, or none when that raises, and the times after
-- it, since the start, at which the code compares with the grace period and with the deadline.
pub record Reading : Type 0 where
  pub seen : Option Text
  pub grace_at : ℕ
  pub deadline_at : ℕ

unfoldable pub latest : Option Text → Option Text → Option Text
latest none state = state
latest (some seen) state = some seen

unfoldable pub is_state : Text → Option Text → Bool
is_state t none = false
is_state t (some state) = state =? t

unfoldable pub ready_grace : ℕ
ready_grace = 2000

-- `_wait_online`, a reading for each round; none when it still waits after the last one
unfoldable pub wait_online : ℕ → Option Text → List Reading → Option Bool
unfolding latest is_state ready_grace
wait_online timeout state [] = none
wait_online timeout state (r ∷ readings) =
    let now = latest r.seen state in
    let rest = wait_online timeout now readings in
    if is_state (codes "online") now
    then some true
    else if is_state (codes "ready") now && leb ready_grace r.grace_at
    then some true
    else if leb timeout r.deadline_at
    then some false
    else rest

-- One try to take the lock: it is taken, it is busy at a time since the start, or it raises.
pub data Try : Type 0 where
  taken broken : Try
  busy : ℕ → Try

-- the loop of `_exclusive`: whether the lock is entered; none when it still waits after the last try
unfoldable pub exclusive : ℕ → List Try → Option Bool
exclusive timeout [] = none
exclusive timeout (taken ∷ tries) = some true
exclusive timeout (broken ∷ tries) = some false
exclusive timeout (busy at ∷ tries) =
    let rest = exclusive timeout tries in if leb timeout at then some false else rest

pub data Target : Type 0 where
  on_wifi no_service : Target
  candidate : Service → Target

unfoldable pub target_of : Option Service → Target
target_of none = no_service
target_of (some s) = candidate s

unfoldable pub list_services : Io Phone (List Service)
list_services = read (λ phone. some phone.services)

-- `_data_imsi`, which takes any error for no IMSI
unfoldable pub data_imsi : Io Phone (Option Text)
unfolding or_none
data_imsi = do imsi ← attempt (read (λ phone. some (imsi_in phone.sims))); pure (or_none imsi)

unfoldable pub data_service : Io Phone (Option Service)
unfolding list_services
data_service = do
  services ← list_services
  imsi ← data_imsi
  pure (choose_service imsi (of_type (codes "cellular") services))

unfoldable pub data_target : Bool → Io Phone Target
unfolding target_of
data_target true = pure on_wifi
data_target false = do s ← data_service; pure (target_of s)

unfoldable pub find_target : Io Phone Target
unfolding data_target list_services
find_target = do _ ← bus; services ← list_services; data_target (wifi_among services)

-- What the surroundings of a session do: the fate of the record, the rounds of the wait for the
-- connection, and the tries to take the lock.
pub record Setting : Type 0 where
  pub mark : Fate
  pub readings : List Reading
  pub tries : List Try

unfoldable pub waited : Option Bool → Io Phone Bool
waited none = hang
waited (some online) = pure online

unfoldable pub online_note : Bool → Text
online_note true = codes "Mobile data was off, enabled temporarily"
online_note false = codes "Mobile data was off, enabled but no connection"

unfoldable pub failed_note : Text
failed_note = codes "Mobile data could not be enabled"

unfoldable pub after_switch : Setting → ℕ → Text → Option Bool → Io Phone Session
unfolding waited online_note failed_note
after_switch setting timeout path none =
    pure (record new_session { service = some path; note = some failed_note })
after_switch setting timeout path (some done) = do
  online ← waited (wait_online timeout none setting.readings)
  pure (record {
    enabled_by_us = true;
    service = some path;
    note = some (online_note online);
    online = some online;
  })

unfoldable pub switch_on : Setting → ℕ → Text → Io Phone Session
unfolding after_switch
switch_on setting timeout path = do
  _ ← mark_owned setting.mark path
  done ← attempt (set_autoconnect path true)
  after_switch setting timeout path done

unfoldable pub roaming_note : Text
roaming_note = codes "Mobile data is off (roaming, not enabled)"

unfoldable pub unavailable_note : Text
unavailable_note = codes "Mobile data not available"

-- the service is off or on, at home or roaming
unfoldable pub use_candidate : Setting → ℕ → Text → Bool → Bool → Io Phone Session
unfolding roaming_note
use_candidate setting timeout path true roaming = pure (record new_session { service = some path })
use_candidate setting timeout path false true =
    pure (record new_session { service = some path; note = some roaming_note })
use_candidate setting timeout path false false = switch_on setting timeout path

unfoldable pub use_target : Setting → ℕ → Option Target → Io Phone Session
unfolding failed_note unavailable_note use_candidate
use_target setting timeout none = pure (record new_session { note = some failed_note })
use_target setting timeout (some on_wifi) = pure new_session
use_target setting timeout (some no_service) =
    pure (record new_session { note = some unavailable_note })
use_target setting timeout (some (candidate s)) =
    use_candidate setting timeout s.path s.auto_connect s.roaming

unfoldable pub enable_now : Setting → ℕ → Io Phone Session
enable_now setting timeout = do target ← attempt find_target; use_target setting timeout target

unfoldable pub enable_if_needed : Bool → Setting → ℕ → Io Phone Session
enable_if_needed allowed setting timeout =
    if not allowed then pure new_session else enable_now setting timeout

unfoldable pub clear_if_off : Option Bool → Io Phone Bool
clear_if_off none = pure false
clear_if_off (some done) = do _ ← clear_owned; pure true

unfoldable pub switch_off : Option Text → Io Phone Bool
switch_off none = throw
switch_off (some path) = do _ ← bus; set_autoconnect path false

unfoldable pub restore_if : Bool → Option Text → Io Phone Bool
unfolding switch_off
restore_if false service = pure false
restore_if true service = do done ← attempt (switch_off service); clear_if_off done

unfoldable pub restore : Session → Io Phone Bool
unfolding restore_if
restore session = restore_if session.enabled_by_us session.service

unfoldable pub lock_timeout : ℕ
lock_timeout = 180000

module _ {ℓ} {A : Type ℓ} where
  unfoldable pub in_session : (Session → Io Phone A) → Session → Io Phone A
  in_session body session = finally (body session) (restore session)

  unfoldable pub locked : Setting → ℕ → (Session → Io Phone A) → Io Phone A
  unfolding in_session
  locked setting timeout body = do
    _ ← recover
    session ← enable_if_needed true setting timeout
    in_session body session

  unfoldable pub when_locked : Option Bool → Setting → ℕ → (Session → Io Phone A) → Io Phone A
  when_locked none setting timeout body = hang
  when_locked (some false) setting timeout body = body new_session
  when_locked (some true) setting timeout body = locked setting timeout body

  -- `temporarily_enabled` around a `with` body
  unfoldable pub temporarily_enabled : Bool → Setting → ℕ → (Session → Io Phone A) → Io Phone A
  unfolding when_locked lock_timeout
  temporarily_enabled allowed setting timeout body =
      if not allowed
      then body new_session
      else when_locked (exclusive lock_timeout setting.tries) setting timeout body

unfoldable pub recover_locked : Option Bool → Io Phone (Option Bool)
recover_locked none = hang
recover_locked (some false) = pure none
recover_locked (some true) = recover

-- `recover_interrupted`, when a daemon starts
unfoldable pub recover_interrupted : List Try → Io Phone (Option Bool)
unfolding recover_locked
recover_interrupted tries = recover_locked (exclusive 1000 tries)
