-- ===== src/MobileData/Recovery.antt =====
-- The phone is as it was after any session, also one in which the process died, once a daemon has
-- looked at the record.
use harbour_find_my_device.Prelude.{
  ℕ, ◌≡◌, refl, ap, ◌∙◌, Bool, true, false, Option, none, some, List, [], arith,
}
use harbour_find_my_device.Text.{Text}
use harbour_find_my_device.MobileData.{
  Service, Phone, Session, new_session, find_service, set_service, with_auto, owned_in, or_none,
  set_autoconnect, clear_owned, read_owned, recover, recover_found, undo_interrupted, service_props,
  bus, switch_off_if_on, clear_if_done, recorded, switched,
}
use harbour_find_my_device.MobileData.Calls.{
  World, Io, state_of, attempt, read, read_as, write, write_as, first_fate, later_fates, ◌>>=◌,
  then_do, caught, hang, store, ended,
}
use harbour_find_my_device.MobileData.Rules.{Meets, Meets-then_do}
use harbour_find_my_device.MobileData.Sessions.{Setting, enable_now, enable_if_needed, locked}
use harbour_find_my_device.MobileData.Switch.{
  IsOff, DistinctPaths, PlainPaths, set_service-back, find-set_service, found-IsOff,
}
use harbour_find_my_device.MobileData.Rules.{state-meets}
use harbour_find_my_device.MobileData.Crash.{
  Kept, Safe, kept, recorded_only, switched_on, CanRecord, Mid, Ended, KeptIn, recover-kept,
}
use harbour_find_my_device.MobileData.Sessions.{
  exclusive, lock_timeout, when_locked, temporarily_enabled,
}
use harbour_find_my_device.MobileData.Restoring.{enable_now-held, in_session-Safe}

-- a process that starts, in which every call works
abbrev pub fresh : Phone → World Phone
fresh phone = record { state = phone; fates = [] }

-- the body of a session leaves the services, the SIMs and the record as they are
abbrev pub LeavesPhone : {A : Type 0} → (Session → Io Phone A) → Type 0
LeavesPhone body = (session : Session) (w : World Phone) → state_of (body session w) ≡ w.state

module _ (services : List Service) (distinct : DistinctPaths services)
    (plain : PlainPaths services) where
  module _ {A : Type 0} (setting : Setting) (timeout : ℕ) (can : CanRecord setting.mark)
      (body : Session → Io Phone A) (same : LeavesPhone body) where
    locked-Safe :
        (w : World Phone)
        → KeptIn services w
        → Meets (Safe services) (Mid services) (Ended services) (locked setting timeout body w)
    unfolding locked ◌>>=◌ enable_if_needed
    locked-Safe w h =
        Meets-then_do _ _ (λ a v. KeptIn services v) _ (recover w) _ (recover-kept services w h)
          (λ a v x.
            Meets-then_do _ _ _ _ (enable_now setting timeout v) _
              (enable_now-held services distinct plain setting timeout can v x)
              (λ session u y. in_session-Safe services distinct plain body same session u y))

    bare-Safe :
        (w : World Phone) → KeptIn services w → Safe services (state_of (body new_session w))
    bare-Safe w h = rw (same new_session w) (kept h)

    when_locked-Safe :
        (o : Option Bool) (w : World Phone)
        → KeptIn services w
        → Safe services (state_of (when_locked o setting timeout body w))
    unfolding when_locked hang
    when_locked-Safe none w h = kept h
    when_locked-Safe (some false) w h = bare-Safe w h
    when_locked-Safe (some true) w h =
        state-meets (Safe services) (locked setting timeout body w) (locked-Safe w h)

    session-Safe :
        (allowed : Bool) (w : World Phone)
        → KeptIn services w
        → Safe services (state_of (temporarily_enabled allowed setting timeout body w))
    unfolding temporarily_enabled
    session-Safe false w h = bare-Safe w h
    session-Safe true w h = when_locked-Safe (exclusive lock_timeout setting.tries) w h

  recover-none :
      (phone : Phone) (o : Option Text)
      → Kept services phone
      → o ≡ none
      → Kept services (state_of (recover_found o (fresh phone)))
  unfolding recover_found
  recover-none phone none h e = h
  recover-none phone (some path) h e = ground (arith, e)

  undo :
      (path : Text) (phone : Phone) (s : Service)
      → find_service path phone.services ≡ some s
      → recover_found (some path) (fresh phone)
        ≡ then_do (caught (switch_off_if_on path s.auto_connect (fresh phone))) clear_if_done
  unfolding recover_found ◌>>=◌ attempt undo_interrupted bus service_props read read_as first_fate
      later_fates then_do caught ended
  undo path phone s e = rw e refl

  recover-off :
      (path : Text) (phone : Phone) (b : Bool)
      → phone.services ≡ services
      → b ≡ false
      → Kept services
          (state_of (then_do (caught (switch_off_if_on path b (fresh phone))) clear_if_done))
  unfolding switch_off_if_on caught then_do clear_if_done clear_owned attempt write write_as
      first_fate later_fates store recorded owned_in
  recover-off path phone true e off = ground (arith, off)
  recover-off path phone false e off = (e, refl)

  recover-on :
      (path : Text) (phone : Phone)
      → IsOff path services
      → phone.services ≡ set_service path true services
      → Kept services
          (state_of (then_do (caught (switch_off_if_on path true (fresh phone))) clear_if_done))
  unfolding switch_off_if_on set_autoconnect switched caught then_do clear_if_done clear_owned
      attempt write write_as first_fate later_fates store recorded owned_in
  recover-on path phone off e =
      (ap (set_service path false) e ∙ set_service-back path services off, refl)

  recover-Kept :
      (phone : Phone)
      → Safe services phone
      → Kept services (state_of (recover_found (owned_in phone.owned) (fresh phone)))
  recover-Kept phone (kept h) = recover-none phone (owned_in phone.owned) h h.1
  recover-Kept phone (recorded_only path off h) =
      let found : find_service path phone.services ≡ some off.0.0 =
        ap (find_service path) h.0 ∙ off.0.1 in
      rw (h.1, undo path phone off.0.0 found)
        (recover-off path phone off.0.0.auto_connect h.0
          (found-IsOff path off.0.0 services off.0.1 off.1))
  recover-Kept phone (switched_on path off h) =
      let found : find_service path phone.services ≡ some (with_auto true off.0.0) =
        ap (find_service path) h.0 ∙ find-set_service path true off.0.0 services off.0.1 in
      rw (h.1, undo path phone (with_auto true off.0.0) found)
        (unfold with_auto in recover-on path phone off.1 h.0)

-- A session may end at any point: each call to D-Bus or of a file may fail, take effect and fail,
-- or be where the process dies, and the body may end in any way, but leaves the services and the
-- record as they are. When the daemon that starts next looks at the record and no call fails, the
-- AutoConnect of each service is as it was before the session, and nothing is recorded. The
-- conditions: no path names two services, a path reads back from the record, nothing was recorded
-- before the session, and writing the record does not fail, though the process may die before or
-- in it.
pub recover-temporarily_enabled :
    {A : Type 0} (allowed : Bool) (setting : Setting) (timeout : ℕ) (body : Session → Io Phone A)
    (w : World Phone)
    → DistinctPaths w.state.services
    → PlainPaths w.state.services
    → owned_in w.state.owned ≡ none
    → CanRecord setting.mark
    → LeavesPhone body
    → Kept w.state.services
        (state_of (recover (fresh (state_of (temporarily_enabled allowed setting timeout body w)))))
unfolding recover read_owned ◌>>=◌ attempt read read_as first_fate later_fates then_do caught ended
    or_none
recover-temporarily_enabled allowed setting timeout body w distinct plain none_before can same =
    recover-Kept w.state.services distinct plain
      (state_of (temporarily_enabled allowed setting timeout body w))
      (session-Safe w.state.services distinct plain setting timeout can body same allowed w
        (refl, none_before))
