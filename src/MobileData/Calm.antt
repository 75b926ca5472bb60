-- ===== src/MobileData/Calm.antt =====
-- A session raises nothing of its own, and returns what its body returns.
use harbour_find_my_device.Prelude.{◌≡◌, refl, ℕ, Bool, true, false, Option, none, some}
use harbour_find_my_device.Text.{Text}
use harbour_find_my_device.MobileData.{
  Phone, Session, new_session, mark_owned, set_autoconnect, clear_owned, read_owned, recover,
  recover_found, undo_interrupted, clear_if_done, owned_in, or_none,
}
use harbour_find_my_device.MobileData.Calls.{
  World, Outcome, returned, raised, killed, Io, pure, hang, caught, attempt, then_do, ◌>>=◌,
  finally, finished, after_return, read,
}
use harbour_find_my_device.MobileData.Sessions.{
  Target, on_wifi, no_service, candidate, find_target, Setting, exclusive, lock_timeout,
  wait_online, waited, after_switch, switch_on, use_candidate, use_target, enable_now,
  enable_if_needed, clear_if_off, switch_off, restore_if, restore, in_session, locked, when_locked,
  temporarily_enabled,
}

-- no error is raised
abbrev pub IsCalm {ℓ} : {A : Type ℓ} → Outcome Phone A → Type 0
IsCalm (returned a w) = Unit
IsCalm (raised w) = ⊥
IsCalm (killed s) = Unit

-- no error is raised, and what is returned is this
abbrev pub Yields : {A : Type 0} → A → Outcome Phone A → Type 0
Yields b (returned a w) = a ≡ b
Yields b (raised w) = ⊥
Yields b (killed s) = Unit

IsCalm-then {ℓ κ} :
    {A : Type ℓ} {B : Type κ} (o : Outcome Phone A) (f : A → Io Phone B)
    → IsCalm o
    → ((a : A) (w : World Phone) → IsCalm (f a w))
    → IsCalm (then_do o f)
unfolding then_do
IsCalm-then (returned a w) f h k = k a w
IsCalm-then (raised w) f h k = h
IsCalm-then (killed s) f h k = tt

IsCalm-caught {ℓ} : {A : Type ℓ} (o : Outcome Phone A) → IsCalm (caught o)
unfolding caught
IsCalm-caught (returned a w) = tt
IsCalm-caught (raised w) = tt
IsCalm-caught (killed s) = tt

IsCalm-clear : (o : Option Bool) (w : World Phone) → IsCalm (clear_if_done o w)
unfolding clear_if_done clear_owned attempt
IsCalm-clear none w = tt
IsCalm-clear (some b) w = IsCalm-caught _

IsCalm-recover_found : (o : Option Text) (w : World Phone) → IsCalm (recover_found o w)
unfolding recover_found ◌>>=◌ attempt
IsCalm-recover_found none w = tt
IsCalm-recover_found (some path) w =
    IsCalm-then (caught (undo_interrupted path w)) clear_if_done
      (IsCalm-caught (undo_interrupted path w)) IsCalm-clear

IsCalm-recover : (w : World Phone) → IsCalm (recover w)
unfolding recover read_owned ◌>>=◌ attempt
IsCalm-recover w =
    let first = read (λ phone. some (owned_in phone.owned)) w in
    IsCalm-then (then_do (caught first) (λ o. pure (or_none o))) recover_found
      (IsCalm-then (caught first) (λ o. pure (or_none o)) (IsCalm-caught first) (λ o v. tt))
      IsCalm-recover_found

IsCalm-waited : (o : Option Bool) (w : World Phone) → IsCalm (waited o w)
unfolding waited hang
IsCalm-waited none w = tt
IsCalm-waited (some b) w = tt

IsCalm-after_switch :
    (setting : Setting) (timeout : ℕ) (path : Text) (o : Option Bool) (w : World Phone)
    → IsCalm (after_switch setting timeout path o w)
unfolding after_switch ◌>>=◌
IsCalm-after_switch setting timeout path none w = tt
IsCalm-after_switch setting timeout path (some b) w =
    IsCalm-then (waited (wait_online timeout none setting.readings) w) _
      (IsCalm-waited (wait_online timeout none setting.readings) w) (λ online v. tt)

IsCalm-use_candidate :
    (setting : Setting) (timeout : ℕ) (path : Text) (auto roaming : Bool) (w : World Phone)
    → IsCalm (use_candidate setting timeout path auto roaming w)
unfolding use_candidate switch_on mark_owned ◌>>=◌ attempt
IsCalm-use_candidate setting timeout path true roaming w = tt
IsCalm-use_candidate setting timeout path false true w = tt
IsCalm-use_candidate setting timeout path false false w =
    IsCalm-then (mark_owned setting.mark path w) _ (IsCalm-caught _) (λ o v.
      IsCalm-then (caught (set_autoconnect path true v)) _
        (IsCalm-caught (set_autoconnect path true v))
        (λ d u. IsCalm-after_switch setting timeout path d u))

IsCalm-use_target :
    (setting : Setting) (timeout : ℕ) (o : Option Target) (w : World Phone)
    → IsCalm (use_target setting timeout o w)
unfolding use_target
IsCalm-use_target setting timeout none w = tt
IsCalm-use_target setting timeout (some on_wifi) w = tt
IsCalm-use_target setting timeout (some no_service) w = tt
IsCalm-use_target setting timeout (some (candidate s)) w =
    IsCalm-use_candidate setting timeout s.path s.auto_connect s.roaming w

IsCalm-enable :
    (setting : Setting) (timeout : ℕ) (w : World Phone)
    → IsCalm (enable_if_needed true setting timeout w)
unfolding enable_if_needed enable_now ◌>>=◌ attempt
IsCalm-enable setting timeout w =
    IsCalm-then (caught (find_target w)) _ (IsCalm-caught (find_target w))
      (IsCalm-use_target setting timeout)

IsCalm-clear_if_off : (o : Option Bool) (w : World Phone) → IsCalm (clear_if_off o w)
unfolding clear_if_off clear_owned ◌>>=◌ attempt
IsCalm-clear_if_off none w = tt
IsCalm-clear_if_off (some b) w = IsCalm-then (clear_owned w) _ (IsCalm-caught _) (λ d v. tt)

IsCalm-restore :
    (enabled : Bool) (path : Option Text) (w : World Phone) → IsCalm (restore_if enabled path w)
unfolding restore_if ◌>>=◌ attempt
IsCalm-restore false path w = tt
IsCalm-restore true path w =
    IsCalm-then (caught (switch_off path w)) clear_if_off (IsCalm-caught (switch_off path w))
      IsCalm-clear_if_off

Yields-after :
    {A B : Type 0} (a b : A) (o : Outcome Phone B) → a ≡ b → IsCalm o → Yields b (after_return a o)
unfolding after_return
Yields-after a b (returned d w) e h = e
Yields-after a b (raised w) e h = h
Yields-after a b (killed s) e h = tt

pub Yields-then :
    {A B : Type 0} (b : B) (o : Outcome Phone A) (f : A → Io Phone B)
    → IsCalm o
    → ((a : A) (w : World Phone) → Yields b (f a w))
    → Yields b (then_do o f)
unfolding then_do
Yields-then b (returned a w) f h k = k a w
Yields-then b (raised w) f h k = h
Yields-then b (killed s) f h k = tt

module _ {A : Type 0} (b : A) (body : Session → Io Phone A)
    (gives : (session : Session) (w : World Phone) → body session w ≡ returned b w) where
  in_session-Yields : (session : Session) (w : World Phone) → Yields b (in_session body session w)
  unfolding in_session finally finished restore
  in_session-Yields session w = rw (gives session w) (
      Yields-after b b (restore_if session.enabled_by_us session.service w) refl
        (IsCalm-restore session.enabled_by_us session.service w))

  locked-Yields :
      (setting : Setting) (timeout : ℕ) (w : World Phone) → Yields b (locked setting timeout body w)
  unfolding locked ◌>>=◌
  locked-Yields setting timeout w = Yields-then b (recover w) _ (IsCalm-recover w) (λ a v.
      Yields-then b (enable_if_needed true setting timeout v) _ (IsCalm-enable setting timeout v)
        in_session-Yields)

  bare-Yields : (w : World Phone) → Yields b (body new_session w)
  bare-Yields w = rw (gives new_session w) refl

  when_locked-Yields :
      (o : Option Bool) (setting : Setting) (timeout : ℕ) (w : World Phone)
      → Yields b (when_locked o setting timeout body w)
  unfolding when_locked hang
  when_locked-Yields none setting timeout w = tt
  when_locked-Yields (some false) setting timeout w = bare-Yields w
  when_locked-Yields (some true) setting timeout w = locked-Yields setting timeout w

  pub temporarily_enabled-Yields :
      (allowed : Bool) (setting : Setting) (timeout : ℕ) (w : World Phone)
      → Yields b (temporarily_enabled allowed setting timeout body w)
  unfolding temporarily_enabled
  temporarily_enabled-Yields false setting timeout w = bare-Yields w
  temporarily_enabled-Yields true setting timeout w =
      when_locked-Yields (exclusive lock_timeout setting.tries) setting timeout w
