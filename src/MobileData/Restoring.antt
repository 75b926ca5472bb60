-- ===== src/MobileData/Restoring.antt =====
-- What a session knows of the phone while it holds mobile data on, and what it leaves.
use harbour_find_my_device.Prelude.{
  ℕ, ◌≡◌, refl, ap, sym, ◌∙◌, inl, inr, Bool, true, false, Option, none, some, List, [], ◌∷◌,
}
use harbour_find_my_device.Text.{Text, codes}
use harbour_find_my_device.MobileData.{
  Service, Phone, Session, new_session, owned_in, mark_owned, set_autoconnect, clear_owned, bus,
  of_type,
}
use harbour_find_my_device.MobileData.Calls.{
  World, Io, state_of, attempt, read, ◌>>=◌, caught, finally, hang,
}
use harbour_find_my_device.MobileData.Rules.{
  Meets, Either, Meets-weaken, Meets-caught, Meets-then_do, Meets-finished,
}
use harbour_find_my_device.MobileData.Sessions.{
  Target, on_wifi, no_service, candidate, find_target, Setting, wait_online, waited, after_switch,
  switch_on, use_target, enable_now, clear_if_off, switch_off, restore, in_session,
}
use harbour_find_my_device.MobileData.Switch.{
  DistinctPaths, IsPlain, PlainPaths, In, found_by_path, choose_service-In, In-keep,
}
use harbour_find_my_device.MobileData.Rules.{same-Meets, Meets-pure}
use harbour_find_my_device.MobileData.Crash.{
  Offable, Kept, Recorded, SwitchedOn, Safe, kept, switched_on, CanRecord, Mid, Ended, read-keeps,
  mark_owned-Safe, set_autoconnect-on, set_autoconnect-off, clear_owned-Safe, KeptIn,
}
use harbour_find_my_device.MobileData.Sessions.{restore_if, use_candidate}
use harbour_find_my_device.MobileData.Finding.{IsListed, IsChosen, find_target-kept}

-- what the session knows of the phone
abbrev pub HeldBy : List Service → Bool → Option Text → Phone → Type 0
HeldBy services false path phone = Safe services phone
HeldBy services true none phone = ⊥
HeldBy services true (some path) phone = Offable services path × SwitchedOn services path phone

abbrev pub Held : List Service → Session → Phone → Type 0
Held services session phone = HeldBy services session.enabled_by_us session.service phone

module _ (services : List Service) (distinct : DistinctPaths services)
    (plain : PlainPaths services) where
  abbrev HeldIn : Session → World Phone → Type 0
  HeldIn session w = Held services session w.state

  listed-IsPlain : (s : Service) (l : List Service) → PlainPaths l → In s l → IsPlain s.path
  listed-IsPlain s [] p i = elim i [ ]
  listed-IsPlain s (t ∷ l) p (inl e) =
      ap (λ u. owned_in (some u.path)) e ∙ (p.0 ∙ ap (λ u. some u.path) (sym e))
  listed-IsPlain s (t ∷ l) p (inr i) = listed-IsPlain s l p.1 i

  of_type-In : (s : Service) (l : List Service) → In s (of_type (codes "cellular") l) → In s l
  unfolding of_type
  of_type-In s l h = In-keep _ s l h

  chosen-In : (s : Service) → IsChosen (λ imsi. Unit) services s → In s services
  chosen-In s h =
      of_type-In s services (choose_service-In h.1.0 s (of_type (codes "cellular") services) h.1.2)

  listed-Offable : (s : Service) → In s services → s.auto_connect ≡ false → Offable services s.path
  listed-Offable s i off =
      let f = found_by_path s services i distinct off in
      ((s, f.0), f.1, listed-IsPlain s services plain i)

  waited-on :
      (path : Text) (o : Option Bool) (w : World Phone)
      → Offable services path
      → SwitchedOn services path w.state
      → Meets (Safe services) (Mid services) (λ b v. SwitchedOn services path v.state) (waited o w)
  unfolding waited hang Meets
  waited-on path none w off h = switched_on path off h
  waited-on path (some b) w off h = h

  after_switch-held :
      (setting : Setting) (timeout : ℕ) (path : Text) (o : Option Bool) (w : World Phone)
      → Offable services path
      → Either (Mid services) (λ b v. SwitchedOn services path v.state) o w
      → Meets (Safe services) (Mid services) HeldIn (after_switch setting timeout path o w)
  unfolding after_switch ◌>>=◌ new_session
  after_switch-held setting timeout path none w off h = Meets-pure _ _ _ _ w h
  after_switch-held setting timeout path (some done) w off h =
      Meets-then_do _ _ (λ b v. SwitchedOn services path v.state) _
        (waited (wait_online timeout none setting.readings) w) _
        (waited-on path (wait_online timeout none setting.readings) w off h)
        (λ b v x. Meets-pure _ _ _ _ v (off, x))

  switch_on-held :
      (setting : Setting) (timeout : ℕ) (path : Text) (w : World Phone)
      → CanRecord setting.mark
      → Offable services path
      → KeptIn services w
      → Meets (Safe services) (Mid services) HeldIn (switch_on setting timeout path w)
  unfolding switch_on ◌>>=◌ attempt
  switch_on-held setting timeout path w can off h =
      Meets-then_do _ _ (λ o v. Recorded services path v.state) _ (mark_owned setting.mark path w) _
        (mark_owned-Safe services setting.mark path w can off h)
        (λ o v x.
          Meets-then_do _ _ _ _ (caught (set_autoconnect path true v)) _
            (Meets-caught _ _ _ _ (set_autoconnect path true v)
              (set_autoconnect-on services path v off x))
            (λ d u y. after_switch-held setting timeout path d u off y))

  module _ (setting : Setting) (timeout : ℕ) (can : CanRecord setting.mark) where
    candidate-held :
        (path : Text) (auto_connect roaming : Bool) (w : World Phone)
        → (auto_connect ≡ false → Offable services path)
        → KeptIn services w
        → Meets
            (Safe services)
            (Mid services)
            HeldIn
            (use_candidate setting timeout path auto_connect roaming w)
    unfolding use_candidate new_session
    candidate-held path true roaming w off h = Meets-pure _ _ _ _ w (kept h)
    candidate-held path false true w off h = Meets-pure _ _ _ _ w (kept h)
    candidate-held path false false w off h = switch_on-held setting timeout path w can (off refl) h

    use_target-held :
        (o : Option Target) (w : World Phone)
        → Either
            (KeptIn services)
            (λ t v. KeptIn services v × IsListed (λ imsi. Unit) services t)
            o
            w
        → Meets (Safe services) (Mid services) HeldIn (use_target setting timeout o w)
    unfolding use_target new_session
    use_target-held none w h = Meets-pure _ _ _ _ w (kept h)
    use_target-held (some on_wifi) w h = Meets-pure _ _ _ _ w (kept h.0)
    use_target-held (some no_service) w h = Meets-pure _ _ _ _ w (kept h.0)
    use_target-held (some (candidate s)) w h =
        candidate-held s.path s.auto_connect s.roaming w (listed-Offable s (chosen-In s h.1)) h.0

    pub enable_now-held :
        (w : World Phone)
        → KeptIn services w
        → Meets (Safe services) (Mid services) HeldIn (enable_now setting timeout w)
    unfolding enable_now ◌>>=◌ attempt
    enable_now-held w h =
        Meets-then_do _ _ _ _ (caught (find_target w)) _
          (Meets-caught _ _ _ _ (find_target w) (
            find_target-kept (λ imsi. Unit) services (Safe services) (Kept services) tt (λ p k. tt)
              (λ p k. k.0) (λ p. kept) w h))
          use_target-held

  switch_off-held :
      (path : Text) (w : World Phone)
      → Offable services path
      → SwitchedOn services path w.state
      → Meets
          (Safe services)
          (Mid services)
          (λ b v. Recorded services path v.state)
          (switch_off (some path) w)
  unfolding switch_off ◌>>=◌ bus
  switch_off-held path w off h =
      Meets-then_do _ _ (λ b v. SwitchedOn services path v.state) _ (read (λ phone. some true) w) _
        (Meets-weaken _ _ _ _ _ _ (read (λ phone. some true) w) (λ s x. x)
          (λ v x. switched_on path off x) (λ a v x. x.0)
          (read-keeps services (SwitchedOn services path) (λ phone. some true) w
            (λ p. switched_on path off) h))
        (λ b v x. set_autoconnect-off services path v off x)

  clear_if_off-Safe :
      (path : Text) (o : Option Bool) (w : World Phone)
      → Offable services path
      → Either (Mid services) (λ b v. Recorded services path v.state) o w
      → Meets (Safe services) (Mid services) (Ended services) (clear_if_off o w)
  unfolding clear_if_off ◌>>=◌
  clear_if_off-Safe path none w off h = Meets-pure _ _ _ _ w h
  clear_if_off-Safe path (some b) w off h =
      Meets-then_do _ _ (Ended services) _ (clear_owned w) _
        (clear_owned-Safe services path w off h) (λ o v x. Meets-pure _ _ _ _ v x)

  restore-Safe :
      (enabled : Bool) (path : Option Text) (w : World Phone)
      → HeldBy services enabled path w.state
      → Meets (Safe services) (Mid services) (Ended services) (restore_if enabled path w)
  unfolding restore_if ◌>>=◌ attempt
  restore-Safe false path w h = Meets-pure _ _ _ _ w h
  restore-Safe true none w h = elim h [ ]
  restore-Safe true (some path) w h =
      Meets-then_do _ _ _ _ (caught (switch_off (some path) w)) _
        (Meets-caught _ _ _ _ (switch_off (some path) w) (switch_off-held path w h.0 h.1))
        (λ o v x. clear_if_off-Safe path o v h.0 x)

  held-Safe :
      (enabled : Bool) (path : Option Text) (phone : Phone)
      → HeldBy services enabled path phone
      → Safe services phone
  held-Safe false path phone h = h
  held-Safe true none phone h = elim h [ ]
  held-Safe true (some path) phone h = switched_on path h.0 h.1

  module _ {A : Type 0} (body : Session → Io Phone A)
      (same : (session : Session) (w : World Phone) → state_of (body session w) ≡ w.state) where
    pub in_session-Safe :
        (session : Session) (w : World Phone)
        → HeldIn session w
        → Meets (Safe services) (Mid services) (Ended services) (in_session body session w)
    unfolding in_session finally restore
    in_session-Safe session w h =
        Meets-finished _ (HeldIn session) (Mid services) (body session w) (restore session)
          (same-Meets _ (Held services session) (body session w)
            (held-Safe session.enabled_by_us session.service) (rw (same session w) h))
          (λ v x. restore-Safe session.enabled_by_us session.service v x)
