-- ===== src/MobileData/Crash.antt =====
-- What is true of the phone at every point of a session, so also when the process dies there.
use harbour_find_my_device.Prelude.{
  ◌≡◌, refl, ap, ◌∙◌, true, false, Option, none, some, List, arith,
}
use harbour_find_my_device.Text.{Text, is_empty, strip}
use harbour_find_my_device.MobileData.{
  Service, Phone, find_service, set_service, owned_in, or_none, not_blank, mark_owned,
  set_autoconnect, clear_owned, read_owned, recover, recover_found, recorded, switched,
}
use harbour_find_my_device.MobileData.Calls.{
  Fate, works, fails, fails_late, dies, dies_late, World, attempt, read, write, write_as,
  first_fate, later_fates, ◌>>=◌, caught, store,
}
use harbour_find_my_device.MobileData.Rules.{
  Meets, Either, Meets-caught, Meets-caught_same, Meets-then_do, Meets-read, Meets-write,
  Meets-pure,
}
use harbour_find_my_device.MobileData.Switch.{IsOff, IsPlain, set_service-back}

-- the path of a service that is off, and that a record names well
abbrev pub Offable : List Service → Text → Type 0
Offable services path =
    ((s : Service) × (find_service path services ≡ some s)) × IsOff path services × IsPlain path

abbrev pub Kept : List Service → Phone → Type 0
Kept services phone = (phone.services ≡ services) × (owned_in phone.owned ≡ none)

abbrev pub Recorded : List Service → Text → Phone → Type 0
Recorded services path phone = (phone.services ≡ services) × (owned_in phone.owned ≡ some path)

abbrev pub SwitchedOn : List Service → Text → Phone → Type 0
SwitchedOn services path phone =
    (phone.services ≡ set_service path true services) × (owned_in phone.owned ≡ some path)

-- the services are as they were, or the record names the one that is on
pub data Safe (services : List Service) (phone : Phone) : Type 0 where
  kept : Kept services phone → Safe services phone
  recorded_only :
      (path : Text) → Offable services path → Recorded services path phone → Safe services phone
  switched_on :
      (path : Text) → Offable services path → SwitchedOn services path phone → Safe services phone

-- the record can be written, though the process may die before, in or after that
abbrev pub CanRecord : Fate → Type 0
CanRecord works = Unit
CanRecord dies = Unit
CanRecord dies_late = Unit
CanRecord _ = ⊥

module _ (services : List Service) where
  abbrev pub Mid : World Phone → Type 0
  Mid w = Safe services w.state

  abbrev pub Ended {ℓ} : {A : Type ℓ} → A → World Phone → Type 0
  Ended a w = Safe services w.state

  pub mark_owned-Safe :
      (fate : Fate) (path : Text) (w : World Phone)
      → CanRecord fate
      → Offable services path
      → Kept services w.state
      → Meets (Safe services) Mid (λ o v. Recorded services path v.state) (mark_owned fate path w)
  unfolding mark_owned attempt caught Meets write_as recorded owned_in not_blank is_empty strip
  mark_owned-Safe works path w can off h = (h.0, off.2)
  mark_owned-Safe fails path w can off h = elim can [ ]
  mark_owned-Safe fails_late path w can off h = elim can [ ]
  mark_owned-Safe dies path w can off h = kept h
  mark_owned-Safe dies_late path w can off h = kept (h.0, refl)

  -- a call that only reads leaves what was true of the phone
  pub read-keeps :
      {A : Type 0} (P : Phone → Type 0) (f : Phone → Option A) (w : World Phone)
      → ((phone : Phone) → P phone → Safe services phone)
      → P w.state
      → Meets (Safe services) (λ v. P v.state) (λ a v. P v.state × (f v.state ≡ some a)) (read f w)
  unfolding read
  read-keeps P f w safe h =
      Meets-read _ _ _ (first_fate w.fates) f (record w { fates = later_fates w.fates })
        (safe w.state h) h (λ a e. (h, e))

  pub set_autoconnect-on :
      (path : Text) (w : World Phone)
      → Offable services path
      → Recorded services path w.state
      → Meets
          (Safe services)
          Mid
          (λ b v. SwitchedOn services path v.state)
          (set_autoconnect path true w)
  unfolding set_autoconnect write switched store
  set_autoconnect-on path w off h =
      let on : SwitchedOn services path (switched path true w.state) =
        (ap (set_service path true) h.0, h.1) in
      Meets-write _ _ _ (first_fate w.fates) (switched path true) (switched path true)
        (record w { fates = later_fates w.fates }) (recorded_only path off h)
        (switched_on path off on) (recorded_only path off h) (switched_on path off on) on

  pub set_autoconnect-off :
      (path : Text) (w : World Phone)
      → Offable services path
      → SwitchedOn services path w.state
      → Meets
          (Safe services)
          Mid
          (λ b v. Recorded services path v.state)
          (set_autoconnect path false w)
  unfolding set_autoconnect write switched store
  set_autoconnect-off path w off h =
      let back : Recorded services path (switched path false w.state) =
        (ap (set_service path false) h.0 ∙ set_service-back path services off.1, h.1) in
      Meets-write _ _ _ (first_fate w.fates) (switched path false) (switched path false)
        (record w { fates = later_fates w.fates }) (switched_on path off h)
        (recorded_only path off back) (switched_on path off h) (recorded_only path off back) back

  pub clear_owned-Safe :
      (path : Text) (w : World Phone)
      → Offable services path
      → Recorded services path w.state
      → Meets (Safe services) Mid Ended (clear_owned w)
  unfolding clear_owned attempt write recorded store owned_in
  clear_owned-Safe path w off h =
      let after : Kept services (recorded none w.state) = (h.0, refl) in
      Meets-caught_same _ Mid _ (write (recorded none) (recorded none) w) (
        Meets-write _ _ _ (first_fate w.fates) (recorded none) (recorded none)
          (record w { fates = later_fates w.fates }) (recorded_only path off h) (kept after)
          (recorded_only path off h) (kept after) (kept after))

  abbrev pub KeptIn : World Phone → Type 0
  KeptIn w = Kept services w.state

  recover_found-none :
      (o : Option Text) (w : World Phone)
      → (KeptIn w × (o ≡ none))
      → Meets (Safe services) Mid (λ a v. KeptIn v) (recover_found o w)
  unfolding recover_found Meets
  recover_found-none none w h = h.0
  recover_found-none (some path) w h = ground (arith, h.1)

  owned_nothing :
      (o : Option (Option Text)) (w : World Phone)
      → Either KeptIn (λ a v. KeptIn v × (some (owned_in v.state.owned) ≡ some a)) o w
      → KeptIn w × (or_none o ≡ none)
  unfolding or_none
  owned_nothing none w h = (h, refl)
  owned_nothing (some a) w h = (h.0, ground (arith, h.1, h.0.1))

  read_owned-kept :
      (w : World Phone)
      → KeptIn w
      → Meets (Safe services) Mid (λ o v. KeptIn v × (o ≡ none)) (read_owned w)
  unfolding read_owned attempt ◌>>=◌
  read_owned-kept w h =
      Meets-then_do _ _ _ _ (caught (read (λ phone. some (owned_in phone.owned)) w)) _
        (Meets-caught _ KeptIn _ _ _
          (read-keeps (Kept services) (λ phone. some (owned_in phone.owned)) w (λ p. kept) h))
        (λ o v x. Meets-pure _ _ _ (or_none o) v (owned_nothing o v x))

  pub recover-kept :
      (w : World Phone) → KeptIn w → Meets (Safe services) Mid (λ a v. KeptIn v) (recover w)
  unfolding recover ◌>>=◌
  recover-kept w h =
      Meets-then_do _ _ _ _ (read_owned w) recover_found (read_owned-kept w h) recover_found-none
