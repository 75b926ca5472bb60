-- ===== src/MobileData/Finding.antt =====
-- The phone is still as it was when the service to switch on has been found.
use mathlib.Core.Path.{subst}
use harbour_find_my_device.Prelude.{
  ◌≡◌, refl, ap, sym, ◌∙◌, Bool, true, false, Option, none, some, List, arith,
}
use harbour_find_my_device.Text.{Text, codes}
use harbour_find_my_device.MobileData.{
  Service, Phone, or_none, bus, of_type, choose_service, wifi_among, imsi_in,
}
use harbour_find_my_device.MobileData.Calls.{
  World, attempt, read, first_fate, later_fates, ◌>>=◌, caught,
}
use harbour_find_my_device.MobileData.Rules.{
  Meets, Either, Meets-weaken, Meets-caught, Meets-then_do, Meets-read,
}
use harbour_find_my_device.MobileData.Sessions.{
  Target, on_wifi, no_service, candidate, target_of, list_services, data_imsi, data_service,
  data_target, find_target,
}
use harbour_find_my_device.MobileData.Rules.{Meets-pure}

-- no wireless network is in use, and the service is the one for an IMSI of which `Known` holds
abbrev pub IsChosen : (Option Text → Type 0) → List Service → Service → Type 0
IsChosen Known services s =
    (wifi_among services ≡ false)
    × ((imsi : Option Text) × Known imsi
        × (choose_service imsi (of_type (codes "cellular") services) ≡ some s))

same_imsi : {a b : Option Text} → some a ≡ some b → a ≡ b
same_imsi e = cc

abbrev pub IsListed : (Option Text → Type 0) → List Service → Target → Type 0
IsListed Known services on_wifi = Unit
IsListed Known services no_service = Unit
IsListed Known services (candidate s) = IsChosen Known services s

module _ (Known : Option Text → Type 0) (services : List Service) (K P : Phone → Type 0)
    (unread : Known none) (read_of : (phone : Phone) → P phone → Known (imsi_in phone.sims))
    (at_rest : (phone : Phone) → P phone → phone.services ≡ services)
    (safe : (phone : Phone) → P phone → K phone) where
  abbrev PIn : World Phone → Type 0
  PIn w = P w.state

  reads :
      {A : Type 0} (f : Phone → Option A) (w : World Phone)
      → PIn w
      → Meets K PIn (λ a v. PIn v × (f v.state ≡ some a)) (read f w)
  unfolding read
  reads f w h =
      Meets-read _ _ _ (first_fate w.fates) f (record w { fates = later_fates w.fates })
        (safe w.state h) h (λ a e. (h, e))

  target_of-IsListed :
      (imsi : Option Text) (l : List Service) (o : Option Service)
      → wifi_among services ≡ false
      → l ≡ services
      → Known imsi
      → choose_service imsi (of_type (codes "cellular") l) ≡ o
      → IsListed Known services (target_of o)
  unfolding target_of
  target_of-IsListed imsi l none wifi e k c = tt
  target_of-IsListed imsi l (some s) wifi e k c =
      (wifi, (imsi, k, ap (λ x. choose_service imsi (of_type (codes "cellular") x)) (sym e) ∙ c))

  bus-kept : (w : World Phone) → PIn w → Meets K PIn (λ a v. PIn v) (bus w)
  unfolding bus
  bus-kept w h =
      Meets-weaken _ _ _ _ _ _ (read (λ phone. some true) w) (λ s x. x) (λ v x. x) (λ a v x. x.0)
        (reads (λ phone. some true) w h)

  list_services-kept :
      (w : World Phone) → PIn w → Meets K PIn (λ l v. PIn v × (l ≡ services)) (list_services w)
  unfolding list_services
  list_services-kept w h =
      Meets-weaken _ _ _ _ _ _ (read (λ phone. some phone.services) w) (λ s x. x) (λ v x. x)
        (λ l v x. (x.0, ground (arith, x.1, at_rest v.state x.0)))
        (reads (λ phone. some phone.services) w h)

  Known-or_none :
      (o : Option (Option Text)) (v : World Phone)
      → Either PIn (λ a u. PIn u × Known a) o v
      → PIn v × Known (or_none o)
  unfolding or_none
  Known-or_none none v h = (h, unread)
  Known-or_none (some a) v h = h

  data_imsi-kept : (w : World Phone) → PIn w → Meets K PIn (λ o v. PIn v × Known o) (data_imsi w)
  unfolding data_imsi attempt ◌>>=◌
  data_imsi-kept w h =
      let imsi : Phone → Option (Option Text) = λ phone. some (imsi_in phone.sims) in
      Meets-then_do _ PIn _ _ (caught (read imsi w)) _
        (Meets-caught _ _ _ _ (read imsi w) (
          Meets-weaken _ _ _ _ _ _ (read imsi w) (λ s x. x) (λ v x. x)
            (λ a v x. (x.0, subst Known (same_imsi x.1) (read_of v.state x.0))) (reads imsi w h)))
        (λ o v x. Meets-pure _ _ _ (or_none o) v (Known-or_none o v x))

  data_target-kept :
      (b : Bool) (w : World Phone)
      → wifi_among services ≡ b
      → PIn w
      → Meets K PIn (λ t v. PIn v × IsListed Known services t) (data_target b w)
  unfolding data_target data_service ◌>>=◌
  data_target-kept true w wifi h = Meets-pure _ _ _ on_wifi w (h, tt)
  data_target-kept false w wifi h =
      Meets-then_do _ PIn (λ o v. PIn v × IsListed Known services (target_of o)) _ (data_service w)
        _
        (Meets-then_do _ PIn _ _ (list_services w) _ (list_services-kept w h) (λ l v x.
          Meets-then_do _ PIn (λ i u. PIn u × Known i) _ (data_imsi v) _ (data_imsi-kept v x.0)
            (λ i u y. Meets-pure _ _ _ (choose_service i (of_type (codes "cellular") l)) u (
              y.0,
              target_of-IsListed i l (choose_service i (of_type (codes "cellular") l)) wifi x.1 y.1
                  refl,
            ))))
        (λ o v x. Meets-pure _ _ _ (target_of o) v x)

  pub find_target-kept :
      (w : World Phone)
      → PIn w
      → Meets K PIn (λ t v. PIn v × IsListed Known services t) (find_target w)
  unfolding find_target ◌>>=◌
  find_target-kept w h =
      Meets-then_do _ PIn (λ a v. PIn v) _ (bus w) _ (bus-kept w h)
        (λ a v x.
          Meets-then_do _ PIn _ _ (list_services v) _ (list_services-kept v x)
            (λ l u y. data_target-kept (wifi_among l) u (ap wifi_among (sym y.1)) y.0))
