-- ===== src/MobileData/Policy.antt =====
-- When mobile data is switched on.
use harbour_find_my_device.Prelude.{
  ◌≡◌, ◌⊎◌, Bool, true, false, Option, none, some, List, [], ◌∷◌, ◌++◌,
}
use harbour_find_my_device.Text.{Text, codes, contains, is_empty}
use harbour_find_my_device.MobileData.{of_type, wifi_among, Service, Phone, set_service}
use harbour_find_my_device.MobileData.Calls.{World}
use harbour_find_my_device.MobileData.Finding.{IsChosen}

-- The IMSI of the data SIM: the fourth value that the modem manager gives, where that is not blank.
-- None may be known at any time, since an error in reading it is swallowed.
abbrev pub IsSim : Option (List Text) → Option Text → Type 0
IsSim sims none = Unit
IsSim sims (some imsi) =
    (is_empty imsi ≡ false)
    × ((a : Text) × (b : Text) × (c : Text) × (rest : List Text) × (sims
          ≡ some (a ∷ b ∷ c ∷ imsi ∷ rest)))

-- the path of the service names the IMSI, or it is the only cellular one
abbrev pub IsFor : Option Text → Service → List Service → Type 0
IsFor none s cells = cells ≡ s ∷ []
IsFor (some imsi) s cells =
    (contains s.path (codes "cellular_" ++ (imsi ++ codes "_")) ≡ true) ⊎ (cells ≡ s ∷ [])

-- Nothing was switched, or mobile data was: it was allowed, no wireless network was in use, and the
-- service is that of the data SIM, was off and not roaming.
abbrev pub Permitted : Bool → Phone → Phone → Type 0
Permitted allowed before phone =
    (phone.services ≡ before.services)
    ⊎ ((allowed ≡ true)
        × ((s : Service) × (wifi_among before.services ≡ false)
            × ((imsi : Option Text) × IsSim before.sims imsi
                × IsFor imsi s (of_type (codes "cellular") before.services))
            × (s.auto_connect ≡ false)
            × (s.roaming ≡ false)
            × (phone.services ≡ set_service s.path true before.services)))

module _ (before : Phone) where
  abbrev services : List Service
  services = before.services

  abbrev Same : Phone → Type 0
  Same phone = (phone.services ≡ services) × (phone.sims ≡ before.sims)

  abbrev Fine : Phone → Type 0
  Fine phone = Permitted true before phone

  abbrev IsChosenHere : Service → Type 0
  IsChosenHere s = IsChosen (IsSim before.sims) services s

  abbrev FineIn : World Phone → Type 0
  FineIn w = Fine w.state
