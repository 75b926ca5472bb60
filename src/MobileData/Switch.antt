-- ===== src/MobileData/Switch.antt =====
-- Switching a service on and off again, and the choice of the service.
use harbour_find_my_device.Prelude.{
  ◌≡◌, refl, ap, sym, ◌∙◌, ◌⊎◌, inl, inr, Bool, true, false, ◌&&◌, Option, none, some, List, [],
  ◌∷◌, ◌++◌, arith, any, keep, ◌=?◌, =?_iff, =?_refl, Bool-cases, All,
}
use harbour_find_my_device.Text.{Text, codes, contains}
use harbour_find_my_device.MobileData.{
  Service, find_service, set_service, set_one, with_auto, choose_service, or_single, matching,
  single, owned_in,
}

-- every service at the path is off
abbrev pub IsOff : Text → List Service → Type 0
IsOff path services = any (λ s. (s.path =? path) && s.auto_connect) services ≡ false

-- each path names one service
abbrev pub DistinctPaths : List Service → Type 0
DistinctPaths [] = Unit
DistinctPaths (s ∷ services) =
    (any (λ t. t.path =? s.path) services ≡ false) × DistinctPaths services

-- the record of a path reads as that path
abbrev pub IsPlain : Text → Type 0
IsPlain path = owned_in (some path) ≡ some path

abbrev pub PlainPaths : List Service → Type 0
PlainPaths services = All (λ s. IsPlain s.path) services

abbrev pub In : Service → List Service → Type 0
In s [] = ⊥
In s (t ∷ services) = (s ≡ t) ⊎ In s services

value_of {ℓ} : {A : Type ℓ} → A → Option A → A
value_of a none = a
value_of a (some b) = b

set_one-same :
    (path : Text) (value : Bool) (s : Service)
    → (s.path =? path) ≡ true
    → set_one path value s ≡ with_auto value s
unfolding set_one
set_one-same path value s h = ground (arith, h)

set_one-other :
    (path : Text) (value : Bool) (s : Service) → (s.path =? path) ≡ false → set_one path value s ≡ s
unfolding set_one
set_one-other path value s h = ground (arith, h)

with_auto-back : (s : Service) → s.auto_connect ≡ false → with_auto false (with_auto true s) ≡ s
unfolding with_auto
with_auto-back s h = ap (λ b. with_auto b s) (sym h)

set_one-back :
    (path : Text) (s : Service)
    → ((s.path =? path) && s.auto_connect) ≡ false
    → set_one path false (set_one path true s) ≡ s
set_one-back path s off = elim (Bool-cases (s.path =? path)) [
  | inr other ↦
      ap (set_one path false) (set_one-other path true s other) ∙ set_one-other path false s other
  | inl same ↦
      ap (set_one path false) (set_one-same path true s same)
      ∙ (set_one-same path false (with_auto true s) (unfold with_auto in same)
          ∙ with_auto-back s (ground (arith, same, off)))
]

pub set_service-back :
    (path : Text) (services : List Service)
    → IsOff path services
    → set_service path false (set_service path true services) ≡ services
unfolding set_service any
set_service-back path [] off = refl
set_service-back path (s ∷ services) off =
    let one = set_one-back path s (ground (arith, off)) in
    let rest = set_service-back path services (ground (arith, off)) in rw (one, rest) refl

pub with_auto-path :
    (path : Text) (value : Bool) (s : Service)
    → ((with_auto value s).path =? path) ≡ (s.path =? path)
unfolding with_auto
with_auto-path path value s = refl

pub find-set_service :
    (path : Text) (value : Bool) (s : Service) (services : List Service)
    → find_service path services ≡ some s
    → find_service path (set_service path value services) ≡ some (with_auto value s)
unfolding find_service set_service value_of
find-set_service path value s [] h = ground (arith, h)
find-set_service path value s (t ∷ services) h = elim (Bool-cases (t.path =? path)) [
  | inr other ↦
      rw (set_one-other path value t other, other)
        (find-set_service path value s services (ground (arith, other, h)))
  | inl same ↦
      let e : some t ≡ some s = ground (arith, same, h) in
      rw (set_one-same path value t same, with_auto-path path value t ∙ same)
        (ap (λ o. some (with_auto value (value_of t o))) e)
]

pub In-keep :
    (p : Service → Bool) (s : Service) (services : List Service)
    → In s (keep p services)
    → In s services
unfolding keep
In-keep p s [] h = h
In-keep p s (t ∷ services) h = elim (Bool-cases (p t)) [
  | inl stays ↦ elim (rw stays at h) [ inl e ↦ inl e | inr l ↦ inr (In-keep p s services l) ]
  | inr goes ↦ inr (In-keep p s services (rw goes at h))
]

matching-In :
    (imsi : Text) (s : Service) (services : List Service)
    → matching imsi services ≡ some s
    → In s services
unfolding matching value_of
matching-In imsi s [] h = ground (arith, h)
matching-In imsi s (t ∷ services) h =
    elim (Bool-cases (contains t.path (codes "cellular_" ++ (imsi ++ codes "_")))) [
      | inl here ↦
          let e : some t ≡ some s = ground (arith, here, h) in inl (sym (ap (value_of t) e))
      | inr later ↦ inr (matching-In imsi s services (ground (arith, later, h)))
    ]

single-In : (s : Service) (services : List Service) → single services ≡ some s → In s services
unfolding single value_of
single-In s [] h = ground (arith, h)
single-In s (t ∷ []) h = inl (sym (ap (value_of t) h))
single-In s (t ∷ u ∷ services) h = ground (arith, h)

or_single-In :
    (o : Option Service) (s : Service) (services : List Service)
    → ((t : Service) → o ≡ some t → In t services)
    → or_single o services ≡ some s
    → In s services
unfolding or_single
or_single-In none s services found h = single-In s services h
or_single-In (some t) s services found h = found s h

pub choose_service-In :
    (imsi : Option Text) (s : Service) (services : List Service)
    → choose_service imsi services ≡ some s
    → In s services
unfolding choose_service
choose_service-In none s services h = single-In s services h
choose_service-In (some imsi) s services h =
    or_single-In (matching imsi services) s services (λ t. matching-In imsi t services) h

absent-IsOff :
    (path : Text) (services : List Service)
    → any (λ s. s.path =? path) services ≡ false
    → IsOff path services
unfolding any
absent-IsOff path [] h = refl
absent-IsOff path (s ∷ services) h =
    let rest = absent-IsOff path services (ground (arith, h)) in ground (arith, h, rest)

In-other :
    (path : Text) (s : Service) (services : List Service)
    → In s services
    → any (λ t. t.path =? path) services ≡ false
    → (s.path =? path) ≡ false
unfolding any
In-other path s [] i h = elim i [ ]
In-other path s (t ∷ services) (inl e) h = ap (λ u. u.path =? path) e ∙ ground (arith, h)
In-other path s (t ∷ services) (inr l) h = In-other path s services l (ground (arith, h))

=?-sym : (a b : Text) → (a =? b) ≡ false → (b =? a) ≡ false
=?-sym a b h = elim (Bool-cases (b =? a)) [
  | inl same ↦
      let e : (a =? b) ≡ true = (=?_iff a b).1 (sym ((=?_iff b a).0 same)) in ground (arith, h, e)
  | inr other ↦ other
]

-- a service of the list that is off is found by its path, which names no service that is on
pub found_by_path :
    (s : Service) (services : List Service)
    → In s services
    → DistinctPaths services
    → s.auto_connect ≡ false
    → (find_service s.path services ≡ some s) × IsOff s.path services
unfolding find_service any
found_by_path s [] i d off = elim i [ ]
found_by_path s (t ∷ services) (inl e) d off =
    let same : (t.path =? s.path) ≡ true = ap (λ u. t.path =? u.path) e ∙ =?_refl t.path in
    let off_t : t.auto_connect ≡ false = ap (λ u. u.auto_connect) (sym e) ∙ off in
    let absent : any (λ u. u.path =? s.path) services ≡ false =
      ap (λ v. any (λ u. u.path =? v.path) services) e ∙ d.0 in
    let rest = absent-IsOff s.path services absent in
    (rw same (ap some (sym e)), ground (arith, off_t, rest))
found_by_path s (t ∷ services) (inr l) d off =
    let rest = found_by_path s services l d.1 off in
    let other = =?-sym s.path t.path (In-other t.path s services l d.0) in
    (rw other rest.0, ground (arith, other, rest.1))

pub found-IsOff :
    (path : Text) (s : Service) (services : List Service)
    → find_service path services ≡ some s
    → IsOff path services
    → s.auto_connect ≡ false
unfolding find_service any value_of
found-IsOff path s [] e off = ground (arith, e)
found-IsOff path s (t ∷ services) e off = elim (Bool-cases (t.path =? path)) [
  | inl same ↦
      let found : some t ≡ some s = ground (arith, same, e) in
      ap (λ o. (value_of t o).auto_connect) (sym found) ∙ ground (arith, same, off)
  | inr other ↦ found-IsOff path s services (ground (arith, other, e)) (ground (arith, other, off))
]
