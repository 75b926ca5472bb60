-- ===== src/MobileData/Rules.antt =====
-- What holds at the end of calls made one after the other, for each way to end.
use harbour_find_my_device.Prelude.{◌≡◌, refl, Bool, true, Option, none, some}
use harbour_find_my_device.MobileData.Calls.{
  Fate, works, fails, fails_late, dies, dies_late, World, Outcome, returned, raised, killed, Io,
  caught, then_do, finished, after_return, after_raise, read_as, write_as, ended, store, state_of,
  pure,
}

module _ {ℓ κ} {S : Type ℓ} {A : Type κ} where
  -- `K` when the process was killed, `E` when an error was raised, `R` of what was returned
  unfoldable pub Meets :
      (S → Type ℓ) → (World S → Type ℓ) → (A → World S → Type ℓ) → Outcome S A → Type ℓ
  Meets K E R (returned a w) = R a w
  Meets K E R (raised w) = E w
  Meets K E R (killed s) = K s

  pub Meets-weaken :
      (K K' : S → Type ℓ) (E E' : World S → Type ℓ) (R R' : A → World S → Type ℓ) (o : Outcome S A)
      → ((s : S) → K s → K' s)
      → ((w : World S) → E w → E' w)
      → ((a : A) (w : World S) → R a w → R' a w)
      → Meets K E R o
      → Meets K' E' R' o
  unfolding Meets
  Meets-weaken K K' E E' R R' (returned a w) k e r h = r a w h
  Meets-weaken K K' E E' R R' (raised w) k e r h = e w h
  Meets-weaken K K' E E' R R' (killed s) k e r h = k s h

  abbrev pub Either : (World S → Type ℓ) → (A → World S → Type ℓ) → Option A → World S → Type ℓ
  Either E R none w = E w
  Either E R (some a) w = R a w

pub Meets-caught {ℓ κ} :
    {S : Type ℓ} {A : Type κ} (K : S → Type ℓ) (E E' : World S → Type ℓ) (R : A → World S → Type ℓ)
    (o : Outcome S A)
    → Meets K E R o
    → Meets K E' (Either E R) (caught o)
unfolding caught Meets
Meets-caught K E E' R (returned a w) h = h
Meets-caught K E E' R (raised w) h = h
Meets-caught K E E' R (killed s) h = h

pub Meets-caught_same {ℓ κ} :
    {S : Type ℓ} {A : Type κ} (K : S → Type ℓ) (P E : World S → Type ℓ) (o : Outcome S A)
    → Meets K P (λ a w. P w) o
    → Meets K E (λ a w. P w) (caught o)
unfolding caught Meets
Meets-caught_same K P E (returned a w) h = h
Meets-caught_same K P E (raised w) h = h
Meets-caught_same K P E (killed s) h = h

module _ {ℓ κ μ} {S : Type ℓ} {A : Type κ} {B : Type μ} where
  pub Meets-then_do :
      (K : S → Type ℓ) (E : World S → Type ℓ) (R : A → World S → Type ℓ) (R' : B → World S → Type ℓ)
      (o : Outcome S A) (f : A → Io S B)
      → Meets K E R o
      → ((a : A) (w : World S) → R a w → Meets K E R' (f a w))
      → Meets K E R' (then_do o f)
  unfolding then_do Meets
  Meets-then_do K E R R' (returned a w) f h k = k a w h
  Meets-then_do K E R R' (raised w) f h k = h
  Meets-then_do K E R R' (killed s) f h k = h

  after_return-Meets :
      (K : S → Type ℓ) (E : World S → Type ℓ) (R : A → World S → Type ℓ) (a : A) (o : Outcome S B)
      → Meets K E (λ b w. R a w) o
      → Meets K E R (after_return a o)
  unfolding after_return Meets
  after_return-Meets K E R a (returned b w) h = h
  after_return-Meets K E R a (raised w) h = h
  after_return-Meets K E R a (killed s) h = h

  after_raise-Meets :
      (K : S → Type ℓ) (E : World S → Type ℓ) (R : A → World S → Type ℓ) (o : Outcome S B)
      → Meets K E (λ b w. E w) o
      → Meets K E R (after_raise o)
  unfolding after_raise Meets
  after_raise-Meets K E R (returned b w) h = h
  after_raise-Meets K E R (raised w) h = h
  after_raise-Meets K E R (killed s) h = h

  pub Meets-finished :
      (K : S → Type ℓ) (P Q : World S → Type ℓ) (o : Outcome S A) (m : Io S B)
      → Meets K P (λ a w. P w) o
      → ((w : World S) → P w → Meets K Q (λ b w'. Q w') (m w))
      → Meets K Q (λ a w. Q w) (finished o m)
  unfolding finished Meets
  Meets-finished K P Q (returned a w) m h k = after_return-Meets K Q (λ a w. Q w) a (m w) (k w h)
  Meets-finished K P Q (raised w) m h k = after_raise-Meets K Q (λ a w. Q w) (m w) (k w h)
  Meets-finished K P Q (killed s) m h k = h

module _ {ℓ} {S : Type ℓ} where
  pub Meets-ended {κ} :
      {A : Type κ} (K : S → Type ℓ) (E : World S → Type ℓ) (R : A → World S → Type ℓ) (o : Option A)
      (w : World S)
      → E w
      → ((a : A) → o ≡ some a → R a w)
      → Meets K E R (ended o w)
  unfolding ended Meets
  Meets-ended K E R none w e r = e
  Meets-ended K E R (some a) w e r = r a refl

  pub Meets-read {κ} :
      {A : Type κ} (K : S → Type ℓ) (E : World S → Type ℓ) (R : A → World S → Type ℓ) (fate : Fate)
      (f : S → Option A) (w : World S)
      → K w.state
      → E w
      → ((a : A) → f w.state ≡ some a → R a w)
      → Meets K E R (read_as fate f w)
  unfolding read_as Meets
  Meets-read K E R works f w k e r = Meets-ended K E R (f w.state) w e r
  Meets-read K E R fails f w k e r = e
  Meets-read K E R fails_late f w k e r = e
  Meets-read K E R dies f w k e r = k
  Meets-read K E R dies_late f w k e r = k

  pub Meets-write :
      (K : S → Type ℓ) (E : World S → Type ℓ) (R : Bool → World S → Type ℓ) (fate : Fate)
      (f late : S → S) (w : World S)
      → K w.state
      → K (late w.state)
      → E w
      → E (store (late w.state) w)
      → R true (store (f w.state) w)
      → Meets K E R (write_as fate f late w)
  unfolding write_as Meets
  Meets-write K E R works f late w k k' e e' r = r
  Meets-write K E R fails f late w k k' e e' r = e
  Meets-write K E R fails_late f late w k k' e e' r = e'
  Meets-write K E R dies f late w k k' e e' r = k
  Meets-write K E R dies_late f late w k k' e e' r = k'

pub Meets-pure {ℓ κ} :
    {S : Type ℓ} {A : Type κ} (K : S → Type ℓ) (E : World S → Type ℓ) (R : A → World S → Type ℓ)
    (a : A) (w : World S)
    → R a w
    → Meets K E R (pure a w)
unfolding Meets
Meets-pure K E R a w h = h

-- the state that is left, and calls that leave the state as it was
pub state-meets {ℓ κ} :
    {S : Type ℓ} {A : Type κ} (P : S → Type ℓ) (o : Outcome S A)
    → Meets P (λ w. P w.state) (λ a w. P w.state) o
    → P (state_of o)
unfolding Meets
state-meets P (returned a w) h = h
state-meets P (raised w) h = h
state-meets P (killed s) h = h

pub same-Meets {ℓ κ} :
    {S : Type ℓ} {A : Type κ} (K P : S → Type ℓ) (o : Outcome S A)
    → ((s : S) → P s → K s)
    → P (state_of o)
    → Meets K (λ w. P w.state) (λ a w. P w.state) o
unfolding Meets
same-Meets K P (returned a w) k h = h
same-Meets K P (raised w) k h = h
same-Meets K P (killed s) k h = k s h
