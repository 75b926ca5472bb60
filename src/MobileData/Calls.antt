-- ===== src/MobileData/Calls.antt =====
-- Calls outside the process, in the order in which they are made: each works, raises, or is where the
-- process is killed. A call that raises or is killed may have taken effect or not.
use harbour_find_my_device.Prelude.{Bool, true, Option, none, some, List, [], ◌∷◌}

pub data Fate : Type 0 where
  works fails fails_late dies dies_late : Fate

-- `S` is what the calls read and write; the calls after the last fate work.
pub record World {ℓ} (S : Type ℓ) : Type ℓ where
  pub state : S
  pub fates : List Fate

pub data Outcome {ℓ κ} (S : Type ℓ) (A : Type κ) : Type (ℓ ⊔ κ) where
  returned : A → World S → Outcome S A
  raised : World S → Outcome S A
  killed : S → Outcome S A

abbrev pub Io {ℓ κ} : Type ℓ → Type κ → Type (ℓ ⊔ κ)
Io S A = World S → Outcome S A

module _ {ℓ κ} {S : Type ℓ} {A : Type κ} where
  abbrev pub state_of : Outcome S A → S
  state_of (returned a w) = w.state
  state_of (raised w) = w.state
  state_of (killed s) = s

  abbrev pub pure : A → Io S A
  pure a w = returned a w

  -- waiting for ever, until the process is killed
  unfoldable pub hang : Io S A
  hang w = killed w.state

  unfoldable pub throw : Io S A
  throw w = raised w

  unfoldable pub caught : Outcome S A → Outcome S (Option A)
  caught (returned a w) = returned (some a) w
  caught (raised w) = returned none w
  caught (killed s) = killed s

  -- `try`, whose handler gets `none`
  unfoldable pub attempt : Io S A → Io S (Option A)
  unfolding caught
  attempt m w = caught (m w)

module _ {ℓ κ μ} {S : Type ℓ} {A : Type κ} {B : Type μ} where
  unfoldable pub then_do : Outcome S A → (A → Io S B) → Outcome S B
  then_do (returned a w) f = f a w
  then_do (raised w) f = raised w
  then_do (killed s) f = killed s

  infixl 5 ◌>>=◌
  unfoldable pub ◌>>=◌ : Io S A → (A → Io S B) → Io S B
  unfolding then_do
  (m >>= f) w = then_do (m w) f

  unfoldable pub after_return : A → Outcome S B → Outcome S A
  after_return a (returned b w) = returned a w
  after_return a (raised w) = raised w
  after_return a (killed s) = killed s

  unfoldable pub after_raise : Outcome S B → Outcome S A
  after_raise (returned b w) = raised w
  after_raise (raised w) = raised w
  after_raise (killed s) = killed s

  unfoldable pub finished : Outcome S A → Io S B → Outcome S A
  unfolding after_return after_raise
  finished (returned a w) m = after_return a (m w)
  finished (raised w) m = after_raise (m w)
  finished (killed s) m = killed s

  -- `try ... finally`
  unfoldable pub finally : Io S A → Io S B → Io S A
  unfolding finished
  finally body m w = finished (body w) m

unfoldable pub first_fate : List Fate → Fate
first_fate [] = works
first_fate (f ∷ fates) = f

unfoldable pub later_fates : List Fate → List Fate
later_fates [] = []
later_fates (f ∷ fates) = fates

module _ {ℓ} {S : Type ℓ} where
  module _ {κ} {A : Type κ} where
    unfoldable pub ended : Option A → World S → Outcome S A
    ended none w = raised w
    ended (some a) w = returned a w

    -- a call that only reads, of the fate given
    unfoldable pub read_as : Fate → (S → Option A) → Io S A
    unfolding ended
    read_as works f w = ended (f w.state) w
    read_as fails f w = raised w
    read_as fails_late f w = raised w
    read_as dies f w = killed w.state
    read_as dies_late f w = killed w.state

    unfoldable pub read : (S → Option A) → Io S A
    unfolding first_fate later_fates
    read f w = read_as (first_fate w.fates) f (record w { fates = later_fates w.fates })

  unfoldable pub store : S → World S → World S
  store s w = record w { state = s }

  -- a call that writes: its effect, and what is left when the process dies in it
  unfoldable pub write_as : Fate → (S → S) → (S → S) → Io S Bool
  unfolding store
  write_as works f late w = returned true (store (f w.state) w)
  write_as fails f late w = raised w
  write_as fails_late f late w = raised (store (late w.state) w)
  write_as dies f late w = killed w.state
  write_as dies_late f late w = killed (late w.state)

  unfoldable pub write : (S → S) → (S → S) → Io S Bool
  unfolding first_fate later_fates
  write f late w = write_as (first_fate w.fates) f late (record w { fates = later_fates w.fates })
