-- ===== src/GpsDaemon/Naps.antt =====
-- The naps of the GPS daemon, and the check that cuts its wait for a fix short.
use harbour_find_my_device.Prelude.{
  ℕ, zero, suc, ◌+◌, ◌*◌, ◌≤◌, ◌≡◌, ◌⊎◌, inl, inr, Bool, true, false, not, ◌&&◌, ◌||◌, Option, none,
  some, List, [], ◌∷◌, arith, length, leb, ltb, if◌then◌else◌, ℤ, leb_ℤ,
}

unfoldable pub same_generation : ℤ → ℤ → Bool
same_generation a b = leb_ℤ a b && leb_ℤ b a

-- one round of the loop of `_sleep`: whether `_stop` is set, the generation that is read, and the time
pub record Round : Type 0 where
  pub stop : Bool
  pub generation : ℤ
  pub now : ℕ

pub data Wake : Type 0 where
  stopped changed rested : Wake

-- `_sleep` until a deadline; none when it still sleeps after the last round
unfoldable pub sleep : ℤ → ℕ → List Round → Option Wake
unfolding same_generation
sleep gen deadline [] = none
sleep gen deadline (r ∷ rounds) =
    let rest = sleep gen deadline rounds in
    if r.stop
    then some stopped
    else if not (same_generation r.generation gen)
    then some changed
    else if leb deadline r.now
    then some rested
    else rest

-- the state of the predicate of `_abort_on_settings_change`, in seconds
pub record Abort : Type 0 where
  pub next : ℕ
  pub aborted : Bool

differs : Option ℤ → ℤ → Bool
unfolding same_generation
differs none gen = false
differs (some read) gen = not (same_generation read gen)

-- `check`: `read` is the generation, or none when reading it raises
unfoldable pub check_abort : ℤ → ℕ → Bool → ℕ → Option ℤ → Abort → Bool × Abort
unfolding differs
check_abort gen every stop now read s =
    if stop || s.aborted
    then (true, s)
    else if ltb now s.next
    then (false, s)
    else if differs read gen
    then (true, record { next = now + every; aborted = true })
    else (false, record s { next = now + every })

abbrev pub is_awake : Option Wake → Bool
is_awake none = false
is_awake (some w) = true

-- HEARTBEAT_INTERVAL_S
abbrev pub heartbeat_interval_s : ℕ
heartbeat_interval_s = 30

-- the wait of each round lasts until the deadline or for an interval
abbrev pub Paced : ℕ → ℕ → ℕ → List Round → Type 0
Paced start deadline k [] = Unit
Paced start deadline k (r ∷ rounds) =
    ((deadline ≤ r.now) ⊎ (start + heartbeat_interval_s * k ≤ r.now))
    × Paced start deadline (suc k) rounds

awake_in :
    (gen : ℤ) (start deadline k n : ℕ) (rounds : List Round)
    → deadline ≤ start + heartbeat_interval_s * (k + n)
    → length rounds ≡ suc n
    → Paced start deadline k rounds
    → is_awake (sleep gen deadline rounds) ≡ true
unfolding sleep
awake_in gen start deadline k n [] enough long paced = ground (arith, long)
awake_in gen start deadline k zero (r ∷ rounds) enough long paced =
    let due : deadline ≤ r.now = elim paced.0 [ inl h ↦ h | inr h ↦ omega (arith, enough, h) ] in
    ground (arith, due)
awake_in gen start deadline k (suc n) (r ∷ rounds) enough long paced =
    let rest =
      awake_in gen start deadline (suc k) n rounds (omega (arith, enough)) (omega (arith, long))
        paced.1 in
    ground (arith, rest)

-- A nap is over after at most one round for each interval in it and one more, whatever the
-- generation is, when each wait lasts for an interval or until the deadline.
pub sleep_ends :
    (gen : ℤ) (start seconds n : ℕ) (rounds : List Round)
    → seconds ≤ heartbeat_interval_s * n
    → length rounds ≡ suc n
    → Paced start (start + seconds) 0 rounds
    → is_awake (sleep gen (start + seconds) rounds) ≡ true
sleep_ends gen start seconds n rounds enough long paced =
    awake_in gen start (start + seconds) 0 n rounds (omega (arith, enough)) long paced
