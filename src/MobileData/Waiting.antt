-- ===== src/MobileData/Waiting.antt =====
-- The wait for the connection ends.
use harbour_find_my_device.Prelude.{
  ℕ, zero, suc, ◌+◌, ◌*◌, ◌≤◌, ◌≡◌, Bool, true, false, Option, none, some, List, [], ◌∷◌, arith,
  length,
}
use harbour_find_my_device.Text.{Text}
use harbour_find_my_device.MobileData.Sessions.{Reading, latest, wait_online}

abbrev pub is_over : Option Bool → Bool
is_over none = false
is_over (some b) = true

-- half a second passes between the rounds, the first of which is round `k`
abbrev pub Spaced : ℕ → List Reading → Type 0
Spaced k [] = Unit
Spaced k (r ∷ readings) = (500 * k ≤ r.deadline_at) × Spaced (suc k) readings

over_in :
    (k n timeout : ℕ) (state : Option Text) (readings : List Reading)
    → timeout ≤ 500 * (k + n)
    → length readings ≡ suc n
    → Spaced k readings
    → is_over (wait_online timeout state readings) ≡ true
unfolding wait_online
over_in k n timeout state [] enough long spaced = ground (arith, long)
over_in k zero timeout state (r ∷ readings) enough long spaced = ground (arith, enough, spaced.0)
over_in k (suc n) timeout state (r ∷ readings) enough long spaced =
    let rest =
      over_in (suc k) n timeout (latest r.seen state) readings (omega (arith, enough))
        (omega (arith, long)) spaced.1 in
    ground (arith, rest)

-- The wait for the connection is over, with a result, after at most one round for each half second
-- of the timeout and one more, whatever the rounds read, when each round comes half a second or more
-- after the one before.
pub wait_online_ends :
    (n timeout : ℕ) (readings : List Reading)
    → timeout ≤ 500 * n
    → length readings ≡ suc n
    → Spaced 0 readings
    → is_over (wait_online timeout none readings) ≡ true
wait_online_ends n timeout readings enough long spaced =
    over_in 0 n timeout none readings (omega (arith, enough)) long spaced
