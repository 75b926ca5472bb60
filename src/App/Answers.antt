-- ===== src/App/Answers.antt =====
-- Which devices count as not answering, and which as ringing, after any order of taps, acks and timers.
use harbour_find_my_device.Prelude.{
  ℕ, ◌+◌, ◌≡◌, refl, Bool, true, false, ◌&&◌, Option, none, some, List, [], ◌∷◌, ◌==◌, ◌=?◌, arith,
  any, All, =?_iff, =?_refl, ==_iff, ap, inl, inr, Bool-cases, if◌then◌else◌,
}
use harbour_find_my_device.Text.{Text}
use harbour_find_my_device.App.Timers.{
  Buttons, no_buttons, Press, rung, stopped, sent, heard, ring_over, ack_late, press, presses,
  arm_ack_timeout, clear_ack_timeout, on_ack_timeout, mark_ringing, clear_ringing,
  on_ring_autoclear, is_current,
}

-- a command was sent to the device, or an ack or an edit of it has come
abbrev pub settles : Text → Press → Bool
settles k (sent j) = j =? k
settles k (heard j) = j =? k
settles k _ = false

-- the expiry of the timer of one command to the device
abbrev pub is_expiry : Text → ℕ → Press → Bool
is_expiry k token (ack_late j t) = (j =? k) && (token == t)
is_expiry k token _ = false

timed_out-press :
    (k : Text) (e : Press) (b : Buttons)
    → settles k e ≡ false
    → b.pending_acks k ≡ none
    → b.timed_out k ≡ true
    → ((press e b).pending_acks k ≡ none) × ((press e b).timed_out k ≡ true)
unfolding press arm_ack_timeout clear_ack_timeout on_ack_timeout mark_ringing clear_ringing
    on_ring_autoclear is_current
timed_out-press k (rung j) b s p t = ground arith
timed_out-press k (stopped j) b s p t = ground arith
timed_out-press k (sent j) b s p t = ground arith
timed_out-press k (heard j) b s p t = ground arith
timed_out-press k (ring_over j n) b s p t = ground arith
timed_out-press k (ack_late j n) b s p t = ground (arith, =?_iff j k)

stays_out :
    (k : Text) (es : List Press) (b : Buttons)
    → All (λ e. settles k e ≡ false) es
    → b.pending_acks k ≡ none
    → b.timed_out k ≡ true
    → (presses es b).timed_out k ≡ true
unfolding presses
stays_out k [] b s p t = t
stays_out k (e ∷ es) b s p t =
    let r = timed_out-press k e b s.0 p t in stays_out k es (press e b) s.1 r.0 r.1

-- one event, while a command waits for its ack
waiting-press :
    (k : Text) (token : ℕ) (e : Press) (b : Buttons)
    → settles k e ≡ false
    → b.pending_acks k ≡ some token
    → b.timed_out k ≡ false
    → ((press e b).pending_acks k ≡ (if is_expiry k token e then none else some token))
      × ((press e b).timed_out k ≡ is_expiry k token e)
unfolding press arm_ack_timeout clear_ack_timeout on_ack_timeout mark_ringing clear_ringing
    on_ring_autoclear is_current
waiting-press k token (rung j) b s p t = ground arith
waiting-press k token (stopped j) b s p t = ground arith
waiting-press k token (sent j) b s p t = ground arith
waiting-press k token (heard j) b s p t = ground arith
waiting-press k token (ring_over j n) b s p t = ground arith
waiting-press k token (ack_late j n) b s p t = elim (Bool-cases (j =? k)) [
  | inl x ↦ ground (arith, x, ap b.pending_acks ((=?_iff j k).0 x), ==_iff token n)
  | inr x ↦ elim (Bool-cases (is_current n (b.pending_acks j))) [
    | inl y ↦ ground arith
    | inr y ↦ ground arith
  ]
]

waiting-presses :
    (k : Text) (token : ℕ) (es : List Press) (b : Buttons)
    → All (λ e. settles k e ≡ false) es
    → b.pending_acks k ≡ some token
    → b.timed_out k ≡ false
    → (presses es b).timed_out k ≡ any (is_expiry k token) es
unfolding presses any
waiting-presses k token [] b s p t = t
waiting-presses k token (e ∷ es) b s p t =
    let r = waiting-press k token e b s.0 p t in
    elim (Bool-cases (is_expiry k token e)) [
      | inl x ↦ rw x (stays_out k es (press e b) s.1 (ground arith) (ground arith))
      | inr x ↦ rw x (waiting-presses k token es (press e b) s.1 (ground arith) (ground arith))
    ]

-- After a command was sent to a device, and until the next one or an ack or an edit of the device,
-- the device counts as not answering just when the timer of that command has fired: timers of
-- earlier commands, or of other devices, that fire late change nothing.
pub timed_out-presses :
    (k : Text) (es : List Press) (b : Buttons)
    → All (λ e. settles k e ≡ false) es
    → (presses es (press (sent k) b)).timed_out k ≡ any (is_expiry k (b.ack_seq + 1)) es
unfolding press arm_ack_timeout
timed_out-presses k es b s =
    waiting-presses k (b.ack_seq + 1) es (arm_ack_timeout k b) s (rw (=?_refl k)) (rw (=?_refl k))

abbrev pub is_some : Option ℕ → Bool
is_some none = false
is_some (some n) = true

ringing-press :
    (k : Text) (e : Press) (b : Buttons)
    → b.ringing k ≡ is_some (b.ring_timers k)
    → (press e b).ringing k ≡ is_some ((press e b).ring_timers k)
unfolding press arm_ack_timeout clear_ack_timeout on_ack_timeout mark_ringing clear_ringing
    on_ring_autoclear is_current
ringing-press k (rung j) b h = ground arith
ringing-press k (stopped j) b h = ground arith
ringing-press k (sent j) b h = ground arith
ringing-press k (heard j) b h = ground arith
ringing-press k (ring_over j n) b h = ground arith
ringing-press k (ack_late j n) b h = ground arith

ringing-from :
    (k : Text) (es : List Press) (b : Buttons)
    → b.ringing k ≡ is_some (b.ring_timers k)
    → (presses es b).ringing k ≡ is_some ((presses es b).ring_timers k)
unfolding presses
ringing-from k [] b h = h
ringing-from k (e ∷ es) b h = ringing-from k es (press e b) (ringing-press k e b h)

-- Whatever happens in whatever order, a device is shown as ringing just when a timer of its own is
-- set that will end that.
pub ringing-presses :
    (k : Text) (es : List Press)
    → (presses es no_buttons).ringing k ≡ is_some ((presses es no_buttons).ring_timers k)
ringing-presses k es = ringing-from k es no_buttons refl
