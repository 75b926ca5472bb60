-- ===== src/App/Timers.antt =====
-- The buttons of the devices, under `_pending_lock` of qml/utilities/api.py: which device rings as far
-- as the app knows, which one has not answered, and the timers of both. A timer is known by the token
-- that its callback gets. A timer that is cancelled after it has fired still calls back.
use harbour_find_my_device.Prelude.{
  ℕ, ◌+◌, Bool, true, false, Option, none, some, List, [], ◌∷◌, ◌==◌, ◌=?◌, if◌then◌else◌,
}
use harbour_find_my_device.Text.{Text}

-- a dictionary or a set with the value of one key replaced
abbrev pub with_key {ℓ} : {A : Type ℓ} → Text → A → (Text → A) → Text → A
with_key key v d other = if key =? other then v else d other

pub record Buttons : Type 0 where
  pub pending_acks : Text → Option ℕ
  pub timed_out : Text → Bool
  pub ringing : Text → Bool
  pub ring_timers : Text → Option ℕ
  pub ack_seq : ℕ

abbrev pub no_buttons : Buttons
no_buttons = record {
  pending_acks = λ _. none;
  timed_out = λ _. false;
  ringing = λ _. false;
  ring_timers = λ _. none;
  ack_seq = 0;
}

-- `entry is None or entry[0] != token`, negated
unfoldable pub is_current : ℕ → Option ℕ → Bool
is_current token none = false
is_current token (some t) = t == token

unfoldable pub mark_ringing : Text → Buttons → Buttons
mark_ringing k b = record b {
  ack_seq = b.ack_seq + 1;
  ringing = with_key k true b.ringing;
  ring_timers = with_key k (some (b.ack_seq + 1)) b.ring_timers;
}

unfoldable pub clear_ringing : Text → Buttons → Buttons
clear_ringing k b = record b {
  ringing = with_key k false b.ringing;
  ring_timers = with_key k none b.ring_timers;
}

unfoldable pub on_ring_autoclear : Text → ℕ → Buttons → Buttons
unfolding is_current
on_ring_autoclear k token b =
    if is_current token (b.ring_timers k)
    then record b {
      ring_timers = with_key k none b.ring_timers;
      ringing = with_key k false b.ringing;
    }
    else b

unfoldable pub arm_ack_timeout : Text → Buttons → Buttons
arm_ack_timeout k b = record b {
  timed_out = with_key k false b.timed_out;
  ack_seq = b.ack_seq + 1;
  pending_acks = with_key k (some (b.ack_seq + 1)) b.pending_acks;
}

unfoldable pub clear_ack_timeout : Text → Buttons → Buttons
clear_ack_timeout k b = record b {
  pending_acks = with_key k none b.pending_acks;
  timed_out = with_key k false b.timed_out;
}

unfoldable pub on_ack_timeout : Text → ℕ → Buttons → Buttons
unfolding is_current
on_ack_timeout k token b =
    if is_current token (b.pending_acks k)
    then record b {
      pending_acks = with_key k none b.pending_acks;
      timed_out = with_key k true b.timed_out;
    }
    else b

-- everything that happens to the buttons, in any order
pub data Press : Type 0 where
  rung stopped sent heard : Text → Press
  ring_over ack_late : Text → ℕ → Press

unfoldable pub press : Press → Buttons → Buttons
press (rung k) b = mark_ringing k b
press (stopped k) b = clear_ringing k b
press (sent k) b = arm_ack_timeout k b
press (heard k) b = clear_ack_timeout k b
press (ring_over k token) b = on_ring_autoclear k token b
press (ack_late k token) b = on_ack_timeout k token b

unfoldable pub presses : List Press → Buttons → Buttons
presses [] b = b
presses (e ∷ es) b = presses es (press e b)
