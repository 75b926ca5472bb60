-- ===== src/App/Parked.antt =====
-- A tap hands a command to paho twice at most, and a STOP_RING three times: one that could not be
-- delivered is parked, and sent again at most once.
use harbour_find_my_device.Prelude.{
  ℕ, ◌+◌, ◌≤◌, ◌≡◌, refl, Bool, true, false, Option, none, some, List, [], ◌∷◌, ◌++◌, keep, ◌=?◌,
  arith, ◌⊎◌, if◌then◌else◌, inl, inr, Bool-cases,
}
use harbour_find_my_device.Text.{Text, upper, is_empty}
use harbour_find_my_device.Exception.{Error, Result, ok, raise}
use harbour_find_my_device.Database.{Device}
use harbour_find_my_device.Devices.{get_device}
use harbour_find_my_device.App.{
  pending_cmd_ttl_s, Verified, Sends, never, once, twice, publish_times, after_publish, is_retried,
  payload_for, App, Payload, Job, Pending, enqueue, send_with, send_to, send_command, follow_finger,
  park, queue_pending_command, delivered, undelivered, undo_ring, dispatch_command, work, work_on,
  resend, resend_all, flush_pending_commands, is_due, publish, emit, on_buttons,
}
use harbour_find_my_device.App.Acks.{Ack, answered, on_remote_ack, note_verdict, note_wipe}
use harbour_find_my_device.App.Events.{
  Event, tap, turn, connected, ack, ring_timer, ack_timer, step, run, or_same,
}

Result-cases : {A : Type 0} (r : Result A) → ((e : Error) × (r ≡ raise e)) ⊎ ((x : A) × (r ≡ ok x))
Result-cases (ok x) = inr (x, refl)
Result-cases (raise e) = inl (e, refl)

abbrev one : Bool → ℕ
one b = if b then 1 else 0

-- `q` picks the commands that are counted, by their device and their name.
module _ (q : Text → Text → Bool) where
  abbrev pub published_count : List (Text × Payload) → ℕ
  published_count [] = 0
  published_count ((k, p) ∷ rest) = one (q k p.cmd) + published_count rest

  -- how often a command may still be handed over, `cmd` being its name in the queue
  abbrev worth : Text → Text → Text → ℕ
  worth k c cmd = if q k c then (if is_retried cmd then 3 else 2) else 0

  abbrev queued_count : List Job → ℕ
  queued_count [] = 0
  queued_count (j ∷ rest) = worth j.device_id j.payload.cmd j.cmd + queued_count rest

  abbrev parked_count : List Pending → ℕ
  parked_count [] = 0
  parked_count (p ∷ rest) = one (q p.device_id p.payload.cmd) + parked_count rest

  abbrev pub on_the_way : App → ℕ
  on_the_way a =
      published_count a.published + queued_count a.queue + parked_count a.pending_commands

  abbrev pub taps : List Event → ℕ
  taps [] = 0
  taps (tap k cmd arg now ∷ es) = worth k (upper cmd) (upper cmd) + taps es
  taps (_ ∷ es) = taps es

  queued_count-append :
      (xs : List Job) (j : Job)
      → queued_count (xs ++ (j ∷ [])) ≡ queued_count xs + worth j.device_id j.payload.cmd j.cmd
  queued_count-append [] j = omega arith
  queued_count-append (x ∷ xs) j = omega (arith, queued_count-append xs j)

  parked_count-park :
      (p : Pending) (ps : List Pending)
      → parked_count (park p ps) ≤ one (q p.device_id p.payload.cmd) + parked_count ps
  unfolding park
  parked_count-park p [] = omega arith
  parked_count-park p (x ∷ ps) = elim (Bool-cases (x.device_id =? p.device_id)) [
    | inl same ↦ rw same (omega arith)
    | inr other ↦ rw other (omega (arith, parked_count-park p ps))
  ]

  parked_count-keep :
      (now : ℕ) (ps : List Pending) → parked_count (keep (is_due now) ps) ≤ parked_count ps
  unfolding keep
  parked_count-keep now [] = omega arith
  parked_count-keep now (p ∷ ps) = elim (Bool-cases (is_due now p)) [
    | inl due ↦ rw due (omega (arith, parked_count-keep now ps))
    | inr old ↦ rw old (omega (arith, parked_count-keep now ps))
  ]

  way-follow_finger : (k cmd : Text) (a : App) → on_the_way (follow_finger k cmd a) ≡ on_the_way a
  unfolding follow_finger emit on_buttons
  way-follow_finger k cmd a = ground arith

  way-enqueue :
      (h : Text → Text → Text) (d : Device) (pin k cmd arg : Text) (now : ℕ) (a : App)
      → on_the_way (enqueue h d pin k cmd arg now a) ≡ worth k cmd cmd + on_the_way a
  unfolding enqueue payload_for
  way-enqueue h d pin k cmd arg now a = omega (arith, queued_count-append a.queue _)

  way-send_with :
      (h : Text → Text → Text) (d : Device) (pin : Option Text) (k cmd arg : Text) (now : ℕ)
      (a : App)
      → on_the_way (send_with h d pin k cmd arg now a).1 ≤ worth k cmd cmd + on_the_way a
  unfolding send_with enqueue
  way-send_with h d none k cmd arg now a = omega arith
  way-send_with h d (some pin) k cmd arg now a = elim (Bool-cases (is_empty pin)) [
    | inl blank ↦ rw blank (omega arith)
    | inr filled ↦ rw filled (
        omega (
          arith,
          way-enqueue h d pin k cmd arg now (follow_finger k cmd a),
          way-follow_finger k cmd a,
        ))
  ]

  way-send_to :
      (h : Text → Text → Text) (d : Option Device) (k cmd arg : Text) (now : ℕ) (a : App)
      → on_the_way (send_to h d k cmd arg now a).1 ≤ worth k cmd cmd + on_the_way a
  unfolding send_to
  way-send_to h none k cmd arg now a = omega arith
  way-send_to h (some d) k cmd arg now a = way-send_with h d d.pin k cmd arg now a

  way-undo_ring : (j : Job) (a : App) → on_the_way (undo_ring j a) ≡ on_the_way a
  unfolding undo_ring emit on_buttons
  way-undo_ring j a = ground arith

  way-queue_pending :
      (k cmd : Text) (p : Payload) (now : ℕ) (a : App)
      → on_the_way (queue_pending_command k cmd p now a).1 + (one (q k p.cmd) + one (q k p.cmd))
        ≤ worth k p.cmd cmd + on_the_way a
  unfolding queue_pending_command
  way-queue_pending k cmd p now a = elim (Bool-cases (is_retried cmd)) [
    | inl y ↦
        let parked =
          parked_count-park
            (record { device_id = k; cmd = cmd; payload = p; deadline = now + pending_cmd_ttl_s })
            a.pending_commands in
        elim (Bool-cases (q k p.cmd)) [
          | inl c ↦ rw (y, c) (omega (arith, rw c at parked))
          | inr c ↦ rw (y, c) (omega (arith, rw c at parked))
        ]
    | inr n ↦ elim (Bool-cases (q k p.cmd)) [
      | inl c ↦ rw (n, c) (omega arith)
      | inr c ↦ rw (n, c) (omega arith)
    ]
  ]

  way-publish_times :
      (sends : Sends) (k : Text) (p : Payload) (a : App)
      → on_the_way (publish_times sends k p a) ≤ one (q k p.cmd) + one (q k p.cmd) + on_the_way a
  unfolding publish_times publish
  way-publish_times never k p a = omega arith
  way-publish_times once k p a = omega arith
  way-publish_times twice k p a = omega arith

  way-delivered : (j : Job) (a : App) → on_the_way (delivered j a) ≡ on_the_way a
  unfolding delivered emit on_buttons
  way-delivered j a = elim (Bool-cases j.is_own) [
    | inl own ↦ rw own refl
    | inr other ↦ rw other refl
  ]

  twice-worth : (k c cmd : Text) → one (q k c) + one (q k c) ≤ worth k c cmd
  twice-worth k c cmd = ground arith

  way-after_publish :
      (taken : Bool) (j : Job) (now : ℕ) (a : App)
      → on_the_way (after_publish taken j now a)
          + (one (q j.device_id j.payload.cmd) + one (q j.device_id j.payload.cmd))
        ≤ worth j.device_id j.payload.cmd j.cmd + on_the_way a
  unfolding after_publish undelivered emit
  way-after_publish true j now a =
      omega (arith, way-delivered j a, twice-worth j.device_id j.payload.cmd j.cmd)
  way-after_publish false j now a =
      omega (
        arith,
        way-queue_pending j.device_id j.cmd j.payload now (undo_ring j a),
        way-undo_ring j a,
      )

  way-dispatch :
      (v : Verified) (j : Job) (now : ℕ) (a : App)
      → on_the_way (dispatch_command v j now a)
        ≤ worth j.device_id j.payload.cmd j.cmd + on_the_way a
  unfolding dispatch_command
  way-dispatch v j now a = omega (
    arith,
    way-after_publish v.taken j now (publish_times v.sends j.device_id j.payload a),
    way-publish_times v.sends j.device_id j.payload a,
  )

  way-work :
      (js : List Job) (taken : Verified) (now : ℕ) (a : App)
      → a.queue ≡ js
      → on_the_way (work_on js taken now a) ≤ on_the_way a
  unfolding work_on
  way-work [] taken now a e = omega arith
  way-work (j ∷ rest) taken now a e =
      rw e (omega (arith, way-dispatch taken j now (record a { queue = rest })))

  way-resend :
      (takes : Payload → Bool × Bool) (p : Pending) (a : App)
      → on_the_way (resend takes p a) ≤ one (q p.device_id p.payload.cmd) + on_the_way a
  unfolding resend publish emit
  way-resend takes p a = elim (Bool-cases (takes p.payload).0) [
    | inl y ↦ rw y (omega arith)
    | inr n ↦ rw n (omega arith)
  ]

  way-resend_all :
      (takes : Payload → Bool × Bool) (ps : List Pending) (a : App)
      → on_the_way (resend_all takes ps a) ≤ parked_count ps + on_the_way a
  unfolding resend_all
  way-resend_all takes [] a = omega arith
  way-resend_all takes (p ∷ ps) a =
      omega (arith, way-resend takes p a, way-resend_all takes ps (resend takes p a))

  way-flush :
      (takes : Option (Payload → Bool × Bool)) (now : ℕ) (a : App)
      → on_the_way (flush_pending_commands takes now a) ≤ on_the_way a
  unfolding flush_pending_commands
  way-flush none now a = omega arith
  way-flush (some takes) now a = omega (
    arith,
    parked_count-keep now a.pending_commands,
    way-resend_all takes (keep (is_due now) a.pending_commands)
        (record a { pending_commands = [] }),
  )

  way-answered :
      (k : Text) (x : Ack) (now : Text) (a : App)
      → on_the_way (or_same a (answered k x now a)) ≡ on_the_way a
  unfolding or_same answered emit
  way-answered k x now a = elim (Result-cases (note_verdict k x.result now a.db)) [
    | inl (e, bad) ↦ rw bad refl
    | inr (db, good) ↦ rw good (elim (Result-cases (note_wipe k x now db)) [
      | inl (e, bad) ↦ rw bad refl
      | inr (db', fine) ↦ rw fine refl
    ])
  ]

  way-ack :
      (own k : Text) (x : Ack) (now : Text) (a : App)
      → on_the_way (or_same a (on_remote_ack own k x now a)) ≡ on_the_way a
  unfolding on_remote_ack or_same emit
  way-ack own k x now a = ground (arith, way-answered k x now a)

  way-step :
      (h : Text → Text → Text) (own : Text) (e : Event) (a : App)
      → on_the_way (step h own e a) ≤ taps (e ∷ []) + on_the_way a
  unfolding step send_command work on_buttons
  way-step h own (tap k cmd arg now) a =
      omega (arith, way-send_to h (get_device k a.db) k (upper cmd) arg now a)
  way-step h own (turn taken now) a = omega (arith, way-work a.queue taken now a refl)
  way-step h own (connected takes now) a = omega (arith, way-flush takes now a)
  way-step h own (ack k x now) a = omega (arith, way-ack own k x now a)
  way-step h own (ring_timer k token) a = omega arith
  way-step h own (ack_timer k token) a = omega arith

  taps-cons : (e : Event) (es : List Event) → taps (e ∷ es) ≡ taps (e ∷ []) + taps es
  taps-cons (tap k cmd arg now) es = omega arith
  taps-cons (turn taken now) es = omega arith
  taps-cons (connected takes now) es = omega arith
  taps-cons (ack k x now) es = omega arith
  taps-cons (ring_timer k token) es = omega arith
  taps-cons (ack_timer k token) es = omega arith

  -- Whatever happens in whatever order, commands of a kind are handed to paho no more often than
  -- this: those that it had before, twice for each tap and each command queued before, or three times
  -- where it is STOP_RING, and once for each that was parked before. Those that may still come, of the
  -- queue and the parked ones, are counted in. The kind is any choice of devices and of command
  -- names; a publish that fails counts with all that it handed over.
  pub way-run :
      (hexdigest : Text → Text → Text) (own : Text) (es : List Event) (a : App)
      → on_the_way (run hexdigest own es a) ≤ taps es + on_the_way a
  unfolding run
  way-run h own [] a = omega arith
  way-run h own (e ∷ es) a =
      omega (arith, way-step h own e a, way-run h own es (step h own e a), taps-cons e es)
