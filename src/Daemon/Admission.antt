-- ===== src/Daemon/Admission.antt =====
-- Which commands reach the queue of the worker.
use harbour_find_my_device.Prelude.{
  ℕ, String, ◌+◌, ◌≡◌, refl, ap, sym, ◌∙◌, ◌⊎◌, inl, inr, Bool, true, false, ◌&&◌, Option, none,
  some, List, [], ◌∷◌, ◌++◌, arith, if◌then◌else◌, Bool-cases, Option-cases,
}
use harbour_find_my_device.Text.{Text, codes, upper}
use harbour_find_my_device.Exception.{Result, ok, raise, ◌>>=◌}
use harbour_find_my_device.Database.{Db}
use harbour_find_my_device.Devices.{get_own, get_device, pin_of}
use harbour_find_my_device.Settings.{get, get_bool}
use harbour_find_my_device.Settings.Defaults.{sms_remote_enabled}
use harbour_find_my_device.Tokens.Command.{verify_command_token}
use harbour_find_my_device.Tokens.Backup.{consume_backup_code}
use harbour_find_my_device.Tokens.Backup.Consume.{consume_backup_code_once}
use harbour_find_my_device.Tokens.SmsCode.{totp_accepts, secret_of, verify_sms_code}
use harbour_find_my_device.Sms.{Parsed, sender_allowed, parse_command}
use harbour_find_my_device.Daemon.{
  enabled, feature_key, feature_enabled, mqtt, sms, Job, command, ack, World, submit,
  notify_rejected, or_blank, settle, on_mqtt_command, checked, sms_authorize, dispatched,
  handle_parsed, handle,
}

module _ (hexdigest : Text → Text → Text) where
  -- An MQTT command whose token the own device's PIN confirms is queued as the last job, in upper
  -- case; the database and the notices stay.
  pub on_mqtt_command_queued :
      (cmd arg token : Option Text) (now : ℕ) (w : World)
      → verify_command_token hexdigest (pin_of (get_own w.db)) (upper (or_blank cmd)) arg token now
        ≡ ok true
      → on_mqtt_command hexdigest cmd arg token now w
        ≡ ok (record w { queue = w.queue ++ (command (upper (or_blank cmd)) arg mqtt none ∷ []) })
  unfolding on_mqtt_command settle submit
  on_mqtt_command_queued cmd arg token now w e = rw e refl

  -- An MQTT command whose token is wrong is not queued: the sender is told that it failed, and the
  -- owner is shown one notice.
  pub on_mqtt_command_rejected :
      (cmd arg token : Option Text) (now : ℕ) (w : World)
      → verify_command_token hexdigest (pin_of (get_own w.db)) (upper (or_blank cmd)) arg token now
        ≡ ok false
      → on_mqtt_command hexdigest cmd arg token now w
        ≡ ok (record w {
          queue = w.queue ++ (ack (upper (or_blank cmd)) (codes "auth_failed") ∷ []);
          notices = w.notices + 1;
        })
  unfolding on_mqtt_command settle submit notify_rejected
  on_mqtt_command_rejected cmd arg token now w e = rw e refl

queue_of : Result World → List Job
queue_of (ok w) = w.queue
queue_of (raise e) = []

same_queue : (r : Result World) (w after : World) → r ≡ ok after → r ≡ ok w → after.queue ≡ w.queue
unfolding queue_of
same_queue r w after h e = ap queue_of (sym h ∙ e)

enabled-consume :
    (sha256 : Text → Text) (code k stamp : Text) (db : Db) (key : Option String)
    → enabled key (consume_backup_code sha256 code k stamp db).1 ≡ enabled key db
unfolding consume_backup_code get_bool get enabled
enabled-consume sha256 code k stamp db none = refl
enabled-consume sha256 code k stamp db (some key) = refl

gate-consume :
    (sha256 : Text → Text) (code k stamp cmd : Text) (db : Db)
    → (get_bool sms_remote_enabled (consume_backup_code sha256 code k stamp db).1
        && feature_enabled cmd (consume_backup_code sha256 code k stamp db).1)
      ≡ (get_bool sms_remote_enabled db && feature_enabled cmd db)
unfolding feature_enabled
gate-consume sha256 code k stamp cmd db =
    let remote : get_bool sms_remote_enabled (consume_backup_code sha256 code k stamp db).1
        ≡ get_bool sms_remote_enabled db =
      unfold consume_backup_code get_bool get in refl in
    rw (remote, enabled-consume sha256 code k stamp db (feature_key cmd)) refl

device-consume :
    (sha256 : Text → Text) (code k stamp j : Text) (db : Db)
    → get_device j (consume_backup_code sha256 code k stamp db).1 ≡ get_device j db
unfolding consume_backup_code get_device
device-consume sha256 code k stamp j db = refl

bind-ok {ℓ} :
    {A B C : Type ℓ} (r : Result A) (f : A → B) (g : B → C)
    → ((r >>= λ a. ok (f a)) >>= λ b. ok (g b)) ≡ (r >>= λ a. ok (g (f a)))
bind-ok (ok a) f g = refl
bind-ok (raise e) f g = refl

module _ (hmac_sha1 : List ℕ → List ℕ → List ℕ) (b32decode : Text → Option (List ℕ))
    (sha256 : Text → Text) where
  module _ (k : Text) (allowed : List Text) (sender text : Text) where
    -- A message of a sender who is not on the whitelist changes nothing.
    pub handle_unknown_sender :
        (now : ℕ) (stamp : Text) (w : World)
        → sender_allowed sender allowed 9 ≡ false
        → handle hmac_sha1 b32decode sha256 k allowed sender text now stamp w ≡ ok w
    unfolding handle
    handle_unknown_sender now stamp w e = rw e refl

    -- A command whose feature is switched off, or that comes while the remote control by SMS is
    -- switched off, changes nothing: no code is used up by it.
    pub handle_disabled :
        (p : Parsed) (now : ℕ) (stamp : Text) (w : World)
        → parse_command text ≡ some p
        → (get_bool sms_remote_enabled w.db && feature_enabled (upper p.cmd) w.db) ≡ false
        → handle hmac_sha1 b32decode sha256 k allowed sender text now stamp w ≡ ok w
    unfolding handle handle_parsed sms_authorize dispatched
    handle_disabled p now stamp w e off = rw (e, off) (ground arith)

    -- what it takes that the message queues a command
    abbrev pub IsConfirmed : ℕ → Text → World → Parsed → Type 0
    IsConfirmed now stamp w p =
        (sender_allowed sender allowed 9 ≡ true)
        × (parse_command text ≡ some p)
        × (get_bool sms_remote_enabled w.db ≡ true)
        × (feature_enabled (upper p.cmd) w.db ≡ true)
        × ((db : Db) × (verify_sms_code hmac_sha1 b32decode sha256 p.code k now stamp w.db
              ≡ ok (true, db)))

    handle-checked :
        (p : Parsed) (now : ℕ) (stamp : Text) (w : World)
        → sender_allowed sender allowed 9 ≡ true
        → parse_command text ≡ some p
        → (get_bool sms_remote_enabled w.db && feature_enabled (upper p.cmd) w.db) ≡ true
        → handle hmac_sha1 b32decode sha256 k allowed sender text now stamp w ≡ (do
          result ← verify_sms_code hmac_sha1 b32decode sha256 p.code k now stamp w.db
          ok (
              dispatched hmac_sha1 b32decode sha256 sender p
                (checked hmac_sha1 b32decode sha256 w result)))
    unfolding handle handle_parsed sms_authorize
    handle-checked p now stamp w a e on =
        rw (a, e, on)
          (bind-ok (verify_sms_code hmac_sha1 b32decode sha256 p.code k now stamp w.db)
            (checked hmac_sha1 b32decode sha256 w) (dispatched hmac_sha1 b32decode sha256 sender p))

    queued_if_right :
        (p : Parsed) (w after : World) (o : Result (Bool × Db))
        → (do
          result ← o
          ok (
              dispatched hmac_sha1 b32decode sha256 sender p
                (checked hmac_sha1 b32decode sha256 w result)))
          ≡ ok after
        → (after.queue ≡ w.queue)
          ⊎ (((db : Db) × (o ≡ ok (true, db)))
              × (after.queue ≡ w.queue ++ (command (upper p.cmd) p.arg sms (some sender) ∷ [])))
    unfolding checked dispatched submit notify_rejected queue_of
    queued_if_right p w after (raise x) h = absurd (ground arith)
    queued_if_right p w after (ok (true, db)) h = inr ((db, refl), ap queue_of (sym h))
    queued_if_right p w after (ok (false, db)) h = inl (ap queue_of (sym h))

    -- A message whose handling does not raise either leaves the queue as it was, or adds the
    -- command in it as the last job; it does so only for a sender on the whitelist, while the
    -- remote control by SMS and the feature of the command are switched on, and with a code that
    -- the check accepts.
    pub handle_sound :
        (now : ℕ) (stamp : Text) (w after : World)
        → handle hmac_sha1 b32decode sha256 k allowed sender text now stamp w ≡ ok after
        → (after.queue ≡ w.queue)
          ⊎ ((p : Parsed) × IsConfirmed now stamp w p
              × (after.queue ≡ w.queue ++ (command (upper p.cmd) p.arg sms (some sender) ∷ [])))
    unfolding handle handle_parsed sms_authorize
    handle_sound now stamp w after h = elim (Bool-cases (sender_allowed sender allowed 9)) [
      | inr n ↦ inl (
          same_queue (handle hmac_sha1 b32decode sha256 k allowed sender text now stamp w) w after h
            (handle_unknown_sender now stamp w n))
      | inl a ↦ elim (Option-cases (parse_command text)) [
        | inl n ↦ inl (
            same_queue (handle hmac_sha1 b32decode sha256 k allowed sender text now stamp w) w after
              h (rw (a, n) refl))
        | inr (p, e) ↦
            elim (Bool-cases
              (get_bool sms_remote_enabled w.db && feature_enabled (upper p.cmd) w.db)) [
                | inr n ↦ inl (
                    same_queue (handle hmac_sha1 b32decode sha256 k allowed sender text now stamp w)
                      w after h (handle_disabled p now stamp w e n))
                | inl on ↦
                    let checked_code : (do
                      result ← verify_sms_code hmac_sha1 b32decode sha256 p.code k now stamp w.db
                      ok (
                          dispatched hmac_sha1 b32decode sha256 sender p
                            (checked hmac_sha1 b32decode sha256 w result)))
                        ≡ ok after =
                      sym (handle-checked p now stamp w a e on) ∙ h in
                    elim (queued_if_right p w after
                      (verify_sms_code hmac_sha1 b32decode sha256 p.code k now stamp w.db)
                      checked_code) [
                        | inl same ↦ inl same
                        | inr (right, q) ↦
                            inr (p, (a, e, ground (arith, on), ground (arith, on), right), q)
                      ]
              ]
      ]
    ]

    db_after :
        (p : Parsed) (w : World) (r : Bool × Db)
        → (dispatched hmac_sha1 b32decode sha256 sender p
            (checked hmac_sha1 b32decode sha256 w r)).db
          ≡ r.1
    unfolding dispatched checked submit notify_rejected
    db_after p w (true, db) = refl
    db_after p w (false, db) = refl

    queue_after :
        (p : Parsed) (w : World) (r : Bool × Db)
        → (dispatched hmac_sha1 b32decode sha256 sender p
            (checked hmac_sha1 b32decode sha256 w r)).queue
          ≡ (if r.0
              then w.queue ++ (command (upper p.cmd) p.arg sms (some sender) ∷ [])
              else w.queue)
    unfolding dispatched checked submit notify_rejected
    queue_after p w (true, db) = refl
    queue_after p w (false, db) = refl

    handle_backup_code :
        (p : Parsed) (now : ℕ) (stamp : Text) (w : World)
        → sender_allowed sender allowed 9 ≡ true
        → parse_command text ≡ some p
        → (get_bool sms_remote_enabled w.db && feature_enabled (upper p.cmd) w.db) ≡ true
        → totp_accepts hmac_sha1 b32decode sha256 (secret_of (get_device k w.db)) p.code now
          ≡ ok false
        → handle hmac_sha1 b32decode sha256 k allowed sender text now stamp w
          ≡ ok (
              dispatched hmac_sha1 b32decode sha256 sender p (
                checked hmac_sha1 b32decode sha256 w
                  (consume_backup_code sha256 p.code k stamp w.db)))
    unfolding verify_sms_code
    handle_backup_code p now stamp w a e on no_totp =
        handle-checked p now stamp w a e on ∙ rw no_totp refl

    -- A message whose code is a backup code works once. Handled again, at any time and with nothing
    -- changed in between, it adds nothing to the queue; the first time it adds the command just when
    -- the code is one that is not used up. The conditions: the sender is on the whitelist, the
    -- message holds a command that is switched on, and its code is no TOTP code at either time.
    pub handle_once :
        (p : Parsed) (now later : ℕ) (stamp stamp' : Text) (w : World)
        → sender_allowed sender allowed 9 ≡ true
        → parse_command text ≡ some p
        → (get_bool sms_remote_enabled w.db && feature_enabled (upper p.cmd) w.db) ≡ true
        → totp_accepts hmac_sha1 b32decode sha256 (secret_of (get_device k w.db)) p.code now
          ≡ ok false
        → totp_accepts hmac_sha1 b32decode sha256 (secret_of (get_device k w.db)) p.code later
          ≡ ok false
        → (first second : World) × (handle hmac_sha1 b32decode sha256 k allowed sender text now
              stamp w
            ≡ ok first)
          × (first.queue ≡ (
              if (consume_backup_code sha256 p.code k stamp w.db).0
              then w.queue ++ (command (upper p.cmd) p.arg sms (some sender) ∷ [])
              else w.queue))
          × (handle hmac_sha1 b32decode sha256 k allowed sender text later stamp' first ≡ ok second)
          × (second.queue ≡ first.queue)
    handle_once p now later stamp stamp' w a e on no_totp no_totp' =
        let result = consume_backup_code sha256 p.code k stamp w.db in
        let first =
          dispatched hmac_sha1 b32decode sha256 sender p
            (checked hmac_sha1 b32decode sha256 w result) in
        let kept : first.db ≡ result.1 = db_after p w result in
        let on' : (get_bool sms_remote_enabled first.db && feature_enabled (upper p.cmd) first.db)
            ≡ true =
          rw kept (gate-consume sha256 p.code k stamp (upper p.cmd) w.db ∙ on) in
        let refused : consume_backup_code sha256 p.code k stamp' first.db ≡ (false, first.db) =
          rw kept (consume_backup_code_once sha256 p.code k stamp w.db p.code stamp' refl) in
        let second : dispatched hmac_sha1 b32decode sha256 sender p
              (checked hmac_sha1 b32decode sha256 first (false, first.db))
            ≡ notify_rejected first =
          unfold dispatched checked in refl in
        (
          first,
          notify_rejected first,
          handle_backup_code p now stamp w a e on no_totp,
          queue_after p w result,
          handle_backup_code p later stamp' first a e on' (rw (kept, device-consume) no_totp')
              ∙ rw (refused, second) refl,
          (unfold notify_rejected in refl),
        )
