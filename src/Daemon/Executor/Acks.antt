-- ===== src/Daemon/Executor/Acks.antt =====
-- The acknowledgements of the worker.
use harbour_find_my_device.Prelude.{
  ℕ, suc, ◌≡◌, refl, ap, ◌∙◌, true, List, [], ◌∷◌, ◌++◌, arith, Bool-cases, inl, inr,
}
use harbour_find_my_device.Text.{Text, codes, starts_with}
use harbour_find_my_device.Database.{Db}
use harbour_find_my_device.Daemon.{Job, command, ack, uploads, publishes}
use harbour_find_my_device.Daemon.Executor.{
  Act, rings, stops_ring, locks, locates, photographs, reboots, retries_uploads, publishes_fix,
  wipes, notifies, acknowledges, Answers, do_delete, dispatch, execute, publish_ack, serve, drain,
}
use harbour_find_my_device.Daemon.Executor.Quiet.{
  acked, do_ring-IsQuiet, do_stop_ring-IsQuiet, do_lock-IsQuiet, locates-IsQuiet,
  photographs-IsQuiet,
}

-- what is to be acknowledged of a job: its command, if it is a command or a bare ack
abbrev pub cmd_of : Job → List Text
cmd_of (ack cmd result) = cmd ∷ []
cmd_of (command cmd arg channel sender) = cmd ∷ []
cmd_of uploads = []
cmd_of publishes = []

abbrev pub cmds_of : List Job → List Text
cmds_of [] = []
cmds_of (job ∷ jobs) = cmd_of job ++ cmds_of jobs

acked-append : (a b : List Act) → acked (a ++ b) ≡ acked a ++ acked b
unfolding acked
acked-append [] b = refl
acked-append (acknowledges cmd result wait ∷ a) b = ap (λ l. cmd ∷ l) (acked-append a b)
acked-append (rings ∷ a) b = acked-append a b
acked-append (stops_ring ∷ a) b = acked-append a b
acked-append (locks ∷ a) b = acked-append a b
acked-append (locates ∷ a) b = acked-append a b
acked-append (photographs ∷ a) b = acked-append a b
acked-append (reboots ∷ a) b = acked-append a b
acked-append (retries_uploads ∷ a) b = acked-append a b
acked-append (publishes_fix ∷ a) b = acked-append a b
acked-append (wipes home ∷ a) b = acked-append a b
acked-append (notifies text ∷ a) b = acked-append a b

acked-do_delete : (home : Text) → acked (do_delete home).1 ≡ []
unfolding acked do_delete
acked-do_delete home = elim (Bool-cases (starts_with home (codes "/home/"))) [
  | inl below ↦ rw below refl
  | inr outside ↦ rw outside refl
]

acked-execute : (cmd : Text) (answers : Answers) (db : Db) → acked (execute cmd answers db).1 ≡ []
unfolding execute dispatch acked
acked-execute cmd answers db = ground (
  arith,
  do_ring-IsQuiet answers.ring,
  do_stop_ring-IsQuiet answers.stop_ring,
  do_lock-IsQuiet answers.lock,
  locates-IsQuiet answers.gps,
  photographs-IsQuiet answers.camera,
  acked-do_delete answers.home,
)

acked-serve :
    (job : Job) (answers : Answers) (db : Db)
    → answers.has_client ≡ true
    → acked (serve job answers db) ≡ cmd_of job
unfolding serve publish_ack acked
acked-serve (ack cmd result) answers db h = ground (arith, h)
acked-serve uploads answers db h = refl
acked-serve publishes answers db h = refl
acked-serve (command cmd arg channel sender) answers db h =
    let sent : acked (publish_ack cmd (execute cmd answers db).0 answers) ≡ (cmd ∷ []) =
      ground (arith, h) in
    acked-append (execute cmd answers db).1 (publish_ack cmd (execute cmd answers db).0 answers)
    ∙ (ap (λ l. l ++ acked (publish_ack cmd (execute cmd answers db).0 answers))
          (acked-execute cmd answers db)
        ∙ sent)

-- The worker acknowledges every command and every bare ack of its queue once, in the order of the
-- queue, and nothing for the other jobs, the upload retries and the publishes, however the device
-- answers to each, as long as there is an MQTT client.
pub acked-drain :
    (jobs : List Job) (answers : ℕ → Answers) (i : ℕ) (db : Db)
    → ((j : ℕ) → (answers j).has_client ≡ true)
    → acked (drain jobs answers i db) ≡ cmds_of jobs
unfolding drain acked
acked-drain [] answers i db h = refl
acked-drain (job ∷ jobs) answers i db h =
    acked-append (serve job (answers i) db) (drain jobs answers (suc i) db)
    ∙ (ap (λ l. l ++ acked (drain jobs answers (suc i) db)) (acked-serve job (answers i) db (h i))
        ∙ ap (λ l. cmd_of job ++ l) (acked-drain jobs answers (suc i) db h))
