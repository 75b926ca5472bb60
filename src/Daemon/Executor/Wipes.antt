-- ===== src/Daemon/Executor/Wipes.antt =====
-- When the worker wipes the user's data.
use harbour_find_my_device.Prelude.{
  ℕ, suc, ◌≡◌, refl, ap, Bool, false, ◌&&◌, ◌||◌, List, [], ◌∷◌, ◌++◌, arith, any, ◌=?◌, =?_iff,
  Bool-cases, inl, inr,
}
use harbour_find_my_device.Text.{Text, codes, upper, starts_with}
use harbour_find_my_device.Database.{Db}
use harbour_find_my_device.Daemon.{Job, command, ack, uploads, publishes, feature_enabled}
use harbour_find_my_device.Daemon.Executor.{
  Act, Answers, do_delete, dispatch, execute, publish_ack, serve, drain,
}
use harbour_find_my_device.Daemon.Executor.Quiet.{
  is_wipe, do_ring-IsQuiet, do_stop_ring-IsQuiet, do_lock-IsQuiet, locates-IsQuiet,
  photographs-IsQuiet,
}

wipes-do_delete : (home : Text) → any is_wipe (do_delete home).1 ≡ starts_with home (codes "/home/")
unfolding any do_delete
wipes-do_delete home = elim (Bool-cases (starts_with home (codes "/home/"))) [
  | inl below ↦ rw below refl
  | inr outside ↦ rw outside refl
]

wipes-other :
    (cmd : Text) (answers : Answers)
    → (cmd =? codes "DELETE") ≡ false
    → any is_wipe (dispatch cmd answers).1 ≡ false
unfolding dispatch any
wipes-other cmd answers other = ground (
  arith,
  other,
  do_ring-IsQuiet answers.ring,
  do_stop_ring-IsQuiet answers.stop_ring,
  do_lock-IsQuiet answers.lock,
  locates-IsQuiet answers.gps,
  photographs-IsQuiet answers.camera,
)

wipes-dispatch :
    (cmd : Text) (answers : Answers)
    → any is_wipe (dispatch cmd answers).1
      ≡ ((cmd =? codes "DELETE") && starts_with answers.home (codes "/home/"))
wipes-dispatch cmd answers = elim (Bool-cases (cmd =? codes "DELETE")) [
  | inl same ↦
      rw ((=?_iff cmd (codes "DELETE")).0 same)
        (unfold dispatch ◌=?◌ in wipes-do_delete answers.home)
  | inr other ↦ rw other (wipes-other cmd answers other)
]

wipes-execute :
    (cmd : Text) (answers : Answers) (db : Db)
    → any is_wipe (execute cmd answers db).1 ≡ (
        feature_enabled (upper cmd) db
        && ((upper cmd =? codes "DELETE") && starts_with answers.home (codes "/home/")))
unfolding execute any
wipes-execute cmd answers db = ground (arith, wipes-dispatch (upper cmd) answers)

wipes-publish_ack :
    (cmd result : Text) (answers : Answers) → any is_wipe (publish_ack cmd result answers) ≡ false
unfolding publish_ack any
wipes-publish_ack cmd result answers = ground arith

any-append : (a b : List Act) → any is_wipe (a ++ b) ≡ (any is_wipe a || any is_wipe b)
unfolding any
any-append [] b = refl
any-append (act ∷ a) b = let rest = any-append a b in ground (arith, rest)

-- the job is a DELETE command that may be carried out
abbrev pub is_delete : Db → Job → Bool
is_delete db (ack cmd result) = false
is_delete db uploads = false
is_delete db publishes = false
is_delete db (command cmd arg channel sender) =
    feature_enabled (upper cmd) db && (upper cmd =? codes "DELETE")

wipes-serve :
    (job : Job) (answers : Answers) (db : Db)
    → any is_wipe (serve job answers db)
      ≡ (is_delete db job && starts_with answers.home (codes "/home/"))
unfolding serve
wipes-serve (ack cmd result) answers db = wipes-publish_ack cmd result answers
wipes-serve uploads answers db = unfold any in refl
wipes-serve publishes answers db = unfold any in refl
wipes-serve (command cmd arg channel sender) answers db = ground (
  arith,
  any-append (execute cmd answers db).1 (publish_ack cmd (execute cmd answers db).0 answers),
  wipes-execute cmd answers db,
  wipes-publish_ack cmd (execute cmd answers db).0 answers,
)

-- While the worker empties its queue, however the device answers to each job, the user's data are
-- wiped just when a job of the queue is a DELETE command, DELETE is enabled in the settings, and
-- the home directory, the same throughout, is below /home/.
pub wipes-drain :
    (jobs : List Job) (answers : ℕ → Answers) (home : Text) (i : ℕ) (db : Db)
    → ((j : ℕ) → (answers j).home ≡ home)
    → any is_wipe (drain jobs answers i db)
      ≡ (any (is_delete db) jobs && starts_with home (codes "/home/"))
unfolding drain any
wipes-drain [] answers home i db h = refl
wipes-drain (job ∷ jobs) answers home i db h =
    let same : starts_with (answers i).home (codes "/home/") ≡ starts_with home (codes "/home/") =
      ap (λ t. starts_with t (codes "/home/")) (h i) in
    ground (
      arith,
      any-append (serve job (answers i) db) (drain jobs answers (suc i) db),
      same,
      wipes-serve job (answers i) db,
      wipes-drain jobs answers home (suc i) db h,
    )
