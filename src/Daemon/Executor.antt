-- ===== src/Daemon/Executor.antt =====
-- daemon-rpm/src/daemon_cmd.py: CommandExecutor.execute, publish_ack and the loop of
-- _CommandWorker. What the executor makes the device do is a list of acts. How the device answers,
-- and how the GPS command ends, is an argument; the CAMERA command is that of Uploads.
pub mod Quiet
pub mod Acks
pub mod Wipes
use harbour_find_my_device.Prelude.{
  ℕ, suc, Bool, true, false, not, Option, none, some, List, [], ◌∷◌, ◌++◌, ◌=?◌, if◌then◌else◌,
}
use harbour_find_my_device.Text.{Text, codes, upper, starts_with, is_empty}
use harbour_find_my_device.Database.{Db}
use harbour_find_my_device.Daemon.{Job, command, ack, uploads, publishes, Channel, feature_enabled}

pub data Act : Type 0 where
  rings stops_ring locks locates photographs reboots retries_uploads publishes_fix : Act
  wipes : Text → Act  -- everything below this directory
  notifies : Text → Act
  acknowledges : (cmd result : Text) (wait : Bool) → Act

-- how the device answers to one job; none where the call raises
pub record Answers : Type 0 where
  pub ring : Option Bool
  pub stop_ring : Option Bool
  pub lock : Option (Option Text)
  pub gps : Option Bool
  pub camera : Option Bool
  pub home : Text  -- `os.path.realpath` of the home directory
  pub has_client : Bool  -- there is an MQTT client
  pub online : Bool  -- what `_network_online` says

abbrev pub Ran : Type 0
Ran = Text × List Act

unfoldable pub result_of : Bool → Text
result_of true = codes "ok"
result_of false = codes "error"

unfoldable pub do_ring : Option Bool → Ran
unfolding result_of
do_ring none = (codes "error", rings ∷ [])
do_ring (some done) = (result_of done, rings ∷ notifies (codes "RING activated remotely") ∷ [])

unfoldable pub do_stop_ring : Option Bool → Ran
do_stop_ring none = (codes "error", stops_ring ∷ [])
do_stop_ring (some done) = (codes "ok", stops_ring ∷ notifies (codes "RING stopped remotely") ∷ [])

-- what `result or "failed"` is
or_failed : Option Text → Text
or_failed none = codes "failed"
or_failed (some t) = if is_empty t then codes "failed" else t

is_given : Option Text → Bool
is_given none = false
is_given (some t) = not (is_empty t)

unfoldable pub do_lock : Option (Option Text) → Ran
unfolding or_failed is_given result_of
do_lock none = (codes "error", locks ∷ [])
do_lock (some how) = (
  result_of (is_given how),
  locks ∷ notifies (codes "Device locked remotely (" ++ (or_failed how ++ codes ")")) ∷ [],
)

-- `_do_gps` and `_do_camera`, which end with an error when they raise
unfoldable pub do_other : Act → Option Bool → Ran
unfolding result_of
do_other act none = (codes "error", act ∷ [])
do_other act (some done) = (result_of done, act ∷ [])

-- `_do_delete`: the errors of the wipe and of the reboot are only logged
unfoldable pub do_delete : Text → Ran
do_delete home =
    if starts_with home (codes "/home/")
    then (codes "ok", notifies (codes "REMOTE WIPE started") ∷ wipes home ∷ reboots ∷ [])
    else (codes "error", notifies (codes "REMOTE WIPE started") ∷ [])

unfoldable pub dispatch : Text → Answers → Ran
dispatch cmd answers =
    if cmd =? codes "RING"
    then do_ring answers.ring
    else if cmd =? codes "STOP_RING"
    then do_stop_ring answers.stop_ring
    else if cmd =? codes "LOCK"
    then do_lock answers.lock
    else if cmd =? codes "GPS"
    then do_other locates answers.gps
    else if cmd =? codes "CAMERA"
    then do_other photographs answers.camera
    else if cmd =? codes "DELETE"
    then do_delete answers.home
    else (codes "error", [])

-- `execute`
unfoldable pub execute : Text → Answers → Db → Ran
unfolding dispatch
execute cmd answers db =
    if feature_enabled (upper cmd) db then dispatch (upper cmd) answers else (codes "disabled", [])

-- `publish_ack`: offline, it does not wait for the delivery
unfoldable pub publish_ack : Text → Text → Answers → List Act
publish_ack cmd result answers =
    if answers.has_client then acknowledges cmd result answers.online ∷ [] else []

-- one turn of the worker, and its turns until its queue is empty. The retry of the uploads is
-- `retry_uploads` of Uploads; what the publish of the newest fix does is not modelled.
unfoldable pub serve : Job → Answers → Db → List Act
unfolding execute publish_ack
serve (ack cmd result) answers db = publish_ack cmd result answers
serve uploads answers db = retries_uploads ∷ []
serve publishes answers db = publishes_fix ∷ []
serve (command cmd arg channel sender) answers db =
    let ran = execute cmd answers db in ran.1 ++ publish_ack cmd ran.0 answers

unfoldable pub drain : List Job → (ℕ → Answers) → ℕ → Db → List Act
drain [] answers i db = []
drain (job ∷ jobs) answers i db = serve job (answers i) db ++ drain jobs answers (suc i) db
