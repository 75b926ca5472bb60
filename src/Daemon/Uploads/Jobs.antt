-- ===== src/Daemon/Uploads/Jobs.antt =====
-- The upload jobs in the queue of the worker.
use harbour_find_my_device.Prelude.{ℕ, ◌≡◌, Bool, true, false, List, [], ◌∷◌, arith, if◌then◌else◌}
use harbour_find_my_device.Text.{Text}
use harbour_find_my_device.Database.{Db}
use harbour_find_my_device.Daemon.Uploads.{
  Photos, park_for_retry, Upload, retry_uploads, Shot, not_captured, sent_at_once, upload_failed,
  do_camera, queue_if_due, back_online, check_uploads, Step, looks, retries, shoots, retry_job,
  step, run,
}

-- the flag says whether a job waits, and no second one does
abbrev pub IsSingle : Photos → Type 0
IsSingle p = p.jobs ≡ (if p.job_queued then 1 else 0)

IsSingle-check_uploads :
    (db : Db) (now : ℕ) (online : Bool) (p : Photos)
    → IsSingle p
    → IsSingle (check_uploads db now online p)
unfolding check_uploads queue_if_due back_online
IsSingle-check_uploads db now online p h = ground (arith, h)

IsSingle-retry_job :
    (db : Db) (now : ℕ) (answer : Text → Upload) (p : Photos)
    → IsSingle p
    → IsSingle (retry_job db now answer p.jobs p)
unfolding retry_job retry_uploads
IsSingle-retry_job db now answer p h = ground (arith, h)

IsSingle-do_camera :
    (db : Db) (now : ℕ) (t : Text) (shot : Shot) (p : Photos)
    → IsSingle p
    → IsSingle (do_camera db now t shot p).1
unfolding do_camera park_for_retry
IsSingle-do_camera db now t not_captured p h = h
IsSingle-do_camera db now t sent_at_once p h = ground (arith, h)
IsSingle-do_camera db now t (upload_failed true) p h = ground (arith, h)
IsSingle-do_camera db now t (upload_failed false) p h = ground (arith, h)

-- However the watchdog, the worker and the camera take turns, at most one upload job waits for
-- the worker, and one does just when `upload_job_queued` is set, if that is so at first.
pub run-IsSingle : (steps : List Step) (p : Photos) → IsSingle p → IsSingle (run steps p)
unfolding run step
run-IsSingle [] p h = h
run-IsSingle (looks db now online ∷ steps) p h =
    run-IsSingle steps (check_uploads db now online p) (IsSingle-check_uploads db now online p h)
run-IsSingle (retries db now answer ∷ steps) p h =
    run-IsSingle steps (retry_job db now answer p.jobs p) (IsSingle-retry_job db now answer p h)
run-IsSingle (shoots db now t shot ∷ steps) p h =
    run-IsSingle steps (do_camera db now t shot p).1 (IsSingle-do_camera db now t shot p h)
