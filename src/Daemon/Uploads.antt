-- ===== src/Daemon/Uploads.antt =====
-- daemon-rpm/src/daemon_cmd.py: the photos that wait for their upload. A directory is the list of its
-- names; what the camera, the WebDAV server and the file system answer is an argument. The session of
-- mobile data around an upload is that of MobileData.
pub mod Kept
pub mod Jobs
use harbour_find_my_device.Prelude.{
  ℕ, ◌+◌, ◌-◌, ◌==◌, Bool, true, false, not, ◌&&◌, ◌||◌, Option, none, some, List, [], ◌∷◌, ◌++◌,
  any, keep, ltb, leb, ◌=?◌, if◌then◌else◌,
}
use harbour_find_my_device.Text.{Text, codes, ends_with, is_empty}
use harbour_find_my_device.Database.{Db}
use harbour_find_my_device.Settings.{get, get_bool}
use harbour_find_my_device.Settings.Defaults.{webdav_url, webdav_username, auto_enable_mobile_data}

pub record Photos : Type 0 where
  pub pending : List Text  -- photos/pending/
  pub stored : List Text  -- photos/
  pub uploaded : List Text  -- the names that the server has taken
  pub retry_at : ℕ  -- `upload_retry_at`
  pub job_queued : Bool  -- `upload_job_queued`
  pub jobs : ℕ  -- upload jobs in the queue of the worker
  pub offline : Bool  -- `state["upload_offline"]`

unfoldable pub upload_retry_s : ℕ
upload_retry_s = 300

unfoldable pub has : Text → List Text → Bool
has name names = any (λ t. t =? name) names

-- `os.rename` into a directory, which replaces a file of that name
unfoldable pub add_name : Text → List Text → List Text
unfolding has
add_name name names = if has name names then names else name ∷ names

unfoldable pub drop_name : Text → List Text → List Text
drop_name name names = keep (λ t. not (t =? name)) names

text_leb : Text → Text → Bool
text_leb [] t = true
text_leb (c ∷ s) [] = false
text_leb (c ∷ s) (d ∷ t) = ltb c d || (c == d) && text_leb s t

insert_sorted : Text → List Text → List Text
unfolding text_leb
insert_sorted name [] = name ∷ []
insert_sorted name (t ∷ names) =
    let rest = insert_sorted name names in if text_leb name t then name ∷ t ∷ names else t ∷ rest

-- `sorted`
unfoldable pub sort : List Text → List Text
unfolding insert_sorted
sort [] = []
sort (t ∷ names) = insert_sorted t (sort names)

unfoldable pub is_jpg : Text → Bool
is_jpg name = ends_with name (codes ".jpg")

-- `pending_uploads`
unfoldable pub pending_uploads : Photos → List Text
unfolding is_jpg
pending_uploads p = sort (keep is_jpg p.pending)

-- `_park_for_retry`; `moved` is whether the directory could be made and the file renamed
unfoldable pub park_for_retry : Bool → ℕ → Text → Photos → Bool × Photos
unfolding upload_retry_s
park_for_retry false now name p = (false, p)
park_for_retry true now name p = (
  true,
  record p {
    pending = add_name name p.pending;
    stored = drop_name name p.stored;
    retry_at = now + upload_retry_s;
  },
)

-- What becomes of one pending photo: the server refuses it, or takes it, and then the file is
-- moved out of pending, or is removed, or can be neither moved nor removed.
pub data Upload : Type 0 where
  refused moved removed stuck : Upload

unfoldable pub taken : Text → Upload → Photos → Photos
taken name moved p = record p {
  pending = drop_name name p.pending;
  stored = add_name name p.stored;
  uploaded = name ∷ p.uploaded;
}
taken name removed p = record p { pending = drop_name name p.pending; uploaded = name ∷ p.uploaded }
taken name stuck p = record p { uploaded = name ∷ p.uploaded }
taken name refused p = p

unfoldable pub is_refused : Upload → Bool
is_refused refused = true
is_refused _ = false

-- `_upload_pending`, which stops at the first failure
unfoldable pub upload_pending : ℕ → (Text → Upload) → List Text → Photos → Photos
unfolding upload_retry_s
upload_pending now answer [] p = p
upload_pending now answer (name ∷ files) p =
    let rest = upload_pending now answer files (taken name (answer name) p) in
    if is_refused (answer name) then record p { retry_at = now + upload_retry_s } else rest

is_set : Option Text → Bool
is_set none = false
is_set (some t) = not (is_empty t)

-- `url and user`
unfoldable pub is_configured : Db → Bool
unfolding is_set
is_configured db = is_set (get webdav_url db) && is_set (get webdav_username db)

unfoldable pub retry_files : Db → ℕ → (Text → Upload) → List Text → Photos → Photos
unfolding upload_retry_s
retry_files db now answer [] p = p
retry_files db now answer (name ∷ files) p =
    if is_configured db
    then upload_pending now answer (name ∷ files) p
    else record p { retry_at = now + upload_retry_s }

-- `retry_uploads`, the job of the worker
unfoldable pub retry_uploads : Db → ℕ → (Text → Upload) → Photos → Photos
unfolding retry_files
retry_uploads db now answer p = record (retry_files db now answer (pending_uploads p) p) {
  job_queued = false;
}

-- What becomes of a photo that is asked for: the capture fails, the photo is uploaded, or it is not,
-- and can be moved to pending or not.
pub data Shot : Type 0 where
  not_captured sent_at_once : Shot
  upload_failed : Bool → Shot

-- `_do_camera` of a file name, without its notices
unfoldable pub do_camera : Db → ℕ → Text → Shot → Photos → Bool × Photos
do_camera db now name not_captured p = (false, p)
do_camera db now name sent_at_once p =
    if is_configured db
    then (true, record p { stored = add_name name p.stored; uploaded = name ∷ p.uploaded })
    else (false, p)
do_camera db now name (upload_failed parked) p =
    if is_configured db
    then (false, (park_for_retry parked now name (record p { stored = add_name name p.stored })).1)
    else (false, p)

unfoldable pub is_nil : List Text → Bool
is_nil [] = true
is_nil (t ∷ names) = false

unfoldable pub queue_if_due : ℕ → Photos → Photos
queue_if_due now p =
    if ltb now p.retry_at then p else record p { job_queued = true; jobs = p.jobs + 1 }

-- what the network being back changes
unfoldable pub back_online : Photos → Photos
back_online p = if p.offline then record p { offline = false; retry_at = 0 } else p

-- `check_uploads`; `online` is what `_network_online` says
unfoldable pub check_uploads : Db → ℕ → Bool → Photos → Photos
unfolding is_nil queue_if_due back_online
check_uploads db now online p =
    if p.job_queued || is_nil (pending_uploads p)
    then p
    else if online
    then queue_if_due now (back_online p)
    else if get_bool auto_enable_mobile_data db
    then queue_if_due now (record p { offline = true })
    else record p { offline = true }

-- a step of the daemon: the watchdog looks, the worker takes an upload job, the camera is used
pub data Step : Type 0 where
  looks : Db → ℕ → Bool → Step
  retries : Db → ℕ → (Text → Upload) → Step
  shoots : Db → ℕ → Text → Shot → Step

-- the worker has an upload job to take
unfoldable pub retry_job : Db → ℕ → (Text → Upload) → ℕ → Photos → Photos
retry_job db now answer waiting p =
    if waiting == 0 then p else record (retry_uploads db now answer p) { jobs = waiting - 1 }

unfoldable pub step : Step → Photos → Photos
unfolding retry_job
step (looks db now online) p = check_uploads db now online p
step (retries db now answer) p = retry_job db now answer p.jobs p
step (shoots db now name shot) p = (do_camera db now name shot p).1

unfoldable pub run : List Step → Photos → Photos
run [] p = p
run (s ∷ steps) p = run steps (step s p)
