-- ===== src/Spool.antt =====
-- daemon-rpm/src/priv_client.py and priv_service.py: the spool directory by which the daemons ask the
-- root service for a reboot, an SMS or the location switch. `name`, the id of a request, is the file's
-- name without its extension. The fields of a request are texts, or None for a missing one.
pub mod Counts
pub mod Once
pub mod Untouched
pub mod Trust
pub mod Lookups
pub mod Done
pub mod Service
use harbour_find_my_device.Prelude.{
  ℕ, Bool, true, false, not, ◌&&◌, ◌||◌, Option, none, some, List, [], ◌∷◌, ◌++◌, keep, ◌==◌, ◌=?◌,
  if◌then◌else◌,
}
use harbour_find_my_device.Text.{Text, codes, is_empty, lower}

-- what `json.load` gives: an error, an object, or a value on which `req.get("cmd")` or `.lower()` raises
pub record Request : Type 0 where
  pub cmd : Option Text
  pub to : Option Text
  pub body : Option Text
  pub enable : Bool

pub data Content : Type 0 where
  malformed : Content
  no_object : Content
  request : Request → Content

pub data Kind : Type 0 where
  regular symlink special : Kind

pub record File : Type 0 where
  pub kind : Kind
  pub nlink : ℕ
  pub uid : ℕ
  pub content : Content

pub data Ext : Type 0 where
  json work tmp : Ext

pub record Entry : Type 0 where
  pub name : Text
  pub ext : Ext
  pub file : File

abbrev pub Spool : Type 0
Spool = List Entry

-- what the service can do as root
pub data Action : Type 0 where
  reboot : Action
  send_sms : (to body : Text) → Action
  set_location : (enable : Bool) → Action

unfoldable pub same_ext : Ext → Ext → Bool
same_ext json json = true
same_ext work work = true
same_ext tmp tmp = true
same_ext a b = false

-- the entry is the file `name` with the extension
unfoldable pub is_at : Text → Ext → Entry → Bool
unfolding same_ext
is_at name ext e = (e.name =? name) && same_ext e.ext ext

unfoldable pub remove_file : Text → Ext → Spool → Spool
unfolding is_at
remove_file name ext spool = keep (λ e. not (is_at name ext e)) spool

-- `os.rename` to a name, which replaces what has that name
unfoldable pub put_file : Text → Ext → File → Spool → Spool
unfolding remove_file
put_file name ext file spool =
    remove_file name ext spool ++ (record { name = name; ext = ext; file = file } ∷ [])

unfoldable pub find_file : Text → Ext → Spool → Option File
unfolding is_at
find_file name ext [] = none
find_file name ext (e ∷ spool) = if is_at name ext e then some e.file else find_file name ext spool

-- `body or ""`
unfoldable pub or_blank : Option Text → Text
or_blank none = []
or_blank (some s) = s

-- `_do_sendsms`: without a recipient, nothing is sent
unfoldable pub sms_of : Option Text → Text → Option Action
sms_of none body = none
sms_of (some to) body = if is_empty to then none else some (send_sms to body)

-- what `_process` does for a request
unfoldable pub action_of : Request → Option Action
unfolding sms_of or_blank
action_of r =
    let cmd = lower (or_blank r.cmd) in
    if cmd =? codes "reboot"
    then some reboot
    else if cmd =? codes "sendsms"
    then sms_of r.to (or_blank r.body)
    else if cmd =? codes "location"
    then some (set_location r.enable)
    else none

-- the checks by `fstat` on the opened file; a symbolic link cannot be opened
unfoldable pub is_regular : Kind → Bool
is_regular regular = true
is_regular symlink = false
is_regular special = false

unfoldable pub is_trusted : ℕ → File → Bool
unfolding is_regular
is_trusted spool_uid f = is_regular f.kind && f.nlink == 1 && f.uid == spool_uid

-- how `_process` ends: with at most one action, or with an exception that nobody catches
pub data Verdict : Type 0 where
  acts : Option Action → Verdict
  crashes : Verdict

unfoldable pub judge : Content → Verdict
unfolding action_of
judge malformed = acts none
judge no_object = crashes
judge (request r) = acts (action_of r)

-- `_process`; `none` is that the path cannot be opened
unfoldable pub process : ℕ → Option File → Verdict
unfolding is_trusted judge
process spool_uid none = acts none
process spool_uid (some f) = if is_trusted spool_uid f then judge f.content else acts none

-- `queue` of priv_client.py: whether mkstemp, the write, the rename, and the removal after a failure
-- succeed; `name` is the name that mkstemp draws
pub record Written : Type 0 where
  pub name : Text
  pub uid : ℕ
  pub creates : Bool
  pub writes : Bool
  pub renames : Bool
  pub cleans : Bool

abbrev pub plain_file : ℕ → Content → File
plain_file uid content = record { kind = regular; nlink = 1; uid = uid; content = content }

-- the temporary file that stays if it cannot be removed
unfoldable pub leave : Written → Spool → Spool
unfolding remove_file put_file
leave w spool = if w.cleans then spool else put_file w.name tmp (plain_file w.uid malformed) spool

unfoldable pub queue : Written → Request → Spool → Bool × Spool
unfolding leave put_file
queue w r spool =
    if not w.creates
    then (false, spool)
    else if w.writes && w.renames
    then (true, put_file w.name json (plain_file w.uid (request r)) spool)
    else (false, leave w spool)

-- the requests of `send_sms`, `reboot` and `set_location`
unfoldable pub request_for : Action → Request
request_for reboot = record { cmd = some (codes "reboot"); to = none; body = none; enable = false }
request_for (send_sms to body) = record {
  cmd = some (codes "sendsms");
  to = some to;
  body = some body;
  enable = false;
}
request_for (set_location enable) = record {
  cmd = some (codes "location");
  to = none;
  body = none;
  enable = enable;
}
