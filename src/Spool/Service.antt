-- ===== src/Spool/Service.antt =====
-- daemon-rpm/src/priv_service.py (main): a run of the root service over the spool.
use harbour_find_my_device.Prelude.{
  ℕ, Bool, true, false, not, ◌&&◌, Option, none, some, List, [], ◌∷◌, ◌++◌, keep, if◌then◌else◌,
}
use harbour_find_my_device.Text.{Text, codes, starts_with}
use harbour_find_my_device.Text.Sort.{precedes}
use harbour_find_my_device.Spool.{
  File, Ext, json, work, Entry, Spool, Action, same_ext, remove_file, put_file, find_file, Verdict,
  acts, crashes, process,
}

-- where the process is killed, by a reboot or by systemd
pub data Death : Type 0 where
  lives before_claim before_action after_action : Death

-- What the system answers for one request. `swapped` is a file that another process puts in the place
-- of the claimed one before it is opened.
pub record Turn : Type 0 where
  pub claims : Bool
  pub opens : Bool
  pub swapped : Option File
  pub removes : Bool
  pub dies : Death

abbrev pub calm : Turn
calm = record { claims = true; opens = true; swapped = none; removes = true; dies = lives }

-- the spool, what the service has begun to do so far, and whether it goes on
pub record Run : Type 0 where
  pub spool : Spool
  pub done : List (Text × Action)
  pub alive : Bool

-- `glob` leaves out the names that begin with a dot
unfoldable pub is_hidden : Text → Bool
is_hidden name = starts_with (name ++ codes ".json") (codes ".")

unfoldable pub is_request : Entry → Bool
unfolding is_hidden same_ext
is_request e = same_ext e.ext json && not (is_hidden e.name)

unfoldable pub is_stale : Entry → Bool
unfolding is_hidden same_ext
is_stale e = same_ext e.ext work && not (is_hidden e.name)

unfoldable pub insert : Text → List Text → List Text
unfolding precedes
insert name [] = name ∷ []
insert name (n ∷ names) =
    if precedes (name ++ codes ".json") (n ++ codes ".json")
    then name ∷ n ∷ names
    else n ∷ insert name names

-- `sorted(glob.glob(…"*.json"))`
unfoldable pub requests : Spool → List Text
unfolding is_request insert
requests [] = []
requests (e ∷ spool) = if is_request e then insert e.name (requests spool) else requests spool

-- the files that the loop over "*.work" removes; `removed` says for which that works
unfoldable pub drop_stale : (Text → Bool) → Spool → Spool
unfolding is_stale
drop_stale removed spool = keep (λ e. not (is_stale e && removed e.name)) spool

unfoldable pub note : Text → Option Action → List (Text × Action) → List (Text × Action)
note name none done = done
note name (some a) done = done ++ ((name, a) ∷ [])

unfoldable pub remove_if : Bool → Text → Ext → Spool → Spool
remove_if removes name ext spool = if removes then remove_file name ext spool else spool

-- the file under the claimed path, as it is when it is opened
unfoldable pub opened : Turn → Option File → Option File
opened t none = none
opened t (some f) = if t.opens then (elim t.swapped [ none ↦ some f | some g ↦ some g ]) else none

-- a killed process removes nothing
unfoldable pub settle : Death → Turn → Text → Ext → Option Action → Run → Run
unfolding note remove_if
settle after_action t name ext a r = record r { done = note name a r.done; alive = false }
settle _ t name ext a r = record r {
  done = note name a r.done;
  spool = remove_if t.removes name ext r.spool;
}

-- after `_process`: the claimed file is removed, also while an exception passes
unfoldable pub finish : Turn → Text → Ext → Verdict → Run → Run
unfolding settle
finish t name ext crashes r = record r {
  spool = remove_if t.removes name ext r.spool;
  alive = false;
}
finish t name ext (acts a) r = settle t.dies t name ext a r

unfoldable pub attend_if : Death → ℕ → Turn → Text → Ext → Run → Run
unfolding opened finish
attend_if before_action uid t name ext r = record r { alive = false }
attend_if _ uid t name ext r =
    finish t name ext (process uid (opened t (find_file name ext r.spool))) r

unfoldable pub attend : ℕ → Turn → Text → Ext → Run → Run
unfolding attend_if
attend uid t name ext r = attend_if t.dies uid t name ext r

-- The claim: the request gets the extension ".work", unless the rename fails.
unfoldable pub claim : ℕ → Turn → Text → Option File → Run → Run
unfolding attend
claim uid t name none r = attend uid t name json r
claim uid t name (some f) r =
    if t.claims
    then attend uid t name work
        (record r { spool = put_file name work f (remove_file name json r.spool) })
    else attend uid t name json r

unfoldable pub claim_if : Death → ℕ → Turn → Text → Run → Run
unfolding claim
claim_if before_claim uid t name r = record r { alive = false }
claim_if _ uid t name r = claim uid t name (find_file name json r.spool) r

-- a round of the loop over the requests
unfoldable pub serve_one : ℕ → Turn → Text → Run → Run
unfolding claim_if
serve_one uid t name r = claim_if t.dies uid t name r

unfoldable pub serve_all : ℕ → (Text → Turn) → List Text → Run → Run
unfolding serve_one
serve_all uid turns [] r = r
serve_all uid turns (name ∷ names) r =
    let rest = serve_all uid turns names (serve_one uid (turns name) name r) in
    if r.alive then rest else r

-- `main`, where the directory is there
unfoldable pub serve :
    ℕ → (Text → Bool) → (Text → Turn) → Spool × List (Text × Action) → Spool × List (Text × Action)
unfolding drop_stale requests serve_all
serve uid removed turns s =
    let left = drop_stale removed s.0 in
    let r =
      serve_all uid turns (requests left) (record { spool = left; done = s.1; alive = true }) in
    (r.spool, r.done)
