-- ===== src/Spool/Once.antt =====
-- A request is acted on once at most, also when runs of the service are killed.
use harbour_find_my_device.Prelude.{
  ℕ, ◌+◌, ◌≤◌, ◌≡◌, refl, Bool, true, false, not, ◌&&◌, Option, none, some, List, [], ◌∷◌, ◌=?◌,
  =?_iff, ap, arith, inl, inr, Bool-cases,
}
use harbour_find_my_device.Text.{Text}
use harbour_find_my_device.Spool.{
  File, Ext, json, work, Spool, Action, Request, Written, is_at, remove_file, put_file, find_file,
  Verdict, acts, crashes, process, queue, leave,
}
use harbour_find_my_device.Spool.Service.{
  Turn, Run, Death, settle, attend_if, claim_if, lives, before_claim, before_action, after_action,
  is_stale, drop_stale, note, remove_if, opened, finish, attend, claim, serve_one, serve_all, serve,
  requests,
}
use harbour_find_my_device.Spool.Counts.{
  one, acted, waiting, acted-append, waiting-keep, waiting-remove_file, waiting-put_work,
  waiting-put_tmp, waiting-put_json, waiting-find_file,
}

-- the actions for a name, and the requests that may still lead to one
abbrev way : Text → Run → ℕ
way name r = acted name r.done + waiting name r.spool

acted-note :
    (name n : Text) (a : Option Action) (done : List (Text × Action))
    → acted name (note n a done) ≤ acted name done + one (n =? name)
unfolding note
acted-note name n none done = omega arith
acted-note name n (some a) done = omega (arith, acted-append name n a done)

waiting-remove_if :
    (name n : Text) (b : Bool) (ext : Ext) (spool : Spool)
    → waiting name (remove_if b n ext spool) ≤ waiting name spool
unfolding remove_if remove_file
waiting-remove_if name n true ext spool = waiting-keep name _ spool
waiting-remove_if name n false ext spool = omega arith

way-settle :
    (name n : Text) (d : Death) (t : Turn) (ext : Ext) (a : Option Action) (r : Run)
    → way name (settle d t n ext a r) ≤ acted name (note n a r.done) + waiting name r.spool
unfolding settle
way-settle name n after_action t ext a r = omega arith
way-settle name n lives t ext a r = omega (arith, waiting-remove_if name n t.removes ext r.spool)
way-settle name n before_claim t ext a r =
    omega (arith, waiting-remove_if name n t.removes ext r.spool)
way-settle name n before_action t ext a r =
    omega (arith, waiting-remove_if name n t.removes ext r.spool)

way-finish :
    (name n : Text) (t : Turn) (ext : Ext) (v : Verdict) (r : Run)
    → way name (finish t n ext v r) ≤ way name r + one (n =? name)
unfolding finish
way-finish name n t ext crashes r = omega (arith, waiting-remove_if name n t.removes ext r.spool)
way-finish name n t ext (acts a) r =
    omega (arith, way-settle name n t.dies t ext a r, acted-note name n a r.done)

way-attend :
    (name n : Text) (d : Death) (uid : ℕ) (t : Turn) (ext : Ext) (r : Run)
    → way name (attend_if d uid t n ext r) ≤ way name r + one (n =? name)
unfolding attend_if
way-attend name n before_action uid t ext r = omega arith
way-attend name n lives uid t ext r = way-finish name n t ext _ r
way-attend name n before_claim uid t ext r = way-finish name n t ext _ r
way-attend name n after_action uid t ext r = way-finish name n t ext _ r

-- a path that is not there leads to no action
way-finish_silent :
    (name n : Text) (uid : ℕ) (t : Turn) (ext : Ext) (r : Run)
    → find_file n ext r.spool ≡ none
    → way name (finish t n ext (process uid (opened t (find_file n ext r.spool))) r) ≤ way name r
unfolding finish opened process note
way-finish_silent name n uid t ext r e = rw e (way-settle name n t.dies t ext none r)

way-attend_none :
    (name n : Text) (d : Death) (uid : ℕ) (t : Turn) (ext : Ext) (r : Run)
    → find_file n ext r.spool ≡ none
    → way name (attend_if d uid t n ext r) ≤ way name r
unfolding attend_if
way-attend_none name n before_action uid t ext r e = omega arith
way-attend_none name n lives uid t ext r e = way-finish_silent name n uid t ext r e
way-attend_none name n before_claim uid t ext r e = way-finish_silent name n uid t ext r e
way-attend_none name n after_action uid t ext r e = way-finish_silent name n uid t ext r e

way-claim :
    (name n : Text) (uid : ℕ) (t : Turn) (o : Option File) (r : Run)
    → t.claims ≡ true
    → find_file n json r.spool ≡ o
    → way name (claim uid t n o r) ≤ way name r
unfolding claim attend remove_file
way-claim name n uid t none r c e = way-attend_none name n t.dies uid t json r e
way-claim name n uid t (some f) r c e =
    let spool = remove_file n json r.spool in
    let claimed = record r { spool = put_file n work f spool } in
    simp c (elim (Bool-cases (n =? name)) [
      | inl same ↦
          let at = (=?_iff n name).0 same in
          omega (
            arith,
            way-attend name n t.dies uid t work claimed,
            waiting-put_work name n f spool,
            waiting-remove_file n r.spool,
            ap (λ m. waiting m spool) at,
            waiting-find_file n f r.spool e,
            ap (λ m. waiting m r.spool) at,
            ap one same,
          )
      | inr other ↦ omega (
        arith,
        way-attend name n t.dies uid t work claimed,
        waiting-put_work name n f spool,
        waiting-keep name (λ x. not (is_at n json x)) r.spool,
        ap one other,
      )
    ])

way-claim_if :
    (name n : Text) (d : Death) (uid : ℕ) (t : Turn) (r : Run)
    → t.claims ≡ true
    → way name (claim_if d uid t n r) ≤ way name r
unfolding claim_if
way-claim_if name n before_claim uid t r c = omega arith
way-claim_if name n lives uid t r c = way-claim name n uid t _ r c refl
way-claim_if name n before_action uid t r c = way-claim name n uid t _ r c refl
way-claim_if name n after_action uid t r c = way-claim name n uid t _ r c refl

way-serve_all :
    (name : Text) (uid : ℕ) (turns : Text → Turn) (names : List Text) (r : Run)
    → ((n : Text) → (turns n).claims ≡ true)
    → way name (serve_all uid turns names r) ≤ way name r
unfolding serve_all serve_one
way-serve_all name uid turns [] r c = omega arith
way-serve_all name uid turns (n ∷ names) r c = elim (Bool-cases r.alive) [
  | inl y ↦ simp y (
      omega (
        arith,
        way-claim_if name n (turns n).dies uid (turns n) r (c n),
        way-serve_all name uid turns names (serve_one uid (turns n) n r) c,
      ))
  | inr x ↦ simp x (omega arith)
]

-- what happens to the spool: a daemon queues a request, or the service runs
pub data Event : Type 0 where
  queues : Written → Request → Event
  runs : (removed : Text → Bool) (turns : Text → Turn) → Event

unfoldable pub step : ℕ → Event → Spool × List (Text × Action) → Spool × List (Text × Action)
step uid (queues w request) s = ((queue w request s.0).1, s.1)
step uid (runs removed turns) s = serve uid removed turns s

unfoldable pub history :
    ℕ → List Event → Spool × List (Text × Action) → Spool × List (Text × Action)
history uid [] s = s
history uid (e ∷ es) s = history uid es (step uid e s)

-- no rename of a request that is there fails
abbrev pub Claims : List Event → Type 0
Claims [] = Unit
Claims (queues w request ∷ es) = Claims es
Claims (runs removed turns ∷ es) = ((n : Text) → (turns n).claims ≡ true) × Claims es

abbrev pub queued : Text → List Event → ℕ
queued name [] = 0
queued name (queues w request ∷ es) = one (w.name =? name) + queued name es
queued name (runs removed turns ∷ es) = queued name es

waiting-queue :
    (name : Text) (w : Written) (request : Request) (spool : Spool)
    → waiting name (queue w request spool).1 ≤ waiting name spool + one (w.name =? name)
unfolding queue leave
waiting-queue name w request spool = elim (Bool-cases w.creates) [
  | inl y ↦ elim (Bool-cases (w.writes && w.renames)) [
    | inl z ↦ simp (y, z) (waiting-put_json name w.name _ spool)
    | inr z ↦ elim (Bool-cases w.cleans) [
      | inl u ↦ simp (y, z, u) (omega arith)
      | inr u ↦ simp (y, z, u) (omega (arith, waiting-put_tmp name w.name _ spool))
    ]
  ]
  | inr n ↦ simp n (omega arith)
]

acted-serve :
    (name : Text) (uid : ℕ) (removed : Text → Bool) (turns : Text → Turn)
    (s : Spool × List (Text × Action))
    → ((n : Text) → (turns n).claims ≡ true)
    → acted name (serve uid removed turns s).1 + waiting name (serve uid removed turns s).0
      ≤ acted name s.1 + waiting name s.0
unfolding serve drop_stale
acted-serve name uid removed turns s c =
    let left = drop_stale removed s.0 in
    omega (
      arith,
      way-serve_all name uid turns (requests left)
          (record { spool = left; done = s.1; alive = true }) c,
      waiting-keep name (λ e. not (is_stale e && removed e.name)) s.0,
    )

-- However often the service runs and is killed, and whatever it is killed in: the actions for a
-- request, and the requests of that name that wait, are no more than those at first and the requests
-- of that name that were queued since. The condition: no rename of a request fails.
pub acted-history :
    (name : Text) (uid : ℕ) (es : List Event) (s : Spool × List (Text × Action))
    → Claims es
    → acted name (history uid es s).1 + waiting name (history uid es s).0
      ≤ acted name s.1 + waiting name s.0 + queued name es
unfolding history step
acted-history name uid [] s c = omega arith
acted-history name uid (queues w request ∷ es) s c = omega (
  arith,
  waiting-queue name w request s.0,
  acted-history name uid es ((queue w request s.0).1, s.1) c,
)
acted-history name uid (runs removed turns ∷ es) s c = omega (
  arith,
  acted-serve name uid removed turns s c.0,
  acted-history name uid es (serve uid removed turns s) c.1,
)
