-- ===== src/Spool/Done.antt =====
-- A request that a daemon queues is what the service does.
use harbour_find_my_device.Prelude.{
  ℕ, ◌≡◌, refl, Bool, true, false, not, ◌&&◌, Option, none, some, List, [], ◌∷◌, ◌++◌, keep,
  =?_refl, arith, inl, inr, Bool-cases,
}
use harbour_find_my_device.Text.{Text}
use harbour_find_my_device.Spool.{
  File, Ext, json, work, Entry, Spool, Action, request, Written, plain_file, queue, request_for,
  judge, is_trusted, is_regular, same_ext, is_at, remove_file, put_file, find_file, acts, process,
}
use harbour_find_my_device.Spool.Service.{
  calm, Run, lives, is_hidden, is_request, is_stale, drop_stale, note, remove_if, opened, settle,
  finish, attend_if, attend, claim, claim_if, serve_one, serve_all, serve, requests,
}
use harbour_find_my_device.Spool.Lookups.{
  HasRecipient, action-request_for, find-append, find-remove_file, find-keep, self_at,
  find-put_file, requests-keep, requests-append, keep-append,
}

module _ (uid : ℕ) (name : Text) (a : Action) (h : HasRecipient a) where
  abbrev file_for : File
  file_for = plain_file uid (request (request_for a))

  verdict_for : (o : Option File) → o ≡ some file_for → process uid (opened calm o) ≡ acts (some a)
  unfolding process opened judge is_trusted is_regular
  verdict_for o e = rw e (ground (arith, action-request_for a h))

  attended :
      (r : Run)
      → find_file name work r.spool ≡ some file_for
      → attend_if lives uid calm name work r
        ≡ record r { done = r.done ++ ((name, a) ∷ []); spool = remove_file name work r.spool }
  unfolding attend_if finish settle note remove_if
  attended r e = rw (verdict_for (find_file name work r.spool) e)

  -- a round of the loop for the request, with nothing in its way
  served :
      (r : Run)
      → find_file name json r.spool ≡ some file_for
      → serve_one uid calm name r ≡ record r {
        done = r.done ++ ((name, a) ∷ []);
        spool = remove_file name work (put_file name work file_for (remove_file name json r.spool));
      }
  unfolding serve_one claim_if claim attend
  served r e = rw e (
      attended (record r { spool = put_file name work file_for (remove_file name json r.spool) })
        (find-put_file name work file_for (remove_file name json r.spool)))

  -- the spool in which the service starts its work
  abbrev entry_for : Entry
  entry_for = record { name = name; ext = json; file = file_for }

  abbrev rest_of : (Text → Bool) → Spool → Spool
  rest_of removed spool =
      keep (λ (e : Entry). not (is_stale e && removed e.name)) (remove_file name json spool)

  started :
      (removed : Text → Bool) (spool : Spool)
      → drop_stale removed (put_file name json file_for spool)
        ≡ rest_of removed spool ++ (entry_for ∷ [])
  unfolding drop_stale put_file is_stale same_ext
  started removed spool =
      keep-append (λ (e : Entry). not (is_stale e && removed e.name)) (remove_file name json spool)
        entry_for refl

  found :
      (removed : Text → Bool) (spool : Spool)
      → find_file name json (rest_of removed spool ++ (entry_for ∷ [])) ≡ some file_for
  found removed spool =
      find-append name json (rest_of removed spool) entry_for
        (find-keep name json _ (remove_file name json spool) (find-remove_file name json spool))
        (self_at name json file_for)

  listed :
      (removed : Text → Bool) (spool : Spool)
      → requests spool ≡ []
      → is_hidden name ≡ false
      → requests (rest_of removed spool ++ (entry_for ∷ [])) ≡ name ∷ []
  unfolding remove_file is_request same_ext
  listed removed spool empty shown =
      requests-append (rest_of removed spool) entry_for
        (requests-keep _ (remove_file name json spool) (requests-keep _ spool empty)) (rw shown)

  abbrev after : (Text → Bool) → Spool → Spool
  after removed spool = remove_file name work (
      put_file name work file_for
        (remove_file name json (rest_of removed spool ++ (entry_for ∷ []))))

  serve-put_file :
      (removed : Text → Bool) (spool : Spool) (done : List (Text × Action))
      → requests spool ≡ []
      → is_hidden name ≡ false
      → serve uid removed (λ _. calm) (put_file name json file_for spool, done)
        ≡ (after removed spool, done ++ ((name, a) ∷ []))
  unfolding serve serve_all
  serve-put_file removed spool done empty shown = rw (started removed spool) (
      rw (listed removed spool empty shown) (
        rw (
          served
            (record {
              spool = rest_of removed spool ++ (entry_for ∷ []);
              done = done;
              alive = true;
            })
            (found removed spool))))

find-append_other :
    (n : Text) (x : Ext) (s : Spool) (e : Entry)
    → find_file n x s ≡ none
    → is_at n x e ≡ false
    → find_file n x (s ++ (e ∷ [])) ≡ none
unfolding find_file
find-append_other n x [] e f y = rw y
find-append_other n x (d ∷ s) e f y = elim (Bool-cases (is_at n x d)) [
  | inl z ↦ absurd (cc (rw z at f))
  | inr z ↦ simp z (find-append_other n x s e (rw z at f) y)
]

other_ext : (n : Text) (f : File) → is_at n json (record { name = n; ext = work; file = f }) ≡ false
unfolding is_at same_ext
other_ext n f = rw (=?_refl n)

-- A request that a daemon has queued, in a spool where no other waits, is carried out: when the service
-- then runs undisturbed, it does exactly the action that was asked for, once, and the request is
-- neither there to be started again nor in progress. The conditions: the file is written under a
-- name that does not begin with a dot, by the owner of the spool, and an SMS has a recipient.
pub serve-queue :
    (uid : ℕ) (w : Written) (a : Action) (removed : Text → Bool) (spool : Spool)
    (done : List (Text × Action))
    → w.uid ≡ uid
    → w.creates ≡ true
    → w.writes ≡ true
    → w.renames ≡ true
    → is_hidden w.name ≡ false
    → HasRecipient a
    → requests spool ≡ []
    → let q = queue w (request_for a) spool in
      let s = serve uid removed (λ _. calm) (q.1, done) in
      (q.0 ≡ true)
      × (s.1 ≡ done ++ ((w.name, a) ∷ []))
      × (find_file w.name json s.0 ≡ none)
      × (find_file w.name work s.0 ≡ none)
unfolding queue remove_file put_file
serve-queue uid w a removed spool done u c r n shown h empty =
    let run = serve-put_file uid w.name a h removed spool done empty shown in
    let f : File = plain_file uid (request (request_for a)) in
    let left =
      remove_file w.name json
        (rest_of uid w.name a h removed spool ++ (entry_for uid w.name a h ∷ [])) in
    simp (u, c, r, n)
      (
        refl,
        rw run,
        rw run (
            find-keep w.name json _ (put_file w.name work f left) (
              unfold put_file in
              find-append_other w.name json (remove_file w.name work left)
                (record { name = w.name; ext = work; file = f })
                (find-keep w.name json _ left (find-remove_file w.name json _))
                (other_ext w.name f))),
        rw run (find-remove_file w.name work (put_file w.name work f left)),
      )
