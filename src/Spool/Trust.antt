-- ===== src/Spool/Trust.antt =====
-- The service acts only on files that the owner of the spool made.
use harbour_find_my_device.Prelude.{
  ℕ, ◌≡◌, refl, sym, ◌∙◌, ◌⊎◌, Bool, true, Option, none, some, List, [], ◌∷◌, All, All-append, ap,
  arith, inl, inr, Bool-cases, Option-cases,
}
use harbour_find_my_device.Text.{Text}
use harbour_find_my_device.Spool.{
  File, Ext, json, work, Spool, Action, Request, Content, malformed, no_object, request, Kind,
  regular, symlink, special, is_regular, is_trusted, judge, action_of, Verdict, acts, crashes,
  process, remove_file, put_file, find_file,
}
use harbour_find_my_device.Spool.Service.{
  Turn, Run, Death, lives, before_claim, before_action, after_action, drop_stale, note, settle,
  finish, attend_if, attend, claim, claim_if, serve_one, serve_all, serve, requests, opened,
  remove_if,
}
use harbour_find_my_device.Spool.Lookups.{find-put_file}
use harbour_find_my_device.Spool.Untouched.{
  Untouched, Untouched-trans, Untouched-claim, Untouched-remove_if, find-drop_stale,
}

-- what is opened under a path that has the file `o`: the one that was put in its place, or it
abbrev pub IsShown : Turn → Option File → File → Type 0
IsShown t o f = (t.swapped ≡ some f) ⊎ ((t.swapped ≡ none) × (o ≡ some f))

regular_of : (k : Kind) → is_regular k ≡ true → k ≡ regular
unfolding is_regular
regular_of regular e = refl
regular_of symlink e = cc
regular_of special e = cc

opened-IsShown : (t : Turn) (o : Option File) (f : File) → opened t o ≡ some f → IsShown t o f
unfolding opened
opened-IsShown t none f e = cc
opened-IsShown t (some g) f e = elim (Bool-cases t.opens) [
  | inr n ↦ absurd (cc (rw n at e))
  | inl y ↦ elim (Option-cases t.swapped) [
    | inl s ↦ inr (s, (simp (y, s) at e))
    | inr (h, s) ↦ inl (s ∙ (simp (y, s) at e))
  ]
]

-- `spool` is what stands in it when the run begins
module _ (uid : ℕ) (turns : Text → Turn) (spool : Spool) where
  -- The action is the one that a request asks for which stands in the file that was opened: the file of
  -- that name in the spool, or the one that was swapped in. It is a plain file with a single name,
  -- owned by the owner of the spool.
  abbrev pub IsAsked : Text × Action → Type 0
  IsAsked (name, a) =
      (f : File) × (r : Request) × IsShown (turns name) (find_file name json spool) f
      × (f.kind ≡ regular)
      × (f.nlink ≡ 1)
      × (f.uid ≡ uid)
      × (f.content ≡ request r)
      × (action_of r ≡ some a)

  abbrev pub AllAsked : List (Text × Action) → Type 0
  AllAsked done = All IsAsked done

  IsAsked-judge :
      (name : Text) (f : File) (c : Content) (a : Action)
      → IsShown (turns name) (find_file name json spool) f
      → f.content ≡ c
      → is_trusted uid f ≡ true
      → judge c ≡ acts (some a)
      → IsAsked (name, a)
  unfolding judge is_trusted
  IsAsked-judge name f malformed a s c t e = cc
  IsAsked-judge name f no_object a s c t e = cc
  IsAsked-judge name f (request r) a s c t e =
      (f, r, s, regular_of f.kind (ground arith), ground arith, ground arith, c, ground arith)

  IsAsked-process :
      (name : Text) (o : Option File) (a : Action)
      → ((f : File) → o ≡ some f → IsShown (turns name) (find_file name json spool) f)
      → process uid o ≡ acts (some a)
      → IsAsked (name, a)
  unfolding process
  IsAsked-process name none a s e = cc
  IsAsked-process name (some f) a s e = elim (Bool-cases (is_trusted uid f)) [
    | inl y ↦ IsAsked-judge name f f.content a (s f refl) refl y (rw y at e)
    | inr n ↦ absurd (cc (rw n at e))
  ]

  -- the claimed path has the request as it was queued, or nothing
  abbrev IsClaimed : Text → Option File → Type 0
  IsClaimed name o = (o ≡ find_file name json spool) ⊎ (o ≡ none)

  claimed-IsShown :
      (name : Text) (o : Option File) (f : File)
      → IsClaimed name o
      → opened (turns name) o ≡ some f
      → IsShown (turns name) (find_file name json spool) f
  claimed-IsShown name o f c e = elim (opened-IsShown (turns name) o f e) [
    | inl s ↦ inl s
    | inr (n, s) ↦ elim c [
      | inl same ↦ inr (n, sym same ∙ s)
      | inr gone ↦ absurd (cc (sym gone ∙ s))
    ]
  ]

  -- what holds throughout a run
  abbrev IsGood : Run → Type 0
  IsGood r = Untouched spool r.spool × AllAsked r.done

  asked-note :
      (name : Text) (o : Option Action) (done : List (Text × Action))
      → ((a : Action) → o ≡ some a → IsAsked (name, a))
      → AllAsked done
      → AllAsked (note name o done)
  unfolding note
  asked-note name none done h d = d
  asked-note name (some a) done h d = All-append IsAsked done ((name, a) ∷ []) d (h a refl, tt)

  good-removed :
      (b : Bool) (name : Text) (ext : Ext) (r : Run)
      → Untouched spool r.spool
      → Untouched spool (remove_if b name ext r.spool)
  good-removed b name ext r u =
      Untouched-trans spool r.spool _ u (Untouched-remove_if b name ext r.spool)

  IsGood-settle :
      (d : Death) (t : Turn) (name : Text) (ext : Ext) (o : Option Action) (r : Run)
      → ((a : Action) → o ≡ some a → IsAsked (name, a))
      → IsGood r
      → IsGood (settle d t name ext o r)
  unfolding settle
  IsGood-settle after_action t name ext o r h (u, k) = (u, asked-note name o r.done h k)
  IsGood-settle lives t name ext o r h (u, k) =
      (good-removed t.removes name ext r u, asked-note name o r.done h k)
  IsGood-settle before_claim t name ext o r h (u, k) =
      (good-removed t.removes name ext r u, asked-note name o r.done h k)
  IsGood-settle before_action t name ext o r h (u, k) =
      (good-removed t.removes name ext r u, asked-note name o r.done h k)

  IsGood-finish :
      (t : Turn) (name : Text) (ext : Ext) (v : Verdict) (r : Run)
      → ((a : Action) → v ≡ acts (some a) → IsAsked (name, a))
      → IsGood r
      → IsGood (finish t name ext v r)
  unfolding finish
  IsGood-finish t name ext crashes r h (u, k) = (good-removed t.removes name ext r u, k)
  IsGood-finish t name ext (acts o) r h k =
      IsGood-settle t.dies t name ext o r (λ a e. h a (ap acts e)) k

  IsGood-opened :
      (name : Text) (ext : Ext) (r : Run)
      → IsClaimed name (find_file name ext r.spool)
      → IsGood r
      → IsGood (
          finish
            (turns name)
            name
            ext
            (process uid (opened (turns name) (find_file name ext r.spool)))
            r)
  IsGood-opened name ext r c k =
      IsGood-finish (turns name) name ext _ r
        (λ a e.
          IsAsked-process name (opened (turns name) (find_file name ext r.spool)) a
            (λ f s. claimed-IsShown name (find_file name ext r.spool) f c s) e)
        k

  IsGood-attend :
      (d : Death) (name : Text) (ext : Ext) (r : Run)
      → IsClaimed name (find_file name ext r.spool)
      → IsGood r
      → IsGood (attend_if d uid (turns name) name ext r)
  unfolding attend_if
  IsGood-attend before_action name ext r c k = k
  IsGood-attend lives name ext r c k = IsGood-opened name ext r c k
  IsGood-attend before_claim name ext r c k = IsGood-opened name ext r c k
  IsGood-attend after_action name ext r c k = IsGood-opened name ext r c k

  IsGood-claim :
      (name : Text) (o : Option File) (r : Run)
      → find_file name json r.spool ≡ o
      → IsGood r
      → IsGood (claim uid (turns name) name o r)
  unfolding claim attend
  IsGood-claim name none r e k = IsGood-attend (turns name).dies name json r (k.0 name) k
  IsGood-claim name (some f) r e k = elim (Bool-cases (turns name).claims) [
    | inr n ↦ simp n (IsGood-attend (turns name).dies name json r (k.0 name) k)
    | inl y ↦
        let q : Run = record r { spool = put_file name work f (remove_file name json r.spool) } in
        let there = find-put_file name work f (remove_file name json r.spool) in
        let c : IsClaimed name (find_file name work q.spool) = elim (k.0 name) [
          | inl same ↦ inl (there ∙ (sym e ∙ same))
          | inr gone ↦ absurd (cc (sym e ∙ gone))
        ] in
        simp y (
          IsGood-attend (turns name).dies name work q c
            (Untouched-trans spool r.spool q.spool k.0 (Untouched-claim name f r.spool), k.1))
  ]

  IsGood-claim_if :
      (d : Death) (name : Text) (r : Run) → IsGood r → IsGood (claim_if d uid (turns name) name r)
  unfolding claim_if
  IsGood-claim_if before_claim name r k = k
  IsGood-claim_if lives name r k = IsGood-claim name _ r refl k
  IsGood-claim_if before_action name r k = IsGood-claim name _ r refl k
  IsGood-claim_if after_action name r k = IsGood-claim name _ r refl k

  asked-serve_all :
      (names : List Text) (r : Run) → IsGood r → AllAsked (serve_all uid turns names r).done
  unfolding serve_all serve_one
  asked-serve_all [] r k = k.1
  asked-serve_all (n ∷ names) r k = elim (Bool-cases r.alive) [
    | inl y ↦
        simp y (
          asked-serve_all names (serve_one uid (turns n) n r)
            (IsGood-claim_if (turns n).dies n r k))
    | inr x ↦ simp x k.1
  ]

-- Whatever the spool holds, and whoever swaps a file between the claim and its opening: each action of
-- a run is the one that the request asks for in the file that was opened for it. That is the file of
-- its name in the spool, or the one that was swapped in, and it is a plain file with no second name,
-- owned by the owner of the spool.
pub asked-serve :
    (uid : ℕ) (removed : Text → Bool) (turns : Text → Turn) (spool : Spool)
    → AllAsked uid turns spool (serve uid removed turns (spool, [])).1
unfolding serve
asked-serve uid removed turns spool =
    asked-serve_all uid turns spool (requests (drop_stale removed spool))
      (record { spool = drop_stale removed spool; done = []; alive = true })
      ((λ n. inl (find-drop_stale removed spool n)), tt)
