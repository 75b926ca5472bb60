-- ===== src/Spool/Counts.antt =====
-- How the operations on the spool change the number of requests of a name that wait.
use harbour_find_my_device.Prelude.{
  ℕ, ◌+◌, ◌≤◌, ◌≡◌, refl, Bool, not, some, List, [], ◌∷◌, ◌++◌, keep, ◌=?◌, arith, if◌then◌else◌,
  inl, inr, Bool-cases,
}
use harbour_find_my_device.Text.{Text}
use harbour_find_my_device.Spool.{
  File, json, work, tmp, Entry, Spool, Action, same_ext, is_at, remove_file, put_file, find_file,
}

abbrev pub one : Bool → ℕ
one b = if b then 1 else 0

abbrev pub acted : Text → List (Text × Action) → ℕ
acted name [] = 0
acted name ((n, a) ∷ done) = one (n =? name) + acted name done

-- the requests of a name that wait
abbrev pub waiting : Text → Spool → ℕ
waiting name [] = 0
waiting name (e ∷ spool) = one (is_at name json e) + waiting name spool

pub acted-append :
    (name n : Text) (a : Action) (done : List (Text × Action))
    → acted name (done ++ ((n, a) ∷ [])) ≡ acted name done + one (n =? name)
acted-append name n a [] = omega arith
acted-append name n a ((m, b) ∷ done) = omega (arith, acted-append name n a done)

pub waiting-append :
    (name : Text) (spool : Spool) (e : Entry)
    → waiting name (spool ++ (e ∷ [])) ≡ waiting name spool + one (is_at name json e)
waiting-append name [] e = omega arith
waiting-append name (x ∷ spool) e = omega (arith, waiting-append name spool e)

pub waiting-keep :
    (name : Text) (p : Entry → Bool) (spool : Spool)
    → waiting name (keep p spool) ≤ waiting name spool
unfolding keep
waiting-keep name p [] = omega arith
waiting-keep name p (e ∷ spool) = elim (Bool-cases (p e)) [
  | inl y ↦ rw y (omega (arith, waiting-keep name p spool))
  | inr n ↦ rw n (omega (arith, waiting-keep name p spool))
]

pub waiting-remove_file :
    (name : Text) (spool : Spool) → waiting name (remove_file name json spool) ≡ 0
unfolding remove_file keep
waiting-remove_file name [] = refl
waiting-remove_file name (e ∷ spool) = elim (Bool-cases (is_at name json e)) [
  | inl y ↦ rw y (waiting-remove_file name spool)
  | inr n ↦ simp (n, waiting-remove_file name spool)
]

pub waiting-put_work :
    (name n : Text) (f : File) (spool : Spool)
    → waiting name (put_file n work f spool) ≤ waiting name spool
unfolding put_file remove_file is_at same_ext
waiting-put_work name n f spool = ground (
  arith,
  waiting-append name (remove_file n work spool) (record { name = n; ext = work; file = f }),
  waiting-keep name (λ e. not (is_at n work e)) spool,
)

pub waiting-put_tmp :
    (name n : Text) (f : File) (spool : Spool)
    → waiting name (put_file n tmp f spool) ≤ waiting name spool
unfolding put_file remove_file is_at same_ext
waiting-put_tmp name n f spool = ground (
  arith,
  waiting-append name (remove_file n tmp spool) (record { name = n; ext = tmp; file = f }),
  waiting-keep name (λ e. not (is_at n tmp e)) spool,
)

pub waiting-put_json :
    (name n : Text) (f : File) (spool : Spool)
    → waiting name (put_file n json f spool) ≤ waiting name spool + one (n =? name)
unfolding put_file remove_file is_at same_ext
waiting-put_json name n f spool = ground (
  arith,
  waiting-append name (remove_file n json spool) (record { name = n; ext = json; file = f }),
  waiting-keep name (λ e. not (is_at n json e)) spool,
)

pub waiting-find_file :
    (name : Text) (f : File) (spool : Spool)
    → find_file name json spool ≡ some f
    → 1 ≤ waiting name spool
unfolding find_file
waiting-find_file name f [] e = cc
waiting-find_file name f (x ∷ spool) e = elim (Bool-cases (is_at name json x)) [
  | inl y ↦ rw y (omega arith)
  | inr n ↦ rw n (omega (arith, waiting-find_file name f spool (ground arith)))
]
