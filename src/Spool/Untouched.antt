-- ===== src/Spool/Untouched.antt =====
-- A request stands in the spool as it was queued until it is gone: the service never changes it.
use harbour_find_my_device.Prelude.{
  ◌≡◌, refl, sym, ◌∙◌, ◌⊎◌, Bool, true, false, not, ◌&&◌, none, [], ◌∷◌, ◌++◌, keep, ◌=?◌, =?_iff,
  arith, inl, inr, Bool-cases,
}
use mathlib.Core.Path.{subst}
use harbour_find_my_device.Text.{Text}
use harbour_find_my_device.Spool.{
  File, Ext, json, work, tmp, Entry, Spool, same_ext, is_at, remove_file, put_file, find_file,
}
use harbour_find_my_device.Spool.Service.{is_stale, drop_stale, remove_if}
use harbour_find_my_device.Spool.Lookups.{find-remove_file}

find-keep_same :
    (n : Text) (x : Ext) (p : Entry → Bool) (s : Spool)
    → ((e : Entry) → is_at n x e ≡ true → p e ≡ true)
    → find_file n x (keep p s) ≡ find_file n x s
unfolding find_file keep
find-keep_same n x p [] h = refl
find-keep_same n x p (e ∷ s) h = elim (Bool-cases (is_at n x e)) [
  | inl y ↦ simp (h e y, y) refl
  | inr z ↦ elim (Bool-cases (p e)) [
    | inl k ↦ simp (k, z) (find-keep_same n x p s h)
    | inr d ↦ simp (d, z) (find-keep_same n x p s h)
  ]
]

find-append_other :
    (n : Text) (x : Ext) (s : Spool) (e : Entry)
    → is_at n x e ≡ false
    → find_file n x (s ++ (e ∷ [])) ≡ find_file n x s
unfolding find_file
find-append_other n x [] e z = rw z refl
find-append_other n x (d ∷ s) e z = elim (Bool-cases (is_at n x d)) [
  | inl y ↦ simp y refl
  | inr k ↦ simp k (find-append_other n x s e z)
]

-- a request has not the extension of another file
other-ext : (a x : Ext) → same_ext a json ≡ true → same_ext json x ≡ false → same_ext a x ≡ false
unfolding same_ext
other-ext json x j o = o
other-ext work x j o = cc
other-ext tmp x j o = cc

request-not_at :
    (n m : Text) (x : Ext) (e : Entry)
    → same_ext json x ≡ false
    → is_at n json e ≡ true
    → is_at m x e ≡ false
unfolding is_at
request-not_at n m x e o y =
    let j : same_ext e.ext json ≡ true = ground arith in
    let z = other-ext e.ext x j o in rw z (ground arith)

request-not_named :
    (n m : Text) (x : Ext) (e : Entry)
    → (m =? n) ≡ false
    → is_at n json e ≡ true
    → is_at m x e ≡ false
unfolding is_at
request-not_named n m x e o y = ground (arith, =?_iff e.name n, =?_iff e.name m, =?_iff m n)

-- as it was, or gone
abbrev pub Stands : Text → Spool → Spool → Type 0
Stands n before after =
    (find_file n json after ≡ find_file n json before) ⊎ (find_file n json after ≡ none)

abbrev pub Untouched : Spool → Spool → Type 0
Untouched before after = (n : Text) → Stands n before after

find-remove_other :
    (n m : Text) (x : Ext) (s : Spool)
    → ((e : Entry) → is_at n json e ≡ true → is_at m x e ≡ false)
    → find_file n json (remove_file m x s) ≡ find_file n json s
unfolding remove_file
find-remove_other n m x s h = find-keep_same n json _ s (λ e y. rw (h e y) refl)

pub Stands-remove_file : (m : Text) (x : Ext) (s : Spool) → Untouched s (remove_file m x s)
Stands-remove_file m json s n = elim (Bool-cases (m =? n)) [
  | inl y ↦ inr (
      subst (λ k. find_file n json (remove_file k json s) ≡ none) (sym ((=?_iff m n).0 y))
        (find-remove_file n json s))
  | inr z ↦ inl (find-remove_other n m json s (λ e y. request-not_named n m json e z y))
]
Stands-remove_file m work s n =
    inl
      (find-remove_other n m work s (λ e y. request-not_at n m work e (unfold same_ext in refl) y))
Stands-remove_file m tmp s n =
    inl (find-remove_other n m tmp s (λ e y. request-not_at n m tmp e (unfold same_ext in refl) y))

work-not_request :
    (n m : Text) (f : File) → is_at n json (record { name = m; ext = work; file = f }) ≡ false
unfolding is_at same_ext
work-not_request n m f = ground arith

pub find-claimed_other :
    (m : Text) (f : File) (s : Spool) (n : Text)
    → find_file n json (put_file m work f s) ≡ find_file n json s
unfolding put_file
find-claimed_other m f s n =
    find-append_other n json (remove_file m work s) _ (work-not_request n m f)
    ∙ find-remove_other n m work s (λ e y. request-not_at n m work e (unfold same_ext in refl) y)

pub Untouched-trans : (a b c : Spool) → Untouched a b → Untouched b c → Untouched a c
Untouched-trans a b c h k n = elim (k n) [
  | inr gone ↦ inr gone
  | inl same ↦ elim (h n) [ inl e ↦ inl (same ∙ e) | inr e ↦ inr (same ∙ e) ]
]

pub Untouched-claim :
    (m : Text) (f : File) (s : Spool) → Untouched s (put_file m work f (remove_file m json s))
Untouched-claim m f s =
    Untouched-trans s (remove_file m json s) _ (Stands-remove_file m json s)
      (λ n. inl (find-claimed_other m f (remove_file m json s) n))

pub Untouched-remove_if :
    (b : Bool) (m : Text) (x : Ext) (s : Spool) → Untouched s (remove_if b m x s)
unfolding remove_if
Untouched-remove_if true m x s = Stands-remove_file m x s
Untouched-remove_if false m x s = λ n. inl refl

stale-not_request :
    (n : Text) (removed : Text → Bool) (e : Entry)
    → is_at n json e ≡ true
    → not (is_stale e && removed e.name) ≡ true
unfolding is_stale is_at
stale-not_request n removed e y =
    let j : same_ext e.ext json ≡ true = ground arith in
    rw (other-ext e.ext work j (unfold same_ext in refl)) refl

pub find-drop_stale :
    (removed : Text → Bool) (s : Spool) (n : Text)
    → find_file n json (drop_stale removed s) ≡ find_file n json s
unfolding drop_stale
find-drop_stale removed s n = find-keep_same n json _ s (stale-not_request n removed)
