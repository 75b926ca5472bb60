-- ===== src/Spool/Lookups.antt =====
-- Lookups and listings of the spool after its operations.
use harbour_find_my_device.Prelude.{
  ◌≡◌, ◌≢◌, refl, Bool, true, false, none, some, List, [], ◌∷◌, ◌++◌, keep, ◌=?◌, =?_refl, arith,
  inl, inr, Bool-cases,
}
use harbour_find_my_device.Text.{Text, is_empty, lower, lower_char, is_upper}
use harbour_find_my_device.Spool.{
  File, Ext, json, work, tmp, Entry, Spool, Action, reboot, send_sms, set_location, request_for,
  action_of, sms_of, or_blank, same_ext, is_at, remove_file, put_file, find_file,
}
use harbour_find_my_device.Spool.Service.{is_request, insert, requests}

-- an SMS needs a recipient
abbrev pub HasRecipient : Action → Type 0
HasRecipient reboot = Unit
HasRecipient (send_sms to body) = is_empty to ≡ false
HasRecipient (set_location enable) = Unit

pub action-request_for : (a : Action) → HasRecipient a → action_of (request_for a) ≡ some a
unfolding action_of request_for sms_of or_blank lower lower_char is_upper ◌=?◌
action-request_for reboot h = refl
action-request_for (send_sms to body) h = rw h
action-request_for (set_location enable) h = refl

pub find-append :
    (n : Text) (x : Ext) (s : Spool) (e : Entry)
    → find_file n x s ≡ none
    → is_at n x e ≡ true
    → find_file n x (s ++ (e ∷ [])) ≡ some e.file
unfolding find_file
find-append n x [] e f y = rw y
find-append n x (d ∷ s) e f y = elim (Bool-cases (is_at n x d)) [
  | inl z ↦ absurd (cc (rw z at f))
  | inr z ↦ simp z (find-append n x s e (rw z at f) y)
]

pub find-remove_file : (n : Text) (x : Ext) (s : Spool) → find_file n x (remove_file n x s) ≡ none
unfolding find_file remove_file keep
find-remove_file n x [] = refl
find-remove_file n x (e ∷ s) = elim (Bool-cases (is_at n x e)) [
  | inl y ↦ simp y (find-remove_file n x s)
  | inr z ↦ simp (z, z) (find-remove_file n x s)
]

pub find-keep :
    (n : Text) (x : Ext) (p : Entry → Bool) (s : Spool)
    → find_file n x s ≡ none
    → find_file n x (keep p s) ≡ none
unfolding find_file keep
find-keep n x p [] f = refl
find-keep n x p (e ∷ s) f = ground (arith, find-keep n x p s)

pub self_at :
    (n : Text) (x : Ext) (f : File) → is_at n x (record { name = n; ext = x; file = f }) ≡ true
unfolding is_at same_ext
self_at n json f = rw (=?_refl n)
self_at n work f = rw (=?_refl n)
self_at n tmp f = rw (=?_refl n)

pub find-put_file :
    (n : Text) (x : Ext) (f : File) (s : Spool) → find_file n x (put_file n x f s) ≡ some f
unfolding put_file
find-put_file n x f s =
    find-append n x (remove_file n x s) (record { name = n; ext = x; file = f })
      (find-remove_file n x s) (self_at n x f)

pub insert-ne-nil : (n : Text) (names : List Text) → insert n names ≢ []
unfolding insert
insert-ne-nil n [] e = cc
insert-ne-nil n (m ∷ names) e = ground arith

pub requests-cons :
    (e : Entry) (s : Spool) → requests (e ∷ s) ≡ [] → (is_request e ≡ false) × (requests s ≡ [])
unfolding requests
requests-cons e s h = elim (Bool-cases (is_request e)) [
  | inl y ↦ absurd (insert-ne-nil e.name (requests s) (rw y at h))
  | inr n ↦ (n, rw n at h)
]

pub requests-keep : (p : Entry → Bool) (s : Spool) → requests s ≡ [] → requests (keep p s) ≡ []
unfolding requests keep
requests-keep p [] h = refl
requests-keep p (e ∷ s) h = let r = requests-cons e s h in ground (arith, requests-keep p s r.1)

pub requests-append :
    (s : Spool) (e : Entry)
    → requests s ≡ []
    → is_request e ≡ true
    → requests (s ++ (e ∷ [])) ≡ e.name ∷ []
unfolding requests insert
requests-append [] e h y = rw y
requests-append (d ∷ s) e h y = let r = requests-cons d s h in rw r.0 (requests-append s e r.1 y)

pub keep-append :
    (p : Entry → Bool) (s : Spool) (e : Entry)
    → p e ≡ true
    → keep p (s ++ (e ∷ [])) ≡ keep p s ++ (e ∷ [])
unfolding keep
keep-append p [] e y = rw y
keep-append p (d ∷ s) e y = ground (arith, keep-append p s e y)
