-- ===== src/Sms/Senders.antt =====
-- Which numbers the whitelist admits.
use harbour_find_my_device.Prelude.{
  ◌+◌, ◌-◌, ◌≤◌, ◌≡◌, refl, Bool, true, List, [], ◌∷◌, ◌++◌, any, arith, length, length-append,
  drop, leb, =?_refl,
}
use harbour_find_my_device.Text.{Text}
use harbour_find_my_device.Sms.{last, normalize_number, same_number, sender_allowed}

drop-append : (a t : Text) → drop (length a) (a ++ t) ≡ t
drop-append [] t = refl
drop-append (c ∷ a) t = let ih : drop (length a) (a ++ t) ≡ t = drop-append a t in ih

last-append : (a t : Text) → last (length t) (a ++ t) ≡ t
unfolding last
last-append a t =
    let e : length (a ++ t) - length t ≡ length a = ground (arith, length-append a t) in
    rw (e, drop-append) refl

same_number-append : (a b t : Text) → 1 ≤ length t → same_number (length t) (a ++ t) (b ++ t) ≡ true
unfolding same_number
same_number-append a b t h =
    let x : length (a ++ t) ≡ length a + length t = length-append a t in
    let y : length (b ++ t) ≡ length b + length t = length-append b t in
    let short : leb 1 (length t) ≡ true = ground arith in
    let in_a : leb (length t) (length (a ++ t)) ≡ true = ground arith in
    let in_b : leb (length t) (length (b ++ t)) ≡ true = ground arith in
    rw (short, in_a, in_b, last-append, last-append) (=?_refl t)

any-append :
    (f : Text → Bool) (before after : List Text) (x : Text)
    → f x ≡ true
    → any f (before ++ (x ∷ after)) ≡ true
unfolding any
any-append f [] after x e = rw e refl
any-append f (y ∷ before) after x e =
    let ih : any f (before ++ (x ∷ after)) ≡ true = any-append f before after x e in ground arith

-- A number is admitted when it ends in the same digits as an entry of the whitelist, whatever stands
-- before them in either: as many digits as the match asks for, which is at least one.
pub sender_allowed_suffix :
    (sender entry a b t : Text) (before after : List Text)
    → normalize_number sender ≡ a ++ t
    → normalize_number entry ≡ b ++ t
    → 1 ≤ length t
    → sender_allowed sender (before ++ (entry ∷ after)) (length t) ≡ true
unfolding sender_allowed
sender_allowed_suffix sender entry a b t before after e f h =
    any-append (λ x. same_number (length t) (normalize_number sender) (normalize_number x)) before
      after entry (rw (e, f) (same_number-append a b t h))
