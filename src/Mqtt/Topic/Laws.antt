-- ===== src/Mqtt/Topic/Laws.antt =====
-- What the topics say of the device in them.
use mathlib.Core.List.{append-nil}
use harbour_find_my_device.Prelude.{
  ℕ, zero, suc, ◌+◌, ◌-◌, ◌≤◌, ◌<◌, ◌≡◌, refl, ap, sym, ◌∙◌, true, false, some, [], ◌∷◌, ◌++◌,
  arith, length, length-append, drop, ◌==◌, ◌=?◌,
}
use harbour_find_my_device.Text.{Text, codes, ends_with, split_on, push}
use harbour_find_my_device.Mqtt.Topic.{
  topic_location, topic_cmd, topic_ack, second_part, device_from_topic,
}

-- the characters of a device id are not the separator
abbrev pub Plain : Text → Type 0
Plain [] = Unit
Plain (c ∷ s) = ((c == b'/') ≡ false) × Plain s

push-Plain :
    (s rest : Text) → Plain s → split_on b'/' (s ++ (b'/' ∷ rest)) ≡ (s ∷ split_on b'/' rest)
unfolding split_on push
push-Plain [] rest p = refl
push-Plain (c ∷ s) rest p = rw (p.0, push-Plain s rest p.1) refl

split-Plain : (s : Text) → Plain s → split_on b'/' s ≡ (s ∷ [])
unfolding split_on push
split-Plain [] p = refl
split-Plain (c ∷ s) p = rw (p.0, split-Plain s p.1) refl

drop-over : (xs ys : Text) (n : ℕ) → length xs ≤ n → drop n (xs ++ ys) ≡ drop (n - length xs) ys
drop-over [] ys n h = ap (λ k. drop k ys) (omega arith)
drop-over (x ∷ xs) ys zero h = ground (arith, h)
drop-over (x ∷ xs) ys (suc n) h =
    drop-over xs ys n (omega (arith, h)) ∙ ap (λ k. drop k ys) (omega arith)

drop-Plain :
    (s post rest : Text) (n : ℕ)
    → n < length s
    → Plain s
    → (drop n (s ++ post) =? (b'/' ∷ rest)) ≡ false
unfolding ◌=?◌
drop-Plain [] post rest n h p = ground (arith, h)
drop-Plain (c ∷ s) post rest zero h p = rw p.0 refl
drop-Plain (c ∷ s) post rest (suc n) h p = drop-Plain s post rest n (omega (arith, h)) p.1

-- only the last part of a text says whether it ends with a suffix that is no longer
ends_with-append :
    (s post suffix : Text)
    → length suffix ≤ length post
    → ends_with (s ++ post) suffix ≡ ends_with post suffix
unfolding ends_with
ends_with-append s post suffix h =
    let n : length (s ++ post) - length suffix ≡ length s + (length post - length suffix) =
      omega (arith, length-append s post, h) in
    ap (λ t. t =? suffix)
      (ap (λ k. drop k (s ++ post)) n
        ∙ (drop-over s post _ (omega arith) ∙ ap (λ k. drop k post) (omega arith)))

-- no suffix begins with the separator inside a plain text
ends_with-Plain :
    (s post rest : Text)
    → length post ≤ length rest
    → length rest < length s + length post
    → Plain s
    → ends_with (s ++ post) (b'/' ∷ rest) ≡ false
unfolding ends_with
ends_with-Plain s post rest short long p =
    drop-Plain s post rest (length (s ++ post) - suc (length rest))
      (omega (arith, length-append s post, short, long)) p

module _ (device_id : Text) (plain : Plain device_id) where
  parts-suffix :
      (rest : Text)
      → device_from_topic (codes "fmd/" ++ (device_id ++ (b'/' ∷ rest))) ≡ some device_id
  unfolding device_from_topic split_on push second_part ◌=?◌
  parts-suffix rest = rw (push-Plain device_id rest plain) refl

  pub device-topic_cmd : device_from_topic (topic_cmd device_id) ≡ some device_id
  unfolding topic_cmd
  device-topic_cmd = parts-suffix (codes "cmd")

  pub device-topic_ack : device_from_topic (topic_ack device_id) ≡ some device_id
  unfolding topic_ack
  device-topic_ack = parts-suffix (codes "cmd/ack")

  pub device-topic_location : device_from_topic (topic_location device_id) ≡ some device_id
  unfolding topic_location device_from_topic split_on push second_part ◌=?◌
  device-topic_location = rw (split-Plain device_id plain) refl

  cut :
      (post suffix : Text)
      → length suffix ≤ length post
      → ends_with (codes "fmd/" ++ (device_id ++ post)) suffix ≡ ends_with post suffix
  cut post suffix h =
      ends_with-append (codes "fmd/") (device_id ++ post) suffix
        (omega (arith, length-append device_id post, h))
      ∙ ends_with-append device_id post suffix h

  module _ (long : 8 ≤ length device_id) where
    inside :
        (post rest : Text)
        → length post ≤ length rest
        → length rest ≤ 7
        → ends_with (codes "fmd/" ++ (device_id ++ post)) (b'/' ∷ rest) ≡ false
    inside post rest h k =
        ends_with-append (codes "fmd/") (device_id ++ post) (b'/' ∷ rest)
          (omega (arith, length-append device_id post, h, k, long))
        ∙ ends_with-Plain device_id post rest h (omega (arith, h, k, long)) plain

    -- the suffixes that `_handle_message` looks for
    pub suffixes-topic_cmd :
        (ends_with (topic_cmd device_id) (codes "/hc") ≡ false)
        × (ends_with (topic_cmd device_id) (codes "/cmd/ack") ≡ false)
        × (ends_with (topic_cmd device_id) (codes "/cmd") ≡ true)
    unfolding topic_cmd ends_with ◌=?◌
    suffixes-topic_cmd = (
      cut (codes "/cmd") (codes "/hc") (omega arith),
      inside (codes "/cmd") (codes "cmd/ack") (omega arith) (omega arith),
      cut (codes "/cmd") (codes "/cmd") (omega arith),
    )

    pub suffixes-topic_ack :
        (ends_with (topic_ack device_id) (codes "/hc") ≡ false)
        × (ends_with (topic_ack device_id) (codes "/cmd/ack") ≡ true)
    unfolding topic_ack ends_with ◌=?◌
    suffixes-topic_ack = (
      cut (codes "/cmd/ack") (codes "/hc") (omega arith),
      cut (codes "/cmd/ack") (codes "/cmd/ack") (omega arith),
    )

    pub suffixes-topic_location :
        (ends_with (topic_location device_id) (codes "/hc") ≡ false)
        × (ends_with (topic_location device_id) (codes "/cmd/ack") ≡ false)
        × (ends_with (topic_location device_id) (codes "/cmd") ≡ false)
    unfolding topic_location
    suffixes-topic_location =
        let none_after : (s : Text)
            → ends_with (codes "fmd/" ++ (device_id ++ [])) s
              ≡ ends_with (codes "fmd/" ++ device_id) s =
          λ s. ap (λ t. ends_with (codes "fmd/" ++ t) s) (append-nil device_id) in
        (
          sym (none_after _) ∙ inside [] (codes "hc") (omega arith) (omega arith),
          sym (none_after _) ∙ inside [] (codes "cmd/ack") (omega arith) (omega arith),
          sym (none_after _) ∙ inside [] (codes "cmd") (omega arith) (omega arith),
        )
