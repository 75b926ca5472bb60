-- ===== src/Mqtt/Suback.antt =====
-- What the acknowledgements of the broker add up to after a connect.
use harbour_find_my_device.Prelude.{
  ℕ, ◌≡◌, refl, ap, ◌∙◌, Bool, true, false, not, ◌&&◌, ◌||◌, Option, none, some, List, [], ◌∷◌,
  arith, any, keep, ◌==◌, ◌=?◌, =?_iff, Bool-cases, inl, inr,
}
use harbour_find_my_device.Text.{Text}
use harbour_find_my_device.Mqtt.{
  Client, Kind, Answers, is_current, find_pending, drop_pending, is_granted, confirm, suback_found,
  handle_connect, handle_subscribe, subscribe_all, subscribe_now, record_mid,
}
use harbour_find_my_device.Mqtt.Health.{is_confirmed, subscriptions_ok}

-- SUBACKs of the paho client `from`, in the order they arrive: the mid and the granted codes
unfoldable pub subacks : ℕ → List (ℕ × List ℕ) → Client → Client
subacks from [] c = c
subacks from ((mid, granted) ∷ acks) c = subacks from acks (handle_subscribe from mid granted c)

abbrev pub is_for : Text → Option Text → Bool
is_for topic none = false
is_for topic (some t) = t =? topic

-- the SUBACK grants the topic for which its packet was sent
abbrev pub grants : List (ℕ × Text) → Text → ℕ × List ℕ → Bool
grants pending topic ack = is_granted ack.1 && is_for topic (find_pending ack.0 pending)

-- no packet is acknowledged twice
abbrev pub DistinctMids : List (ℕ × List ℕ) → Type 0
DistinctMids [] = Unit
DistinctMids (ack ∷ acks) = (any (λ a. a.0 == ack.0) acks ≡ false) × DistinctMids acks

any-there :
    (topic t : Text) (topics : List Text)
    → any (λ x. x =? t) topics ≡ true
    → any (λ x. x =? topic) topics ≡ ((t =? topic) || any (λ x. x =? topic) topics)
any-there topic t topics there = elim (Bool-cases (t =? topic)) [
  | inl same ↦ let e : t ≡ topic = (=?_iff t topic).0 same in rw same (rw (← e) there)
  | inr other ↦ rw other refl
]

any-confirm :
    (topic t : Text) (topics : List Text)
    → any (λ x. x =? topic) (confirm t topics) ≡ ((t =? topic) || any (λ x. x =? topic) topics)
unfolding confirm any
any-confirm topic t topics = elim (Bool-cases (any (λ x. x =? t) topics)) [
  | inl there ↦ rw there (any-there topic t topics there)
  | inr absent ↦ rw absent refl
]

find-drop :
    (mid m : ℕ) (rows : List (ℕ × Text))
    → (m == mid) ≡ false
    → find_pending m (drop_pending mid rows) ≡ find_pending m rows
unfolding find_pending drop_pending keep
find-drop mid m [] h = refl
find-drop mid m ((n, t) ∷ rows) h = ground (arith, find-drop mid m rows h)

grants-drop :
    (mid : ℕ) (pending : List (ℕ × Text)) (topic : Text) (acks : List (ℕ × List ℕ))
    → any (λ a. a.0 == mid) acks ≡ false
    → any (grants (drop_pending mid pending) topic) acks ≡ any (grants pending topic) acks
unfolding any
grants-drop mid pending topic [] h = refl
grants-drop mid pending topic ((m, granted) ∷ acks) h =
    let one = find-drop mid m pending (ground (arith, h)) in
    let rest = grants-drop mid pending topic acks (ground (arith, h)) in rw (one, rest) refl

module _ (from : ℕ) (topic : Text) where
  suback_found_lem :
      (o : Option Text) (granted : List ℕ) (c : Client)
      → ((suback_found o granted c).client ≡ c.client)
        × ((suback_found o granted c).subs_pending ≡ c.subs_pending)
        × ((suback_found o granted c).subs ≡ c.subs)
        × (is_confirmed topic (suback_found o granted c)
            ≡ (is_granted granted && is_for topic o || is_confirmed topic c))
  unfolding suback_found is_confirmed
  suback_found_lem none granted c = (refl, refl, refl, ground arith)
  suback_found_lem (some t) granted c = elim (Bool-cases (is_granted granted)) [
    | inl good ↦ rw good (refl, refl, refl, any-confirm topic t c.subs_confirmed)
    | inr bad ↦ rw bad (refl, refl, refl, refl)
  ]

  suback-current :
      (mid : ℕ) (granted : List ℕ) (c : Client)
      → c.client ≡ some from
      → ((handle_subscribe from mid granted c).client ≡ some from)
        × ((handle_subscribe from mid granted c).subs_pending ≡ drop_pending mid c.subs_pending)
        × ((handle_subscribe from mid granted c).subs ≡ c.subs)
        × (is_confirmed topic (handle_subscribe from mid granted c)
            ≡ (grants c.subs_pending topic (mid, granted) || is_confirmed topic c))
  suback-current mid granted c e =
      let popped : Client = record c { subs_pending = drop_pending mid c.subs_pending } in
      let current : is_current c.client from ≡ true = ground arith in
      let taken : handle_subscribe from mid granted c
          ≡ suback_found (find_pending mid c.subs_pending) granted popped =
        unfold handle_subscribe in rw current refl in
      let found = suback_found_lem (find_pending mid c.subs_pending) granted popped in
      rw taken (found.0 ∙ e, found.1, found.2, found.3 ∙ (unfold is_confirmed in refl))

  is_confirmed-subacks :
      (acks : List (ℕ × List ℕ)) (c : Client)
      → c.client ≡ some from
      → DistinctMids acks
      → is_confirmed topic (subacks from acks c)
        ≡ (any (grants c.subs_pending topic) acks || is_confirmed topic c)
  unfolding subacks any
  is_confirmed-subacks [] c e d = refl
  is_confirmed-subacks ((mid, granted) ∷ acks) c e d =
      let one = suback-current mid granted c e in
      let rest = is_confirmed-subacks acks (handle_subscribe from mid granted c) one.0 d.1 in
      let same =
        ap (λ p. any (grants p topic) acks) one.1 ∙ grants-drop mid c.subs_pending topic acks d.0 in
      ground (arith, rest, one.3, same)

subs-subacks :
    (from : ℕ) (acks : List (ℕ × List ℕ)) (c : Client)
    → c.client ≡ some from
    → (subacks from acks c).subs ≡ c.subs
unfolding subacks
subs-subacks from [] c e = refl
subs-subacks from ((mid, granted) ∷ acks) c e =
    let one = suback-current from [] mid granted c e in
    subs-subacks from acks (handle_subscribe from mid granted c) one.0 ∙ one.2

record_mid-kept :
    (topic : Text) (o : Option ℕ) (c : Client)
    → ((record_mid topic o c).client ≡ c.client)
      × ((record_mid topic o c).subs ≡ c.subs)
      × ((record_mid topic o c).subs_confirmed ≡ c.subs_confirmed)
unfolding record_mid
record_mid-kept topic none c = (refl, refl, refl)
record_mid-kept topic (some mid) c = (refl, refl, refl)

subscribe_all-kept :
    (answers : Answers) (topics : List (Text × Kind)) (c : Client)
    → ((subscribe_all answers topics c).client ≡ c.client)
      × ((subscribe_all answers topics c).subs ≡ c.subs)
      × ((subscribe_all answers topics c).subs_confirmed ≡ c.subs_confirmed)
unfolding subscribe_all subscribe_now
subscribe_all-kept answers [] c = (refl, refl, refl)
subscribe_all-kept answers ((topic, kind) ∷ topics) c =
    let one = record_mid-kept topic (answers topic) c in
    let rest = subscribe_all-kept answers topics (record_mid topic (answers topic) c) in
    (rest.0 ∙ one.0, rest.1 ∙ one.1, rest.2 ∙ one.2)

handle_connect-kept :
    (from : ℕ) (answers : Answers) (c : Client)
    → c.client ≡ some from
    → ((handle_connect from 0 answers c).client ≡ some from)
      × ((handle_connect from 0 answers c).subs ≡ c.subs)
      × ((handle_connect from 0 answers c).subs_confirmed ≡ [])
unfolding handle_connect
handle_connect-kept from answers c e =
    let back : Client = record c {
      connected = true;
      conn_event = true;
      subs_confirmed = [];
      subs_pending = [];
    } in
    ground (arith, subscribe_all-kept answers c.subs back)

any-cong :
    (p q : Text × Kind → Bool) (subs : List (Text × Kind))
    → ((s : Text × Kind) → p s ≡ q s)
    → any p subs ≡ any q subs
unfolding any
any-cong p q [] h = refl
any-cong p q (s ∷ subs) h = let rest = any-cong p q subs h in rw (h s, rest) refl

is_confirmed-fresh :
    (topic : Text) (c : Client) → c.subs_confirmed ≡ [] → is_confirmed topic c ≡ false
unfolding is_confirmed any
is_confirmed-fresh topic c e = ap (λ l. any (λ t. t =? topic) l) e

confirmed-subacks :
    (from : ℕ) (topic : Text) (acks : List (ℕ × List ℕ)) (c : Client)
    → c.client ≡ some from
    → c.subs_confirmed ≡ []
    → DistinctMids acks
    → is_confirmed topic (subacks from acks c) ≡ any (grants c.subs_pending topic) acks
confirmed-subacks from topic acks c e fresh d =
    ground (arith, is_confirmed-subacks from topic acks c e d, is_confirmed-fresh topic c fresh)

-- After the CONNACK of the current paho client, and SUBACKs that each have a mid of their own, the
-- subscriptions count as confirmed just when each subscribed topic has a SUBACK that grants it: one
-- with the mid that `_subscribe_now` recorded for the topic, at least one code, and none from 128 on.
pub subscriptions_ok-subacks :
    (from : ℕ) (answers : Answers) (acks : List (ℕ × List ℕ)) (c : Client)
    → c.client ≡ some from
    → DistinctMids acks
    → subscriptions_ok (subacks from acks (handle_connect from 0 answers c))
      ≡ not (
          any
            (λ s. not (any (grants (handle_connect from 0 answers c).subs_pending s.0) acks))
            c.subs)
unfolding subscriptions_ok
subscriptions_ok-subacks from answers acks c e d =
    let up = handle_connect from 0 answers c in
    let kept = handle_connect-kept from answers c e in
    let same = subs-subacks from acks up kept.0 ∙ kept.1 in
    let each : (s : Text × Kind)
        → not (is_confirmed s.0 (subacks from acks up))
          ≡ not (any (grants up.subs_pending s.0) acks) =
      λ s. ap not (confirmed-subacks from s.0 acks up kept.0 kept.2 d) in
    ap (λ l. not (any (λ s. not (is_confirmed s.0 (subacks from acks up))) l)) same
    ∙ ap not (any-cong _ _ c.subs each)
