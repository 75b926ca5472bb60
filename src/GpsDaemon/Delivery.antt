-- ===== src/GpsDaemon/Delivery.antt =====
-- What becomes of a position that is published.
use harbour_find_my_device.Prelude.{
  ◌≡◌, refl, sym, ◌⊎◌, inl, inr, Bool, true, false, not, ◌||◌, Option, none, some, arith,
  Bool-cases,
}
use harbour_find_my_device.Database.{Db}
use harbour_find_my_device.Settings.{get, get_bool}
use harbour_find_my_device.Settings.Defaults.{mqtt_enabled, mqtt_server, auto_enable_mobile_data}
use harbour_find_my_device.Mqtt.Publish.{publish_location_once}
use harbour_find_my_device.Mqtt.Delivery.{is_delivered, publish_location_once_lem}
use harbour_find_my_device.MobileData.{Phone}
use harbour_find_my_device.MobileData.Calls.{
  World, Outcome, returned, raised, killed, Io, then_do, ◌>>=◌,
}
use harbour_find_my_device.MobileData.Calm.{Yields, temporarily_enabled-Yields}
use harbour_find_my_device.GpsDaemon.{
  Payload, Cycle, is_configured, server_text, online_timeout, connect_and_publish, publish_if,
  publish, keep_unless, publish_new, flush_found,
}

-- no error is raised, and what is returned has the property
abbrev pub Ends : {A : Type 0} → (A → Type 0) → Outcome Phone A → Type 0
Ends P (returned a w) = P a
Ends P (raised w) = ⊥
Ends P (killed s) = Unit

pub Ends-then :
    {A B : Type 0} (P : A → Type 0) (Q : B → Type 0) (o : Outcome Phone A) (f : A → Io Phone B)
    → Ends P o
    → ((a : A) (w : World Phone) → P a → Ends Q (f a w))
    → Ends Q (then_do o f)
unfolding then_do
Ends-then P Q (returned a w) f h k = k a w h
Ends-then P Q (raised w) f h k = h
Ends-then P Q (killed s) f h k = tt

Yields-Ends : {A : Type 0} (b : A) (o : Outcome Phone A) → Yields b o → Ends (λ a. a ≡ b) o
Yields-Ends b (returned a w) h = h
Yields-Ends b (raised w) h = h
Yields-Ends b (killed s) h = h

-- nothing to publish to, or a PUBACK has come
abbrev pub Released : Cycle → Db → Type 0
Released c db =
    (is_configured c db ≡ false)
    ⊎ ((is_delivered c.once.link.first || is_delivered c.once.link.second) ≡ true)

abbrev pub KeptOr : Cycle → Option Payload → Option Payload → Db → Type 0
KeptOr c payload pending db = (pending ≡ payload) ⊎ ((pending ≡ none) × Released c db)

module _ (c : Cycle) where
  confirmed : Db → Bool
  confirmed db = (publish_location_once c.once (server_text (get mqtt_server db)) c.have_paho).0

  publish_if-Ends :
      (configured : Bool) (db : Db) (w : World Phone)
      → Ends (λ b. b ≡ (not configured || confirmed db)) (publish_if configured c db w)
  unfolding publish_if confirmed connect_and_publish
  publish_if-Ends false db w = refl
  publish_if-Ends true db w = Yields-Ends (confirmed db) _ (
      temporarily_enabled-Yields (confirmed db) (connect_and_publish c db) (λ session v. refl)
        (get_bool auto_enable_mobile_data db) c.setting online_timeout w)

  publish-Ends :
      (db : Db) (w : World Phone)
      → Ends (λ b. b ≡ (not (is_configured c db) || confirmed db)) (publish c db w)
  unfolding publish
  publish-Ends db w = publish_if-Ends (is_configured c db) db w

  released : (db : Db) → (not (is_configured c db) || confirmed db) ≡ true → Released c db
  unfolding confirmed
  released db h = elim (Bool-cases (is_configured c db)) [
    | inr unset ↦ inl unset
    | inl set ↦
        let once =
          (publish_location_once_lem c.once (server_text (get mqtt_server db)) c.have_paho).2 in
        inr (ground (arith, set, h, once))
  ]

  kept_or :
      (b : Bool) (payload : Payload) (db : Db)
      → b ≡ (not (is_configured c db) || confirmed db)
      → KeptOr c (some payload) (keep_unless b payload) db
  unfolding keep_unless
  kept_or false payload db e = inl refl
  kept_or true payload db e = inr (refl, released db (sym e))

  pub publish_new-Ends :
      (db : Db) (payload : Payload) (w : World Phone)
      → Ends (λ p. KeptOr c (some payload) p db) (publish_new c db payload w)
  unfolding publish_new ◌>>=◌
  publish_new-Ends db payload w =
      Ends-then _ _ (publish c db w) _ (publish-Ends db w) (λ b v e. kept_or b payload db e)

  pub flush_found-Ends :
      (enabled : Bool) (db : Db) (pending : Option Payload) (w : World Phone)
      → get_bool mqtt_enabled db ≡ enabled
      → Ends (λ p. KeptOr c pending p db) (flush_found enabled c db pending w)
  unfolding flush_found ◌>>=◌ is_configured
  flush_found-Ends enabled db none w e = inl refl
  flush_found-Ends false db (some payload) w e = inr (refl, inl (ground (arith, e)))
  flush_found-Ends true db (some payload) w e =
      Ends-then _ _ (publish c db w) _ (publish-Ends db w) (λ b v x. kept_or b payload db x)
