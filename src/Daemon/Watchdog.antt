-- ===== src/Daemon/Watchdog.antt =====
-- When the watchdog repairs the MQTT channel: `check_mqtt` over ticks that are 5 seconds apart.
use harbour_find_my_device.Prelude.{
  ℕ, zero, suc, ◌+◌, ◌-◌, ◌*◌, ◌^◌, ◌≤◌, ◌<◌, ◌≡◌, refl, ◌∙◌, Bool, true, false, Option, none, some,
  min, arith, ltb, if◌then◌else◌, Bool-cases, inl, inr,
}
use harbour_find_my_device.Mqtt.Health.{
  Defect, no_client, network_thread_dead, disconnected, subscription_unconfirmed, healthcheck_stale,
}
use harbour_find_my_device.Daemon.{
  same_defect, Watch, repair_grace_s, grace, watch_defect, check_mqtt, watchdog_s,
}

same_defect_iff : (d : Defect) (o : Option Defect) → same_defect d o ≡ true → o ≡ some d
unfolding same_defect
same_defect_iff d none h = ground arith
same_defect_iff no_client (some no_client) h = refl
same_defect_iff network_thread_dead (some network_thread_dead) h = refl
same_defect_iff disconnected (some disconnected) h = refl
same_defect_iff subscription_unconfirmed (some subscription_unconfirmed) h = refl
same_defect_iff healthcheck_stale (some healthcheck_stale) h = refl
same_defect_iff d (some e) h = absurd (ground arith)

same_defect_refl : (d : Defect) → same_defect d (some d) ≡ true
unfolding same_defect
same_defect_refl no_client = refl
same_defect_refl network_thread_dead = refl
same_defect_refl disconnected = refl
same_defect_refl subscription_unconfirmed = refl
same_defect_refl healthcheck_stale = refl

power_positive : (n : ℕ) → 1 ≤ 2 ^ n
power_positive zero = omega arith
power_positive (suc n) = let h : 1 ≤ 2 ^ n = power_positive n in ground arith

grace_positive : (d : Defect) (repairs : ℕ) → 1 ≤ grace d repairs
unfolding grace repair_grace_s
grace_positive no_client repairs =
    let h : 1 ≤ 2 ^ min repairs 4 = power_positive (min repairs 4) in ground arith
grace_positive network_thread_dead repairs =
    let h : 1 ≤ 2 ^ min repairs 4 = power_positive (min repairs 4) in ground arith
grace_positive disconnected repairs =
    let h : 1 ≤ 2 ^ min repairs 4 = power_positive (min repairs 4) in ground arith
grace_positive subscription_unconfirmed repairs =
    let h : 1 ≤ 2 ^ min repairs 4 = power_positive (min repairs 4) in ground arith
grace_positive healthcheck_stale repairs =
    let h : 1 ≤ 2 ^ min repairs 4 = power_positive (min repairs 4) in ground arith

-- A tick starts a repair only while none is running, and only when the watchdog has noted the defect
-- that it sees for at least the grace period of that defect, doubled for each repair so far up to
-- four.
pub check_mqtt_repair :
    (repairing : Bool) (seen : Option Defect) (now : ℕ) (s : Watch)
    → (check_mqtt repairing seen now s).0 ≡ true
    → (repairing ≡ false)
      × ((d : Defect) × (seen ≡ some d)
          × (s.defect ≡ some d)
          × (s.defect_since + repair_grace_s d * 2 ^ min s.repairs 4 ≤ now))
unfolding check_mqtt watch_defect grace
check_mqtt_repair true seen now s h = absurd (ground arith)
check_mqtt_repair false none now s h = absurd (ground arith)
check_mqtt_repair false (some d) now s h = elim (Bool-cases (same_defect d s.defect)) [
  | inl e ↦ (
    refl,
    (
      d,
      refl,
      same_defect_iff d s.defect e,
      let g : 1 ≤ repair_grace_s d * 2 ^ min s.repairs 4 = grace_positive d s.repairs in
          ground arith,
    ),
  )
  | inr n ↦ absurd (ground (arith, n))
]

-- the time of the first repair in `n` ticks from `now` on that all see the defect `d`
unfoldable pub first_repair : Defect → ℕ → ℕ → Watch → Option ℕ
first_repair d zero now s = none
first_repair d (suc n) now s =
    let tick = check_mqtt false (some d) now s in
    let later = first_repair d n (now + watchdog_s) tick.1 in if tick.0 then some now else later

repair_early :
    (d : Defect) (n now : ℕ) (s : Watch)
    → s.defect ≡ some d
    → ltb (now - s.defect_since) (grace d s.repairs) ≡ true
    → first_repair d (suc n) now s ≡ first_repair d n (now + watchdog_s) s
unfolding first_repair
repair_early d n now s e early =
    let tick : check_mqtt false (some d) now s ≡ (false, s) =
      unfold check_mqtt watch_defect in rw (e, same_defect_refl d, early) refl in
    rw tick refl

repair_due :
    (d : Defect) (n now : ℕ) (s : Watch)
    → s.defect ≡ some d
    → ltb (now - s.defect_since) (grace d s.repairs) ≡ false
    → first_repair d (suc n) now s ≡ some now
unfolding first_repair check_mqtt watch_defect
repair_due d n now s e due = rw (e, same_defect_refl d, due) refl

repair_when_due :
    (d : Defect) (n now : ℕ) (s : Watch)
    → s.defect ≡ some d
    → s.defect_since + grace d s.repairs ≤ now + watchdog_s * n
    → now < s.defect_since + grace d s.repairs + watchdog_s
    → (t : ℕ) × (first_repair d (suc n) now s ≡ some t)
      × (s.defect_since + grace d s.repairs ≤ t)
      × (t < s.defect_since + grace d s.repairs + watchdog_s)
repair_when_due d zero now s e enough soon =
    (now, repair_due d zero now s e (ground arith), omega arith, omega arith)
repair_when_due d (suc n) now s e enough soon =
    elim (Bool-cases (ltb (now - s.defect_since) (grace d s.repairs))) [
      | inl early ↦
          let r = repair_when_due d n (now + watchdog_s) s e (omega arith) (ground arith) in
          (r.0, repair_early d (suc n) now s e early ∙ r.1, r.2, r.3)
      | inr due ↦
          let g : 1 ≤ grace d s.repairs = grace_positive d s.repairs in
          (now, repair_due d (suc n) now s e due, ground arith, omega arith)
    ]

-- A defect that is not the one the watchdog has noted, and that is seen by ticks 5 seconds apart from
-- now on, with no repair running, is repaired: not before its grace period is over, and less than
-- one tick after that.
pub repaired_in_time :
    (d : Defect) (now : ℕ) (s : Watch)
    → same_defect d s.defect ≡ false
    → (t : ℕ) × (first_repair d (suc (suc (grace d s.repairs))) now s ≡ some t)
      × (now + grace d s.repairs ≤ t)
      × (t < now + grace d s.repairs + watchdog_s)
repaired_in_time d now s unseen =
    let g : 1 ≤ grace d s.repairs = grace_positive d s.repairs in
    let seen : Watch = record s { defect = some d; defect_since = now } in
    let r =
      repair_when_due d (grace d s.repairs) (now + watchdog_s) seen refl (omega arith)
        (omega arith) in
    (r.0, (unfold first_repair check_mqtt watch_defect in rw unseen r.1), r.2, r.3)
