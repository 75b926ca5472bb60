-- ===== src/FixedLocation/Mirror.antt =====
-- The app decides on "GPS at Home" as the command daemon does, from the names that the daemon mirrors.
use harbour_find_my_device.Prelude.{
  ℕ, ◌≡◌, refl, sym, ap, ◌∙◌, Bool, true, false, not, Option, none, some, List, [], ◌∷◌, ◌++◌, any,
  keep, ◌=?◌, =?_iff, arith, All, inl, inr, Bool-cases, Option-cases, ◌==◌,
}
use harbour_find_my_device.Text.{Text, is_empty, split_on}
use harbour_find_my_device.Text.Sort.{sorted, any-sorted, All-sorted}
use harbour_find_my_device.Database.{Real, Db}
use harbour_find_my_device.Settings
use harbour_find_my_device.Runtime
use harbour_find_my_device.Runtime.{
  Daemon, daemon_status, read_heartbeat, generation, beat_key, state_key, version_key, applied_key,
}
use harbour_find_my_device.Runtime.Signals.{get-set_key, get-set_self}
use harbour_find_my_device.FixedLocation.{
  Service, connected_wifi_key, join_lines, set_connected_wifi, is_stopped, connected_wifi,
  connected_wifi_names, configured, match_with, match, is_connected, is_configured, same_value,
  publish_wifi_state, publish_names, names_to_publish,
}

-- a name that is not empty and has no line break in it
abbrev pub IsPlain : Text → Type 0
IsPlain name = (is_empty name ≡ false) × (any (λ c. c == b'\n') name ≡ false)

split-plain :
    (name rest : Text)
    → any (λ c. c == b'\n') name ≡ false
    → split_on b'\n' (name ++ (b'\n' ∷ rest)) ≡ name ∷ split_on b'\n' rest
unfolding split_on any
split-plain [] rest h = refl
split-plain (c ∷ name) rest h = elim (Bool-cases (c == b'\n')) [
  | inl y ↦ absurd (cc (rw y at h))
  | inr n ↦ rw n (rw (split-plain name rest (rw n at h)) refl)
]

split-last : (name : Text) → any (λ c. c == b'\n') name ≡ false → split_on b'\n' name ≡ name ∷ []
unfolding split_on any
split-last [] h = refl
split-last (c ∷ name) h = elim (Bool-cases (c == b'\n')) [
  | inl y ↦ absurd (cc (rw y at h))
  | inr n ↦ rw n (rw (split-last name (rw n at h)) refl)
]

abbrev lines : Text → List Text
lines text = keep (λ n. not (is_empty n)) (split_on b'\n' text)

lines-join_lines : (names : List Text) → All IsPlain names → lines (join_lines names) ≡ names
unfolding join_lines keep split_on is_empty
lines-join_lines [] h = refl
lines-join_lines (name ∷ []) h = rw (split-last name h.0.1) (rw h.0.0 refl)
lines-join_lines (name ∷ other ∷ names) h =
    rw (split-plain name (join_lines (other ∷ names)) h.0.1)
      (rw h.0.0 (rw (lines-join_lines (other ∷ names) h.1) refl))

status-set_connected_wifi :
    (names : List Text) (now : ℕ) (db : Db)
    → daemon_status Daemon.cmd now (set_connected_wifi names db) ≡ daemon_status Daemon.cmd now db
unfolding set_connected_wifi daemon_status read_heartbeat generation beat_key state_key version_key
    applied_key
status-set_connected_wifi names now db = simp (get-set_key)

some-injective : {a b : Text} → some a ≡ some b → a ≡ b
some-injective e = cc

-- What the daemon remembers as published is what the database holds.
abbrev pub IsMirrored : Option Text × Db → Type 0
IsMirrored s = (v : Text) → s.0 ≡ some v → Runtime.get connected_wifi_key [] s.1 ≡ v

module _ (names : List Text) (s : Option Text × Db) where
  abbrev value : Text
  value = join_lines (sorted names)

  abbrev next : Option Text × Db
  next = publish_names names true s

  -- after a publish, the value published last is the one to publish, and the database holds it
  held : IsMirrored s → (next.0 ≡ some value) × (Runtime.get connected_wifi_key [] next.1 ≡ value)
  unfolding publish_names same_value set_connected_wifi
  held m = elim (Option-cases s.0) [
    | inl e ↦ simp e (refl, get-set_self connected_wifi_key value [] s.1)
    | inr (v, e) ↦ elim (Bool-cases (v =? value)) [
      | inl y ↦ simp (e, y) (ap some ((=?_iff v value).0 y), m v e ∙ (=?_iff v value).0 y)
      | inr n ↦ simp (e, n) (refl, get-set_self connected_wifi_key value [] s.1)
    ]
  ]

  settings-publish : next.1.settings ≡ s.1.settings
  unfolding publish_names set_connected_wifi Runtime.set
  settings-publish = ground arith

  status-publish :
      (now : ℕ) → daemon_status Daemon.cmd now next.1 ≡ daemon_status Daemon.cmd now s.1
  unfolding publish_names
  status-publish now = elim (Bool-cases (same_value value s.0)) [
    | inl y ↦ simp y refl
    | inr n ↦ simp n (status-set_connected_wifi names now s.1)
  ]

  -- the names that the app reads
  seen :
      (now : ℕ)
      → IsMirrored s
      → All IsPlain names
      → is_stopped (daemon_status Daemon.cmd now s.1) ≡ false
      → connected_wifi now next.1 ≡ sorted names
  unfolding connected_wifi
  seen now m plain runs =
      rw (status-publish now)
        (rw runs (rw (held m).1 (lines-join_lines (sorted names) (All-sorted IsPlain names plain))))

module _ (float : Text → Option Real) (within : ℕ → Real → Bool) where
  configured-settings :
      (a b : Db) → a.settings ≡ b.settings → configured float within a ≡ configured float within b
  unfolding configured Settings.get
  configured-settings a b e = rw e

  match-sorted :
      (conf : Option (Text × (Real × Real))) (names : List Text)
      → match_with float within conf (sorted names) ≡ match_with float within conf names
  unfolding match_with is_connected
  match-sorted none names = refl
  match-sorted (some conf) names = rw (any-sorted (λ n. n =? conf.0) names)

  match-names :
      (services : Option (List Service)) (db : Db)
      → match_with float within
          (configured float within db)
          (names_to_publish float within services db)
        ≡ match_with float within (configured float within db) (connected_wifi_names services)
  unfolding names_to_publish match_with is_configured
  match-names services db = elim (Option-cases (configured float within db)) [
    | inl e ↦ rw e refl
    | inr (c, e) ↦ rw e refl
  ]

  -- After the command daemon has mirrored the connected networks, and as long as it does not count as
  -- stopped, the app takes the same decision on "GPS at Home" as the daemon does from ConnMan's
  -- answer: the same coordinates, or none. What the daemon remembers as published stays what the
  -- database holds. The conditions: that is so before, the database can be written, and the names of
  -- the networks to publish are neither empty nor have a line break in them.
  pub match-publish_wifi_state :
      (services : Option (List Service)) (now : ℕ) (s : Option Text × Db)
      → IsMirrored s
      → All IsPlain (names_to_publish float within services s.1)
      → is_stopped (daemon_status Daemon.cmd now s.1) ≡ false
      → let t = publish_wifi_state float within services true s in
        (match float within (connected_wifi now t.1) t.1
          ≡ match float within (connected_wifi_names services) s.1)
        × IsMirrored t
  unfolding publish_wifi_state match
  match-publish_wifi_state services now s m plain runs =
      let names = names_to_publish float within services s.1 in
      (
        rw
            (
              seen names s now m plain runs,
              configured-settings (publish_names names true s).1 s.1 (settings-publish names s),
            )
            (match-sorted (configured float within s.1) names ∙ match-names services s.1),
        λ v e. (held names s m).1 ∙ some-injective ((sym (held names s m).0) ∙ e),
      )
