-- ===== src/App/Location/Newest.antt =====
-- The newest position that the app has taken was published, or waits for a connect.
use mathlib.Core.Path.{subst}
use harbour_find_my_device.Prelude.{
  ℕ, ◌≡◌, refl, inl, inr, Bool, true, false, Option, none, some, List, [], ◌∷◌, sym, ◌∙◌,
  Bool-cases,
}
use harbour_find_my_device.Text.{Text, codes}
use harbour_find_my_device.Gps.{Fix, store_fix}
use harbour_find_my_device.Runtime
use harbour_find_my_device.Runtime.{Daemon, location_request_key}
use harbour_find_my_device.App.Location.{
  Place, Publish, emit, notify_if, publish_own_location, flush_with, flush_pending_location,
  LocationState, on, off, no_gps, Answer, found, not_found, conclude, prepare, refresh_prepared,
  location_fix, fix_error_code, map_updated, do_refresh_location,
}
use harbour_find_my_device.App.Location.Kept.{
  refreshed, connected, Event, step, run, IsSetUp, taken_fix, newer, newest, IsKept, auto_of, Same,
  Same-notify_if, IsKept-Same, setup-settings, auto-settings, IsKept-publish,
}

module _ (own : Text) (notify fail : Bool) (taken : Publish) (now : ℕ) where
  IsKept-found :
      (fix : Fix) (p : Place)
      → IsSetUp p.db
      → IsKept (some fix) (conclude own notify fail taken (found fix) now p).1
        × ((conclude own notify fail taken (found fix) now p).1.db.settings ≡ p.db.settings)
  unfolding conclude emit store_fix
  IsKept-found fix p up =
      let stored : Place = record p { db = (store_fix own fix true p.db).1 } in
      let published = publish_own_location taken fix now stored in
      let k = IsKept-publish taken fix now stored (setup-settings stored.db p.db refl up) in
      let n = location_fix true (codes "fix stored") in
      let s = Same-notify_if notify n published in
      (IsKept-Same (some fix) (notify_if notify n published) published s k.0, s.2 ∙ k.1)

  IsKept-not_found :
      (err : Text) (last : Option Fix) (p : Place)
      → IsKept last p
      → IsKept last (conclude own notify fail taken (not_found err) now p).1
        × ((conclude own notify fail taken (not_found err) now p).1.db.settings ≡ p.db.settings)
  unfolding conclude emit
  IsKept-not_found err last p k =
      let n = location_fix false (fix_error_code err) in
      let s = Same-notify_if fail n p in
      (IsKept-Same last (emit map_updated (notify_if fail n p)) p s k, s.2)

  IsKept-conclude :
      (answer : Answer) (last : Option Fix) (p : Place)
      → IsSetUp p.db
      → IsKept last p
      → IsKept
          (newer (taken_fix none on answer true) last)
          (conclude own notify fail taken answer now p).1
        × ((conclude own notify fail taken answer now p).1.db.settings ≡ p.db.settings)
  IsKept-conclude (found fix) last p up k = IsKept-found fix p up
  IsKept-conclude (not_found err) last p up k = IsKept-not_found err last p k

  -- a request to the command daemon changes no setting
  asked : Place → Place
  asked p = record p { db = Runtime.request location_request_key now p.db }

  Same-asked : (p : Place) → Same (asked p) p
  unfolding asked Runtime.request Runtime.set
  Same-asked p = (refl, refl, refl)

  IsKept-asked :
      (answer : Answer) (last : Option Fix) (p : Place)
      → IsSetUp p.db
      → IsKept last p
      → IsKept
          (newer (taken_fix none on answer true) last)
          (conclude own notify fail taken answer now (asked p)).1
        × ((conclude own notify fail taken answer now (asked p)).1.db.settings ≡ p.db.settings)
  IsKept-asked answer last p up k =
      let s = Same-asked p in
      let c =
        IsKept-conclude answer last (asked p) (setup-settings (asked p).db p.db s.2 up)
          (IsKept-Same last (asked p) p s k) in
      (c.0, c.1 ∙ s.2)

  -- a refresh that gives up because the location is switched off
  IsKept-refused :
      (last : Option Fix) (p : Place)
      → IsKept last p
      → let q = emit map_updated (notify_if fail (location_fix false (codes "gps_disabled")) p) in
        IsKept last q × (q.db.settings ≡ p.db.settings)
  unfolding emit
  IsKept-refused last p k =
      let n = location_fix false (codes "gps_disabled") in
      let s = Same-notify_if fail n p in
      (IsKept-Same last (emit map_updated (notify_if fail n p)) p s k, s.2)

  abbrev Kept : Option Fix → LocationState → Answer → Option Fix → Place → Type 0
  Kept fixed state answer last p =
      IsKept (newer (taken_fix fixed state answer (auto_of p.db)) last)
        (do_refresh_location own notify fail fixed state answer taken now p).1
      × ((do_refresh_location own notify fail fixed state answer taken now p).1.db.settings
          ≡ p.db.settings)

  kept-refresh :
      (fixed : Option Fix) (state : LocationState) (answer : Answer) (last : Option Fix) (p : Place)
      → IsSetUp p.db
      → IsKept last p
      → Kept fixed state answer last p
  unfolding do_refresh_location prepare refresh_prepared asked
  kept-refresh (some fixed) state answer last p up k = IsKept-found fixed p up
  kept-refresh none on (found fix) last p up k = IsKept-conclude (found fix) last p up k
  kept-refresh none on (not_found err) last p up k = IsKept-conclude (not_found err) last p up k
  kept-refresh none off (found fix) last p up k = elim (Bool-cases (auto_of p.db)) [
    | inl y ↦ simp y (IsKept-asked (found fix) last p up k)
    | inr n ↦ simp n (IsKept-refused last p k)
  ]
  kept-refresh none off (not_found err) last p up k = elim (Bool-cases (auto_of p.db)) [
    | inl y ↦ simp y (IsKept-asked (not_found err) last p up k)
    | inr n ↦ simp n (IsKept-refused last p k)
  ]
  kept-refresh none no_gps (found fix) last p up k = elim (Bool-cases (auto_of p.db)) [
    | inl y ↦ simp y (IsKept-asked (found fix) last p up k)
    | inr n ↦ simp n (IsKept-conclude (found fix) last p up k)
  ]
  kept-refresh none no_gps (not_found err) last p up k = elim (Bool-cases (auto_of p.db)) [
    | inl y ↦ simp y (IsKept-asked (not_found err) last p up k)
    | inr n ↦ simp n (IsKept-conclude (not_found err) last p up k)
  ]

same_fix : {a b : Fix} → some a ≡ some b → a ≡ b
same_fix e = cc

flushed-with :
    (o : Option Fix) (taken : Bool) (last : Option Fix) (p : Place)
    → p.pending ≡ o
    → IsKept last p
    → IsKept last (flush_with o taken p) × ((flush_with o taken p).db.settings ≡ p.db.settings)
unfolding flush_with
flushed-with none taken last p e k = (k, refl)
flushed-with (some fix) false last p e k = (k, refl)
flushed-with (some fix) true none p e k = (tt, refl)
flushed-with (some fix) true (some f) p e (inl w) = (inr (refl, inl (same_fix (sym e ∙ w))), refl)
flushed-with (some fix) true (some f) p e (inr (w, s)) = absurd (cc (sym e ∙ w))

IsKept-flush :
    (client taken : Bool) (last : Option Fix) (p : Place)
    → IsKept last p
    → IsKept last (flush_pending_location client taken p)
      × ((flush_pending_location client taken p).db.settings ≡ p.db.settings)
unfolding flush_pending_location
IsKept-flush true taken last p k = flushed-with p.pending taken last p refl k
IsKept-flush false taken last p k = (k, refl)

IsKept-run :
    (own : Text) (auto : Bool) (es : List Event) (last : Option Fix) (p : Place)
    → auto_of p.db ≡ auto
    → IsSetUp p.db
    → IsKept last p
    → IsKept (newest auto last es) (run own es p)
unfolding run step
IsKept-run own auto [] last p e up k = k
IsKept-run own auto (refreshed notify fail fixed state answer taken now ∷ es) last p e up k =
    let q = (do_refresh_location own notify fail fixed state answer taken now p).1 in
    let r = kept-refresh own notify fail taken now fixed state answer last p up k in
    IsKept-run own auto es (newer (taken_fix fixed state answer auto) last) q
      (auto-settings q.db p.db r.1 ∙ e) (setup-settings q.db p.db r.1 up)
      (subst (λ a. IsKept (newer (taken_fix fixed state answer a) last) q) e r.0)
IsKept-run own auto (connected client taken ∷ es) last p e up k =
    let q = flush_pending_location client taken p in
    let r = IsKept-flush client taken last p k in
    IsKept-run own auto es last q (auto-settings q.db p.db r.1 ∙ e)
      (setup-settings q.db p.db r.1 up) r.0

-- Where MQTT is set up in the settings: after any refreshes, by the owner or by the foreground polling,
-- and any connects of the broker, also while one of them publishes, the newest position that these
-- refreshes have yielded is pending for the next connect, or it was published with success.
pub run-IsKept :
    (own : Text) (es : List Event) (p : Place)
    → IsSetUp p.db
    → IsKept (newest (auto_of p.db) none es) (run own es p)
run-IsKept own es p up = IsKept-run own (auto_of p.db) es none p refl up tt
