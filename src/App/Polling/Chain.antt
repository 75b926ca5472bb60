-- ===== src/App/Polling/Chain.antt =====
-- There is one chain of foreground ticks while the app polls, and none while it does not.
use mathlib.Core.Path.{subst}
use harbour_find_my_device.Prelude.{
  ℕ, ◌+◌, ◌<◌, ◌≡◌, refl, Bool, true, false, ◌&&◌, Option, none, some, List, [], ◌∷◌, ◌==◌, arith,
  any, ==_iff, if◌then◌else◌, inl, inr, Bool-cases, ℤ, ap,
}
use harbour_find_my_device.App.Polling.{
  Polling, cancel, start_foreground_gps, stop_foreground_gps, stop_if, clear_banner,
  apply_foreground_gps, Outcome, fix_found, fix_failed, fix_raised, settle, is_set, finish,
  begin_tick, remove, gen_of, Event, applied, fires, begins, ends, fire, step, run, interval_s,
  schedule_foreground_tick,
}
use harbour_find_my_device.App.Polling.Links.{
  one, links, IsOneChain, count-remove, count-cancel, count-drop_timer, one_self,
  start_if-IsOneChain, clear-IsOneChain, stop_if-IsOneChain,
}

gen-settle : (o : Outcome) (p : Polling) → (settle o p).gen ≡ p.gen
unfolding settle clear_banner
gen-settle fix_found p = ground arith
gen-settle fix_failed p = ground arith
gen-settle fix_raised p = ground arith

-- A tick that ends is taken off its chain, and sets the next timer only for the current one.
links-settle : (o : Outcome) (g : ℕ) (p : Polling) → links g (settle o p) ≡ links g p
unfolding settle clear_banner
links-settle fix_found g p = ground arith
links-settle fix_failed g p = ground arith
links-settle fix_raised g p = ground arith

timer-settle : (o : Outcome) (p : Polling) → (settle o p).timer ≡ p.timer
unfolding settle clear_banner
timer-settle fix_found p = ground arith
timer-settle fix_failed p = ground arith
timer-settle fix_raised p = ground arith

-- the state from which one link of the chain `h` was taken off
pub record IsShort (h : ℕ) (p : Polling) : Type 0 where
  pub current : one (h == p.gen) + links p.gen p ≡ one (is_set p.timer)
  pub later : (g : ℕ) → p.gen < g → one (h == g) + links g p ≡ 0

schedule-IsOneChain :
    (d : ℕ) (q : Polling) → IsShort q.gen q → IsOneChain (schedule_foreground_tick d q)
unfolding schedule_foreground_tick is_set
schedule-IsOneChain d q v = record {
  current = ground (arith, v.current, one_self q.gen);
  later = λ g l. omega (arith, v.later g l);
}

retire-IsOneChain : (h : ℕ) (q : Polling) → one (h == q.gen) ≡ 0 → IsShort h q → IsOneChain q
retire-IsOneChain h q e v = record {
  current = omega (arith, v.current, e);
  later = λ g l. omega (arith, v.later g l);
}

IsShort-settle : (h : ℕ) (o : Outcome) (p : Polling) → IsShort h p → IsShort h (settle o p)
IsShort-settle h o p v = record {
  current = rw (gen-settle o p, timer-settle o p, links-settle o p.gen p) v.current;
  later = λ g l. rw (links-settle o g p) (v.later g (rw (← gen-settle o p) l));
}

continue-IsOneChain :
    (h d : ℕ) (q : Polling)
    → IsShort h q
    → IsOneChain (if is_set q.timer && (h == q.gen) then schedule_foreground_tick d q else q)
continue-IsOneChain h d q v = elim (Bool-cases (is_set q.timer && (h == q.gen))) [
  | inl y ↦
      simp y
        (schedule-IsOneChain d q (subst (λ g. IsShort g q) ((==_iff h q.gen).0 (ground arith)) v))
  | inr n ↦ simp n (retire-IsOneChain h q (ground (arith, v.current)) v)
]

finish-IsOneChain :
    (h : ℕ) (m : ℤ) (o : Outcome) (p : Polling) → IsShort h p → IsOneChain (finish h m o p)
unfolding finish
finish-IsOneChain h m o p v =
    continue-IsOneChain h (interval_s m) (settle o p) (IsShort-settle h o p v)

stop-IsShort :
    (h : ℕ) (o : Option ℕ) (p : Polling)
    → p.timer ≡ o
    → one (h == p.gen) ≡ 1
    → IsShort h p
    → IsOneChain (stop_if o p)
unfolding stop_if is_set
stop-IsShort h none p e y v = absurd (omega (arith, v.current, y, ap (λ o. one (is_set o)) e))
stop-IsShort h (some s) p e y v =
    clear-IsOneChain (record p { armed = cancel s p.armed; timer = none; gen = p.gen + 1 })
      (record {
        current =
            omega (arith, count-cancel (p.gen + 1) s p.armed, v.later (p.gen + 1) (omega arith));
        later = λ g l. omega (arith, count-cancel g s p.armed, v.later g (omega arith));
      })

begin-IsOneChain :
    (h : ℕ) (owns : Bool) (p : Polling) → IsShort h p → IsOneChain (begin_tick h owns p)
unfolding begin_tick stop_foreground_gps
begin-IsOneChain h owns p v = elim (Bool-cases (h == p.gen)) [
  | inl y ↦ elim (Bool-cases owns) [
    | inl o ↦ simp (y, o) (stop-IsShort h p.timer p refl (ground arith) v)
    | inr f ↦
        simp (y, f)
          (record { current = omega (arith, v.current); later = λ g l. omega (arith, v.later g l) })
  ]
  | inr n ↦ simp n (retire-IsOneChain h p (ground arith) v)
]

fire-IsOneChain :
    (s : ℕ) (o : Option ℕ) (p : Polling)
    → gen_of s p.armed ≡ o
    → IsOneChain p
    → IsOneChain (fire s o p)
unfolding fire
fire-IsOneChain s none p e v = v
fire-IsOneChain s (some g) p e v = record {
  current = omega (arith, v.current, count-drop_timer g p.gen s p.armed e);
  later = λ h l. omega (arith, v.later h l, count-drop_timer g h s p.armed e);
}

IsShort-fired :
    (h : ℕ) (p : Polling)
    → any (λ x. x == h) p.fired ≡ true
    → IsOneChain p
    → IsShort h (record p { fired = remove h p.fired })
IsShort-fired h p e v = record {
  current = omega (arith, v.current, count-remove h p.gen p.fired e);
  later = λ g l. omega (arith, v.later g l, count-remove h g p.fired e);
}

IsShort-busy :
    (h : ℕ) (p : Polling)
    → any (λ x. x == h) p.busy ≡ true
    → IsOneChain p
    → IsShort h (record p { busy = remove h p.busy })
IsShort-busy h p e v = record {
  current = omega (arith, v.current, count-remove h p.gen p.busy e);
  later = λ g l. omega (arith, v.later g l, count-remove h g p.busy e);
}

step-IsOneChain : (e : Event) (p : Polling) → IsOneChain p → IsOneChain (step e p)
unfolding step apply_foreground_gps start_foreground_gps stop_foreground_gps
step-IsOneChain (applied true) p v = stop_if-IsOneChain p.timer p refl v
step-IsOneChain (applied false) p v = start_if-IsOneChain p.timer p refl v
step-IsOneChain (fires s) p v = fire-IsOneChain s (gen_of s p.armed) p refl v
step-IsOneChain (begins h owns) p v = elim (Bool-cases (any (λ x. x == h) p.fired)) [
  | inl y ↦
      simp y
        (begin-IsOneChain h owns (record p { fired = remove h p.fired }) (IsShort-fired h p y v))
  | inr n ↦ simp n v
]
step-IsOneChain (ends h m o) p v = elim (Bool-cases (any (λ x. x == h) p.busy)) [
  | inl y ↦
      simp y (finish-IsOneChain h m o (record p { busy = remove h p.busy }) (IsShort-busy h p y v))
  | inr n ↦ simp n v
]

-- However the settings are applied, timers fire and ticks take their time: while the app polls, its
-- current chain has exactly one waiting timer or running tick, so polling neither stops nor forks,
-- and while it does not poll, there is none that could set a timer again. Reads of the settings and
-- of the status of the daemons are taken not to raise.
pub run-IsOneChain : (es : List Event) (p : Polling) → IsOneChain p → IsOneChain (run es p)
unfolding run
run-IsOneChain [] p v = v
run-IsOneChain (e ∷ es) p v = run-IsOneChain es (step e p) (step-IsOneChain e p v)
