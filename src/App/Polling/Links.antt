-- ===== src/App/Polling/Links.antt =====
-- The timers and ticks of a chain, and the start and the end of the polling.
use harbour_find_my_device.Prelude.{
  ℕ, ◌+◌, ◌≤◌, ◌<◌, ◌≡◌, Bool, true, Option, none, some, List, [], ◌∷◌, keep, ◌==◌, arith, any,
  ==_iff, if◌then◌else◌, inl, inr, Bool-cases, ap,
}
use harbour_find_my_device.App.Polling.{
  Timer, Polling, cancel, start_if, stop_if, clear_banner, is_set, remove, gen_of, drop_timer,
  schedule_foreground_tick,
}

abbrev pub one : Bool → ℕ
one b = if b then 1 else 0

abbrev pub occurrences : ℕ → List ℕ → ℕ
occurrences g [] = 0
occurrences g (x ∷ xs) = one (x == g) + occurrences g xs

abbrev pub count_armed : ℕ → List Timer → ℕ
count_armed g [] = 0
count_armed g (t ∷ ts) = one (t.gen == g) + count_armed g ts

-- the timers and ticks of the chain `g`
abbrev pub links : ℕ → Polling → ℕ
links g p = count_armed g p.armed + occurrences g p.fired + occurrences g p.busy

-- The links of the current chain are one or none, and no later chain has any.
pub record IsOneChain (p : Polling) : Type 0 where
  pub current : links p.gen p ≡ one (is_set p.timer)
  pub later : (g : ℕ) → p.gen < g → links g p ≡ 0

pub count-remove :
    (g h : ℕ) (xs : List ℕ)
    → any (λ x. x == g) xs ≡ true
    → occurrences h xs ≡ one (g == h) + occurrences h (remove g xs)
unfolding remove any
count-remove g h [] e = cc
count-remove g h (x ∷ xs) e = elim (Bool-cases (x == g)) [
  | inl y ↦ rw y (omega (arith, ap (λ (n : ℕ). one (n == h)) ((==_iff x g).0 y)))
  | inr n ↦ rw n (omega (arith, count-remove g h xs (ground arith)))
]

pub count-cancel : (g s : ℕ) (ts : List Timer) → count_armed g (cancel s ts) ≤ count_armed g ts
unfolding cancel keep
count-cancel g s [] = omega arith
count-cancel g s (t ∷ ts) = elim (Bool-cases (t.serial == s)) [
  | inl y ↦ rw y (omega (arith, count-cancel g s ts))
  | inr n ↦ rw n (omega (arith, count-cancel g s ts))
]

pub count-drop_timer :
    (g h s : ℕ) (ts : List Timer)
    → gen_of s ts ≡ some g
    → count_armed h ts ≡ one (g == h) + count_armed h (drop_timer s ts)
unfolding gen_of drop_timer
count-drop_timer g h s [] e = cc
count-drop_timer g h s (t ∷ ts) e = elim (Bool-cases (t.serial == s)) [
  | inl y ↦ rw y (ground arith)
  | inr n ↦ rw n (omega (arith, count-drop_timer g h s ts (ground arith)))
]

pub one_self : (g : ℕ) → one (g == g) ≡ 1
one_self g = ground arith

pub one_lt : (g h : ℕ) → g < h → one (g == h) ≡ 0
one_lt g h l = ground arith

pub start_if-IsOneChain :
    (o : Option ℕ) (p : Polling) → p.timer ≡ o → IsOneChain p → IsOneChain (start_if o p)
unfolding start_if schedule_foreground_tick is_set
start_if-IsOneChain none p e v = record {
  current = omega (arith, one_self (p.gen + 1), v.later (p.gen + 1) (omega arith));
  later = λ g l. omega (arith, one_lt (p.gen + 1) g l, v.later g (omega arith));
}
start_if-IsOneChain (some s) p e v = v

pub clear-IsOneChain : (p : Polling) → IsOneChain p → IsOneChain (clear_banner p)
unfolding clear_banner
clear-IsOneChain p v = elim (Bool-cases p.in_failure) [
  | inl y ↦ simp y (record { current = v.current; later = v.later })
  | inr n ↦ simp n v
]

pub stop_if-IsOneChain :
    (o : Option ℕ) (p : Polling) → p.timer ≡ o → IsOneChain p → IsOneChain (stop_if o p)
unfolding stop_if is_set
stop_if-IsOneChain none p e v = v
stop_if-IsOneChain (some s) p e v =
    clear-IsOneChain (record p { armed = cancel s p.armed; timer = none; gen = p.gen + 1 })
      (record {
        current =
            omega (arith, count-cancel (p.gen + 1) s p.armed, v.later (p.gen + 1) (omega arith));
        later = λ g l. omega (arith, count-cancel g s p.armed, v.later g (omega arith));
      })
