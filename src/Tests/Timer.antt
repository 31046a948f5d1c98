-- ===== src/Tests/Timer.antt =====
-- Timers of src/TimerSystem.cpp, with natural numbers of tenths of a second for `float`.
use spmod.Common.{
  ℕ, zero, suc, ◌+◌, ◌≡◌, Bool, true, false, List, [], ◌∷◌, none, some, refl, get_elem?, set, arith,
  ltb, leb,
}
use spmod.Timer.{FloatOps, Timer, Callbacks}
use spmod.Timer.Shared.{SharedCallbacks, exec_timers, exec_timers-outcomes}

abbrev pub tenths : FloatOps ℕ
tenths = record { plus = λ a b. a + b; less = ltb; less_eq = leb; nought = 0; tenth = 1 }

-- The callback 0 keeps its timer, all others end theirs.
abbrev pub run : Callbacks ℕ
run zero t = (t, true)
run (suc k) t = (t, false)

abbrev pub timer : ℕ → ℕ → ℕ → Bool → ℕ → Timer ℕ
timer address interval callback paused last_exec = record {
  address = address;
  interval = interval;
  callback = callback;
  paused = paused;
  last_exec = last_exec;
}

-- Due and kept, not due, due and ended, paused.
abbrev four : List (Timer ℕ)
four =
    timer 1 5 0 false 0 ∷ (timer 2 50 0 false 0 ∷ (timer 3 5 1 false 4 ∷ (timer 4 1 0 true 0 ∷ [])))

abbrev after_ten : List (Timer ℕ)
after_ten = timer 1 5 0 false 10 ∷ (timer 2 50 0 false 0 ∷ (timer 4 1 0 true 0 ∷ []))

-- The same callbacks, for the whole vector.
abbrev shared : SharedCallbacks ℕ
shared c i ts = elim (get_elem? ts i) [
  | none ↦ (ts, true)
  | some t ↦ (set ts i (run c t).0, (run c t).1)
]

exec_timers-outcomes_example :
    (i : ℕ) × (exec_timers tenths shared 10 5 four
      ≡ some (record { iter = i; timers = after_ten; called = 1 ∷ (3 ∷ []) }))
exec_timers-outcomes_example =
    exec_timers-outcomes tenths shared run 10 (λ c i ts t e. rw (shared, e) refl) 5 four
      (omega arith)
