-- ===== src/Tests/Natives.antt =====
-- Numbers and natives of timers.
use spmod.Common.{ℕ, zero, suc, ◌≡◌, ◌⊎◌, refl, false, [], ◌∷◌, Option, none, some, inl, inr, arith}
use spmod.Dict.{Place, find, assign}
use spmod.Handles.{TypeHandler, create, get, free}
use spmod.Handles.Numbers.{IsValid, create-IsValid, free-IsValid}
use spmod.Timer.{Timer, exec_timers, create_timer}
use spmod.Natives.Timers.{State, crashed, trigger, pause_get, timer_ctor, on_number, call}
use spmod.Natives.Timers.Bound.{IsLive}
use spmod.Natives.Timers.Live.{KeepsLive, call-IsLive}
use spmod.Natives.Timers.Dangling.{after_frame, on_number-exec_timers}
use spmod.Tests.Timer.{tenths, run, timer}

abbrev first : Place ℕ (Option ℕ)
first k d = 0

abbrev no_handles : TypeHandler
no_handles = record { handlers = []; free_ids = [] }

no_handles-IsValid : IsValid no_handles
unfolding find
no_handles-IsValid = ((λ j. inr (refl, omega arith)), tt, tt)

-- Two pointers, of which the first is freed.
abbrev two : TypeHandler
two = (create first (some 7) (create first (some 5) no_handles).1).1

abbrev one_left : TypeHandler
one_left = free first 0 two

one_left-IsValid : IsValid one_left
one_left-IsValid =
    (free-IsValid first 0 two
      (create-IsValid first (some 7) (create first (some 5) no_handles).1
        (create-IsValid first (some 5) no_handles no_handles-IsValid).0).0).0

create-IsValid_example :
    IsValid (create first (some 9) one_left).1
    × (get 0 one_left ≡ none)
    × (get 0 (create first (some 9) one_left).1 ≡ some 9)
    × ((j : ℕ) → (0 ≡ j) ⊎ (get j (create first (some 9) one_left).1 ≡ get j one_left))
unfolding create free get find assign
create-IsValid_example = create-IsValid first (some 9) one_left one_left-IsValid

run-address : (c : ℕ) (t : Timer ℕ) → (run c t).0.address ≡ t.address
run-address zero t = refl
run-address (suc k) t = refl

abbrev no_timers : State ℕ
no_timers = record { timers = []; handlers = no_handles }

no_timers-IsLive : IsLive no_timers
unfolding get find
no_timers-IsLive = ((λ j. inl refl), (λ i j. inr (inl refl)), no_handles-IsValid)

-- A timer at the address 5 with the number 0.
abbrev one_timer : State ℕ
one_timer = record {
  timers = timer 5 3 1 false 10 ∷ [];
  handlers = record { handlers = (0, some 5) ∷ []; free_ids = [] };
}

one_timer-IsLive : IsLive one_timer
unfolding call create_timer create assign find
one_timer-IsLive =
    call-IsLive tenths run 10 first (timer_ctor 5 3 1 false false) no_timers run-address
      no_timers-IsLive (inl refl, refl)

call-IsLive_example : KeepsLive (call tenths run 20 first (on_number 0 trigger) one_timer)
call-IsLive_example =
    call-IsLive tenths run 20 first (on_number 0 trigger) one_timer run-address one_timer-IsLive tt

on_number-exec_timers_example :
    after_frame
      (call tenths run 10 first (on_number 0 pause_get))
      one_timer.handlers
      (exec_timers tenths run 10 3 (timer 1 5 0 false 0 ∷ (timer 5 3 1 false 0 ∷ [])))
    ≡ some crashed
unfolding get find
on_number-exec_timers_example =
    on_number-exec_timers tenths run 10 run-address first 3 0 pause_get (timer 1 5 0 false 0 ∷ [])
      [] (timer 5 3 1 false 0) one_timer.handlers refl refl refl ((λ e. absurd cc), tt) tt
      (omega arith)
