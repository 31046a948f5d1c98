-- ===== src/Natives/Timers.antt =====
-- subprojects/sourcepawn/TimerNatives.cpp: the natives of the timers, over the timer manager and the
-- numbers of its timers. The function of the plugin is part of the callbacks of the timers, and the
-- address of a new timer is given.
pub mod Lookup
pub mod Bound
pub mod Live
pub mod Dangling
use spmod.Common.{
  ℕ, ◌-◌, ◌^◌, Bool, true, false, not, List, [], ◌∷◌, Option, none, some, ◌==◌, if◌then◌else◌,
  find_first,
}
use spmod.Dict.{Place}
use spmod.Handles.{TypeHandler, create, get, free}
use spmod.Timer.{
  FloatOps, Timer, Callbacks, create_timer, remove_timer, is_at, exec, set_pause, set_interval,
}

-- The vector of the manager and `gTimerHandlers`.
pub record State (F : Type 0) : Type 0 where
  pub timers : List (Timer F)
  pub handlers : TypeHandler

-- What a native returns, or the message that it reports; `crashed` is the use of a null pointer or of
-- a timer that has been destroyed.
pub data Result (F : Type 0) : Type 0 where
  returned : ℕ → State F → Result F
  returned_float : F → State F → Result F
  reported : State F → Result F
  crashed : Result F

-- A native that asks for the timer of its number first.
pub data Operation (F : Type 0) : Type 0 where
  pause_get interval_get trigger : Operation F
  pause_set : (pause : Bool) → Operation F
  interval_set : (interval : F) → Operation F

-- A call of a native; the address of the new timer stands before the arguments of the constructor.
pub data Native (F : Type 0) : Type 0 where
  timer_ctor : (address : ℕ) (interval : F) (callback : ℕ) (exec pause : Bool) → Native F
  on_number : (id : ℕ) → Operation F → Native F
  remove : (id : ℕ) → Native F

-- The cell -1.
abbrev pub invalid : ℕ
invalid = 2 ^ 32 - 1

abbrev pub of_bool : Bool → ℕ
of_bool true = 1
of_bool false = 0

module _ {F : Type 0} where
  -- A change of the timer at the address.
  unfoldable pub replace : ℕ → Timer F → List (Timer F) → List (Timer F)
  replace address t [] = []
  replace address t (u ∷ us) = if is_at address u then t ∷ us else u ∷ replace address t us

  abbrev pub lookup : ℕ → List (Timer F) → Option (Timer F)
  lookup address timers = find_first (is_at address) timers

  module _ (ops : FloatOps F) (run : Callbacks F) (now : F) (place : Place ℕ (Option ℕ)) where
    numbered : Option ℕ → State F → Result F
    numbered pointer s =
        let (id, handlers) = create place pointer s.handlers in
        returned id (record s { handlers = handlers })

    -- The first execution of a new timer, which `removeTimer` destroys if its callback ends it.
    first_exec : ℕ → Timer F × Bool → State F → Result F
    first_exec address (t, true) s =
        numbered (some address) (record s { timers = replace address t s.timers })
    first_exec address (t, false) s =
        returned invalid (record s { timers = remove_timer address s.timers })

    -- `createTimer` gives a null pointer, and throws nothing, for a bad interval.
    after_create : Bool → Option (Timer F) × List (Timer F) → TypeHandler → Result F
    unfolding numbered first_exec
    after_create true (none, timers) handlers = crashed
    after_create false (none, timers) handlers =
        numbered none (record { timers = timers; handlers = handlers })
    after_create true (some t, timers) handlers =
        first_exec t.address (exec run now t) (record { timers = timers; handlers = handlers })
    after_create false (some t, timers) handlers =
        numbered (some t.address) (record { timers = timers; handlers = handlers })

    triggered : ℕ → ℕ → Timer F × Bool → State F → Result F
    triggered id address (t, true) s = returned 1 (record s { timers = replace address t s.timers })
    triggered id address (t, false) s =
        returned 1
          (record { timers = remove_timer address s.timers; handlers = free place id s.handlers })

    on_timer : ℕ → Operation F → ℕ → Timer F → State F → Result F
    unfolding triggered
    on_timer id pause_get address t s = returned (of_bool t.paused) s
    on_timer id interval_get address t s = returned_float t.interval s
    on_timer id (pause_set pause) address t s =
        returned 1 (record s { timers = replace address (set_pause now pause t) s.timers })
    on_timer id (interval_set interval) address t s =
        if FloatOps.less_eq ops interval (FloatOps.nought ops)
        then reported s
        else returned 1
            (record s { timers = replace address (set_interval now interval t) s.timers })
    on_timer id trigger address t s = triggered id address (exec run now t) s

    -- The pointer of a number is used without a look at the manager.
    at_address : ℕ → Operation F → ℕ → Option (Timer F) → State F → Result F
    unfolding on_timer
    at_address id o address none s = crashed
    at_address id o address (some t) s = on_timer id o address t s

    at_pointer : ℕ → Operation F → Option ℕ → State F → Result F
    unfolding at_address
    at_pointer id o none s = reported s
    at_pointer id o (some address) s = at_address id o address (lookup address s.timers) s

    -- `removeTimer` compares pointers only, and the null pointer is none of them.
    removed : Option ℕ → List (Timer F) → List (Timer F)
    removed none timers = timers
    removed (some address) timers = remove_timer address timers

    unfoldable pub call : Native F → State F → Result F
    unfolding after_create at_pointer removed
    call (timer_ctor address interval callback exec pause) s =
        after_create exec (create_timer ops now address interval callback pause s.timers) s.handlers
    call (on_number id o) s = at_pointer id o (get id s.handlers) s
    call (remove id) s = returned 1 (record {
      timers = removed (get id s.handlers) s.timers;
      handlers = free place id s.handlers;
    })
