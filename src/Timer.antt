-- ===== src/Timer.antt =====
-- src/TimerSystem.cpp and .hpp, and the part of StartFramePost of src/dllapi.cpp that runs the
-- timers. The engine's `float` and what the plugins' callbacks do are parameters. Here a callback
-- changes the timer it is given, and in Shared any timer; one that creates or removes timers while
-- `execTimers` walks the vector leaves the iterator dangling, and has no model.
pub mod Frame
pub mod Changes
pub mod Shared
use spmod.Common.{
  ℕ, zero, suc, Bool, true, false, not, ◌||◌, List, [], ◌∷◌, ◌++◌, Option, none, some, ◌==◌,
  if◌then◌else◌, get_elem?, set, erase_at, erase_first, length,
}

-- The operations on `float` that the code uses.
pub record FloatOps (F : Type 0) : Type 0 where
  pub plus : F → F → F
  pub less : F → F → Bool
  pub less_eq : F → F → Bool
  pub nought : F
  pub tenth : F

-- `address` stands for the pointer that the plugins hold.
pub record Timer (F : Type 0) : Type 0 where
  pub address : ℕ
  pub interval : F
  pub callback : ℕ
  pub paused : Bool
  pub last_exec : F

-- What a callback does to its timer, and whether the timer stays. Shared has the loop
-- for callbacks that reach every timer.
abbrev pub Callbacks : Type 0 → Type 0
Callbacks F = ℕ → Timer F → Timer F × Bool

-- Where the loop of `execTimers` stands: the iterator, the vector, and the timers called so far.
pub record Walk (F : Type 0) : Type 0 where
  pub iter : ℕ
  pub timers : List (Timer F)
  pub called : List ℕ

-- The timers and `m_nextExecution`.
pub record TimerMngr (F : Type 0) : Type 0 where
  pub timers : List (Timer F)
  pub next_execution : F

module _ {F : Type 0} where
  -- The constructor; `none` is the exception.
  abbrev pub new_timer : FloatOps F → F → ℕ → F → ℕ → Bool → Option (Timer F)
  new_timer ops now address interval callback pause =
      if FloatOps.less_eq ops interval (FloatOps.nought ops)
      then none
      else some (record {
        address = address;
        interval = interval;
        callback = callback;
        paused = pause;
        last_exec = now;
      })

  abbrev pub set_interval : F → F → Timer F → Timer F
  set_interval now interval t = record t { interval = interval; last_exec = now }

  abbrev pub set_pause : F → Bool → Timer F → Timer F
  set_pause now true t = record t { paused = true }
  set_pause now false t = record t { paused = false; last_exec = now }

  abbrev pub exec : Callbacks F → F → Timer F → Timer F × Bool
  exec run now t = run t.callback (record t { last_exec = now })

  unfoldable pub emplaced : Option (Timer F) → List (Timer F) → Option (Timer F) × List (Timer F)
  emplaced none timers = (none, timers)
  emplaced (some t) timers = (some t, timers ++ (t ∷ []))

  -- `none` is the null pointer.
  unfoldable pub create_timer :
      FloatOps F → F → ℕ → F → ℕ → Bool → List (Timer F) → Option (Timer F) × List (Timer F)
  unfolding emplaced
  create_timer ops now address interval callback pause timers =
      emplaced (new_timer ops now address interval callback pause) timers

  abbrev pub is_at : ℕ → Timer F → Bool
  is_at address t = t.address == address

  abbrev pub remove_timer : ℕ → List (Timer F) → List (Timer F)
  remove_timer address timers = erase_first (is_at address) timers

  abbrev pub clear_timers : List (Timer F) → List (Timer F)
  clear_timers timers = []

  -- The test of `execTimers` that passes a timer over.
  abbrev pub is_skipped : FloatOps F → F → Timer F → Bool
  is_skipped ops now t =
      t.paused || FloatOps.less ops now (FloatOps.plus ops t.last_exec t.interval)

  after_call : ℕ → Timer F × Bool → Walk F → Walk F
  after_call address (t, true) w = record {
    iter = suc w.iter;
    timers = set w.timers w.iter t;
    called = w.called ++ (address ∷ []);
  }
  after_call address (t, false) w = record {
    iter = w.iter;
    timers = erase_at w.iter w.timers;
    called = w.called ++ (address ∷ []);
  }

  -- A round; `gpGlobals->time` is the time that StartFramePost passes.
  unfoldable pub round : FloatOps F → Callbacks F → F → Timer F → Walk F → Walk F
  unfolding after_call
  round ops run now t w =
      if is_skipped ops now t
      then record w { iter = suc w.iter }
      else after_call t.address (exec run now t) w

  next_round : Option (Timer F) → Walk F → (Timer F → Option (Walk F)) → Option (Walk F)
  next_round none w again = some w
  next_round (some t) w again = again t

  -- The loop, with fuel; `none` is a loop that has not ended.
  unfoldable pub walk : FloatOps F → Callbacks F → F → ℕ → Walk F → Option (Walk F)
  unfolding next_round
  walk ops run now zero w = none
  walk ops run now (suc fuel) w =
      next_round (get_elem? w.timers w.iter) w (λ t. walk ops run now fuel (round ops run now t w))

  unfoldable pub exec_timers : FloatOps F → Callbacks F → F → ℕ → List (Timer F) → Option (Walk F)
  exec_timers ops run now fuel timers =
      walk ops run now fuel (record { iter = 0; timers = timers; called = [] })

  executed : F → Option (Walk F) → Option (TimerMngr F × List ℕ)
  executed next none = none
  executed next (some w) = some (record { timers = w.timers; next_execution = next }, w.called)

  -- The part of StartFramePost that runs the timers.
  unfoldable pub start_frame :
      FloatOps F → Callbacks F → F → ℕ → TimerMngr F → Option (TimerMngr F × List ℕ)
  unfolding executed
  start_frame ops run now fuel m =
      if FloatOps.less_eq ops m.next_execution now
      then executed (FloatOps.plus ops now (FloatOps.tenth ops))
          (exec_timers ops run now fuel m.timers)
      else some (m, [])
