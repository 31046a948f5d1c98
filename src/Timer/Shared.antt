-- ===== src/Timer/Shared.antt =====
-- TimerMngr::execTimers of src/TimerSystem.cpp with callbacks that reach every timer, as those of
-- plugins do through the natives of the timers.
use spmod.Common.{
  ap, ℕ, zero, suc, ◌<◌, ◌≡◌, refl, ◌∙◌, Bool, true, false, Bool-cases, inl, inr, List, [], ◌∷◌,
  ◌++◌, Option, none, some, if◌then◌else◌, length, get_elem?, set, erase_at,
}
use spmod.Timer as Own
use spmod.Timer.{
  FloatOps, Timer, Callbacks, exec, is_skipped, Walk, after_call, round, next_round, walk,
}
use spmod.Timer.Frame.{outcomes, calls, exec_timers_lem}

-- What a callback does to the vector, called for the timer at an index of it, and whether that timer
-- stays.
abbrev pub SharedCallbacks : Type 0 → Type 0
SharedCallbacks F = ℕ → (iter : ℕ) → List (Timer F) → List (Timer F) × Bool

module _ {F : Type 0} where
  after_exec : ℕ → Walk F → List (Timer F) × Bool → Walk F
  after_exec address w (timers, true) = record {
    iter = suc w.iter;
    timers = timers;
    called = w.called ++ (address ∷ []);
  }
  after_exec address w (timers, false) = record {
    iter = w.iter;
    timers = erase_at w.iter timers;
    called = w.called ++ (address ∷ []);
  }

  unfoldable pub shared_round : FloatOps F → SharedCallbacks F → F → Timer F → Walk F → Walk F
  unfolding after_exec
  shared_round ops run now t w =
      if is_skipped ops now t
      then record w { iter = suc w.iter }
      else after_exec t.address w
          (run t.callback w.iter (set w.timers w.iter (record t { last_exec = now })))

  unfoldable pub shared_walk : FloatOps F → SharedCallbacks F → F → ℕ → Walk F → Option (Walk F)
  unfolding next_round
  shared_walk ops run now zero w = none
  shared_walk ops run now (suc fuel) w =
      next_round (get_elem? w.timers w.iter) w
        (λ t. shared_walk ops run now fuel (shared_round ops run now t w))

  unfoldable pub exec_timers :
      FloatOps F → SharedCallbacks F → F → ℕ → List (Timer F) → Option (Walk F)
  exec_timers ops run now fuel timers =
      shared_walk ops run now fuel (record { iter = 0; timers = timers; called = [] })

  get_elem?-set :
      (i : ℕ) (ts : List (Timer F)) (t u : Timer F)
      → get_elem? ts i ≡ some t
      → get_elem? (set ts i u) i ≡ some u
  get_elem?-set i [] t u e = absurd cc
  get_elem?-set zero (x ∷ ts) t u e = refl
  get_elem?-set (suc i) (x ∷ ts) t u e = get_elem?-set i ts t u e

  set-set : (i : ℕ) (ts : List (Timer F)) (u v : Timer F) → set (set ts i u) i v ≡ set ts i v
  set-set i [] u v = refl
  set-set zero (x ∷ ts) u v = refl
  set-set (suc i) (x ∷ ts) u v = ap (λ us. x ∷ us) (set-set i ts u v)

  erase_at-set :
      (i : ℕ) (ts : List (Timer F)) (u : Timer F) → erase_at i (set ts i u) ≡ erase_at i ts
  erase_at-set i [] u = refl
  erase_at-set zero (x ∷ ts) u = refl
  erase_at-set (suc i) (x ∷ ts) u = ap (λ us. x ∷ us) (erase_at-set i ts u)

  -- Callbacks that do to their own timer what `own` does, and nothing to the rest of the vector.
  abbrev pub ChangeOwn : SharedCallbacks F → Callbacks F → Type 0
  ChangeOwn run own =
      (c i : ℕ) (ts : List (Timer F)) (t : Timer F)
      → get_elem? ts i ≡ some t
      → run c i ts ≡ (set ts i (own c t).0, (own c t).1)

  module _ (ops : FloatOps F) (run : SharedCallbacks F) (own : Callbacks F) (now : F)
      (only : ChangeOwn run own) where
    after_exec-after_call :
        (t : Timer F) (w : Walk F) (r : Timer F × Bool)
        → after_exec t.address w
            (set (set w.timers w.iter (record t { last_exec = now })) w.iter r.0, r.1)
          ≡ after_call t.address r w
    unfolding after_exec after_call
    after_exec-after_call t w (u, true) =
        rw (set-set w.iter w.timers (record t { last_exec = now }) u) refl
    after_exec-after_call t w (u, false) =
        rw
          (set-set w.iter w.timers (record t { last_exec = now }) u, erase_at-set w.iter w.timers u)
          refl

    shared_round-round :
        (t : Timer F) (w : Walk F)
        → get_elem? w.timers w.iter ≡ some t
        → shared_round ops run now t w ≡ round ops own now t w
    unfolding shared_round round
    shared_round-round t w e = elim (Bool-cases (is_skipped ops now t)) [
      | inl skipped ↦ rw skipped refl
      | inr due ↦
          let t₁ = record t { last_exec = now } in
          let ran =
            only t.callback w.iter (set w.timers w.iter t₁) t₁
              (get_elem?-set w.iter w.timers t t₁ e) in
          rw (due, ran) (after_exec-after_call t w (exec own now t))
    ]

    shared_walk-walk :
        (fuel : ℕ) (w : Walk F) → shared_walk ops run now fuel w ≡ walk ops own now fuel w
    unfolding shared_walk walk next_round
    shared_walk-walk zero w = refl
    shared_walk-walk (suc fuel) w =
        by_timer (get_elem? w.timers w.iter) refl (λ w'. shared_walk-walk fuel w')
      where
        by_timer :
            (o : Option (Timer F))
            → get_elem? w.timers w.iter ≡ o
            → ((w' : Walk F) → shared_walk ops run now fuel w' ≡ walk ops own now fuel w')
            → next_round o w (λ t. shared_walk ops run now fuel (shared_round ops run now t w))
              ≡ next_round o w (λ t. walk ops own now fuel (round ops own now t w))
        by_timer none e rest = refl
        by_timer (some t) e rest =
            ap (shared_walk ops run now fuel) (shared_round-round t w e)
            ∙ rest (round ops own now t w)

    -- If each callback changes no timer but its own and neither creates nor removes one: with more fuel
    -- than there are timers, the loop of `execTimers` ends, and in one walk over the vector it has called
    -- exactly the timers that are not paused and whose last execution plus interval is not after the time
    -- of the frame, each once and in their order. A timer that was passed over is unchanged, one whose
    -- callback returned true is left as the callback left it, and one whose callback returned false is
    -- gone.
    pub exec_timers-outcomes :
        (fuel : ℕ) (timers : List (Timer F))
        → length timers < fuel
        → (i : ℕ) × (exec_timers ops run now fuel timers
            ≡ some (record {
              iter = i;
              timers = outcomes ops own now timers;
              called = calls ops own now timers;
            }))
    unfolding exec_timers Own.exec_timers
    exec_timers-outcomes fuel timers enough =
        let (i, done) = exec_timers_lem ops own now fuel timers enough in
        (i, shared_walk-walk fuel (record { iter = 0; timers = timers; called = [] }) ∙ done)
