-- ===== src/Timer/Changes.antt =====
-- Timers that are created, changed and removed between the frames.
use spmod.Common.{
  ℕ, suc, ◌<◌, ◌≡◌, ◌≢◌, ◌↔◌, refl, ap, sym, ◌∙◌, Bool, true, false, ◌||◌, Bool-cases, inl, inr,
  ◌⊎◌, List, [], ◌∷◌, ◌++◌, Option, none, some, arith, length, All, length-append, append-nil,
  append_assoc, ==_iff,
}
use spmod.Timer.{
  FloatOps, Timer, Callbacks, is_at, is_skipped, set_interval, set_pause, create_timer,
  remove_timer, emplaced, exec_timers,
}
use spmod.Timer.Frame.{is_skipped-is_due, exec_timers_lem, outcome, outcomes, call, calls}

module _ {F : Type 0} (ops : FloatOps F) where
  outcomes-append :
      (run : Callbacks F) (now : F) (xs ys : List (Timer F))
      → outcomes ops run now (xs ++ ys) ≡ outcomes ops run now xs ++ outcomes ops run now ys
  outcomes-append run now [] ys = refl
  outcomes-append run now (t ∷ xs) ys = rw (outcomes-append run now xs ys) (
      sym
        (append_assoc (outcome ops run now t) (outcomes ops run now xs) (outcomes ops run now ys)))

  calls-append :
      (run : Callbacks F) (now : F) (xs ys : List (Timer F))
      → calls ops run now (xs ++ ys) ≡ calls ops run now xs ++ calls ops run now ys
  calls-append run now [] ys = refl
  calls-append run now (t ∷ xs) ys =
      rw (calls-append run now xs ys)
        (sym (append_assoc (call ops run now t) (calls ops run now xs) (calls ops run now ys)))

  skipped_lem :
      (run : Callbacks F) (later : F) (fuel : ℕ) (before : List (Timer F)) (u : Timer F)
      (after : List (Timer F))
      → length (before ++ u ∷ after) < fuel
      → is_skipped ops later u ≡ true
      → (i : ℕ) × (exec_timers ops run later fuel (before ++ u ∷ after)
          ≡ some (record {
            iter = i;
            timers = outcomes ops run later before ++ u ∷ outcomes ops run later after;
            called = calls ops run later before ++ calls ops run later after;
          }))
  skipped_lem run later fuel before u after h e =
      let ran = exec_timers_lem ops run later fuel (before ++ u ∷ after) h in
      (
        ran.0,
        ran.1
            ∙ rw
                (
                  outcomes-append run later before (u ∷ after),
                  calls-append run later before (u ∷ after),
                  is_skipped-is_due ops run later u e,
                )
                refl,
      )

  -- The changes that start the wait of a timer anew.
  pub data Restart : Type 0 where
    new_interval : F → Restart
    resume : Restart

  abbrev pub restart : F → Restart → Timer F → Timer F
  restart now (new_interval interval) t = set_interval now interval t
  restart now resume t = set_pause now false t

  or_true : (b : Bool) → (b || true) ≡ true
  or_true true = refl
  or_true false = refl

  restart_skipped :
      (now later : F) (c : Restart) (t : Timer F)
      → FloatOps.less ops later (FloatOps.plus ops now (Timer.interval (restart now c t))) ≡ true
      → is_skipped ops later (restart now c t) ≡ true
  restart_skipped now later (new_interval interval) t h = rw h (or_true t.paused)
  restart_skipped now later resume t h = h

  -- A timer that `setInterval` changed or `setPause(false)` let go on at the time `now`, and that
  -- stands anywhere in the vector, is passed over and kept by a frame that is before `now` plus its
  -- interval, whatever its last execution was before; the other timers are treated as they are
  -- without it. More fuel than there are timers is given.
  pub restarted_waits :
      (run : Callbacks F) (now later : F) (fuel : ℕ) (c : Restart) (before : List (Timer F))
      (t : Timer F) (after : List (Timer F))
      → length (before ++ t ∷ after) < fuel
      → FloatOps.less ops later (FloatOps.plus ops now (Timer.interval (restart now c t))) ≡ true
      → (i : ℕ) × (exec_timers ops run later fuel (before ++ restart now c t ∷ after)
          ≡ some (record {
            iter = i;
            timers =
                outcomes ops run later before ++ restart now c t ∷ outcomes ops run later after;
            called = calls ops run later before ++ calls ops run later after;
          }))
  restarted_waits run now later fuel c before t after h e =
      skipped_lem run later fuel before (restart now c t) after
        (omega (
          arith,
          length-append before (t ∷ after),
          length-append before (restart now c t ∷ after),
          h,
        ))
        (restart_skipped now later c t e)

  abbrev pub handed_out : Option (Timer F) → List (Timer F)
  handed_out none = []
  handed_out (some t) = t ∷ []

  -- `createTimer` gives a null pointer exactly when the interval is not above zero. A frame that is
  -- before the time of the creation plus the interval, with more fuel than there are timers, passes
  -- over a timer that was handed out, which stands behind the others, and treats the others as it
  -- would without the creation.
  pub create_timer_waits :
      (run : Callbacks F) (now later : F) (fuel address : ℕ) (interval : F) (callback : ℕ)
      (pause : Bool) (timers : List (Timer F))
      → suc (length timers) < fuel
      → FloatOps.less ops later (FloatOps.plus ops now interval) ≡ true
      → ((create_timer ops now address interval callback pause timers).0 ≡ none
          ↔ (FloatOps.less_eq ops interval (FloatOps.nought ops) ≡ true))
        × (i : ℕ) × (exec_timers ops run later fuel
              (create_timer ops now address interval callback pause timers).1
            ≡ some (record {
              iter = i;
              timers =
                  outcomes ops run later timers
                  ++ handed_out (create_timer ops now address interval callback pause timers).0;
              called = calls ops run later timers;
            }))
  unfolding create_timer emplaced
  create_timer_waits run now later fuel address interval callback pause timers h e =
      elim (Bool-cases (FloatOps.less_eq ops interval (FloatOps.nought ops))) [
        | inl bad ↦
            let ran = exec_timers_lem ops run later fuel timers (omega arith) in
            rw bad (
              (λ _. refl, λ _. refl),
              ran.0,
              ran.1 ∙ rw (append-nil (outcomes ops run later timers)) refl,
            )
        | inr good ↦
            let t : Timer F = record {
              address = address;
              interval = interval;
              callback = callback;
              paused = pause;
              last_exec = now;
            } in
            let ran =
              skipped_lem run later fuel timers t [] (omega (arith, length-append timers (t ∷ [])))
                (rw e (or_true pause)) in
            rw good
              ((λ c. cc, λ c. cc), ran.0, ran.1 ∙ rw (append-nil (calls ops run later timers)) refl)
      ]

module _ {F : Type 0} where
  -- `removeTimer` of a pointer that no timer has changes nothing; else the first timer that has it
  -- is erased, and all the others stay in their order.
  pub remove_timer_cases :
      (address : ℕ) (timers : List (Timer F))
      → ((All (λ t. t.address ≢ address) timers) × (remove_timer address timers ≡ timers))
        ⊎ ((before : List (Timer F)) × (t : Timer F) × (after : List (Timer F)) × (timers
              ≡ before ++ t ∷ after)
            × (t.address ≡ address)
            × All (λ t'. t'.address ≢ address) before
            × (remove_timer address timers ≡ before ++ after))
  remove_timer_cases address [] = inl (tt, refl)
  remove_timer_cases address (t ∷ timers) = elim (Bool-cases (is_at address t)) [
    | inl e ↦ inr ([], t, timers, refl, (==_iff t.address address).0 e, tt, rw e refl)
    | inr e ↦ elim (remove_timer_cases address timers) [
      | inl (others, same) ↦ inl ((not_at e, others), rw (e, same) refl)
      | inr (before, u, after, split, found, others, rest) ↦
          inr (t ∷ before, u, after, ap (◌∷◌ t) split, found, (not_at e, others), rw (e, rest) refl)
    ]
  ]
    where
      not_at : (is_at address t ≡ false) → t.address ≢ address
      not_at e = ground arith
