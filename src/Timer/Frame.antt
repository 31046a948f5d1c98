-- ===== src/Timer/Frame.antt =====
-- What TimerMngr::execTimers does to the timers, and which it calls.
use spmod.Common.{
  not, ◌&&◌, ◌||◌, ap, ℕ, zero, suc, ◌<◌, ◌≡◌, refl, ◌∙◌, Bool, true, false, Bool-cases, inl, inr,
  List, [], ◌∷◌, ◌++◌, some, arith, if◌then◌else◌, length, length-append, append-nil, append_assoc,
  get_elem?_ge, get_elem?-append_length, set-append_length, erase_at-append_length,
}
use spmod.Timer.{
  FloatOps, Timer, Callbacks, exec, is_skipped, Walk, after_call, round, next_round, walk,
  exec_timers, TimerMngr, executed, start_frame,
}

module _ {F : Type 0} (ops : FloatOps F) (run : Callbacks F) (now : F) where
  abbrev pub kept : Timer F × Bool → List (Timer F)
  kept (t, true) = t ∷ []
  kept (t, false) = []

  -- A timer that is not paused and whose last execution plus interval is not after the frame.
  abbrev pub is_due : Timer F → Bool
  is_due t = not t.paused && not (FloatOps.less ops now (FloatOps.plus ops t.last_exec t.interval))

  is_due-is_skipped : (t : Timer F) → is_skipped ops now t ≡ not (is_due t)
  is_due-is_skipped t =
      de_morgan t.paused (FloatOps.less ops now (FloatOps.plus ops t.last_exec t.interval))
    where
      de_morgan : (a b : Bool) → (a || b) ≡ not (not a && not b)
      de_morgan a b = ground arith

  pub is_skipped-is_due : (t : Timer F) → is_skipped ops now t ≡ true → is_due t ≡ false
  is_skipped-is_due t e = ground (arith, is_due-is_skipped t, e)

  -- What is left of a timer after a frame, and whether it was called.
  abbrev pub outcome : Timer F → List (Timer F)
  outcome t = if is_due t then kept (exec run now t) else t ∷ []

  abbrev pub call : Timer F → List ℕ
  call t = if is_due t then t.address ∷ [] else []

  abbrev pub outcomes : List (Timer F) → List (Timer F)
  outcomes [] = []
  outcomes (t ∷ ts) = outcome t ++ outcomes ts

  abbrev pub calls : List (Timer F) → List ℕ
  calls [] = []
  calls (t ∷ ts) = call t ++ calls ts

  -- The walk with the iterator behind the timers that are done.
  at_end_of : List (Timer F) → List (Timer F) → List ℕ → Walk F
  at_end_of done rest c = record { iter = length done; timers = done ++ rest; called = c }

  length-snoc :
      (done : List (Timer F)) (t : Timer F) → suc (length done) ≡ length (done ++ (t ∷ []))
  length-snoc done t = omega (arith, length-append done (t ∷ []))

  after_call_lem :
      (done : List (Timer F)) (t : Timer F) (rest : List (Timer F)) (c : List ℕ)
      (r : Timer F × Bool)
      → after_call t.address r (at_end_of done (t ∷ rest) c)
        ≡ at_end_of (done ++ kept r) rest (c ++ (t.address ∷ []))
  unfolding after_call at_end_of
  after_call_lem done t rest c (t', true) =
      rw (set-append_length done t t' rest, length-snoc done t', append_assoc done (t' ∷ []) rest)
        refl
  after_call_lem done t rest c (t', false) =
      rw (erase_at-append_length done t rest, append-nil done) refl

  round_lem :
      (done : List (Timer F)) (t : Timer F) (rest : List (Timer F)) (c : List ℕ)
      → round ops run now t (at_end_of done (t ∷ rest) c)
        ≡ at_end_of (done ++ outcome t) rest (c ++ call t)
  unfolding round at_end_of
  round_lem done t rest c = elim (Bool-cases (is_due t)) [
    | inl e ↦ rw (is_due-is_skipped t ∙ ap not e, e) (after_call_lem done t rest c (exec run now t))
    | inr e ↦ rw (is_due-is_skipped t ∙ ap not e, e, append-nil c) skipped
  ]
    where
      skipped :
          record (at_end_of done (t ∷ rest) c) { iter = suc (length done) }
          ≡ at_end_of (done ++ (t ∷ [])) rest c
      skipped = rw (length-snoc done t, append_assoc done (t ∷ []) rest) refl

  walk_lem :
      (fuel : ℕ) (done rest : List (Timer F)) (c : List ℕ)
      → length rest < fuel
      → walk ops run now fuel (at_end_of done rest c)
        ≡ some (at_end_of (done ++ outcomes rest) [] (c ++ calls rest))
  unfolding walk next_round at_end_of
  walk_lem zero done rest c h = absurd (omega arith)
  walk_lem (suc fuel) done [] c h =
      rw
        (
          get_elem?_ge (done ++ []) (length done) (omega (arith, length-append done [])),
          append-nil done,
          append-nil c,
        )
        (rw (append-nil done) refl)
  walk_lem (suc fuel) done (t ∷ rest) c h =
      rw (get_elem?-append_length done t rest, round_lem done t rest c)
        (rw (walk_lem fuel (done ++ outcome t) rest (c ++ call t) (omega arith)) (
          rw (append_assoc done (outcome t) (outcomes rest), append_assoc c (call t) (calls rest))
            refl))

  -- For callbacks that change no timer but their own and neither create nor remove one: with more fuel
  -- than there are timers, the loop of `execTimers` ends, and in one walk over the vector it has called
  -- exactly the timers that are not paused and whose last execution plus
  -- interval is not after the time of the frame, each once and in their order. A timer that was
  -- passed over is unchanged, one whose callback returned true is left as the callback left it,
  -- and one whose callback returned false is gone.
  pub exec_timers_lem :
      (fuel : ℕ) (timers : List (Timer F))
      → length timers < fuel
      → (i : ℕ) × (exec_timers ops run now fuel timers
          ≡ some (record { iter = i; timers = outcomes timers; called = calls timers }))
  unfolding exec_timers at_end_of
  exec_timers_lem fuel timers h = (
    length (outcomes timers),
    walk_lem fuel [] timers [] h ∙ rw (append-nil (outcomes timers)) refl,
  )

  -- With more fuel than there are timers: a frame before `m_nextExecution` does nothing; any other
  -- moves `m_nextExecution` to a tenth of a second after the frame, and runs the timers.
  pub start_frame_cases :
      (fuel : ℕ) (m : TimerMngr F)
      → length m.timers < fuel
      → start_frame ops run now fuel m ≡ (
          if FloatOps.less_eq ops m.next_execution now
          then some (
            record {
              timers = outcomes m.timers;
              next_execution = FloatOps.plus ops now (FloatOps.tenth ops);
            },
            calls m.timers,
          )
          else some (m, []))
  unfolding start_frame executed
  start_frame_cases fuel m h = rw ((exec_timers_lem fuel m.timers h).1) refl
