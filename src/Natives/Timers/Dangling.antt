-- ===== src/Natives/Timers/Dangling.antt =====
-- The frame removes timers without a look at the numbers of the natives.
use spmod.Common.{
  append-nil, ℕ, ◌<◌, ◌≡◌, ◌≢◌, refl, sym, ◌∙◌, Bool, true, false, Bool-cases, inl, inr, List, [],
  ◌∷◌, ◌++◌, Option, none, some, arith, All, ◌==◌, if_false, length,
}
use spmod.Dict.{Place}
use spmod.Handles.{TypeHandler, get}
use spmod.Timer.{FloatOps, Timer, Walk, Callbacks, exec_timers, exec}
use spmod.Timer.Frame.{kept, is_due, outcome, outcomes, exec_timers_lem}
use spmod.Natives.Timers.{
  State, Result, crashed, Operation, on_number, lookup, at_address, at_pointer, call,
}

-- The calls of a number after the frame; a frame that does not end has none.
abbrev pub after_frame :
    {F : Type 0} → (State F → Result F) → TypeHandler → Option (Walk F) → Option (Result F)
after_frame native handlers none = none
after_frame native handlers (some w) =
    some (native (record { timers = w.timers; handlers = handlers }))

module _ {F : Type 0} (ops : FloatOps F) (run : Callbacks F) (now : F)
    (same : (c : ℕ) (t : Timer F) → (run c t).0.address ≡ t.address) where
  lookup-other :
      (a : ℕ) (ts us : List (Timer F))
      → All (λ t. t.address ≢ a) ts
      → lookup a us ≡ none
      → lookup a (ts ++ us) ≡ none
  lookup-other a [] us away e = e
  lookup-other a (t ∷ ts) us (n, away) e =
      let off : (t.address == a) ≡ false = ground arith in
      if_false _ _ _ off ∙ lookup-other a ts us away e

  outcome-away :
      (a : ℕ) (t : Timer F) → t.address ≢ a → All (λ u. u.address ≢ a) (outcome ops run now t)
  outcome-away a t n = elim (Bool-cases (is_due ops run now t)) [
    | inl due ↦ rw due (kept-away (exec run now t) (same t.callback (record t { last_exec = now })))
    | inr early ↦ rw early (n, tt)
  ]
    where
      kept-away :
          (r : Timer F × Bool)
          → r.0.address ≡ t.address
          → All (λ u. u.address ≢ a) (kept ops run now r)
      kept-away (u, true) e = ((λ q. n (sym e ∙ q)), tt)
      kept-away (u, false) e = tt

  lookup-outcomes :
      (a : ℕ) (ts us : List (Timer F))
      → All (λ t. t.address ≢ a) ts
      → lookup a (outcomes ops run now us) ≡ none
      → lookup a (outcomes ops run now (ts ++ us)) ≡ none
  lookup-outcomes a [] us away e = e
  lookup-outcomes a (t ∷ ts) us (n, away) e =
      lookup-other a (outcome ops run now t) (outcomes ops run now (ts ++ us)) (outcome-away a t n)
        (lookup-outcomes a ts us away e)

  -- A number of a timer whose callback ends it while `execTimers` runs it is not freed: with fuel for
  -- the frame, with callbacks that keep the address of their timer, and with no other timer at its
  -- address, any native that asks for the timer behind the frame uses a timer that has been destroyed.
  pub on_number-exec_timers :
      (place : Place ℕ (Option ℕ)) (fuel id : ℕ) (o : Operation F) (before after : List (Timer F))
      (t : Timer F) (handlers : TypeHandler)
      → get id handlers ≡ some t.address
      → is_due ops run now t ≡ true
      → (exec run now t).1 ≡ false
      → All (λ u. u.address ≢ t.address) before
      → All (λ u. u.address ≢ t.address) after
      → length (before ++ (t ∷ after)) < fuel
      → after_frame
          (call ops run now place (on_number id o))
          handlers
          (exec_timers ops run now fuel (before ++ (t ∷ after)))
        ≡ some crashed
  unfolding call at_pointer at_address
  on_number-exec_timers place fuel id o before after t handlers bound due ended first last enough =
      rw ((exec_timers_lem ops run now fuel (before ++ (t ∷ after)) enough).1, bound, missing) refl
    where
      ended-kept : (r : Timer F × Bool) → r.1 ≡ false → kept ops run now r ≡ []
      ended-kept (u, true) e = absurd cc
      ended-kept (u, false) e = refl

      rest : lookup t.address (outcomes ops run now after) ≡ none
      rest = rw (append-nil after) at (lookup-outcomes t.address after [] last refl)

      missing : lookup t.address (outcomes ops run now (before ++ (t ∷ after))) ≡ none
      missing =
          lookup-outcomes t.address before (t ∷ after) first
            (rw (due, ended-kept (exec run now t) ended) rest)
