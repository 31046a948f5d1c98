-- ===== src/Natives/Timers/Live.antt =====
-- The natives of the timers keep every number bound to a timer that exists.
use mathlib.Core.Path.{subst}
use spmod.Natives.Timers.Lookup.{
  lookup-address, lookup-replace, lookup-remove_timer, lookup-append, lookup-snoc,
}
use spmod.Natives.Timers.Bound.{
  IsLive, IsHeld, IsNew, some_ne, timers-IsLive, numbered-IsLive, freed-IsLive,
}
use spmod.Common.{
  ℕ, ◌≡◌, ◌≢◌, ◌⊎◌, inl, inr, refl, ap, sym, ◌∙◌, Bool, true, false, Bool-cases, List, [], ◌∷◌,
  ◌++◌, Option, none, some, if◌then◌else◌,
}
use spmod.Dict.{Place}
use spmod.Handles.{get, free}
use spmod.Handles.Numbers.{free-none}
use spmod.Timer.{
  FloatOps, Timer, Callbacks, create_timer, emplaced, remove_timer, exec, set_pause, set_interval,
}
use spmod.Natives.Timers.{
  State, Result, returned, returned_float, reported, crashed, Operation, pause_get, interval_get,
  trigger, pause_set, interval_set, Native, timer_ctor, on_number, remove, replace, lookup,
  numbered, first_exec, after_create, triggered, on_timer, at_address, at_pointer, removed, call,
}

module _ {F : Type 0} where
  abbrev pub KeepsLive : Result F → Type 0
  KeepsLive (returned n s) = IsLive s
  KeepsLive (returned_float x s) = IsLive s
  KeepsLive (reported s) = IsLive s
  KeepsLive crashed = ⊥

  module _ (ops : FloatOps F) (run : Callbacks F) (now : F) (place : Place ℕ (Option ℕ)) where
    -- The address of a new timer is that of no other, and a timer with a bad interval is not executed
    -- at once.
    abbrev pub IsSafe : Native F → State F → Type 0
    IsSafe (timer_ctor address interval callback exec' pause) s =
        ((FloatOps.less_eq ops interval (FloatOps.nought ops) ≡ false) ⊎ (exec' ≡ false))
        × (lookup address s.timers ≡ none)
    IsSafe (on_number id o) s = Unit
    IsSafe (remove id) s = Unit

    replace-IsLive :
        (a : ℕ) (t : Timer F) (s : State F)
        → t.address ≡ a
        → IsLive s
        → IsLive (record s { timers = replace a t s.timers })
    replace-IsLive a t s at live =
        timers-IsLive s (replace a t s.timers) (λ b u e. lookup-replace a b t u s.timers at e) live

    on_number-KeepsLive :
        (id : ℕ) (o : Operation F) (s : State F)
        → ((c : ℕ) (t : Timer F) → (run c t).0.address ≡ t.address)
        → IsLive s
        → KeepsLive (at_pointer ops run now place id o (get id s.handlers) s)
    unfolding at_pointer at_address on_timer triggered
    on_number-KeepsLive id o s same live = elim (live.0 id) [
      | inl unused ↦ rw unused live
      | inr (a, t, used, there) ↦
          let at = lookup-address a s.timers t there in
          subst (λ p. KeepsLive (at_pointer ops run now place id o p s)) (sym used)
            (subst (λ p. KeepsLive (at_address ops run now place id o a p s)) (sym there)
              (by_operation o a t used at))
    ]
      where
        by_operation :
            (o' : Operation F) (a : ℕ) (t : Timer F)
            → get id s.handlers ≡ some a
            → t.address ≡ a
            → KeepsLive (on_timer ops run now place id o' a t s)
        by_operation pause_get a t used at = live
        by_operation interval_get a t used at = live
        by_operation (pause_set true) a t used at =
            replace-IsLive a (set_pause now true t) s at live
        by_operation (pause_set false) a t used at =
            replace-IsLive a (set_pause now false t) s at live
        by_operation (interval_set interval) a t used at =
            elim (Bool-cases (FloatOps.less_eq ops interval (FloatOps.nought ops))) [
              | inl bad ↦ rw bad live
              | inr good ↦ rw good (replace-IsLive a (set_interval now interval t) s at live)
            ]
        by_operation trigger a t used at =
            by_call (exec run now t) (same t.callback (record t { last_exec = now }))
          where
            by_call :
                (r : Timer F × Bool)
                → r.0.address ≡ t.address
                → KeepsLive (triggered ops run now place id a r s)
            by_call (t', true) e = replace-IsLive a t' s (e ∙ at) live
            by_call (t', false) e = freed-IsLive place id a s used live

    remove-KeepsLive :
        (id : ℕ) (s : State F) → IsLive s → KeepsLive (call ops run now place (remove id) s)
    unfolding call removed
    remove-KeepsLive id s live = by_pointer (get id s.handlers) refl
      where
        by_pointer :
            (p : Option ℕ)
            → get id s.handlers ≡ p
            → IsLive (record {
              timers = removed ops run now place p s.timers;
              handlers = free place id s.handlers;
            })
        by_pointer none e = rw (free-none place id s.handlers e) live
        by_pointer (some a) e = freed-IsLive place id a s e live

    nobody :
        (b : ℕ) (s : State F)
        → lookup b s.timers ≡ none
        → IsLive s
        → (j : ℕ) → get j s.handlers ≢ some b
    nobody b s missing (held, own, valid) j used = by_number (held j)
      where
        by_number : IsHeld s j → ⊥
        by_number (inl unused) = some_ne used unused
        by_number (inr (a, t, used', there)) =
            let same : some a ≡ some b = sym used' ∙ used in
            some_ne there (ap (λ o. lookup (value_or o) s.timers) same ∙ missing)
          where
            value_or : Option ℕ → ℕ
            value_or none = 0
            value_or (some n) = n

    -- A new timer stands behind those that were there.
    emplaced-IsLive :
        (t : Timer F) (s : State F)
        → lookup t.address s.timers ≡ none
        → IsLive s
        → let s' : State F = record s { timers = s.timers ++ (t ∷ []) } in
          IsLive s' × IsNew (some t.address) s'
    emplaced-IsLive t s missing live =
        let (u, there) = lookup-snoc s.timers t in
        (
          timers-IsLive s (s.timers ++ (t ∷ []))
              (λ b v e. (v, lookup-append b s.timers (t ∷ []) v e)) live,
          inr (t.address, u, refl, there, nobody t.address s missing live),
        )

    first_exec-KeepsLive :
        (t : Timer F) (r : Timer F × Bool) (s : State F)
        → r.0.address ≡ t.address
        → lookup t.address s.timers ≡ none
        → IsLive s
        → KeepsLive
            (first_exec ops run now place t.address r (record s { timers = s.timers ++ (t ∷ []) }))
    unfolding first_exec numbered
    first_exec-KeepsLive t (t', true) s at missing live =
        let timers : List (Timer F) = s.timers ++ (t ∷ []) in
        let (live', new') = emplaced-IsLive t s missing live in
        let (u, there) = lookup-snoc s.timers t in
        let (u', there') = lookup-replace t.address t.address t' u timers at there in
        numbered-IsLive place (some t.address) (record s { timers = replace t.address t' timers })
          (inr (t.address, u', refl, there', nobody t.address s missing live))
          (replace-IsLive t.address t' (record s { timers = timers }) at live')
    first_exec-KeepsLive t (t', false) s at missing live =
        timers-IsLive s (remove_timer t.address (s.timers ++ (t ∷ []))) still live
      where
        apart : (b : ℕ) (v : Timer F) → lookup b s.timers ≡ some v → t.address ≢ b
        apart b v e q = some_ne e (rw (← q) missing)

        still :
            (b : ℕ) (v : Timer F)
            → lookup b s.timers ≡ some v
            → (v' : Timer F) × (lookup b (remove_timer t.address (s.timers ++ (t ∷ []))) ≡ some v')
        still b v e = (
          v,
          lookup-remove_timer t.address b (s.timers ++ (t ∷ [])) (apart b v e)
              ∙ lookup-append b s.timers (t ∷ []) v e,
        )

    ctor-KeepsLive :
        (address : ℕ) (interval : F) (callback : ℕ) (exec' pause : Bool) (s : State F)
        → ((c : ℕ) (t : Timer F) → (run c t).0.address ≡ t.address)
        → IsLive s
        → IsSafe (timer_ctor address interval callback exec' pause) s
        → KeepsLive (call ops run now place (timer_ctor address interval callback exec' pause) s)
    unfolding call create_timer emplaced after_create numbered
    ctor-KeepsLive address interval callback exec' pause s same live (safe, missing) =
        by_interval (FloatOps.less_eq ops interval (FloatOps.nought ops)) refl
      where
        timer : Timer F
        timer = record {
          address = address;
          interval = interval;
          callback = callback;
          paused = pause;
          last_exec = now;
        }

        by_exec :
            (b : Bool)
            → KeepsLive
                (after_create ops run now place b (some timer, s.timers ++ (timer ∷ [])) s.handlers)
        by_exec true =
            first_exec-KeepsLive timer (exec run now timer) s (same callback timer) missing live
        by_exec false =
            let (live', new') = emplaced-IsLive timer s missing live in
            numbered-IsLive place (some address) (record s { timers = s.timers ++ (timer ∷ []) })
              new' live'

        by_bad :
            (b : Bool)
            → b ≡ false
            → KeepsLive (after_create ops run now place b (none, s.timers) s.handlers)
        by_bad true e = absurd cc
        by_bad false e = numbered-IsLive place none s (inl refl) live

        by_interval :
            (bad : Bool)
            → FloatOps.less_eq ops interval (FloatOps.nought ops) ≡ bad
            → KeepsLive (
                after_create ops run now place exec'
                  (emplaced (if bad then none else some timer) s.timers)
                  s.handlers)
        by_interval true e = elim safe [
          | inl good ↦ absurd (both e good)
          | inr never ↦ by_bad exec' never
        ]
          where
            both : {b : Bool} → b ≡ true → b ≡ false → ⊥
            both x y = cc
        by_interval false e = by_exec exec'

    -- A call of a native of the timers, with a new timer at an address of its own and no execution of
    -- a new timer whose interval is not above 0, neither uses a null pointer nor a timer that has been
    -- destroyed, if every number in use stands for a timer of the manager, no two for the same one, and
    -- the numbers are valid; the state behind the call is again like that. The callbacks keep the
    -- address of their timer.
    pub call-IsLive :
        (native : Native F) (s : State F)
        → ((c : ℕ) (t : Timer F) → (run c t).0.address ≡ t.address)
        → IsLive s
        → IsSafe native s
        → KeepsLive (call ops run now place native s)
    unfolding call
    call-IsLive (timer_ctor address interval callback exec' pause) s same live safe =
        ctor-KeepsLive address interval callback exec' pause s same live safe
    call-IsLive (on_number id o) s same live safe = on_number-KeepsLive id o s same live
    call-IsLive (remove id) s same live safe = remove-KeepsLive id s live
