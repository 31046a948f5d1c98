-- ===== src/Natives/Timers/Bound.antt =====
-- The numbers and the timers they stand for: a timer changes, a number is given, a number is freed.
use spmod.Natives.Timers.Lookup.{lookup-remove_timer}
use spmod.Common.{ℕ, ◌≡◌, ◌≢◌, ◌⊎◌, inl, inr, ap, sym, ◌∙◌, Option-cases, List, Option, none, some}
use spmod.Dict.{Place}
use spmod.Handles.{TypeHandler, create, get, free}
use spmod.Handles.Numbers.{IsValid, create-IsValid, free-IsValid}
use spmod.Timer.{Timer, remove_timer}
use spmod.Natives.Timers.{State, lookup}

-- No two numbers stand for the same timer.
abbrev pub IsOwn : TypeHandler → ℕ → ℕ → Type 0
IsOwn h i j = (i ≡ j) ⊎ (get i h ≡ none) ⊎ (get i h ≢ get j h)

pub some_ne : {A : Type 0} {o : Option A} {a : A} → o ≡ some a → o ≡ none → ⊥
some_ne x y = cc

module _ {F : Type 0} where
  -- The number stands for nothing, or for a timer of the manager.
  abbrev pub IsHeld : State F → ℕ → Type 0
  IsHeld s j =
      (get j s.handlers ≡ none)
      ⊎ ((a : ℕ) × (t : Timer F) × (get j s.handlers ≡ some a) × (lookup a s.timers ≡ some t))

  abbrev pub IsLive : State F → Type 0
  IsLive s = ((j : ℕ) → IsHeld s j) × ((i j : ℕ) → IsOwn s.handlers i j) × IsValid s.handlers

  -- The timers change, and every address that was found still is.
  pub timers-IsLive :
      (s : State F) (ts : List (Timer F))
      → ((b : ℕ) (u : Timer F)
          → lookup b s.timers ≡ some u
          → (u' : Timer F) × (lookup b ts ≡ some u'))
      → IsLive s
      → IsLive (record s { timers = ts })
  timers-IsLive s ts still (held, own, valid) = (held', own, valid)
    where
      held' : (j : ℕ) → IsHeld (record s { timers = ts }) j
      held' j = elim (held j) [
        | inl unused ↦ inl unused
        | inr (a, t, used, there) ↦ let (t', there') = still a t there in inr (a, t', used, there')
      ]

  -- A pointer that a number may get: null, or of a timer that has no number.
  abbrev pub IsNew : Option ℕ → State F → Type 0
  IsNew p s =
      (p ≡ none)
      ⊎ ((a : ℕ) × (t : Timer F) × (p ≡ some a)
          × (lookup a s.timers ≡ some t)
          × ((j : ℕ) → get j s.handlers ≢ some a))

  pub numbered-IsLive :
      (place : Place ℕ (Option ℕ)) (p : Option ℕ) (s : State F)
      → IsNew p s
      → IsLive s
      → IsLive (record s { handlers = (create place p s.handlers).1 })
  numbered-IsLive place p s new (held, own, valid) =
      (held', own', (create-IsValid place p s.handlers valid).0)
    where
      h' : TypeHandler
      h' = (create place p s.handlers).1

      id : ℕ
      id = (create place p s.handlers).0

      bound : get id h' ≡ p
      bound = (create-IsValid place p s.handlers valid).2

      others : (j : ℕ) → (id ≡ j) ⊎ (get j h' ≡ get j s.handlers)
      others = (create-IsValid place p s.handlers valid).3

      held' : (j : ℕ) → IsHeld (record s { handlers = h' }) j
      held' j = elim (others j) [
        | inl same ↦ elim new [
          | inl null ↦ inl (rw (← same) (bound ∙ null))
          | inr (a, t, is, there, unused) ↦ inr (a, t, rw (← same) (bound ∙ is), there)
        ]
        | inr e ↦ elim (held j) [
          | inl unused ↦ inl (e ∙ unused)
          | inr (a, t, used, there) ↦ inr (a, t, e ∙ used, there)
        ]
      ]

      own' : (i j : ℕ) → IsOwn h' i j
      own' i j = elim (others i) [
        | inl x ↦ elim (others j) [
          | inl y ↦ inl (sym x ∙ y)
          | inr f ↦ elim new [
            | inl null ↦ inr (inl (rw (← x) (bound ∙ null)))
            | inr (a, t, is, there, unused) ↦
                inr (inr (λ q. unused j (sym f ∙ (sym q ∙ rw (← x) (bound ∙ is)))))
          ]
        ]
        | inr e ↦ elim (others j) [
          | inl y ↦ elim new [
            | inl null ↦ elim (Option-cases (get i h')) [
              | inl free' ↦ inr (inl free')
              | inr (a, used) ↦ inr (inr (λ q. (some_ne used (q ∙ rw (← y) (bound ∙ null)))))
            ]
            | inr (a, t, is, there, unused) ↦
                inr (inr (λ q. unused i (sym e ∙ (q ∙ rw (← y) (bound ∙ is)))))
          ]
          | inr f ↦ elim (own i j) [
            | inl x ↦ inl x
            | inr (inl unused) ↦ inr (inl (e ∙ unused))
            | inr (inr apart) ↦ inr (inr (λ q. apart (sym e ∙ (q ∙ f))))
          ]
        ]
      ]

  -- A number is freed and its timer removed.
  pub freed-IsLive :
      (place : Place ℕ (Option ℕ)) (id a : ℕ) (s : State F)
      → get id s.handlers ≡ some a
      → IsLive s
      → IsLive (record { timers = remove_timer a s.timers; handlers = free place id s.handlers })
  freed-IsLive place id a s bound (held, own, valid) =
      (held', own', (free-IsValid place id s.handlers valid).0)
    where
      h' : TypeHandler
      h' = free place id s.handlers

      gone : get id h' ≡ none
      gone = (free-IsValid place id s.handlers valid).1

      others : (j : ℕ) → (id ≡ j) ⊎ (get j h' ≡ get j s.handlers)
      others = (free-IsValid place id s.handlers valid).2

      held' : (j : ℕ) → IsHeld (record { timers = remove_timer a s.timers; handlers = h' }) j
      held' j = elim (others j) [
        | inl same ↦ inl (rw (← same) gone)
        | inr e ↦ elim (held j) [
          | inl unused ↦ inl (e ∙ unused)
          | inr (b, t, used, there) ↦ elim (own id j) [
            | inl same ↦ inl (rw (← same) gone)
            | inr (inl unused) ↦ absurd (some_ne bound unused)
            | inr (inr apart) ↦ inr (
              b,
              t,
              e ∙ used,
              lookup-remove_timer a b s.timers (λ q. apart (bound ∙ (ap some q ∙ sym used)))
                  ∙ there,
            )
          ]
        ]
      ]

      own' : (i j : ℕ) → IsOwn h' i j
      own' i j = elim (others i) [
        | inl x ↦ inr (inl (rw (← x) gone))
        | inr e ↦ elim (others j) [
          | inl y ↦ elim (Option-cases (get i h')) [
            | inl free' ↦ inr (inl free')
            | inr (b, used) ↦ inr (inr (λ q. (some_ne used (q ∙ rw (← y) gone))))
          ]
          | inr f ↦ elim (own i j) [
            | inl x ↦ inl x
            | inr (inl unused) ↦ inr (inl (e ∙ unused))
            | inr (inr apart) ↦ inr (inr (λ q. apart (sym e ∙ (q ∙ f))))
          ]
        ]
      ]
