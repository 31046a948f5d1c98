-- ===== src/Natives/Forwards/Delivered.antt =====
-- A forward that is filled and executed through its number.
use spmod.Common.{ℕ, ◌≡◌, ◌≢◌, ℤ, Bool, false, List, [], ◌∷◌, Option, none, some, ◌==◌}
use spmod.Dict.{nat_key, find}
use spmod.Handles.{get}
use spmod.Forward.{Forward}
use spmod.Natives.Forwards.{
  State, Result, returned, executed, reported, crashed, PushNative, push_native, invalid, call,
}

module _ {W : Type 0} (run : ℕ → Forward → ℤ → Bool → W → ℤ × Bool × W) (dummy : Bool) where
  -- The state behind a native; one that crashes leaves none.
  abbrev pub state_of : Result W → Option (State W)
  state_of (returned done s) = some s
  state_of (executed result s) = some s
  state_of (reported s) = some s
  state_of crashed = none

  abbrev pub and_then : Option (State W) → (State W → Option (State W)) → Option (State W)
  and_then none next = none
  and_then (some s) next = next s

  -- The natives that push, one after another.
  abbrev pub call_all : ℕ → List PushNative → State W → Option (State W)
  call_all id [] s = some s
  call_all id (n ∷ ns) s =
      and_then (state_of (call run dummy id (push_native n) s)) (call_all id ns)

  -- The number stands for the forward at the address.
  abbrev pub IsBound : ℕ → ℕ → Forward → State W → Type 0
  IsBound id address f s =
      ((id == invalid) ≡ false)
      × (get id s.handlers ≡ some address)
      × (find address s.forwards ≡ some f)

  -- Nothing but the forward at the address has changed.
  abbrev pub IsSame : ℕ → State W → State W → Type 0
  IsSame address s s' =
      (s'.handlers ≡ s.handlers)
      × (s'.callbacks ≡ s.callbacks)
      × ((k : ℕ) → address ≢ k → find k s'.forwards ≡ find k s.forwards)

  -- What the native of the execution answers, with the state behind it.
  abbrev pub IsExecuted : ℕ → Forward → ℤ → W → State W → Result W → Type 0
  IsExecuted address f result w s r =
      (s' : State W) × (r ≡ executed (some result) s')
      × (find address s'.forwards ≡ some f)
      × (s'.world ≡ w)
      × IsSame address s s'
