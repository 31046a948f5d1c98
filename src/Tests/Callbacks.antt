-- ===== src/Tests/Callbacks.antt =====
-- Natives that plugins provide, of subprojects/sourcepawn/NativeCallback.cpp: callback 5, whose
-- function adds one to the memory, called by context 1.
use spmod.Common.{
  Bool, ltb, ◌&&◌, ◌%◌, ◌==◌, ℕ, ℤ, pos, ◌≡◌, ◌≢◌, ◌<◌, ◌+◌, ◌*◌, ◌⊎◌, refl, List, [], ◌∷◌, some,
  arith,
}
use spmod.Natives.Callbacks.{
  NativeCallback, Memory, State, returned, invoke, native_get_array_int, native_set_array_int,
  written,
}
use spmod.Natives.Callbacks.Balanced.{invoke-AreBalanced}
use spmod.Natives.Callbacks.Accessed.{inside, IsOutside, native_array_int_cases}

abbrev callback : NativeCallback
callback = record { address = 5; plugin_function = some 9; frames = [] }

abbrev state : State
state = record { callbacks = callback ∷ []; current = []; memory = λ c a. pos (c + a) }

abbrev run : (func : ℕ) → State → ℤ × State
run func s = (pos func, record s { memory = written 0 0 (pos 1) s.memory })

invoke-AreBalanced_example :
    invoke run 5 1 (pos 2 ∷ (pos 40 ∷ (pos 80 ∷ []))) state
    ≡ returned (pos 9) (record state { memory = written 0 0 (pos 1) state.memory })
invoke-AreBalanced_example =
    invoke-AreBalanced run 5 1 2 9 callback (pos 40 ∷ (pos 80 ∷ [])) state (λ f s. (refl, refl))
      refl refl (omega arith)

abbrev args : List ℤ
args = pos 40 ∷ (pos 80 ∷ [])

-- Every context has 50 cells.
abbrev cells : ℕ → ℕ → Bool
cells ctx a = ltb a 200 && a % 4 == 0

native_array_int_cases_example :
    ((m : Memory) × (native_get_array_int cells 2
          (pos 1)
          (pos 100)
          (pos 3)
          (inside 5 1 2 args state)
        ≡ returned (pos 1) (inside 5 1 2 args (record state { memory = m })))
      × ((k : ℕ) → k < 3 → m 2 (100 + 4 * k) ≡ pos (1 + (40 + 4 * k)))
      × ((d x : ℕ) → (d ≢ 2) ⊎ IsOutside 3 100 x → m d x ≡ pos (d + x)))
    × ((m : Memory) × (native_set_array_int cells 2
            (pos 1)
            (pos 100)
            (pos 3)
            (inside 5 1 2 args state)
          ≡ returned (pos 1) (inside 5 1 2 args (record state { memory = m })))
        × ((k : ℕ) → k < 3 → m 1 (40 + 4 * k) ≡ pos (2 + (100 + 4 * k)))
        × ((d x : ℕ) → (d ≢ 1) ⊎ IsOutside 3 40 x → m d x ≡ pos (d + x)))
native_array_int_cases_example =
    native_array_int_cases cells 5 1 2 2 1 40 100 3 callback args state refl (omega arith) refl
      (λ e. absurd (omega (arith, e))) (refl, refl) (refl, refl)
