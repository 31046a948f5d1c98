-- ===== src/Natives/Cvars/Repeated.antt =====
-- How often the functions of plugins are called on a change.
use spmod.Common.{
  ℕ, zero, suc, ◌+◌, ◌*◌, ◌^◌, ◌≡◌, refl, ap, ◌∙◌, inl, inr, Bool, true, Bool-cases, Bytes,
  bytes_eq, bytes_eq_refl, List, [], ◌∷◌, ◌++◌, map, Option, none, some, arith, ◌==◌, ltb,
  if◌then◌else◌, insert_at, length, ◌&&◌,
}
use spmod.Dict.{bytes_key, find, write}
use spmod.Dict.Laws.{find-write_self}
use spmod.Handles.{get}
use spmod.Cvar.{Cvar, Call, run_callbacks}
use spmod.Cvar as Cvars
use spmod.Natives.Cvars.{
  PluginCallbacks, State, Result, returned, reported, plugin_callback, FunctionCall, functions,
  function_calls, with_function, at_pointer, add_callback,
}

-- How many callbacks are that of the natives.
abbrev pub shared : List ℕ → ℕ
shared [] = 0
shared (c ∷ cs) = if c == plugin_callback then suc (shared cs) else shared cs

-- How many numbers of a list pass a test.
abbrev pub count : (ℕ → Bool) → List ℕ → ℕ
count test [] = 0
count test (f ∷ fs) = if test f then suc (count test fs) else count test fs

-- How often a list of functions has the function `g`, and how many calls are calls of it.
abbrev pub times : ℕ → List ℕ → ℕ
times g = count (λ f. f == g)

abbrev pub calls_of : ℕ → List FunctionCall → ℕ
calls_of g [] = 0
calls_of g (c ∷ cs) = if c.func == g then suc (calls_of g cs) else calls_of g cs

calls_of-append :
    (g : ℕ) (xs ys : List FunctionCall) → calls_of g (xs ++ ys) ≡ calls_of g xs + calls_of g ys
calls_of-append g [] ys = omega arith
calls_of-append g (x ∷ xs) ys = elim (Bool-cases (x.func == g)) [
  | inl its ↦ rw its (omega (arith, calls_of-append g xs ys))
  | inr other ↦ rw other (calls_of-append g xs ys)
]

calls_of-map :
    (g : ℕ) (old new : Bytes) (fs : List ℕ)
    → calls_of g (map (λ f. record { func = f; old_value = old; new_value = new }) fs) ≡ times g fs
calls_of-map g old new [] = refl
calls_of-map g old new (f ∷ fs) = elim (Bool-cases (f == g)) [
  | inl its ↦ rw (its, calls_of-map g old new fs) refl
  | inr other ↦ rw (other, calls_of-map g old new fs) refl
]

module _ (runnable : ℕ → Bool) (g : ℕ) where
  -- The function `g`, if it can be run.
  abbrev pub runs : ℕ → Bool
  runs f = runnable f && f == g

  calls_of-function_calls :
      (key old new : Bytes) (m : PluginCallbacks) (cs : List ℕ)
      → calls_of g (
          function_calls runnable key m
            (map (λ c. record { callback = c; old_value = old; new_value = new }) cs))
        ≡ shared cs * times g (functions runnable key m)
  unfolding function_calls
  calls_of-function_calls key old new m [] = omega arith
  calls_of-function_calls key old new m (c ∷ cs) = elim (Bool-cases (c == plugin_callback)) [
    | inl ours ↦
        let calls =
          function_calls runnable key m
            (map (λ d. record { callback = d; old_value = old; new_value = new }) cs) in
        let mk : ℕ → FunctionCall = λ f. record { func = f; old_value = old; new_value = new } in
        rw ours (
          grind (
            arith,
            calls_of-append g (map mk (functions runnable key m)) calls,
            calls_of-map g old new (functions runnable key m),
            calls_of-function_calls key old new m cs,
          ))
    | inr other ↦ rw other (calls_of-function_calls key old new m cs)
  ]

  inserted :
      (f : ℕ) (fs : List ℕ)
      → times g (if runnable f then f ∷ fs else fs) ≡ times g fs + count runs (f ∷ [])
  inserted f fs = elim (Bool-cases (runnable f)) [
    | inl can ↦ elim (Bool-cases (f == g)) [
      | inl its ↦ rw (can, its) (omega arith)
      | inr other ↦ rw (can, other) (omega arith)
    ]
    | inr cannot ↦ rw cannot (omega arith)
  ]

  times-functions-insert_at :
      (key : Bytes) (f i : ℕ) (m : PluginCallbacks)
      → times g (functions runnable key (insert_at i (key, f) m))
        ≡ times g (functions runnable key m) + count runs (f ∷ [])
  unfolding functions
  times-functions-insert_at key f zero m = rw (bytes_eq_refl key) (inserted f _)
  times-functions-insert_at key f (suc i) [] = rw (bytes_eq_refl key) (inserted f [])
  times-functions-insert_at key f (suc i) ((k, h) ∷ m) =
      let again = times-functions-insert_at key f i m in
      elim (Bool-cases (bytes_eq k key && runnable h)) [
        | inl here ↦ elim (Bool-cases (h == g)) [
          | inl its ↦ rw (here, its) (omega (arith, again))
          | inr other ↦ rw (here, other) again
        ]
        | inr there ↦ rw there again
      ]

count-cons :
    (runnable : ℕ → Bool) (f : ℕ) (fs : List ℕ) (n n' : ℕ)
    → n' ≡ n + count runnable (f ∷ [])
    → n' + count runnable fs ≡ n + count runnable (f ∷ fs)
count-cons runnable f fs n n' e = elim (Bool-cases (runnable f)) [
  | inl can ↦ rw can (omega (arith, (rw can at e)))
  | inr cannot ↦ rw cannot (omega (arith, (rw cannot at e)))
]

shared-snoc : (cs : List ℕ) → shared (cs ++ (plugin_callback ∷ [])) ≡ shared cs + 1
shared-snoc [] = refl
shared-snoc (c ∷ cs) = elim (Bool-cases (c == plugin_callback)) [
  | inl ours ↦ rw ours (omega (arith, shared-snoc cs))
  | inr other ↦ rw other (shared-snoc cs)
]

module _ {E : Type 0} (runnable : ℕ → Bool) (place : Bytes → PluginCallbacks → ℕ) where
  abbrev pub and_then : Result E → (State E → Option (State E)) → Option (State E)
  and_then (returned s) next = next s
  and_then (reported s) next = none

  -- The native is called with each of the functions in turn; `none` if a call reports an error.
  abbrev pub add_all : ℕ → List ℕ → State E → Option (State E)
  add_all id [] s = some s
  add_all id (f ∷ fs) s = and_then (add_callback place id (some f) s) (add_all id fs)

  -- The number stands for the cached variable.
  abbrev pub IsBound : ℕ → ℕ → Cvar → State E → Type 0
  IsBound id address c s =
      (ltb id (2 ^ 31) ≡ true)
      × (get id s.handlers ≡ some address)
      × (find (s.key_of address) s.cvars.cvars ≡ some c)

  -- A change of a variable after the native was called on it with functions of plugins: for each time
  -- that the native was ever called on the variable, every function is called as often as it was given,
  -- if it can be run, so a variable that had no function before calls each of n functions n times.
  pub add_all-function_calls :
      (id address : ℕ) (fs : List ℕ) (c : Cvar) (val : Bytes) (s : State E)
      → IsBound id address c s
      → let key = s.key_of address in
        (s' : State E) × (c' : Cvar) × (add_all id fs s ≡ some s')
        × IsBound id address c' s'
        × ((g : ℕ)
            → calls_of g
                (function_calls runnable key s'.plugin_callbacks (run_callbacks c'.value val c'))
              ≡ (shared c.callbacks + length fs)
                * (times g (functions runnable key s.plugin_callbacks)
                    + count (runs runnable g) fs))
  unfolding add_callback at_pointer with_function Cvars.add_callback
  add_all-function_calls id address [] c val s bound = (
    s,
    c,
    refl,
    bound,
    λ g. grind (
      arith,
      calls_of-function_calls runnable g (s.key_of address) c.value val s.plugin_callbacks
          c.callbacks,
    ),
  )
  add_all-function_calls id address (f ∷ fs) c val s (valid, bound, there) =
      let key = s.key_of address in
      let c1 : Cvar = record c { callbacks = c.callbacks ++ (plugin_callback ∷ []) } in
      let m = insert_at (place key s.plugin_callbacks) (key, f) s.plugin_callbacks in
      let s1 : State E = record s {
        cvars = record s.cvars { cvars = write key c1 s.cvars.cvars };
        plugin_callbacks = m;
      } in
      let (s', c', e, bound', n) =
        add_all-function_calls id address fs c1 val s1
          (valid, bound, find-write_self key c1 c s.cvars.cvars there) in
      let more : shared c1.callbacks + length fs ≡ shared c.callbacks + suc (length fs) =
        omega (arith, shared-snoc c.callbacks) in
      (
        s',
        c',
        rw (valid, bound, there) e,
        bound',
        λ g.
            let able =
              count-cons (runs runnable g) f fs
                (times g (functions runnable key s.plugin_callbacks))
                (times g (functions runnable key m))
                (times-functions-insert_at runnable g key f (place key s.plugin_callbacks)
                  s.plugin_callbacks) in
            n g
            ∙ (ap (λ x. x * (times g (functions runnable key m) + count (runs runnable g) fs)) more
                ∙ ap (λ y. (shared c.callbacks + suc (length fs)) * y) able),
      )
