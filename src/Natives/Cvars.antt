-- ===== src/Natives/Cvars.antt =====
-- CvarAddCallback of subprojects/sourcepawn/CvarsNatives.cpp, over the numbers and the cached console
-- variables. Whether a function of a plugin can be run is a parameter, and so is the place where
-- `gCvarPluginsCallbacks` puts an element.
pub mod Repeated
pub mod Values
use spmod.Common.{
  ℕ, ◌^◌, ◌≡◌, Bool, true, false, ◌&&◌, Bytes, bytes_eq, List, [], ◌∷◌, ◌++◌, map, Option, none,
  some, ◌==◌, ltb, if◌then◌else◌, insert_at,
}
use spmod.Handles.{TypeHandler, get}
use spmod.Cvar.{Call}
use spmod.Cvar as Cvars

abbrev pub PluginCallbacks : Type 0
PluginCallbacks = List (Bytes × ℕ)

-- The cached variables, `gCvarPluginsCallbacks` with the keys of the variables for their pointers,
-- `gCvarsHandlers`, and the key of the variable behind a pointer.
pub record State (E : Type 0) : Type 0 where
  pub cvars : Cvars.State E
  pub plugin_callbacks : PluginCallbacks
  pub handlers : TypeHandler
  pub key_of : ℕ → Bytes

pub data Result (E : Type 0) : Type 0 where
  returned : State E → Result E
  reported : State E → Result E

-- The number of the callback that the native adds, the same each time: it runs the functions of all
-- plugins.
abbrev pub plugin_callback : ℕ
plugin_callback = 0

-- A call of a function of a plugin.
pub record FunctionCall : Type 0 where
  pub func : ℕ
  pub old_value : Bytes
  pub new_value : Bytes

module _ (runnable : ℕ → Bool) where
  -- `equal_range`, without the functions that cannot be run.
  unfoldable pub functions : Bytes → PluginCallbacks → List ℕ
  functions key [] = []
  functions key ((k, func) ∷ rest) =
      if bytes_eq k key && runnable func then func ∷ functions key rest else functions key rest

  -- What the callbacks of a change run of the functions of plugins.
  unfoldable pub function_calls : Bytes → PluginCallbacks → List Call → List FunctionCall
  function_calls key m [] = []
  function_calls key m (c ∷ calls) =
      if c.callback == plugin_callback
      then map (λ f. record { func = f; old_value = c.old_value; new_value = c.new_value })
          (functions key m)
        ++ function_calls key m calls
      else function_calls key m calls

module _ {E : Type 0} (place : Bytes → PluginCallbacks → ℕ) where
  with_function : Bytes → Option ℕ → State E → Result E
  with_function key none s = returned s
  with_function key (some func) s = returned (record s {
    cvars = Cvars.add_callback key plugin_callback s.cvars;
    plugin_callbacks = insert_at (place key s.plugin_callbacks) (key, func) s.plugin_callbacks;
  })

  at_pointer : Option ℕ → Option ℕ → State E → Result E
  unfolding with_function
  at_pointer none func s = reported s
  at_pointer (some address) func s = with_function (s.key_of address) func s

  -- A cell below 0 is one from 2 ^ 31 on.
  unfoldable pub add_callback : ℕ → Option ℕ → State E → Result E
  unfolding at_pointer
  add_callback id func s =
      if ltb id (2 ^ 31) then at_pointer (get id s.handlers) func s else reported s
