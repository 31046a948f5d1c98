-- ===== src/Natives/Cvars/Values.antt =====
-- The other natives of subprojects/sourcepawn/CvarsNatives.cpp: the numbers of console variables, and
-- their names, values and flags. The cached variable behind a pointer has a key, and a key a pointer.
-- The conversions between texts and numbers are parameters.
pub mod Numbered
use spmod.Common.{
  ℕ, ◌+◌, ◌-◌, ◌^◌, ◌≡◌, Bool, true, false, Bytes, List, [], ◌∷◌, Option, none, some, ◌==◌,
  if◌then◌else◌,
}
use spmod.Dict.{Dict, Place, bytes_key, find}
use spmod.Handles.{TypeHandler, create, get, get_key}
use spmod.Cvar as Cvars
use spmod.Cvar.{Cvar, EngineCvars, register_cvar, find_cvar, set_value, set_flags}
use spmod.Natives.Cvars.{State}
use spmod.Natives.Packed.{is_negative, to_size}
use spmod.Utils.Copy.{str_copy}
use spmod.Utils.View.{whole}

-- `crashed` is the use of a variable that is not cached any more, a write out of a buffer, or a hook
-- that calls itself without end.
pub data Answer (E : Type 0) : Type 0 where
  returned : ℕ → State E → Answer E
  returned_text : ℕ → Bytes → State E → Answer E
  reported : State E → Answer E
  crashed : Answer E

-- The engine's operations, the place of a new entry in each table, whether ReHLDS is there with the
-- fuel of its hook, and the pointer of a key.
pub record Setting (E : Type 0) : Type 0 where
  pub ops : EngineCvars E
  pub cvar_place : Place Bytes Cvar
  pub place : Place ℕ (Option ℕ)
  pub rehlds : Bool
  pub fuel : ℕ
  pub address_of : Bytes → ℕ

abbrev pub no_key : ℕ
no_key = 2 ^ 64 - 1

module _ {E : Type 0} where
  at_cvar : Option Cvar → (Cvar → Answer E) → Answer E
  at_cvar none f = crashed
  at_cvar (some c) f = f c

  at_address : Option ℕ → (Bytes → Cvar → Answer E) → State E → Answer E
  unfolding at_cvar
  at_address none f s = reported s
  at_address (some a) f s = at_cvar (find (s.key_of a) s.cvars.cvars) (f (s.key_of a))

  -- The tests of the natives, and the variable with its key.
  with_cvar : ℕ → (Bytes → Cvar → Answer E) → State E → Answer E
  unfolding at_address
  with_cvar id f s = if is_negative id then reported s else at_address (get id s.handlers) f s

  copied : State E → Option (ℕ × Bytes) → Answer E
  copied s none = crashed
  copied s (some (written, buffer)) = returned_text written buffer s

  unfoldable pub cvar_get_name : ℕ → (buffer : Bytes) (size : ℕ) → State E → Answer E
  unfolding with_cvar copied
  cvar_get_name id buffer size s =
      with_cvar id (λ key c. copied s (str_copy buffer (to_size size) (whole c.name))) s

  unfoldable pub cvar_get_string : ℕ → (buffer : Bytes) (size : ℕ) → State E → Answer E
  unfolding with_cvar copied
  cvar_get_string id buffer size s =
      with_cvar id (λ key c. copied s (str_copy buffer (to_size size) (whole c.value))) s

  -- CvarGetFloat and CvarGetInt, by the conversion of the value to a cell.
  unfoldable pub cvar_get_number : (Bytes → ℕ) → ℕ → State E → Answer E
  unfolding with_cvar
  cvar_get_number to_cell id s = with_cvar id (λ key c. returned (to_cell c.value) s) s

  unfoldable pub cvar_get_flags : ℕ → State E → Answer E
  unfolding with_cvar
  cvar_get_flags id s = with_cvar id (λ key c. returned c.flags s) s

  changed : State E → Option (Cvars.State E) → Answer E
  changed s none = crashed
  changed s (some cvars) = returned 1 (record s { cvars = cvars })

  -- What a number comes to for a variable: that which it has, or a new one.
  numbered : Setting E → Bytes → State E → Answer E
  numbered t key s =
      let pointer : Option ℕ = some (Setting.address_of t key) in
      let id = get_key pointer s.handlers in
      let (new_id, handlers) = create (Setting.place t) pointer s.handlers in
      if id == no_key then returned new_id (record s { handlers = handlers }) else returned id s

  found_cvar : Setting E → Bytes → State E → Option Cvar × Cvars.State E → Answer E
  unfolding numbered
  found_cvar t name s (none, cvars) = returned (2 ^ 32 - 1) (record s { cvars = cvars })
  found_cvar t name s (some c, cvars) = numbered t name (record s { cvars = cvars })

  registered : Setting E → Bytes → State E → Option (Option Cvar × Cvars.State E) → Answer E
  unfolding found_cvar
  registered t name s none = crashed
  registered t name s (some found) = found_cvar t name s found

  module _ (t : Setting E) where
    -- CvarSetFloat, CvarSetString and CvarSetInt, by the text of the value.
    unfoldable pub cvar_set : ℕ → Bytes → State E → Answer E
    unfolding with_cvar changed
    cvar_set id value s =
        with_cvar id
          (λ key c. changed s (
            set_value (Setting.ops t) (Setting.cvar_place t) (Setting.rehlds t) (Setting.fuel t) key
              value s.cvars))
          s

    unfoldable pub cvar_set_flags : ℕ → ℕ → State E → Answer E
    unfolding with_cvar changed
    cvar_set_flags id flags s =
        with_cvar id
          (λ key c. changed s (set_flags (Setting.ops t) (Setting.cvar_place t) key flags s.cvars))
          s

    unfoldable pub cvar_register : Bytes → Bytes → ℕ → State E → Answer E
    unfolding registered
    cvar_register name value flags s = registered t name s (
        register_cvar (Setting.ops t) (Setting.cvar_place t) (Setting.rehlds t) (Setting.fuel t)
          name value flags s.cvars)

    unfoldable pub cvar_find : Bytes → State E → Answer E
    unfolding found_cvar
    cvar_find name s =
        found_cvar t name s (find_cvar (Setting.ops t) (Setting.cvar_place t) name s.cvars)
