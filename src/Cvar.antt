-- ===== src/Cvar.antt =====
-- src/CvarSystem.cpp and .hpp, and Cvar_DirectSetHook of src/RehldsApi.cpp: the cached console
-- variables, those of the engine, and the hook by which ReHLDS tells of a change. The engine is a
-- parameter. A callback is recorded with the values it is given; one that sets a variable itself has
-- no model here. The cached variable that a pointer stands for is known by its key.
pub mod Cached
pub mod Changes
use spmod.Common.{
  ℕ, zero, suc, ◌≡◌, Bool, true, false, Bytes, bytes_eq, List, [], ◌∷◌, ◌++◌, map, Option, none,
  some, if◌then◌else◌,
}
use spmod.Dict.{Dict, Place, bytes_key, find, try_emplace, write}

-- The engine's variables, by the pointers that it gives: CVAR_GET_POINTER, CVAR_REGISTER, the fields of
-- `cvar_t`, and `Cvar_DirectSet` behind its hooks.
pub record EngineCvars (E : Type 0) : Type 0 where
  pub get_pointer : Bytes → E → Option ℕ
  pub register : Bytes → ℕ → E → E
  pub name_of : ℕ → E → Bytes
  pub string_of : ℕ → E → Bytes
  pub flags_of : ℕ → E → ℕ
  pub set_string : ℕ → Bytes → E → E
  pub set_flags : ℕ → ℕ → E → E

-- A cached variable, with the pointer to that of the engine and the numbers of its callbacks.
pub record Cvar : Type 0 where
  pub flags : ℕ
  pub name : Bytes
  pub value : Bytes
  pub pcvar : ℕ
  pub callbacks : List ℕ

pub record Call : Type 0 where
  pub callback : ℕ
  pub old_value : Bytes
  pub new_value : Bytes

-- `m_cvars`, the engine, and the callbacks called so far.
pub record State (E : Type 0) : Type 0 where
  pub cvars : Dict Bytes Cvar
  pub engine : E
  pub calls : List Call

abbrev pub run_callbacks : Bytes → Bytes → Cvar → List Call
run_callbacks old new cvar =
    map (λ c. record { callback = c; old_value = old; new_value = new }) cvar.callbacks

module _ {E : Type 0} where
  abbrev pub get_cvar : Bytes → State E → Option Cvar
  get_cvar name s = find name s.cvars

  abbrev pub clear_cvars : State E → State E
  clear_cvars s = record s { cvars = [] }

  abbrev pub clear_cvars_callback : State E → State E
  clear_cvars_callback s = record s {
    cvars = map (λ (k, c). (k, record c { callbacks = [] })) s.cvars;
  }

  -- `addCallback` of the variable with the key.
  add_to : Bytes → ℕ → Option Cvar → State E → State E
  add_to key callback none s = s
  add_to key callback (some c) s = record s {
    cvars = write key (record c { callbacks = c.callbacks ++ (callback ∷ []) }) s.cvars;
  }

  unfoldable pub add_callback : Bytes → ℕ → State E → State E
  unfolding add_to
  add_callback key callback s = add_to key callback (find key s.cvars) s

  -- Cvar::setValue, over `pfnCvar_DirectSet`.
  unfoldable pub set_value_by :
      (ℕ → Bytes → State E → Option (State E)) → Bytes → Cvar → Bytes → State E → Option (State E)
  set_value_by direct_set key c val s =
      let calls = s.calls ++ run_callbacks c.value val c in
      let cvars = write key (record c { value = val }) s.cvars in
      direct_set c.pcvar val (record s { cvars = cvars; calls = calls })

  module _ (ops : EngineCvars E) (place : Place Bytes Cvar) where
    abbrev pub set_engine : ℕ → Bytes → State E → State E
    set_engine p val s = record s { engine = EngineCvars.set_string ops p val s.engine }

    call_next : ℕ → Bytes → Option (State E) → Option (State E)
    call_next p val none = none
    call_next p val (some s) = some (set_engine p val s)

    -- Cvar_DirectSetHook on the cached variable, over `pfnCvar_DirectSet`.
    unfoldable pub hook :
        (ℕ → Bytes → State E → Option (State E))
        → Bytes
        → ℕ
        → Bytes
        → Option Cvar
        → State E
        → Option (State E)
    unfolding call_next
    hook direct_set key p val none s = some (set_engine p val s)
    hook direct_set key p val (some c) s =
        if bytes_eq c.value val
        then some (set_engine p val s)
        else call_next p val (set_value_by direct_set key c val s)

    -- `pfnCvar_DirectSet` with the hook, and without it where ReHLDS is not there; the fuel bounds how
    -- deep the hook calls itself, and `none` is a call that has not ended.
    unfoldable pub direct_set : Bool → ℕ → ℕ → Bytes → State E → Option (State E)
    direct_set rehlds zero p val s = none
    direct_set false (suc fuel) p val s = some (set_engine p val s)
    direct_set true (suc fuel) p val s =
        let key = EngineCvars.name_of ops p s.engine in
        hook (direct_set true fuel) key p val (find key s.cvars) s

    set_found : Bool → ℕ → Bytes → Bytes → Option Cvar → State E → Option (State E)
    set_found rehlds fuel key val none s = none
    set_found rehlds fuel key val (some c) s = set_value_by (direct_set rehlds fuel) key c val s

    -- `setValue` of the variable with the key; a key that is not there is a dangling pointer.
    unfoldable pub set_value : Bool → ℕ → Bytes → Bytes → State E → Option (State E)
    unfolding set_found
    set_value rehlds fuel key val s = set_found rehlds fuel key val (find key s.cvars) s

    flags_found : Bytes → ℕ → Option Cvar → State E → Option (State E)
    flags_found key flags none s = none
    flags_found key flags (some c) s = some (record s {
      cvars = write key (record c { flags = flags }) s.cvars;
      engine = EngineCvars.set_flags ops c.pcvar flags s.engine;
    })

    unfoldable pub set_flags : Bytes → ℕ → State E → Option (State E)
    unfolding flags_found
    set_flags key flags s = flags_found key flags (find key s.cvars) s

    -- A new entry of the cache, and the one that stands there behind it.
    cached : Bytes → Cvar → State E → Option Cvar × State E
    cached name c s =
        let cvars = (try_emplace place name c s.cvars).0 in
        (find name cvars, record s { cvars = cvars })

    find_pointer : Bytes → Option ℕ → State E → Option Cvar × State E
    unfolding cached
    find_pointer name none s = (none, s)
    find_pointer name (some p) s =
        cached name
          (record {
            flags = EngineCvars.flags_of ops p s.engine;
            name = name;
            value = EngineCvars.string_of ops p s.engine;
            pcvar = p;
            callbacks = [];
          })
          s

    find_in : Bytes → Option Cvar → State E → Option Cvar × State E
    unfolding find_pointer
    find_in name (some c) s = (some c, s)
    find_in name none s = find_pointer name (EngineCvars.get_pointer ops name s.engine) s

    unfoldable pub find_cvar : Bytes → State E → Option Cvar × State E
    unfolding find_in
    find_cvar name s = find_in name (get_cvar name s) s

    cache_set : Bytes → Cvar → Option (State E) → Option (Option Cvar × State E)
    unfolding cached
    cache_set name c none = none
    cache_set name c (some s) = some (cached name c s)

    register_pointer :
        Bool → ℕ → Bytes → Bytes → ℕ → Option ℕ → State E → Option (Option Cvar × State E)
    unfolding cache_set
    register_pointer rehlds fuel name value flags none s = some (none, s)
    register_pointer rehlds fuel name value flags (some p) s =
        cache_set name
          (record { flags = flags; name = name; value = value; pcvar = p; callbacks = [] })
          (direct_set rehlds fuel p value s)

    register_found :
        Bool → ℕ → Bytes → Bytes → ℕ → Option Cvar × State E → Option (Option Cvar × State E)
    unfolding register_pointer
    register_found rehlds fuel name value flags (some c, s) = some (some c, s)
    register_found rehlds fuel name value flags (none, s) =
        let engine = EngineCvars.register ops name flags s.engine in
        register_pointer rehlds fuel name value flags (EngineCvars.get_pointer ops name engine)
          (record s { engine = engine })

    unfoldable pub register_cvar :
        Bool → ℕ → Bytes → Bytes → ℕ → State E → Option (Option Cvar × State E)
    unfolding register_found
    register_cvar rehlds fuel name value flags s =
        register_found rehlds fuel name value flags (find_cvar name s)
