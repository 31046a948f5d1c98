-- ===== src/Tests/Cvar.antt =====
-- A console variable, in an engine that knows its strings by their pointers.
use spmod.Common.{
  ℕ, ◌+◌, ◌*◌, false, ◌==◌, ==_self, ◌≡◌, refl, true, Bytes, codes, bytes_eq, [], ◌∷◌, none, some,
  if◌then◌else◌, if_true,
}
use spmod.Dict.{Place, bytes_key, find, try_emplace, insert_new}
use spmod.Cvar.{EngineCvars, Cvar, State, direct_set, run_callbacks, register_cvar, find_cvar}
use spmod.Handles.{get, create}
use spmod.Natives.Cvars as Natives
use spmod.Natives.Cvars.{functions, function_calls}
use spmod.Natives.Cvars.Repeated.{add_all, IsBound, count, runs, calls_of, add_all-function_calls}
use spmod.Natives.Cvars.Values.{Setting, returned, cvar_register, cvar_find}
use spmod.Natives.Cvars.Values.Numbered.{cvar_find-cvar_register}
use spmod.Cvar.Changes.{IsStore, IsChanged, direct_set-IsChanged}

abbrev hostname : Bytes
hostname = codes "hostname"

abbrev strings : EngineCvars (ℕ → Bytes)
strings = record {
  get_pointer = λ name e. if bytes_eq name hostname then some 1 else none;
  register = λ name flags e. e;
  name_of = λ p e. hostname;
  string_of = λ p e. e p;
  flags_of = λ p e. 0;
  set_string = λ p val e. (λ q. if q == p then val else e q);
  set_flags = λ p flags e. e;
}

abbrev first : Place Bytes Cvar
first k d = 0

strings-IsStore : IsStore strings first
strings-IsStore p val e = if_true _ _ _ (==_self p)

abbrev cvar : Cvar
cvar = record { flags = 0; name = hostname; value = codes "a"; pcvar = 1; callbacks = 4 ∷ (5 ∷ []) }

abbrev cached : State (ℕ → Bytes)
cached = record { cvars = (hostname, cvar) ∷ []; engine = λ p. codes "a"; calls = [] }

direct_set-IsChanged_example :
    (s' : State (ℕ → Bytes)) × (direct_set strings first true 2 1 (codes "b") cached ≡ some s')
    × IsChanged strings first hostname cvar
        (codes "b")
        (run_callbacks (codes "a") (codes "b") cvar)
        cached
        s'
unfolding find bytes_eq
direct_set-IsChanged_example =
    direct_set-IsChanged strings first 0 (codes "b") cvar cached strings-IsStore refl

-- The variable has the number 0, and the functions 7 and 8 of plugins are added to it.
abbrev watched : Natives.State (ℕ → Bytes)
watched = record {
  cvars = record cached { cvars = (hostname, record cvar { callbacks = [] }) ∷ [] };
  plugin_callbacks = [];
  handlers = record { handlers = (0, some 9) ∷ []; free_ids = [] };
  key_of = λ address. hostname;
}

-- Two calls of each of the two functions.
add_all-function_calls_example :
    (s' : Natives.State (ℕ → Bytes)) × (c' : Cvar) × (add_all
        (λ f. true)
        (λ k m. 0)
        0
        (7 ∷ (8 ∷ []))
        watched
      ≡ some s')
    × IsBound (λ f. true) (λ k m. 0) 0 9 c' s'
    × ((g : ℕ)
        → calls_of g (
            function_calls
              (λ f. true)
              hostname
              s'.plugin_callbacks
              (run_callbacks c'.value (codes "b") c'))
          ≡ 2 * (0 + count (runs (λ f. true) g) (7 ∷ (8 ∷ []))))
unfolding find bytes_eq get functions
add_all-function_calls_example =
    add_all-function_calls (λ f. true) (λ k m. 0) 0 9 (7 ∷ (8 ∷ []))
      (record cvar { callbacks = [] }) (codes "b") watched (refl, refl, refl)

-- An engine that has the variable, which is not cached yet, and no numbers.
abbrev fresh : Natives.State (ℕ → Bytes)
fresh = record watched {
  cvars = record cached { cvars = [] };
  handlers = record { handlers = []; free_ids = [] };
}

abbrev setting : Setting (ℕ → Bytes)
setting = record {
  ops = strings;
  cvar_place = first;
  place = λ k d. 0;
  rehlds = false;
  fuel = 1;
  address_of = λ key. 9;
}

abbrev found : Cvar
found = record cvar { callbacks = [] }

cvar_find-cvar_register_example :
    let id = (create (λ k d. 0) (some 9) fresh.handlers).0 in
    let s' = record fresh {
      cvars = record cached { cvars = (hostname, found) ∷ [] };
      handlers = (create (λ k d. 0) (some 9) fresh.handlers).1;
    } in
    (cvar_register setting hostname (codes "b") 3 fresh ≡ returned id s')
    × (cvar_find setting hostname s' ≡ returned id s')
unfolding register_cvar find_cvar find try_emplace insert_new create bytes_eq
cvar_find-cvar_register_example =
    cvar_find-cvar_register setting hostname (codes "b") 3 found
      (record cached { cvars = (hostname, found) ∷ [] }) fresh refl tt (λ e. cc)
