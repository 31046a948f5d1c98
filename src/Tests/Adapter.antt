-- ===== src/Tests/Adapter.antt =====
-- The listener of subprojects/sourcepawn/ExtMain.cpp with plugins 10 and 20, whose functions answer
-- Handled and Stop, and the query of the extension.
use spmod.Common.{
  ℕ, ℤ, pos, ◌≡◌, refl, Bool, true, false, Bytes, codes, List, [], ◌∷◌, ◌++◌, Option, none, some,
  ◌==◌, if◌then◌else◌, ◌+◌, ◌⊎◌,
}
use spmod.Dict.{Place}
use spmod.Forward.{Forward, Param, empty, ignore, stop, single, multi}
use spmod.Forward.Push.{Push, ArrayPointer}
use spmod.Forward.Arguments.{stored_all}
use spmod.Adapter.{Functions, push_params, push_params_to_func, run_plugins, forward_listener}
use spmod.Adapter.Passed.{forward_listener-stored_all}
use spmod.Adapter.Results.{answers, with_highest, run_plugins-highest, run_plugins-stops}
use spmod.Adapter.Query.{Interface, IsAccepted, IsRefused, sp_mod_query, sp_mod_query_cases}
use spmod.Plugin.Lookup.{IPluginMngr, SpGlobal}

abbrev answer_of : ℕ → Option ℤ
answer_of func = if func == 1 then some (pos 2) else some (pos 1)

-- Function 1 belongs to plugin 10, and function 2 to plugin 20; an execution counts.
abbrev functions : Functions ℕ
functions = record {
  function_of = λ plugin name. if plugin == 10 then some 1 else some 2;
  execute = λ func arguments w. (answer_of func, w + 1);
}

abbrev param : ℕ → Param
param type = record {
  data_type = type;
  contents = empty;
  size = none;
  copyback = false;
  string_flags = 0;
}

abbrev pushes : List Push
pushes = Push.int (pos 3) ∷ (Push.array (ArrayPointer.ints 500) 2 false ∷ [])

abbrev params : List Param
params = param 4 ∷ (param 1 ∷ [])

abbrev forward_of_one : Forward
forward_of_one = record {
  name = codes "OnEvent";
  params_num = 2;
  exec = some true;
  params = stored_all pushes params ++ (param 0 ∷ []);
  current_pos = 2;
  kind = single 20;
}

-- The array is not passed.
forward_listener-stored_all_example :
    forward_listener functions (10 ∷ (20 ∷ [])) forward_of_one (pos 0) false 7
    ≡ some (pos 1, false, 8)
forward_listener-stored_all_example =
    forward_listener-stored_all functions (10 ∷ (20 ∷ [])) 20 2 forward_of_one pushes params
      (param 0 ∷ []) (pos 0) false 7 refl refl refl refl (refl, (refl, refl))
      ((refl, refl), ((refl, refl), tt)) (tt, (tt, tt)) (refl, tt)

abbrev forward_of_all : Forward
forward_of_all = record forward_of_one { params = []; kind = multi ignore }

run_plugins-highest_example :
    run_plugins functions (10 ∷ (20 ∷ [])) ignore forward_of_all false (pos 0) 7
    ≡ with_highest false (pos 0) (answers functions (10 ∷ (20 ∷ [])) forward_of_all 7)
run_plugins-highest_example =
    run_plugins-highest functions (10 ∷ (20 ∷ [])) ignore forward_of_all false (pos 0) 7 refl

run_plugins-stops_example :
    run_plugins functions (10 ∷ (20 ∷ (30 ∷ []))) stop forward_of_all false (pos 0) 7
    ≡ some (pos 1, true, 9)
unfolding answers push_params_to_func push_params
run_plugins-stops_example =
    run_plugins-stops functions (10 ∷ []) (30 ∷ []) 20 2 forward_of_all false (pos 0) (pos 1)
      (pos 2 ∷ []) 7 8 9 refl (refl, tt) refl refl refl

abbrev compatible : Interface → Bool
compatible Interface.timer = false
compatible i = true

abbrev adapter : IPluginMngr
adapter = record { plugins_ext = codes ".smx"; get = λ name. none }

abbrev registries : SpGlobal
registries = record { adapters = []; modules = [] }

abbrev at_end : Place Bytes IPluginMngr
at_end k d = 0

sp_mod_query_cases_example :
    let r = sp_mod_query compatible at_end (codes "SourcePawn") adapter registries in
    IsAccepted compatible (codes "SourcePawn") adapter registries r
    ⊎ IsRefused compatible (codes "SourcePawn") registries r
sp_mod_query_cases_example =
    sp_mod_query_cases compatible at_end (codes "SourcePawn") adapter registries
