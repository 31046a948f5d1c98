-- ===== src/Tests/Forward.antt =====
-- Forwards of src/ForwardSystem.cpp: one with a number and a text, its listeners, and small tables.
use spmod.Common.{
  ℕ, zero, suc, ◌+◌, ◌≡◌, refl, ℤ, pos, Bool, true, false, Bytes, codes, List, [], ◌∷◌, ◌++◌,
  Option, none, some,
}
use spmod.Forward.{Forward, Param, Kind, multi, single, ExecType, ignore, stop, new_forward}
use spmod.Forward.ParamType.{int as int_type, string as string_type}
use spmod.Forward.Push.{Push}
use spmod.Forward.Exec.{Executed, run_multi, run_single}
use spmod.Forward.Registry.{ForwardMngr, create_forward, delete_forward}
use spmod.Forward.Arguments.{stored_all}
use spmod.Forward.Delivery.{deliver, deliver_all}
use spmod.Forward.Uniqueness.{IsDistinct, create_forward-IsDistinct}
use spmod.Forward.Deletion.{delete_forward_other}

abbrev pub param : ℕ → Param
param type = record {
  data_type = type;
  contents = spmod.Forward.Contents.empty;
  size = none;
  copyback = false;
  string_flags = 0;
}

abbrev pub forward : Bytes → Option Bool → Kind → Forward
forward name exec kind = record {
  name = name;
  params_num = 2;
  exec = exec;
  params = param int_type ∷ (param string_type ∷ (param 0 ∷ []));
  current_pos = 0;
  kind = kind;
}

abbrev pub command : Forward
command = forward (codes "OnClientCommand") none (multi stop)

abbrev arguments : List Push
arguments = Push.int (pos 3) ∷ (Push.string (codes "say") ∷ [])

-- Listener 0 counts in the world and lets the others run; any other answers its number and stops.
abbrev pub run : ℕ → Forward → ℤ → Bool → ℕ → ℤ × Bool × ℕ
run zero f result flag w = (result, false, w + 1)
run (suc k) f result flag w = (pos (suc k), true, w + 10)

abbrev filled : Forward
filled = record command {
  params = stored_all arguments (param int_type ∷ (param string_type ∷ [])) ++ (param 0 ∷ []);
  current_pos = 2;
}

deliver_all_example : deliver run arguments (0 ∷ (2 ∷ (0 ∷ []))) false command 0 ≡ record {
  forward = record filled { exec = some false; current_pos = 0 };
  returned = some (pos 2);
  world = 11;
}
unfolding spmod.Forward.Exec.run_callbacks run_multi
deliver_all_example =
    deliver_all run arguments (0 ∷ (2 ∷ (0 ∷ []))) false command
      (param int_type ∷ (param string_type ∷ [])) (param 0 ∷ []) 0 refl refl refl
      (refl, (refl, refl))

abbrev at_front : Bytes → List Forward → ℕ
at_front name fs = 0

abbrev table : ForwardMngr
table = record {
  forwards =
      forward (codes "a") (some true) (multi stop)
      ∷ (forward (codes "b") (some false) (single 4) ∷ []);
  callbacks = [];
}

create_forward-IsDistinct_example :
    IsDistinct (create_forward at_front (codes "b") (int_type ∷ []) (single 7) table).0.forwards
create_forward-IsDistinct_example =
    create_forward-IsDistinct at_front (codes "b") (int_type ∷ []) (single 7) table
      ((λ s. cc, tt), (tt, tt))

abbrev head : Bytes → ℕ
head [] = 0
head (b ∷ bs) = b

-- The forward "a" is running: deleting it erases "b", of another name and with a plugin.
delete_forward_other_example :
    delete_forward false (codes "a") (multi stop) table
    ≡ (record table { forwards = forward (codes "a") (some true) (multi stop) ∷ [] }, true)
delete_forward_other_example =
    delete_forward_other false stop [] (forward (codes "a") (some true) (multi stop)) []
      (forward (codes "b") (some false) (single 4)) [] table refl tt (refl, tt) refl
