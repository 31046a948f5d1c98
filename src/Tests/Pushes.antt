-- ===== src/Tests/Pushes.antt =====
-- A forward behind the number 0, filled and executed by natives.
use spmod.Common.{ℕ, pos, false, codes, List, [], ◌∷◌, ◌++◌, some, map}
use spmod.Dict.{nat_key}
use spmod.Forward.{Forward}
use spmod.Forward.ParamType.{int as int_type, string as string_type}
use spmod.Forward.Arguments.{stored_all}
use spmod.Natives.Forwards.{State, PushNative, push_cell, push_string, pushed}
use spmod.Tests.Forward.{param, command}

abbrev numbered : State ℕ
numbered = record {
  forwards = (40, command) ∷ [];
  handlers = record { handlers = (0, some 40) ∷ []; free_ids = [] };
  callbacks = 0 ∷ (2 ∷ (0 ∷ []));
  world = 0;
}

abbrev natives : List PushNative
natives = push_cell (pos 3) ∷ (push_string (codes "say") ∷ [])

abbrev executed : Forward
executed = record command {
  params =
      stored_all (map pushed natives) (param int_type ∷ (param string_type ∷ [])) ++ (param 0 ∷ []);
  exec = some false;
}
