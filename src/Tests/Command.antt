-- ===== src/Tests/Command.antt =====
-- Commands with their names, and an expression that is found in every command.
use spmod.Common.{ℕ, ◌==◌, refl, Bytes, codes, [], ◌∷◌, if◌then◌else◌}
use spmod.Engine.{supercede as mres_supercede}
use spmod.Forward.{ReturnValue, ignored, stop, handled}
use spmod.Command.{name, regex, Command, CommandMngr}
use spmod.Command.Dispatch.{IsNamed}

abbrev command : Bytes → ℕ → Command
command n callback = record { name_or_regex = name n; info = []; flags = 0; callback = callback }

abbrev anything : Command
anything = record { name_or_regex = regex []; info = []; flags = 0; callback = 1 }

abbrev commands : CommandMngr
commands = record {
  client_commands =
      command (codes "jump") 0
      ∷ (command (codes "say hi") 3 ∷ (anything ∷ (command (codes "say hi") 4 ∷ [])));
  server_commands = command (codes "amx") 5 ∷ [];
  engine_commands = codes "amx" ∷ [];
}

-- The callback 1 answers `stop`, and the callback 3 `handled`.
abbrev answer_of : ℕ → ReturnValue
answer_of callback = if callback == 1 then stop else (if callback == 3 then handled else ignored)

commands-IsNamed : IsNamed commands
commands-IsNamed = ((codes "amx", refl), tt)
