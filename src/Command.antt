-- ===== src/Command.antt =====
-- src/CmdSystem.cpp and .hpp: the commands of clients and of the server, and the part of
-- ClientCommand of src/dllapi.cpp that looks for them. The engine's regular expressions and what a
-- callback answers are parameters. A callback that registers commands while the list of its kind is
-- walked leaves the iterator dangling, and has no model here.
pub mod Dispatch
use spmod.Common.{
  ℕ, Bool, true, false, ◌&&◌, ◌||◌, Bytes, bytes_eq, codes, List, [], ◌∷◌, ◌++◌, Option, none, some,
  if◌then◌else◌, length, ltb,
}
use spmod.Engine.{MetaRes, ignored as mres_ignored, supercede as mres_supercede}
use spmod.Forward.{ReturnValue, ignored, stop, handled}

-- ICommand::Type.
pub data CommandType : Type 0 where
  client server : CommandType

pub data NameOrRegex : Type 0 where
  name regex : Bytes → NameOrRegex

-- A command of either kind; that of the server has no flags. A callback is its number.
pub record Command : Type 0 where
  pub name_or_regex : NameOrRegex
  pub info : Bytes
  pub flags : ℕ
  pub callback : ℕ

-- The two vectors, and the names that the engine was given by REG_SVR_COMMAND.
pub record CommandMngr : Type 0 where
  pub client_commands : List Command
  pub server_commands : List Command
  pub engine_commands : List Bytes

-- What `registerCommand` returns; `threw` is the exception of the regular expression.
pub data Registered : Type 0 where
  made : Command → CommandMngr → Registered
  refused threw : Registered

abbrev pub get_commands_num : CommandType → CommandMngr → ℕ
get_commands_num client m = length m.client_commands
get_commands_num server m = length m.server_commands

abbrev pub get_command_list : CommandType → CommandMngr → List Command
get_command_list client m = m.client_commands
get_command_list server m = m.server_commands

abbrev pub clear_commands : CommandMngr → CommandMngr
clear_commands m = record m { client_commands = []; server_commands = [] }

abbrev pub has_access : CommandType → Option ℕ → Command → Bool
has_access type player cmd = true

abbrev pub get_access : CommandType → Command → ℕ
get_access client cmd = cmd.flags
get_access server cmd = 0

add_client : Command → CommandMngr → Registered
add_client cmd m = made cmd (record m { client_commands = m.client_commands ++ (cmd ∷ []) })

-- `compiles` says if the constructor of `std::regex` takes the pattern.
unfoldable pub register_command :
    (Bytes → Bool) → CommandType → Bytes → Bytes → Bool → ℕ → ℕ → CommandMngr → Registered
unfolding add_client
register_command compiles client cmd info true flags callback m =
    if compiles cmd
    then add_client
        (record { name_or_regex = regex cmd; info = info; flags = flags; callback = callback }) m
    else threw
register_command compiles client cmd info false flags callback m =
    add_client
      (record { name_or_regex = name cmd; info = info; flags = flags; callback = callback }) m
register_command compiles server cmd info true flags callback m = refused
register_command compiles server cmd info false flags callback m =
    let command : Command = record {
      name_or_regex = name cmd;
      info = info;
      flags = 0;
      callback = callback;
    } in
    made command (record m {
      server_commands = m.server_commands ++ (command ∷ []);
      engine_commands = m.engine_commands ++ (cmd ∷ []);
    })

-- The name of the command, to which `say` and `say_team` append what is said.
abbrev pub cmd_name : Bytes → Bytes → Bytes
cmd_name cl_cmd argv1 =
    if bytes_eq cl_cmd (codes "say") || bytes_eq cl_cmd (codes "say_team")
    then cl_cmd ++ (codes " " ++ argv1)
    else cl_cmd

unfoldable pub is_matched : (Bytes → Bytes → Bool) → Bytes → NameOrRegex → Bool
is_matched search cmd (name arg) = bytes_eq cmd arg
is_matched search cmd (regex arg) = search cmd arg

module _ (search : Bytes → Bytes → Bool) (answer : Option ℕ → Command → ReturnValue) where
  -- The result and the commands whose callbacks were called.
  after_callback :
      ReturnValue
      → Command
      → MetaRes
      → List Command
      → (MetaRes → List Command → MetaRes × List Command)
      → MetaRes × List Command
  after_callback ignored cmd result called rest = rest result (called ++ (cmd ∷ []))
  after_callback handled cmd result called rest = rest mres_supercede (called ++ (cmd ∷ []))
  after_callback stop cmd result called rest = (mres_supercede, called ++ (cmd ∷ []))

  unfoldable pub client_loop :
      Bytes → Option ℕ → List Command → MetaRes → List Command → MetaRes × List Command
  unfolding after_callback
  client_loop cmd player [] result called = (result, called)
  client_loop cmd player (c ∷ cs) result called =
      if is_matched search cmd c.name_or_regex && has_access client player c
      then after_callback (answer player c) c result called (client_loop cmd player cs)
      else client_loop cmd player cs result called

  -- `ClientCommandMeta`.
  unfoldable pub client_command_meta :
      Option ℕ → Bytes → Bytes → CommandMngr → MetaRes × List Command
  client_command_meta player cl_cmd argv1 m =
      if ltb 0 (get_commands_num client m)
      then client_loop (cmd_name cl_cmd argv1) player (get_command_list client m) mres_ignored []
      else (mres_ignored, [])

-- The name of a command of the server; `none` is the exception of `std::get`.
abbrev pub server_name : NameOrRegex → Option Bytes
server_name (name arg) = some arg
server_name (regex arg) = none

with_name : Option Bytes → Bytes → Command → Option (List Command) → Option (List Command)
with_name none argv c rest = none
with_name (some arg) argv c none = none
with_name (some arg) argv c (some called) = some (if bytes_eq argv arg then c ∷ called else called)

server_loop : Bytes → List Command → Option (List Command)
unfolding with_name
server_loop argv [] = some []
server_loop argv (c ∷ cs) = with_name (server_name c.name_or_regex) argv c (server_loop argv cs)

-- `PluginSrvCommand`: the commands whose callbacks are called.
unfoldable pub plugin_srv_command : Bytes → CommandMngr → Option (List Command)
unfolding server_loop
plugin_srv_command argv m = server_loop argv (get_command_list server m)
