-- ===== src/Command/Dispatch.antt =====
-- Which commands are called, for a command of a client and for one of the server.
use mathlib.Core.Path.{subst}
use spmod.Common.{
  ℕ, ◌≡◌, refl, sym, ap, ◌∙◌, inl, inr, Bool, true, false, Bool-cases, ◌||◌, Bytes, bytes_eq, List,
  [], ◌∷◌, ◌++◌, append-nil, some, All, All-append, if◌then◌else◌, if_true, if_false,
}
use spmod.Engine.{MetaRes, ignored as mres_ignored, supercede as mres_supercede}
use spmod.Forward.{ReturnValue, ignored, stop}
use spmod.Command.{
  CommandType, client, server, name, Command, CommandMngr, Registered, made, add_client,
  register_command, is_matched, with_name, server_loop, plugin_srv_command,
}

-- The commands that pass a test, in their order.
abbrev pub select : (Command → Bool) → List Command → List Command
select p [] = []
select p (c ∷ cs) = if p c then c ∷ select p cs else select p cs

abbrev pub until : ReturnValue → Command → List Command → List Command
until stop c cs = c ∷ []
until _ c cs = c ∷ cs

-- The commands up to the first that answers `stop`, and with it.
abbrev pub upto_stop : (Command → ReturnValue) → List Command → List Command
upto_stop answer [] = []
upto_stop answer (c ∷ cs) = until (answer c) c (upto_stop answer cs)

abbrev pub is_taken : ReturnValue → Bool
is_taken ignored = false
is_taken _ = true

abbrev pub any_taken : (Command → ReturnValue) → List Command → Bool
any_taken answer [] = false
any_taken answer (c ∷ cs) = is_taken (answer c) || any_taken answer cs

abbrev pub superceded : Bool → MetaRes → MetaRes
superceded true result = mres_supercede
superceded false result = result

-- The commands of the server have names.
abbrev pub IsNamed : CommandMngr → Type 0
IsNamed m = All (λ c. (n : Bytes) × (c.name_or_regex ≡ name n)) m.server_commands

server_loop_lem :
    (argv : Bytes) (cs : List Command)
    → All (λ c. (n : Bytes) × (c.name_or_regex ≡ name n)) cs
    → server_loop argv cs ≡ some (select (λ c. is_matched (λ _ _. false) argv c.name_or_regex) cs)
unfolding server_loop with_name is_matched
server_loop_lem argv [] named = refl
server_loop_lem argv (c ∷ cs) ((n, e), named) = rw (e, server_loop_lem argv cs named) refl

plugin_srv_command_lem :
    (argv : Bytes) (m : CommandMngr)
    → IsNamed m
    → plugin_srv_command argv m
      ≡ some (select (λ c. is_matched (λ _ _. false) argv c.name_or_regex) m.server_commands)
unfolding plugin_srv_command
plugin_srv_command_lem argv m named = server_loop_lem argv m.server_commands named

select-append :
    (p : Command → Bool) (cs ds : List Command) → select p (cs ++ ds) ≡ select p cs ++ select p ds
select-append p [] ds = refl
select-append p (c ∷ cs) ds = elim (Bool-cases (p c)) [
  | inl pass ↦ rw pass (ap (λ l. c ∷ l) (select-append p cs ds))
  | inr miss ↦ rw miss (select-append p cs ds)
]

-- The command that is added, for a command of the server that has the name.
abbrev pub added : CommandType → Bytes → Bytes → Command → List Command
added client argv cmd c = []
added server argv cmd c = if bytes_eq argv cmd then c ∷ [] else []

-- The manager of a result, and the command.
manager_or : CommandMngr → Registered → CommandMngr
manager_or m (made c m') = m'
manager_or m _ = m

command_or : Command → Registered → Command
command_or d (made c m') = c
command_or d _ = d

-- What the next theorem says of the manager behind a registration.
abbrev IsDispatched : Bytes → CommandMngr → CommandMngr → List Command → Type 0
IsDispatched argv m m' more =
    (called : List Command) × (plugin_srv_command argv m ≡ some called)
    × (plugin_srv_command argv m' ≡ some (called ++ more))
    × IsNamed m'

same-IsDispatched :
    (argv : Bytes) (m m' : CommandMngr)
    → IsNamed m
    → m.server_commands ≡ m'.server_commands
    → IsDispatched argv m m' []
unfolding plugin_srv_command
same-IsDispatched argv m m' named e =
    let called = select (λ c. is_matched (λ _ _. false) argv c.name_or_regex) m.server_commands in
    (
      called,
      server_loop_lem argv m.server_commands named,
      ap (server_loop argv) (sym e)
          ∙ (server_loop_lem argv m.server_commands named ∙ ap some (sym (append-nil called))),
      subst (λ cs. All (λ c. (n : Bytes) × (c.name_or_regex ≡ name n)) cs) e named,
    )

new-IsDispatched :
    (argv cmd : Bytes) (m m' : CommandMngr) (c : Command)
    → IsNamed m
    → c.name_or_regex ≡ name cmd
    → m.server_commands ++ (c ∷ []) ≡ m'.server_commands
    → IsDispatched argv m m' (if bytes_eq argv cmd then c ∷ [] else [])
unfolding plugin_srv_command is_matched
new-IsDispatched argv cmd m m' c named is e =
    let p : Command → Bool = λ d. is_matched (λ _ _. false) argv d.name_or_regex in
    let more = All-append _ m.server_commands (c ∷ []) named ((cmd, is), tt) in
    (
      select p m.server_commands,
      server_loop_lem argv m.server_commands named,
      ap (server_loop argv) (sym e)
          ∙ (server_loop_lem argv (m.server_commands ++ (c ∷ [])) more
              ∙ ap some (select-append p m.server_commands (c ∷ []) ∙ rw is refl)),
      subst (λ cs. All (λ d. (n : Bytes) × (d.name_or_regex ≡ name n)) cs) e more,
    )

-- The commands of the server have names whatever `registerCommand` makes, and `PluginSrvCommand`
-- then calls the callbacks that it called before, and behind them that of the new command if it is
-- one of the server with the name of the command; it throws no exception.
pub register_command-plugin_srv_command :
    (compiles : Bytes → Bool) (type : CommandType) (cmd info : Bytes) (is_regex : Bool)
    (flags callback : ℕ) (m m' : CommandMngr) (c : Command) (argv : Bytes)
    → IsNamed m
    → register_command compiles type cmd info is_regex flags callback m ≡ made c m'
    → (called : List Command) × (plugin_srv_command argv m ≡ some called)
      × (plugin_srv_command argv m' ≡ some (called ++ added type argv cmd c))
      × IsNamed m'
unfolding register_command add_client manager_or command_or
register_command-plugin_srv_command compiles client cmd info false flags callback m m' c argv named
      e =
    same-IsDispatched argv m m' named (ap (λ r. (manager_or m r).server_commands) e)
register_command-plugin_srv_command compiles client cmd info true flags callback m m' c argv named
      e =
    elim (Bool-cases (compiles cmd)) [
      | inl fits ↦
          same-IsDispatched argv m m' named
            (ap (λ r. (manager_or m r).server_commands) (sym (if_true _ _ _ fits) ∙ e))
      | inr fails ↦ absurd (cc (sym (if_false _ _ _ fails) ∙ e))
    ]
register_command-plugin_srv_command compiles server cmd info true flags callback m m' c argv named
      e =
    absurd cc
register_command-plugin_srv_command compiles server cmd info false flags callback m m' c argv named
      e =
    new-IsDispatched argv cmd m m' c named (sym (ap (λ r. (command_or c r).name_or_regex) e)) (
      ap (λ d. m.server_commands ++ (d ∷ [])) (sym (ap (command_or c) e))
      ∙ ap (λ r. (manager_or m r).server_commands) e)
