-- ===== src/Tests/Message.antt =====
-- Messages of src/MessageSystem.cpp: a message of type 23 with a quiet pre hook, one of type 40 with a
-- hook that withholds it, and one of
-- type 50, ShowMenu, that is blocked once.
use spmod.Common.{
  ℕ, zero, suc, ◌+◌, ◌≡◌, refl, pos, true, false, codes, List, [], ◌∷◌, Option, none, some, arith,
  ◌==◌, if◌then◌else◌,
}
use spmod.Engine.{
  EngineCall, message_begin, write_byte, write_short, write_char, write_string, message_end,
}
use spmod.Forward.{ReturnValue, ignored, handled}
use spmod.Message as spmod_message
use spmod.Message.{Message}
use spmod.Message.Hooks.{HookType, pre, post, MessageHook, Edits}
use spmod.Message.Manager.{MessageMngr, not, once, update, get_edict}
use spmod.Message.Closing.{menus_of, close_player}
use spmod.Menu.{Menu, new_menu, text_style}
use spmod.Menu.Select.{World, close_menu}
use spmod.Utils.ShowMenu.{show_menu}
use spmod.Message.Transaction.{Write, Menus, menu_closed, byte, string, transaction}
use spmod.Message.Transaction.Unhooked.{transaction-blocked}
use spmod.Message.Transaction.Hooked.{transaction-hooked, transaction-withheld}

abbrev run : ℕ → Message → World × ℕ → ReturnValue × Edits × (World × ℕ)
run zero m (w, n) = (ignored, [], (w, n + 1))
run (suc k) m (w, n) = (handled, [], (w, n + 10))

abbrev hook : ℕ → ℕ → HookType → MessageHook
hook id handler hook_type = record {
  id = id;
  msg_type = 23;
  handler = handler;
  hook_type = hook_type;
  active = true;
}

abbrev hooks_of : ℕ → List MessageHook
hooks_of type =
    if type == 23
    then hook 1 0 pre ∷ (hook 2 1 post ∷ [])
    else if type == 40
    then hook 3 1 pre ∷ (hook 4 0 post ∷ [])
    else []

abbrev no_message : Message
no_message = record { dest = 0; type = 0; origin = (0, 0, 0); edict = 0; params = [] }

abbrev mngr : MessageMngr
mngr = record {
  message = no_message;
  hooks = hooks_of;
  blocks = λ type. if type == 50 then once else not;
  inhook = false;
  inblock = false;
  msg_type = 0;
  edicts = λ i. i == 0;
}

abbrev writes : List Write
writes = byte (pos 7) ∷ (string (codes "hi") ∷ [])

abbrev calls : ℕ → Option (ℕ × ℕ × ℕ) → List EngineCall
calls type origin =
    message_begin 1 type origin (some 3)
    ∷ (write_byte (pos 7) ∷ (write_string (codes "hi") ∷ (message_end ∷ [])))

-- ShowMenu is 50 and VGUIMenu 51; player 1 has a text menu open.
abbrev menus : Menus (World × ℕ)
menus = menus_of (λ call w. w) 50 51

abbrev text_menu : Menu
text_menu = new_menu 7 1 2 3 text_style false

abbrev with_menu : Option ℕ → World × ℕ
with_menu menu = (
  record {
    menus = text_menu ∷ [];
    players = record { in_game = true; menu = menu; menu_page = 0 } ∷ [];
  },
  0,
)

abbrev empty_menu : List EngineCall
empty_menu =
    message_begin 1 50 none (some 1)
    ∷ (write_short (pos 0)
        ∷ (write_char (pos 0)
            ∷ (write_byte (pos 0) ∷ (write_string (codes "\n") ∷ (message_end ∷ [])))))

transaction-hooked_example :
    (message : Message) × (w' : World × ℕ) × (transaction menus run 1 23
        (some (0, 0, 0))
        (some 3)
        writes
        mngr
        (with_menu none)
      ≡ some (
        calls 23 (some (0, 0, 0)),
        record mngr { inhook = false; message = message; edicts = update mngr.edicts 3 true },
        w',
      ))
    × (message.params ≡ [])
unfolding menu_closed get_edict
transaction-hooked_example =
    transaction-hooked menus run 1 23 (0, 0, 0) (some 3) writes mngr (with_menu none)
      (with_menu none) [] 3 (update mngr.edicts 3 true) refl refl refl refl refl refl (omega arith)
      ((λ e message w. (refl, refl)), (λ e. absurd cc, tt))

withheld_message : Message
withheld_message = record { dest = 1; type = 40; origin = (0, 0, 0); edict = 0; params = [] }

transaction-withheld_example :
    transaction menus run 1 40 (some (0, 0, 0)) none writes mngr (with_menu none)
    ≡ some
        ([], record mngr { inhook = false; message = withheld_message }, ((with_menu none).0, 10))
unfolding withheld_message menu_closed get_edict spmod_message.clear_params
    spmod.Message.Hooks.exec_hooks spmod.Message.Hooks.exec_from
transaction-withheld_example =
    transaction-withheld menus run 1 40 (0, 0, 0) none writes mngr (with_menu none) (with_menu none)
      [] 0 mngr.edicts refl refl refl refl refl refl (λ e. cc)

transaction-blocked_example :
    transaction menus run 1 50 none (some 1) writes mngr (with_menu (some 7))
    ≡ some (
      empty_menu,
      record mngr { inblock = false; msg_type = 50; blocks = update mngr.blocks 50 not },
      with_menu none,
    )
unfolding menu_closed close_player close_menu show_menu spmod.Utils.View.substr
    spmod.Utils.View.c_str spmod.Menu.Select.set_player
transaction-blocked_example =
    transaction-blocked menus run 1 50 none (some 1) writes mngr (with_menu (some 7))
      (with_menu none) empty_menu refl (λ e. cc)
