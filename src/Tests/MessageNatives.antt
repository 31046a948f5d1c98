-- ===== src/Tests/MessageNatives.antt =====
-- Natives of subprojects/sourcepawn/MessageNatives.cpp: a message of type 23 with a pre hook that
-- withholds it, and one of type 50 that is blocked.
use spmod.Common.{
  ℕ, ℤ, pos, ◌≡◌, refl, inr, true, false, Bytes, codes, [], ◌∷◌, Option, none, some, arith,
  set as set_at, ◌==◌, if◌then◌else◌,
}
use spmod.Dict.{Place}
use spmod.Forward.{ReturnValue, handled}
use spmod.Message.{Message, Param, MsgParamType, int}
use spmod.Message.Hooks.{MessageHook, pre, Edits}
use spmod.Message.Manager.{MessageMngr, not as no_block, set}
use spmod.Message.Transaction.{Menus, byte, original, transaction}
use spmod.Player.{Player}
use spmod.Natives.Messages.{State, Begin, returned, reported, dest_case}
use spmod.Natives.Messages.Sent.{target, send, as_game, send-ignored, send-transaction}
use spmod.Natives.Messages.Arguments.{
  get_int, set_int, on_argument, on_argument-refused, on_argument-setter,
}

abbrev name_of : ℕ → Bytes
name_of type = codes "name"

abbrev run : ℕ → Message → ℕ → ReturnValue × Edits × ℕ
run k m w = (handled, [], w)

abbrev hook : MessageHook
hook = record { id = 1; msg_type = 23; handler = 0; hook_type = pre; active = true }

abbrev param : Param
param = record { type = MsgParamType.byte; value = int (pos 5) }

abbrev mngr : MessageMngr
mngr = record {
  message = record { dest = 0; type = 23; origin = (0, 0, 0); edict = 0; params = [] };
  hooks = λ type. if type == 23 then hook ∷ [] else [];
  blocks = λ type. if type == 50 then set else no_block;
  inhook = false;
  inblock = false;
  msg_type = 0;
  edicts = λ i. false;
}

abbrev player : Player
player = record { connected = true; in_game = true; user_id = 1; name = []; ip = []; steam_id = [] }

abbrev state : State ℕ
state = record {
  mngr = mngr;
  message_hooks = record { handlers = []; free_ids = [] };
  ignore_hooks = false;
  players = none ∷ (some player ∷ []);
  world = 0;
}

abbrev begin_to_one : ℕ → Begin
begin_to_one ignore = record {
  num_params = 5;
  dest = 1;
  msg_type = 23;
  origin = (0, 0, 0);
  player = 1;
  ignore_hooks = ignore;
}

-- ShowMenu is 60, VGUIMenu 61, and no player has a menu open.
abbrev menus : Menus ℕ
menus = record { show_menu = 60; vgui_menu = 61; close = λ i w. some ([], w) }

send-ignored_example :
    send menus name_of run (begin_to_one 1) (byte (pos 7) ∷ []) state
    ≡ some (original 1 23 none (some 1) (byte (pos 7) ∷ []), record state { ignore_hooks = true })
unfolding target dest_case
send-ignored_example =
    send-ignored menus name_of run (begin_to_one 1) (byte (pos 7) ∷ []) 1 state refl refl (λ e. cc)

send-transaction_example :
    send menus name_of run (record (begin_to_one 0) { msg_type = 50 }) (byte (pos 7) ∷ []) state
    ≡ as_game
        (record state { ignore_hooks = false })
        (transaction menus run 1 50 none (some 1) (byte (pos 7) ∷ []) mngr 0)
unfolding target dest_case
send-transaction_example =
    send-transaction menus name_of run (record (begin_to_one 0) { msg_type = 50 })
      (byte (pos 7) ∷ []) 1 state refl refl refl

abbrev to_cell : ℕ → ℤ
to_cell x = pos x

abbrev in_hook : State ℕ
in_hook = record state {
  mngr = record mngr { inhook = true; message = record mngr.message { params = param ∷ [] } };
}

on_argument-refused_example : on_argument to_cell 1 get_int in_hook ≡ reported in_hook
on_argument-refused_example =
    on_argument-refused to_cell 1 get_int in_hook (inr (inr (omega arith)))

on_argument-setter_example :
    (s' : State ℕ) × (on_argument to_cell 0 (set_int (pos 9)) in_hook ≡ returned (pos 1) [] s')
    × (on_argument to_cell 0 get_int s' ≡ returned (pos 9) [] s')
    × (s'.mngr.message.params ≡ set_at (param ∷ []) 0 (record param { value = int (pos 9) }))
on_argument-setter_example =
    on_argument-setter to_cell 0 param (int (pos 9)) [] 0 in_hook refl (omega arith) refl

abbrev first : Place ℕ (Option ℕ)
first k d = 0

-- No hooks, and no numbers.
abbrev unhooked : State ℕ
unhooked = record state { mngr = record mngr { hooks = λ type. [] } }
