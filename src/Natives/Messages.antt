-- ===== src/Natives/Messages.antt =====
-- subprojects/sourcepawn/MessageNatives.cpp: the natives of the messages, over the message manager,
-- `gMessageHooks` and `ignoreHooks`. What metamod knows of the names of messages is a parameter, and
-- so is the conversion of a `float` to a cell. An edict is its index, which is that of its player, and
-- a cell that a plugin passes as a value is the number that it stands for.
pub mod Sent
pub mod Arguments
pub mod Unhooked
use spmod.Common.{
  ℕ, zero, suc, ◌%◌, ◌-◌, ℤ, pos, Bool, true, false, not, ◌&&◌, ◌||◌, Bytes, List, [], ◌∷◌, ◌++◌,
  Option, none, some, ◌==◌, ltb, leb, if◌then◌else◌, find_first, get_elem?, length,
}
use spmod.Dict.{Place}
use spmod.Handles.{TypeHandler, create, get}
use spmod.Engine.{Origin, EngineCall, message_begin, message_end as engine_end, MetaRes}
use spmod.Forward.{ReturnValue}
use spmod.Message.{
  Message, Param, MsgParamType, ParamData, int, real, text, set_param, as_int, as_real, as_text,
}
use spmod.Message.Hooks.{MessageHook, pre, post, Edits}
use spmod.Message.Manager.{
  MessageMngr, MsgBlockType, not as no_block, once, set, register_hook, unregister_hook,
  get_message_block, set_message_block, begin, write_param, end_message, Ended,
}
use spmod.Message.Transaction.{
  Write, type_of, value_of, call_of, let_through, Closed, Menus, menu_closed,
}
use spmod.Player.{Player, get_player, is_empty}
use spmod.Utils.Copy.{str_copy}
use spmod.Utils.View.{whole}
use spmod.Natives.Packed.{is_negative, to_size}

pub record State (W : Type 0) : Type 0 where
  pub mngr : MessageMngr
  pub message_hooks : TypeHandler
  pub ignore_hooks : Bool
  pub players : List (Option Player)
  pub world : W

-- What a native returns, with the engine calls that it led to; a text that it gave to a buffer of the
-- plugin; or the message that it reports. `crashed` is the use of a null pointer or of a hook that has
-- been destroyed, an access out of bounds, or an exception.
pub data Result (W : Type 0) : Type 0 where
  returned : ℤ → List EngineCall → State W → Result W
  returned_text : ℕ → Bytes → State W → Result W
  reported : State W → Result W
  crashed : Result W

abbrev pub max_user_messages : ℕ
max_user_messages = 256

abbrev pub is_message : ℕ → Bool
is_message type = not (is_negative type || leb max_user_messages type)

unfoldable pub block_code : MsgBlockType → ℕ
block_code no_block = 0
block_code once = 1
block_code set = 2

unfoldable pub type_code : MsgParamType → ℕ
type_code MsgParamType.byte = 0
type_code MsgParamType.char = 1
type_code MsgParamType.short = 2
type_code MsgParamType.long = 3
type_code MsgParamType.angle = 4
type_code MsgParamType.coord = 5
type_code MsgParamType.string = 6
type_code MsgParamType.entity = 7

first_hook : Option MessageHook → Option MessageHook → Option MessageHook
first_hook none rest = rest
first_hook (some h) rest = some h

-- The hook at an address, among those of the types below `n`; `none` if it has been destroyed.
hook_of : ℕ → ℕ → (ℕ → List MessageHook) → Option MessageHook
unfolding first_hook
hook_of address zero hooks = none
hook_of address (suc n) hooks =
    first_hook (find_first (λ h. h.id == address) (hooks n)) (hook_of address n hooks)

-- The arguments of MessageBegin, with their number.
pub record Begin : Type 0 where
  pub num_params : ℕ
  pub dest : ℕ
  pub msg_type : ℕ
  pub origin : Origin
  pub player : ℕ
  pub ignore_hooks : ℕ

-- The cases of the `switch` over the destination.
pub data DestCase : Type 0 where
  without_origin with_origin with_player no_case : DestCase

unfoldable pub dest_case : ℕ → DestCase
dest_case dest =
    if dest == 0 || dest == 2 || dest == 3 || dest == 9
    then without_origin
    else if leb 4 dest && leb dest 7
    then with_origin
    else if dest == 8 || dest == 1
    then with_player
    else no_case

-- Number 63 is the last of the engine's own messages.
abbrev pub is_invalid : (ℕ → Bytes) → ℕ → Bool
is_invalid name_of type = is_negative type || type == 0 || (ltb 63 type && is_empty (name_of type))

module _ {W : Type 0} where
  unfoldable pub get_user_msg_id : (Bytes → ℤ) → Bytes → State W → Result W
  get_user_msg_id id_of name s = returned (id_of name) [] s

  unfoldable pub get_user_msg_name : (ℕ → Bytes) → ℕ → State W → Result W
  get_user_msg_name name_of type s =
      if is_empty (name_of type)
      then returned (pos 0) [] s
      else returned_text (length (name_of type)) (name_of type) s

  unfoldable pub hook_message :
      Place ℕ (Option ℕ) → (address : ℕ) → (type func is_post : ℕ) → State W → Result W
  hook_message place address type func is_post s =
      let hook : MessageHook = record {
        id = address;
        msg_type = type;
        handler = func;
        hook_type = if is_post == 1 then post else pre;
        active = true;
      } in
      let (id, message_hooks) = create place (some address) s.message_hooks in
      if is_message type
      then returned (pos id) []
          (record s { mngr = register_hook hook s.mngr; message_hooks = message_hooks })
      else reported s

  unhooked : Option MessageHook → State W → Result W
  unhooked none s = crashed
  unhooked (some h) s = returned (pos 1) [] (record s { mngr = unregister_hook h s.mngr })

  at_pointer : Option ℕ → State W → Result W
  unfolding unhooked hook_of
  at_pointer none s = reported s
  at_pointer (some address) s = unhooked (hook_of address max_user_messages s.mngr.hooks) s

  unfoldable pub unhook_message : ℕ → State W → Result W
  unfolding at_pointer
  unhook_message id s = at_pointer (get (to_size id) s.message_hooks) s

  unfoldable pub get_msg_block : ℕ → State W → Result W
  get_msg_block type s =
      if is_message type
      then returned (pos (block_code (get_message_block type s.mngr))) [] s
      else reported s

  -- The plugin passes one of the three blocks.
  unfoldable pub set_msg_block : ℕ → MsgBlockType → State W → Result W
  set_msg_block type block s =
      if is_message type
      then returned (pos 1) [] (record s { mngr = set_message_block type block s.mngr })
      else reported s

  unfoldable pub get_msg_args : State W → Result W
  get_msg_args s =
      if s.mngr.inhook then returned (pos (length s.mngr.message.params)) [] s else reported s

  at_param : Option Param → (Param → Result W) → Result W
  at_param none f = crashed
  at_param (some p) f = f p

  -- The tests of the natives of the arguments.
  pub with_argument : ℕ → (Param → Result W) → State W → Result W
  unfolding at_param
  with_argument index f s =
      let found = at_param (get_elem? s.mngr.message.params index) f in
      if s.mngr.inhook
      then (if is_negative index || leb (length s.mngr.message.params) index
          then reported s
          else found)
      else reported s

  unfoldable pub get_msg_arg_type : ℕ → State W → Result W
  unfolding with_argument
  get_msg_arg_type index s = with_argument index (λ p. returned (pos (type_code p.type)) [] s) s

  unfoldable pub get_msg_arg_int : ℕ → State W → Result W
  unfolding with_argument
  get_msg_arg_int index s = with_argument index (λ p. returned (as_int p.value) [] s) s

  unfoldable pub get_msg_arg_float : (ℕ → ℤ) → ℕ → State W → Result W
  unfolding with_argument
  get_msg_arg_float to_cell index s =
      with_argument index (λ p. returned (to_cell (as_real p.value)) [] s) s

  pub copied : State W → Option (ℕ × Bytes) → Result W
  copied s none = crashed
  copied s (some (written, buffer)) = returned_text written buffer s

  unfoldable pub get_msg_arg_string : ℕ → (buffer : Bytes) (size : ℕ) → State W → Result W
  unfolding with_argument copied
  get_msg_arg_string index buffer size s =
      with_argument index (λ p. copied s (str_copy buffer (to_size size) (whole (as_text p.value))))
        s

  pub set_argument : ℕ → ParamData → State W → State W
  set_argument index value s = record s {
    mngr = record s.mngr { message = set_param index value s.mngr.message };
  }

  unfoldable pub set_msg_arg_int : ℕ → ℤ → State W → Result W
  unfolding with_argument set_argument
  set_msg_arg_int index value s =
      with_argument index (λ p. returned (pos 1) [] (set_argument index (int value) s)) s

  -- `sp_ctof` keeps the pattern.
  unfoldable pub set_msg_arg_float : ℕ → ℕ → State W → Result W
  unfolding with_argument set_argument
  set_msg_arg_float index value s =
      with_argument index (λ p. returned (pos 1) [] (set_argument index (real value) s)) s

  unfoldable pub set_msg_arg_string : ℕ → Bytes → State W → Result W
  unfolding with_argument set_argument
  set_msg_arg_string index string s =
      with_argument index (λ p. returned (pos 1) [] (set_argument index (text string) s)) s

  hooked_begin : EngineCall → List EngineCall → Option (MetaRes × MessageMngr) → State W → Result W
  hooked_begin call calls none s = crashed
  hooked_begin call calls (some (answer, mngr)) s =
      returned (pos 1) (calls ++ let_through answer call) (record s { mngr = mngr })

  -- MessageBegin_Pre, and the engine's function behind it.
  pub begin_pre : ℕ → ℕ → Option Origin → Option ℕ → Closed W → State W → Result W
  unfolding hooked_begin
  begin_pre dest type origin edict none s = crashed
  begin_pre dest type origin edict (some (calls, w)) s =
      hooked_begin (message_begin dest type origin edict) calls
        (begin dest type origin edict s.mngr) (record s { world = w })

  -- Funcs::messageBegin: the engine's function itself, or through the hooks. The index of the edict is
  -- asked for whatever the destination, so a null pointer is a fault.
  pub begin_call : Menus W → ℕ → ℕ → Option Origin → Option ℕ → State W → Result W
  unfolding begin_pre menu_closed
  begin_call menus dest type origin none s = crashed
  begin_call menus dest type origin (some i) s =
      if s.ignore_hooks
      then returned (pos 1) (message_begin dest type origin (some i) ∷ []) s
      else begin_pre dest type origin (some i) (menu_closed menus type (some i) s.world) s

  begin_to : Menus W → Begin → Option Player → State W → Result W
  unfolding begin_call
  begin_to menus b none s = crashed
  begin_to menus b (some p) s = begin_call menus (b.dest % 256) b.msg_type none (some b.player) s

  begin_case : Menus W → Begin → DestCase → State W → Result W
  unfolding begin_to
  begin_case menus b without_origin s = begin_call menus (b.dest % 256) b.msg_type none none s
  begin_case menus b with_origin s =
      if ltb b.num_params 3
      then reported s
      else begin_call menus (b.dest % 256) b.msg_type (some b.origin) none s
  begin_case menus b with_player s =
      if ltb b.num_params 4 then reported s else begin_to menus b (get_player b.player s.players) s
  begin_case menus b no_case s = returned (pos 1) [] s

  unfoldable pub native_begin : Menus W → (ℕ → Bytes) → Begin → State W → Result W
  unfolding begin_case
  native_begin menus name_of b s =
      if is_invalid name_of b.msg_type
      then reported s
      else begin_case menus b (dest_case (b.dest % 256))
          (record s { ignore_hooks = not (b.ignore_hooks == 0) })

  -- WriteByte and the other seven natives of one value.
  unfoldable pub native_write : Write → State W → Result W
  native_write x s =
      let (answer, mngr) = write_param (type_of x) (value_of x) s.mngr in
      if s.ignore_hooks
      then returned (pos 1) (call_of x ∷ []) s
      else returned (pos 1) (let_through answer (call_of x)) (record s { mngr = mngr })

  hooked_end : Option (Ended W) → State W → Result W
  hooked_end none s = crashed
  hooked_end (some e) s =
      returned (pos 1) (e.calls ++ let_through e.answer engine_end)
        (record s { mngr = e.mngr; world = e.world })

  unfoldable pub native_end : (ℕ → Message → W → ReturnValue × Edits × W) → State W → Result W
  unfolding hooked_end
  native_end run s =
      if s.ignore_hooks
      then returned (pos 1) (engine_end ∷ []) s
      else hooked_end (end_message run s.mngr s.world) s
