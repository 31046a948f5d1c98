-- ===== src/Message/Transaction.antt =====
-- A whole message of the game: MESSAGE_BEGIN, writes and MESSAGE_END pass through the manager, and
-- the engine sees the calls that it lets through and those that it makes itself.
pub mod Unhooked
pub mod Hooked
use spmod.Common.{
  if_true, if_false, ℕ, ◌%◌, ◌<◌, ◌≡◌, ◌≢◌, refl, ap, ◌∙◌, ℤ, true, false, Bytes, List, [], ◌∷◌,
  ◌++◌, Option, none, some, map, arith, All, Bool, ◌||◌, ◌==◌, if◌then◌else◌, append-nil,
  append_assoc, Bool-cases, inl, inr,
}
use spmod.Engine.{
  Origin, EngineCall, message_begin, write_byte, write_char, write_short, write_long, write_entity,
  write_angle, write_coord, write_string, message_end, MetaRes,
}
use spmod.Forward.{ReturnValue, ignored, stop, handled}
use spmod.Message.{
  Message, Param, MsgParamType, ParamData, init, exec, exec_params, clear_params, add_param,
}
use spmod.Message.Hooks.{
  MessageHook, HookType, pre, post, Edits, takes_part, has_hooks, exec_from, exec_hooks,
}
use spmod.Message.Manager.{
  MessageMngr, not, get_edict, begin, begin_message, begin_hooked, write_param, end_message,
  end_hooked, after_pre, Ended, finish, update, after_once,
}

-- A write of the game, one constructor for each of the engine's functions.
pub data Write : Type 0 where
  byte char short long entity : ℤ → Write
  angle coord : ℕ → Write
  string : Bytes → Write

abbrev pub type_of : Write → MsgParamType
type_of (byte i) = MsgParamType.byte
type_of (char i) = MsgParamType.char
type_of (short i) = MsgParamType.short
type_of (long i) = MsgParamType.long
type_of (entity i) = MsgParamType.entity
type_of (angle x) = MsgParamType.angle
type_of (coord x) = MsgParamType.coord
type_of (string s) = MsgParamType.string

abbrev pub value_of : Write → ParamData
value_of (byte i) = ParamData.int i
value_of (char i) = ParamData.int i
value_of (short i) = ParamData.int i
value_of (long i) = ParamData.int i
value_of (entity i) = ParamData.int i
value_of (angle x) = ParamData.real x
value_of (coord x) = ParamData.real x
value_of (string s) = ParamData.text s

abbrev pub call_of : Write → EngineCall
call_of (byte i) = write_byte i
call_of (char i) = write_char i
call_of (short i) = write_short i
call_of (long i) = write_long i
call_of (entity i) = write_entity i
call_of (angle x) = write_angle x
call_of (coord x) = write_coord x
call_of (string s) = write_string s

-- The engine runs a call of the game that was not superseded.
abbrev pub let_through : MetaRes → EngineCall → List EngineCall
let_through MetaRes.ignored c = c ∷ []
let_through MetaRes.supercede c = []

-- WriteByte_Pre and the other seven hooks of src/engine_api.cpp.
unfoldable pub write_all : List Write → MessageMngr → List EngineCall × MessageMngr
write_all [] m = ([], m)
write_all (x ∷ xs) m =
    let (answer, m') = write_param (type_of x) (value_of x) m in
    let (calls, m'') = write_all xs m' in (let_through answer (call_of x) ++ calls, m'')

abbrev pub original : ℕ → ℕ → Option Origin → Option ℕ → List Write → List EngineCall
original dest type origin edict xs =
    message_begin dest type origin edict ∷ (map call_of xs ++ (message_end ∷ []))

abbrev pub param_of : Write → Param
param_of x = record { type = type_of x; value = value_of x }

write_all-hooked :
    (xs : List Write) (m : MessageMngr)
    → m.inblock ≡ false
    → m.inhook ≡ true
    → write_all xs m ≡ (
      [],
      record m { message = record m.message { params = m.message.params ++ map param_of xs } },
    )
unfolding write_all write_param add_param
write_all-hooked [] m b h = ground (arith, append-nil m.message.params)
write_all-hooked (x ∷ xs) m b h =
    let next = record m {
      message = record m.message { params = m.message.params ++ (param_of x ∷ []) };
    } in
    let first : write_param (type_of x) (value_of x) m ≡ (MetaRes.supercede, next) = ground arith in
    rw
      (
        first,
        write_all-hooked xs next b h,
        append_assoc m.message.params (param_of x ∷ []) (map param_of xs),
      )
      refl

write_all-blocked :
    (xs : List Write) (m : MessageMngr) → m.inblock ≡ true → write_all xs m ≡ ([], m)
unfolding write_all write_param
write_all-blocked [] m b = refl
write_all-blocked (x ∷ xs) m b = ground (arith, write_all-blocked xs m b)

write_all-free :
    (xs : List Write) (m : MessageMngr)
    → m.inblock ≡ false
    → m.inhook ≡ false
    → write_all xs m ≡ (map call_of xs, m)
unfolding write_all write_param
write_all-free [] m b h = refl
write_all-free (x ∷ xs) m b h = ground (arith, write_all-free xs m b h)

exec_params-param_of :
    (xs : List Write) → exec_params (map param_of xs) ≡ some (map call_of xs ++ (message_end ∷ []))
unfolding exec_params
exec_params-param_of [] = refl
exec_params-param_of (byte i ∷ xs) = rw (exec_params-param_of xs) refl
exec_params-param_of (char i ∷ xs) = rw (exec_params-param_of xs) refl
exec_params-param_of (short i ∷ xs) = rw (exec_params-param_of xs) refl
exec_params-param_of (long i ∷ xs) = rw (exec_params-param_of xs) refl
exec_params-param_of (entity i ∷ xs) = rw (exec_params-param_of xs) refl
exec_params-param_of (angle x ∷ xs) = rw (exec_params-param_of xs) refl
exec_params-param_of (coord x ∷ xs) = rw (exec_params-param_of xs) refl
exec_params-param_of (string s ∷ xs) = rw (exec_params-param_of xs) refl

begin-blocked :
    (dest type : ℕ) (origin : Option Origin) (edict : Option ℕ) (m : MessageMngr)
    → m.blocks type ≢ not
    → begin dest type origin edict m
      ≡ some (MetaRes.supercede, record m { inblock = true; msg_type = type })
unfolding begin
begin-blocked dest type origin edict m h = ground arith

begin-free :
    (dest type : ℕ) (origin : Option Origin) (edict : Option ℕ) (m : MessageMngr)
    → m.blocks type ≡ not
    → m.hooks type ≡ []
    → begin dest type origin edict m ≡ some (MetaRes.ignored, record m { inhook = false })
unfolding begin begin_hooked
begin-free dest type origin edict m h e = ground (arith, ap has_hooks e)

abbrev pub begun_message : ℕ → ℕ → Origin → ℕ → Message → Message
begun_message dest type origin edict message = record message {
  dest = dest % 256;
  type = type;
  origin = origin;
  edict = edict;
}

exec-written :
    (dest type : ℕ) (origin : Origin) (edict : ℕ) (xs : List Write) (message : Message)
    → dest < 256
    → exec (record message {
      dest = dest % 256;
      type = type;
      origin = origin;
      edict = edict;
      params = map param_of xs;
    })
      ≡ some (original dest type (some origin) (some edict) xs)
unfolding exec
exec-written dest type origin edict xs message d =
    let same : dest % 256 ≡ dest = omega arith in rw (exec_params-param_of xs, same) refl

begin-hooked :
    (dest type : ℕ) (origin : Origin) (edict : Option ℕ) (i : ℕ) (edicts : ℕ → Bool)
    (m : MessageMngr)
    → m.blocks type ≡ not
    → has_hooks (m.hooks type) ≡ true
    → get_edict edict m.edicts ≡ some (i, edicts)
    → begin dest type (some origin) edict m
      ≡ some (
        MetaRes.supercede,
        record m {
          inhook = true;
          message = begun_message dest type origin i m.message;
          edicts = edicts;
        },
      )
unfolding begin begin_hooked begin_message init
begin-hooked dest type origin edict i edicts m h e g = ground arith

abbrev pub Closed : Type 0 → Type 0
Closed W = Option (List EngineCall × W)

-- The numbers of the messages ShowMenu and VGUIMenu, and Player::closeMenu of the player with an
-- index, for which Message/Closing has a definition; `none` is the use of a null player.
pub record Menus (W : Type 0) : Type 0 where
  pub show_menu : ℕ
  pub vgui_menu : ℕ
  pub close : ℕ → W → Closed W

-- `ENTINDEX`
abbrev pub ent_index : Option ℕ → ℕ
ent_index none = 0
ent_index (some i) = i

-- What MessageBegin_Pre does before it calls MessageBegin.
unfoldable pub menu_closed : {W : Type 0} → Menus W → ℕ → Option ℕ → W → Closed W
menu_closed menus type edict w =
    if type == menus.show_menu || type == menus.vgui_menu
    then menus.close (ent_index edict) w
    else some ([], w)

module _ {W : Type 0} (menus : Menus W) (run : ℕ → Message → W → ReturnValue × Edits × W) where
  -- What the engine sees of a message, with the manager and the world behind it; `none` is a fault.
  abbrev pub Seen : Type 0
  Seen = Option (List EngineCall × MessageMngr × W)

  abbrev pub behind_calls : List EngineCall → Seen → Seen
  behind_calls calls none = none
  behind_calls calls (some (more, m, w)) = some (calls ++ more, m, w)

  abbrev pub after_closed : Closed W → (W → Seen) → Seen
  after_closed none rest = none
  after_closed (some (calls, w)) rest = behind_calls calls (rest w)

  abbrev pub ended : MetaRes → EngineCall → List EngineCall → Option (Ended W) → Seen
  ended answer c calls none = none
  ended answer c calls (some e) = some (
    let_through answer c ++ (calls ++ (e.calls ++ let_through e.answer message_end)),
    e.mngr,
    e.world,
  )

  abbrev pub begun : EngineCall → List Write → W → Option (MetaRes × MessageMngr) → Seen
  begun c xs w none = none
  begun c xs w (some (answer, m)) =
      let (calls, m') = write_all xs m in ended answer c calls (end_message run m' w)

  unfoldable pub transaction :
      ℕ → ℕ → Option Origin → Option ℕ → List Write → MessageMngr → W → Seen
  unfolding menu_closed
  transaction dest type origin edict xs m w =
      after_closed (menu_closed menus type edict w)
        (λ w'. begun (message_begin dest type origin edict) xs w' (begin dest type origin edict m))
