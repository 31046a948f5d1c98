-- ===== src/Message/Manager.antt =====
-- MessageMngr: the engine's calls between MESSAGE_BEGIN and MESSAGE_END are withheld while a message
-- is blocked or hooked, and a hooked message is sent at its end.
use spmod.Common.{ℕ, Bool, true, false, List, [], Option, none, some, ◌==◌, if◌then◌else◌}
use spmod.Engine.{Origin, EngineCall, MetaRes, ignored as mres_ignored, supercede as mres_supercede}
use spmod.Forward.{ReturnValue, ignored, stop, handled}
use spmod.Message.{Message, MsgParamType, ParamData, init, exec, clear_params, add_param}
use spmod.Message.Hooks.{
  MessageHook, pre, post, Edits, add_hook, remove_hook, has_hooks, exec_hooks,
}

pub data MsgBlockType : Type 0 where
  not once set : MsgBlockType

-- The two arrays of 256 entries are functions of the message type; types are below 256. `edicts` are
-- the indices of the edicts that the engine object, which MessageBegin asks, has registered.
pub record MessageMngr : Type 0 where
  pub message : Message
  pub hooks : ℕ → List MessageHook
  pub blocks : ℕ → MsgBlockType
  pub inhook : Bool
  pub inblock : Bool
  pub msg_type : ℕ
  pub edicts : ℕ → Bool

abbrev pub update : {A : Type 0} → (ℕ → A) → ℕ → A → ℕ → A
update f k v j = if j == k then v else f j

abbrev pub register_hook : MessageHook → MessageMngr → MessageMngr
register_hook h m = record m { hooks = update m.hooks h.msg_type (add_hook h (m.hooks h.msg_type)) }

abbrev pub unregister_hook : MessageHook → MessageMngr → MessageMngr
unregister_hook h m = record m {
  hooks = update m.hooks h.msg_type (remove_hook h.id (m.hooks h.msg_type));
}

abbrev pub get_message_block : ℕ → MessageMngr → MsgBlockType
get_message_block type m = m.blocks type

abbrev pub set_message_block : ℕ → MsgBlockType → MessageMngr → MessageMngr
set_message_block type block m = record m { blocks = update m.blocks type block }

abbrev pub clear_messages : MessageMngr → MessageMngr
clear_messages m = record m { hooks = λ type. [] }

-- Engine::getEdict, with the index of the edict it returns. ENTINDEX is 0 for a null pointer, which
-- gets the edict of the world if that is registered; to register a null pointer is a fault.
unfoldable pub get_edict : Option ℕ → (ℕ → Bool) → Option (ℕ × (ℕ → Bool))
get_edict none edicts = if edicts 0 then some (0, edicts) else none
get_edict (some i) edicts = some (i, update edicts i true)

unfoldable pub begin_message :
    ℕ → ℕ → Option Origin → Option (ℕ × (ℕ → Bool)) → MessageMngr → Option (MetaRes × MessageMngr)
begin_message dest type origin none m = none
begin_message dest type origin (some (i, edicts)) m = elim (init dest type origin i m.message) [
  | none ↦ none
  | some message ↦
      some (mres_supercede, record m { inhook = true; message = message; edicts = edicts })
]

-- MessageBegin where no block is set; `none` is a fault.
unfoldable pub begin_hooked :
    Bool → ℕ → ℕ → Option Origin → Option ℕ → MessageMngr → Option (MetaRes × MessageMngr)
unfolding begin_message
begin_hooked false dest type origin edict m = some (mres_ignored, record m { inhook = false })
begin_hooked true dest type origin edict m =
    begin_message dest type origin (get_edict edict m.edicts) m

unfoldable pub begin :
    ℕ → ℕ → Option Origin → Option ℕ → MessageMngr → Option (MetaRes × MessageMngr)
unfolding begin_hooked
begin dest type origin edict m = elim (m.blocks type) [
  | not ↦ begin_hooked (has_hooks (m.hooks type)) dest type origin edict m
  | _ ↦ some (mres_supercede, record m { inblock = true; msg_type = type })
]

unfoldable pub write_param : MsgParamType → ParamData → MessageMngr → MetaRes × MessageMngr
write_param type value m =
    if m.inblock
    then (mres_supercede, m)
    else if m.inhook
    then (mres_supercede, record m { message = add_param type value m.message })
    else (mres_ignored, m)

-- What a call of MessageEnd came to: the answer, the manager, the engine calls made, and the world.
pub record Ended (W : Type 0) : Type 0 where
  pub answer : MetaRes
  pub mngr : MessageMngr
  pub calls : List EngineCall
  pub world : W

abbrev pub after_once : MsgBlockType → MsgBlockType
after_once once = not
after_once not = not
after_once set = set

module _ {W : Type 0} (run : ℕ → Message → W → ReturnValue × Edits × W) where
  abbrev pub finish : MessageMngr → Message → List EngineCall → W → Ended W
  finish m message calls w = record {
    answer = mres_supercede;
    mngr = record m { inhook = false; message = clear_params message };
    calls = calls;
    world = w;
  }

  -- The message has been sent, and the post hooks run.
  after_exec : Option (List EngineCall) → Message → MessageMngr → W → Option (Ended W)
  after_exec none message m w = none
  after_exec (some calls) message m w =
      let (_, message', w') = exec_hooks run post (m.hooks message.type) message w in
      some (finish m message' calls w')

  -- Behind the pre hooks: the message is sent if the result is Ignored.
  unfoldable pub after_pre : ReturnValue → Message → MessageMngr → W → Option (Ended W)
  unfolding after_exec
  after_pre ignored message m w = after_exec (exec message) message m w
  after_pre stop message m w = some (finish m message [] w)
  after_pre handled message m w = some (finish m message [] w)

  unfoldable pub end_hooked : MessageMngr → W → Option (Ended W)
  unfolding after_pre
  end_hooked m w =
      let (result, message, w') = exec_hooks run pre (m.hooks m.message.type) m.message w in
      after_pre result message m w'

  -- `none` is an exception of Message::exec.
  unfoldable pub end_message : MessageMngr → W → Option (Ended W)
  unfolding end_hooked
  end_message m w =
      if m.inblock
      then some (record {
        answer = mres_supercede;
        mngr = record m {
          inblock = false;
          blocks = update m.blocks m.msg_type (after_once (m.blocks m.msg_type));
        };
        calls = [];
        world = w;
      })
      else if m.inhook
      then end_hooked m w
      else some (record { answer = mres_ignored; mngr = m; calls = []; world = w })
