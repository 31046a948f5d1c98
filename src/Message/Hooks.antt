-- ===== src/Message/Hooks.antt =====
-- MessageHook and MessageHooks. A handler is code outside the program: a parameter says what one
-- answers, which of the message's setters it calls, and what it does to the world. That it registers
-- or removes hooks of the same message meanwhile is left out.
use spmod.Common.{ℕ, Bool, true, false, ◌&&◌, List, [], ◌∷◌, ◌++◌, ◌==◌, if◌then◌else◌, erase_first}
use spmod.Forward.{ReturnValue, ignored, stop, handled}
use spmod.Message.{Message, ParamData, set_param}

pub data HookType : Type 0 where
  pre post : HookType

pub record MessageHook : Type 0 where
  -- The address of the hook.
  pub id : ℕ
  pub msg_type : ℕ
  pub handler : ℕ
  pub hook_type : HookType
  pub active : Bool

abbrev pub enable : MessageHook → MessageHook
enable h = record h { active = true }

abbrev pub disable : MessageHook → MessageHook
disable h = record h { active = false }

abbrev pub add_hook : MessageHook → List MessageHook → List MessageHook
add_hook h hooks = hooks ++ (h ∷ [])

abbrev pub remove_hook : ℕ → List MessageHook → List MessageHook
remove_hook id = erase_first (λ h. h.id == id)

abbrev pub has_hooks : List MessageHook → Bool
has_hooks [] = false
has_hooks (h ∷ hs) = true

abbrev pub is_type : HookType → HookType → Bool
is_type pre pre = true
is_type post post = true
is_type _ _ = false

abbrev pub takes_part : HookType → MessageHook → Bool
takes_part hook_type h = h.active && is_type h.hook_type hook_type

-- The setters that a handler called, in order.
abbrev pub Edits : Type 0
Edits = List (ℕ × ParamData)

abbrev pub apply_edits : Edits → Message → Message
apply_edits [] m = m
apply_edits ((index, value) ∷ es) m = apply_edits es (set_param index value m)

module _ {W : Type 0} (run : ℕ → Message → W → ReturnValue × Edits × W) where
  -- What the loop does with a handler's answer: it returns at Stop, and remembers Handled.
  answered :
      ReturnValue
      → ReturnValue
      → (ReturnValue → ReturnValue × Message × W)
      → Message
      → W
      → ReturnValue × Message × W
  answered stop result rest m w = (stop, m, w)
  answered handled result rest m w = rest handled
  answered ignored result rest m w = rest result

  -- The loop of MessageHooks::exec, with the result so far.
  unfoldable pub exec_from :
      HookType → ReturnValue → List MessageHook → Message → W → ReturnValue × Message × W
  unfolding answered
  exec_from hook_type result [] m w = (result, m, w)
  exec_from hook_type result (h ∷ hs) m w =
      let skipped = exec_from hook_type result hs m w in
      let (answer, edits, w') = run h.handler m w in
      let m' = apply_edits edits m in
      let called = answered answer result (λ r. exec_from hook_type r hs m' w') m' w' in
      if takes_part hook_type h then called else skipped

  unfoldable pub exec_hooks : HookType → List MessageHook → Message → W → ReturnValue × Message × W
  unfolding exec_from
  exec_hooks hook_type = exec_from hook_type ignored
