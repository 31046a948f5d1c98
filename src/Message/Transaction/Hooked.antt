-- ===== src/Message/Transaction/Hooked.antt =====
-- Messages that have hooks.
use spmod.Common.{
  if_true, if_false, ℕ, Bool, Option, ◌<◌, ◌≡◌, ◌≢◌, refl, ◌∙◌, true, false, List, [], ◌∷◌, ◌++◌,
  none, some, map, arith, All, append-nil, Bool-cases, inl, inr,
}
use spmod.Engine.{Origin, EngineCall, message_end}
use spmod.Forward.{ReturnValue, ignored, stop, handled}
use spmod.Message.{Message, init, exec, clear_params}
use spmod.Message.Hooks.{
  MessageHook, HookType, pre, post, Edits, takes_part, has_hooks, exec_from, exec_hooks,
}
use spmod.Message.Manager.{
  MessageMngr, not, get_edict, begin, begin_message, begin_hooked, end_message, end_hooked,
  after_pre, finish,
}
use spmod.Message.Transaction.{
  Write, Menus, menu_closed, original, begun_message, param_of, call_of, transaction, begin-hooked,
  write_all-hooked, exec-written,
}

module _ {W : Type 0} (menus : Menus W) (run : ℕ → Message → W → ReturnValue × Edits × W) where
  -- Handlers that answer Ignored and call no setter, of the hooks that take part.
  abbrev pub IsQuiet : HookType → List MessageHook → Type 0
  IsQuiet hook_type = All (λ h.
      takes_part hook_type h ≡ true
      → (message : Message) (w : W)
      → ((run h.handler message w).0 ≡ ignored) × ((run h.handler message w).1 ≡ []))

  exec_from-quiet :
      (hook_type : HookType) (hs : List MessageHook) (message : Message) (w : W)
      → IsQuiet hook_type hs
      → (w' : W) × (exec_from run hook_type ignored hs message w ≡ (ignored, message, w'))
  unfolding exec_from
  exec_from-quiet hook_type [] message w q = (w, refl)
  exec_from-quiet hook_type (h ∷ hs) message w q = elim (Bool-cases (takes_part hook_type h)) [
    | inl e ↦
        let (answer, edits) = q.0 e message w in
        let (w', rest) = exec_from-quiet hook_type hs message (run h.handler message w).2 q.1 in
        (w', if_true _ _ _ e ∙ rw (answer, edits) rest)
    | inr e ↦
        let (w', rest) = exec_from-quiet hook_type hs message w q.1 in (w', if_false _ _ _ e ∙ rest)
  ]

  end-hooked :
      (m : MessageMngr) (w : W)
      → m.inblock ≡ false
      → m.inhook ≡ true
      → end_message run m w ≡ end_hooked run m w
  unfolding end_message
  end-hooked m w b h = if_false m.inblock _ _ b ∙ if_true m.inhook _ _ h

  end-sent :
      (m : MessageMngr) (w w' : W) (calls : List EngineCall)
      → exec_hooks run pre (m.hooks m.message.type) m.message w ≡ (ignored, m.message, w')
      → exec m.message ≡ some calls
      → let (_, message', w'') = exec_hooks run post (m.hooks m.message.type) m.message w' in
        end_hooked run m w ≡ some (finish run m message' calls w'')
  unfolding end_hooked after_pre
  end-sent m w w' calls q e = rw (q, e) refl

  after_pre-withheld :
      (result : ReturnValue) (message : Message) (m : MessageMngr) (w : W)
      → result ≢ ignored
      → after_pre run result message m w ≡ some (finish run m message [] w)
  unfolding after_pre
  after_pre-withheld ignored message m w h = absurd (h refl)
  after_pre-withheld stop message m w h = refl
  after_pre-withheld handled message m w h = refl

  exec_hooks-quiet :
      (hook_type : HookType) (hs : List MessageHook) (message : Message) (w : W)
      → IsQuiet hook_type hs
      → (w' : W) × (exec_hooks run hook_type hs message w ≡ (ignored, message, w'))
  unfolding exec_hooks
  exec_hooks-quiet = exec_from-quiet

  -- A hooked message that is not blocked, with an origin, a destination below 256 and a manager that
  -- is not within a blocked message and holds no parameters: if the pre hooks that take part answer
  -- Ignored and change nothing, it reaches the engine call by call as the game made it, whatever the
  -- post hooks answer, but for a null edict, in place of which it has the edict of the world, which
  -- must be registered then. If it is ShowMenu or VGUIMenu, what closing the menu of the player sends
  -- comes before it, if that is no fault. Behind it no parameter is left, and the hooks and blocks are
  -- as before.
  pub transaction-hooked :
      (dest type : ℕ) (origin : Origin) (edict : Option ℕ) (xs : List Write) (m : MessageMngr)
      (w w₀ : W) (calls : List EngineCall) (i : ℕ) (edicts : ℕ → Bool)
      → menu_closed menus type edict w ≡ some (calls, w₀)
      → get_edict edict m.edicts ≡ some (i, edicts)
      → m.blocks type ≡ not
      → has_hooks (m.hooks type) ≡ true
      → m.inblock ≡ false
      → m.message.params ≡ []
      → dest < 256
      → IsQuiet pre (m.hooks type)
      → (message : Message) × (w' : W) × (transaction menus run dest type (some origin) edict xs m w
          ≡ some (
            calls ++ original dest type (some origin) (some i) xs,
            record m { inhook = false; message = message; edicts = edicts },
            w',
          ))
        × (message.params ≡ [])
  unfolding transaction clear_params
  transaction-hooked dest type origin edict xs m w w₀ calls i edicts c g h e b p d q =
      let begun' = begun_message dest type origin i m.message in
      let m' = record m { inhook = true; message = begun'; edicts = edicts } in
      let full = record begun' { params = map param_of xs } in
      let (w', quiet) = exec_hooks-quiet pre (m.hooks type) full w₀ q in
      let (_, message', w'') = exec_hooks run post (m.hooks type) full w' in
      let hooked = record m' { message = full } in
      (
        clear_params message',
        w'',
        rw
            (
              c,
              begin-hooked dest type origin edict i edicts m h e g,
              write_all-hooked xs m' b refl,
              p,
              end-hooked hooked w₀ b refl,
              end-sent hooked w₀ w' (original dest type (some origin) (some i) xs) quiet
                  (exec-written dest type origin i xs m.message d),
            )
            (rw (append-nil (map call_of xs ++ (message_end ∷ []))) refl),
        refl,
      )

  -- The pre hooks of a message with the arguments of the game.
  abbrev pub pre_hooks :
      ℕ → ℕ → Origin → ℕ → List Write → MessageMngr → W → ReturnValue × Message × W
  pre_hooks dest type origin edict xs m w =
      exec_hooks run pre (m.hooks type)
        (record (begun_message dest type origin edict m.message) { params = map param_of xs }) w

  -- A hooked message that is not blocked, with an origin and a manager that is not within a blocked
  -- message and holds no parameters; its edict is not null, or the edict of the world is registered. If
  -- its pre hooks come to Stop or Handled, it does not reach the engine, and no post hook runs: the
  -- world is as the pre hooks left it. If it is ShowMenu or VGUIMenu, the pre hooks run on what closing
  -- the menu of the player leaves, if that is no fault, and the engine sees what the closing sends.
  pub transaction-withheld :
      (dest type : ℕ) (origin : Origin) (edict : Option ℕ) (xs : List Write) (m : MessageMngr)
      (w w₀ : W) (calls : List EngineCall) (i : ℕ) (edicts : ℕ → Bool)
      → menu_closed menus type edict w ≡ some (calls, w₀)
      → get_edict edict m.edicts ≡ some (i, edicts)
      → m.blocks type ≡ not
      → has_hooks (m.hooks type) ≡ true
      → m.inblock ≡ false
      → m.message.params ≡ []
      → (pre_hooks dest type origin i xs m w₀).0 ≢ ignored
      → let (_, message, w') = pre_hooks dest type origin i xs m w₀ in
        transaction menus run dest type (some origin) edict xs m w
        ≡ some (
          calls,
          record m { inhook = false; message = clear_params message; edicts = edicts },
          w',
        )
  unfolding transaction end_hooked
  transaction-withheld dest type origin edict xs m w w₀ calls i edicts c g h e b p answer =
      let begun' = begun_message dest type origin i m.message in
      let m' = record m { inhook = true; message = begun'; edicts = edicts } in
      let full = record begun' { params = map param_of xs } in
      rw
        (
          c,
          begin-hooked dest type origin edict i edicts m h e g,
          write_all-hooked xs m' b refl,
          p,
          end-hooked (record m' { message = full }) w₀ b refl,
          after_pre-withheld (exec_hooks run pre (m.hooks type) full w₀).0 _ _ _ answer,
          append-nil calls,
        )
        refl

  begin-null_origin :
      (dest type i : ℕ) (m : MessageMngr)
      → m.blocks type ≡ not
      → has_hooks (m.hooks type) ≡ true
      → begin dest type none (some i) m ≡ none
  unfolding begin begin_hooked begin_message get_edict init
  begin-null_origin dest type i m h e = ground arith

  -- A hooked message that is not blocked and that the game begins with a null origin and an edict
  -- reads through the null pointer.
  pub transaction-null_origin :
      (dest type i : ℕ) (xs : List Write) (m : MessageMngr) (w w₀ : W) (calls : List EngineCall)
      → menu_closed menus type (some i) w ≡ some (calls, w₀)
      → m.blocks type ≡ not
      → has_hooks (m.hooks type) ≡ true
      → transaction menus run dest type none (some i) xs m w ≡ none
  unfolding transaction
  transaction-null_origin dest type i xs m w w₀ calls c h e =
      rw (c, begin-null_origin dest type i m h e) refl
