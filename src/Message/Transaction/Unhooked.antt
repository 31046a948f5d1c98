-- ===== src/Message/Transaction/Unhooked.antt =====
-- Messages that are blocked, and those that nothing holds up.
use spmod.Common.{if_true, ℕ, ◌≡◌, ◌≢◌, refl, true, false, List, [], ◌++◌, append-nil, Option, some}
use spmod.Engine.{Origin, EngineCall, MetaRes}
use spmod.Forward.{ReturnValue}
use spmod.Message.{Message}
use spmod.Message.Hooks.{Edits}
use spmod.Message.Manager.{MessageMngr, not, end_message, update, after_once}
use spmod.Message.Transaction.{
  Write, Menus, menu_closed, original, transaction, begin-blocked, begin-free, write_all-blocked,
  write_all-free,
}

module _ {W : Type 0} (menus : Menus W) (run : ℕ → Message → W → ReturnValue × Edits × W) where
  end-blocked :
      (m : MessageMngr) (w : W)
      → m.inblock ≡ true
      → end_message run m w
        ≡ some (record {
          answer = MetaRes.supercede;
          mngr = record m {
            inblock = false;
            blocks = update m.blocks m.msg_type (after_once (m.blocks m.msg_type));
          };
          calls = [];
          world = w;
        })
  unfolding end_message
  end-blocked m w h = if_true m.inblock _ _ h

  -- A blocked message: nothing of it reaches the engine and no handler of a hook runs, whatever hooks
  -- there are: the engine sees only what closing the menu of the player sends, if the message is ShowMenu
  -- or VGUIMenu and that is no fault, and the world is as the closing left it. A block for one message is
  -- lifted, a permanent one stays, and no other block changes.
  pub transaction-blocked :
      (dest type : ℕ) (origin : Option Origin) (edict : Option ℕ) (xs : List Write)
      (m : MessageMngr) (w w₀ : W) (calls : List EngineCall)
      → menu_closed menus type edict w ≡ some (calls, w₀)
      → m.blocks type ≢ not
      → transaction menus run dest type origin edict xs m w
        ≡ some (
          calls,
          record m {
            inblock = false;
            msg_type = type;
            blocks = update m.blocks type (after_once (m.blocks type));
          },
          w₀,
        )
  unfolding transaction
  transaction-blocked dest type origin edict xs m w w₀ calls c h =
      let blocked = record m { inblock = true; msg_type = type } in
      rw
        (
          c,
          begin-blocked dest type origin edict m h,
          write_all-blocked xs blocked refl,
          end-blocked blocked w₀ refl,
          append-nil calls,
        )
        refl

  -- A message that is neither blocked nor hooked, with a manager that is not within a blocked
  -- message, passes through call by call, behind what closing the menu of the player sends, if the
  -- message is ShowMenu or VGUIMenu.
  pub transaction-free :
      (dest type : ℕ) (origin : Option Origin) (edict : Option ℕ) (xs : List Write)
      (m : MessageMngr) (w w₀ : W) (calls : List EngineCall)
      → menu_closed menus type edict w ≡ some (calls, w₀)
      → m.blocks type ≡ not
      → m.hooks type ≡ []
      → m.inblock ≡ false
      → transaction menus run dest type origin edict xs m w
        ≡ some (calls ++ original dest type origin edict xs, record m { inhook = false }, w₀)
  unfolding transaction end_message
  transaction-free dest type origin edict xs m w w₀ calls c h e b =
      let free = record m { inhook = false } in
      rw (c, begin-free dest type origin edict m h e, write_all-free xs free b refl, b) refl
