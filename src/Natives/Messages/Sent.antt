-- ===== src/Natives/Messages/Sent.antt =====
-- A whole message of a plugin: MessageBegin, the natives of its values, and MessageEnd.
use spmod.Common.{
  ℕ, ◌%◌, ◌≡◌, ◌≢◌, refl, ap, sym, ◌∙◌, true, false, not, Bool-cases, ◌⊎◌, inl, inr, append_assoc,
  Bytes, List, [], ◌∷◌, ◌++◌, map, Option, none, some, ltb, ◌==◌, ==_false, ==_iff, if_true,
  if_false, if◌then◌else◌,
}
use spmod.Engine.{Origin, EngineCall, message_begin, MetaRes}
use spmod.Forward.{ReturnValue}
use spmod.Message.{Message}
use spmod.Message.Hooks.{Edits, has_hooks}
use spmod.Message.Manager.{MessageMngr, not as no_block, begin, write_param, end_message, Ended}
use spmod.Message.Transaction as Transaction
use spmod.Message.Transaction.{
  Write, type_of, value_of, call_of, let_through, write_all, Closed, Menus, menu_closed,
  behind_calls, after_closed, begun, original, transaction,
}
use spmod.Message.Transaction.Hooked.{transaction-null_origin}
use spmod.Player.{Player, get_player}
use spmod.Natives.Messages.{
  State, Result, returned, returned_text, reported, crashed, Begin, DestCase, without_origin,
  with_origin, with_player, no_case, dest_case, is_invalid, hooked_begin, begin_pre, begin_call,
  begin_to, begin_case, native_begin, native_write, hooked_end, native_end,
}

target_player : Begin → Option Player → Option ℕ
target_player b none = none
target_player b (some p) = some b.player

-- The edict with which a message begins; `none` is a message that is not begun: without a player in
-- its arguments, of too few of them, for no player, or for an unknown destination.
target_case : Begin → List (Option Player) → DestCase → Option ℕ
unfolding target_player
target_case b players without_origin = none
target_case b players with_origin = none
target_case b players with_player =
    if ltb b.num_params 4 then none else target_player b (get_player b.player players)
target_case b players no_case = none

unfoldable pub target : Begin → List (Option Player) → Option ℕ
unfolding target_case
target b players = target_case b players (dest_case (b.dest % 256))

abbrev pub Calls : Type 0 → Type 0
Calls W = Option (List EngineCall × State W)

module _ {W : Type 0} where
  of_result : Result W → Calls W
  of_result (returned value calls s) = some (calls, s)
  of_result (returned_text length text s) = none
  of_result (reported s) = none
  of_result crashed = none

  prefixed : List EngineCall → Calls W → Calls W
  prefixed calls none = none
  prefixed calls (some (more, s)) = some (calls ++ more, s)

  -- The engine calls of natives and of those behind them; `none` if one of them does not return.
  and_then : Calls W → (State W → Calls W) → Calls W
  unfolding prefixed
  and_then none rest = none
  and_then (some (calls, s)) rest = prefixed calls (rest s)

  write_natives : List Write → State W → Calls W
  unfolding and_then of_result
  write_natives [] s = some ([], s)
  write_natives (x ∷ xs) s = and_then (of_result (native_write x s)) (write_natives xs)

  -- The calls that the engine sees of a message.
  unfoldable pub send :
      Menus W
      → (ℕ → Bytes)
      → (ℕ → Message → W → ReturnValue × Edits × W)
      → Begin
      → List Write
      → State W
      → Calls W
  unfolding and_then of_result write_natives
  send menus name_of run b xs s =
      and_then (of_result (native_begin menus name_of b s))
        (λ s'. and_then (write_natives xs s') (λ s''. of_result (native_end run s'')))

  -- What a message of the game does with the state.
  abbrev pub as_game : State W → Option (List EngineCall × MessageMngr × W) → Calls W
  as_game s none = none
  as_game s (some (calls, mngr, w)) = some (calls, record s { mngr = mngr; world = w })

  native_begin-target :
      (menus : Menus W) (name_of : ℕ → Bytes) (b : Begin) (edict : ℕ) (s : State W)
      → is_invalid name_of b.msg_type ≡ false
      → target b s.players ≡ some edict
      → native_begin menus name_of b s
        ≡ begin_call menus
            (b.dest % 256)
            b.msg_type
            none
            (some edict)
            (record s { ignore_hooks = not (b.ignore_hooks == 0) })
  unfolding native_begin target
  native_begin-target menus name_of b edict s valid to =
      if_false _ _ _ valid ∙ by_case (dest_case (b.dest % 256)) to
    where
      s' : State W
      s' = record s { ignore_hooks = not (b.ignore_hooks == 0) }

      begun : Result W
      begun = begin_call menus (b.dest % 256) b.msg_type none (some edict) s'

      to_player :
          (p : Option Player) → target_player b p ≡ some edict → begin_to menus b p s' ≡ begun
      to_player none e = absurd cc
      to_player (some p) e = let number : b.player ≡ edict = cc in rw number refl

      by_case :
          (c : DestCase) → target_case b s.players c ≡ some edict → begin_case menus b c s' ≡ begun
      by_case without_origin e = absurd cc
      by_case with_origin e = absurd cc
      by_case with_player e = elim (Bool-cases (ltb b.num_params 4)) [
        | inl few ↦ absurd cc
        | inr enough ↦
            if_false _ _ _ enough
            ∙ to_player (get_player b.player s.players) (sym (if_false _ _ _ enough) ∙ e)
      ]
      by_case no_case e = absurd cc

  -- A message of a valid type to all, to the spectators or to those near an origin has no player, and
  -- its native uses a null pointer, with or without the hooks.
  pub native_begin-no_player :
      (menus : Menus W) (name_of : ℕ → Bytes) (b : Begin) (s : State W)
      → is_invalid name_of b.msg_type ≡ false
      → (dest_case (b.dest % 256) ≡ without_origin)
        ⊎ ((dest_case (b.dest % 256) ≡ with_origin) × (ltb b.num_params 3 ≡ false))
      → native_begin menus name_of b s ≡ crashed
  unfolding native_begin begin_case begin_call
  native_begin-no_player menus name_of b s valid (inl e) = if_false _ _ _ valid ∙ rw e refl
  native_begin-no_player menus name_of b s valid (inr (e, enough)) =
      if_false _ _ _ valid ∙ rw (e, enough) refl

  write_natives-ignored :
      (xs : List Write) (s : State W)
      → s.ignore_hooks ≡ true
      → write_natives xs s ≡ some (map call_of xs, s)
  unfolding write_natives native_write
  write_natives-ignored [] s h = refl
  write_natives-ignored (x ∷ xs) s h =
      ap (λ r. and_then (of_result r) (write_natives xs)) (if_true _ _ _ h)
      ∙ rw (write_natives-ignored xs s h) refl

  write_natives-write_all :
      (xs : List Write) (s : State W)
      → s.ignore_hooks ≡ false
      → write_natives xs s
        ≡ some ((write_all xs s.mngr).0, record s { mngr = (write_all xs s.mngr).1 })
  unfolding write_natives native_write write_all
  write_natives-write_all [] s h = refl
  write_natives-write_all (x ∷ xs) s h =
      let s' : State W = record s { mngr = (write_param (type_of x) (value_of x) s.mngr).1 } in
      ap (λ r. and_then (of_result r) (write_natives xs)) (if_false _ _ _ h)
      ∙ rw (write_natives-write_all xs s' h) refl

  -- A plugin begins a message of a valid type to one player who exists, its last argument is not 0, and
  -- it writes the values of a list and ends it. Then the engine gets the message call by call as the
  -- plugin made it, whatever hooks and blocks there are, and neither they nor the message that is
  -- intercepted change, and no menu is closed.
  pub send-ignored :
      (menus : Menus W) (name_of : ℕ → Bytes) (run : ℕ → Message → W → ReturnValue × Edits × W)
      (b : Begin) (xs : List Write) (edict : ℕ) (s : State W)
      → is_invalid name_of b.msg_type ≡ false
      → target b s.players ≡ some edict
      → b.ignore_hooks ≢ 0
      → send menus name_of run b xs s
        ≡ some (
          original (b.dest % 256) b.msg_type none (some edict) xs,
          record s { ignore_hooks = true },
        )
  unfolding send begin_call native_end
  send-ignored menus name_of run b xs edict s valid to h =
      let zero' : (b.ignore_hooks == 0) ≡ false = ==_false _ _ h in
      rw (native_begin-target menus name_of b edict s valid to, zero')
        (rw (write_natives-ignored xs (record s { ignore_hooks = true }) refl) refl)

  native_end-hooked :
      (run : ℕ → Message → W → ReturnValue × Edits × W) (s : State W)
      → s.ignore_hooks ≡ false
      → native_end run s ≡ hooked_end (end_message run s.mngr s.world) s
  unfolding native_end
  native_end-hooked run s h = if_false _ _ _ h

  begin_call-transaction :
      (menus : Menus W) (run : ℕ → Message → W → ReturnValue × Edits × W) (dest type : ℕ)
      (origin : Option Origin) (edict : ℕ) (xs : List Write) (s : State W)
      → s.ignore_hooks ≡ false
      → and_then
          (of_result (begin_call menus dest type origin (some edict) s))
          (λ s'. and_then (write_natives xs s') (λ s''. of_result (native_end run s'')))
        ≡ as_game s (transaction menus run dest type origin (some edict) xs s.mngr s.world)
  unfolding begin_call begin_pre transaction of_result and_then prefixed hooked_begin hooked_end
  begin_call-transaction menus run dest type origin edict xs s h =
      ap (λ r. and_then (of_result r) behind) (if_false _ _ _ h)
      ∙ by_close (menu_closed menus type (some edict) s.world)
    where
      behind : State W → Calls W
      behind s' = and_then (write_natives xs s') (λ s''. of_result (native_end run s''))

      call : EngineCall
      call = message_begin dest type origin (some edict)

      ended :
          (before : List EngineCall) (w : W) (answer : MetaRes) (m : MessageMngr)
          (o : Option (Ended W))
          → end_message run (write_all xs m).1 w ≡ o
          → prefixed (before ++ let_through answer call) (behind (record s { mngr = m; world = w }))
            ≡ as_game s (
                behind_calls menus run before
                  (Transaction.ended menus run answer call (write_all xs m).0 o))
      ended before w answer m o e =
          let s₀ : State W = record s { mngr = m; world = w } in
          let s' : State W = record s₀ { mngr = (write_all xs m).1 } in
          rw (write_natives-write_all xs s₀ h, native_end-hooked run s' h, e) (by_end o)
        where
          by_end :
              (o' : Option (Ended W))
              → prefixed (before ++ let_through answer call) (
                  prefixed
                    (write_all xs m).0
                    (of_result (hooked_end o' (record s { mngr = (write_all xs m).1; world = w }))))
                ≡ as_game s (
                    behind_calls menus run before
                      (Transaction.ended menus run answer call (write_all xs m).0 o'))
          by_end none = refl
          by_end (some ends) = rw (append_assoc before (let_through answer call)) refl

      by_begin :
          (before : List EngineCall) (w : W) (o : Option (MetaRes × MessageMngr))
          → and_then (of_result (hooked_begin call before o (record s { world = w }))) behind
            ≡ as_game s (behind_calls menus run before (begun menus run call xs w o))
      by_begin before w none = refl
      by_begin before w (some (answer, m)) = ended before w answer m _ refl

      by_close :
          (c : Closed W)
          → and_then (of_result (begin_pre dest type origin (some edict) c s)) behind
            ≡ as_game s (
                after_closed menus run c
                  (λ w'. begun menus run call xs w' (begin dest type origin (some edict) s.mngr)))
      by_close none = refl
      by_close (some (before, w)) = by_begin before w (begin dest type origin (some edict) s.mngr)

  -- A plugin begins a message of a valid type to one player who exists, its last argument is 0, and it
  -- writes the values of a list and ends it. Then what the engine sees of the message, and what becomes
  -- of the message manager and the world, is that of the same message of the game, which has no origin.
  pub send-transaction :
      (menus : Menus W) (name_of : ℕ → Bytes) (run : ℕ → Message → W → ReturnValue × Edits × W)
      (b : Begin) (xs : List Write) (edict : ℕ) (s : State W)
      → is_invalid name_of b.msg_type ≡ false
      → target b s.players ≡ some edict
      → b.ignore_hooks ≡ 0
      → send menus name_of run b xs s
        ≡ as_game
            (record s { ignore_hooks = false })
            (transaction menus run (b.dest % 256) b.msg_type none (some edict) xs s.mngr s.world)
  unfolding send
  send-transaction menus name_of run b xs edict s valid to h =
      let zero' : (b.ignore_hooks == 0) ≡ true = (==_iff _ _).1 h in
      rw (native_begin-target menus name_of b edict s valid to, zero')
        (begin_call-transaction menus run (b.dest % 256) b.msg_type none edict xs
          (record s { ignore_hooks = false }) refl)

  -- A plugin sends a message that has hooks and is not blocked, of a valid type, to one player, with 0
  -- for its last argument: the message is begun without an origin, and its hooks lead to a read through
  -- the null pointer.
  pub send-null_origin :
      (menus : Menus W) (name_of : ℕ → Bytes) (run : ℕ → Message → W → ReturnValue × Edits × W)
      (b : Begin) (xs : List Write) (edict : ℕ) (s : State W) (w : W) (calls : List EngineCall)
      → is_invalid name_of b.msg_type ≡ false
      → target b s.players ≡ some edict
      → b.ignore_hooks ≡ 0
      → menu_closed menus b.msg_type (some edict) s.world ≡ some (calls, w)
      → s.mngr.blocks b.msg_type ≡ no_block
      → has_hooks (s.mngr.hooks b.msg_type) ≡ true
      → send menus name_of run b xs s ≡ none
  send-null_origin menus name_of run b xs edict s w calls valid to h closed free hooked =
      send-transaction menus name_of run b xs edict s valid to h
      ∙ ap (as_game (record s { ignore_hooks = false })) (
          transaction-null_origin menus run (b.dest % 256) b.msg_type edict xs s.mngr s.world w
            calls closed free hooked)
