-- ===== src/VTable/Stacks.antt =====
-- A call of a hook works on the tops of the stacks alone.
use spmod.Common.{
  ◌≡◌, refl, ap, ◌∙◌, Bool, List, [], ◌∷◌, ◌++◌, Option, none, some, All, append_assoc, append-nil,
  ℤ,
}
use spmod.VTable.{
  Return, ignored, Param, int32, VTableHook, Callback, Original, max_of, prepare_for_call, cleanup,
  pack_params, exec_from, exec_callbacks, exec_original,
}

-- The tops of the stacks.
pub record Frame (F : Type 0) : Type 0 where
  pub params : List (Param F)
  pub status : Return
  pub original_return : Option (Param F)
  pub ret : Option (Param F)

module _ {F : Type 0} where
  abbrev pub push : Frame F → VTableHook F → VTableHook F
  push f h = record {
    params = f.params ∷ h.params;
    status = f.status ∷ h.status;
    original_return = f.original_return ∷ h.original_return;
    ret = f.ret ∷ h.ret;
  }

  abbrev pub start : List (Param F) → Frame F
  start args = record { params = args; status = ignored; original_return = none; ret = none }

  -- A callback changes the parameters and the value to return of its own call only, and keeps them
  -- as the predicate says.
  abbrev pub IsTame : (Frame F → Type 0) → Callback F → Type 0
  IsTame P callback =
      (post : Bool) (f : Frame F) (h : VTableHook F)
      → P f
      → (f' : Frame F) × ((callback post (push f h)).1 ≡ push f' h)
        × P f'
        × (f'.original_return ≡ f.original_return)

  -- The function of the game leaves the hook as it finds it.
  abbrev pub KeepsHook : {R : Type 0} → Original F R → Type 0
  KeepsHook original = (args : List (Param F)) (h : VTableHook F) → (original args h).1 ≡ h

  pub pack_params-push :
      (args : List (Param F)) (f : Frame F) (h : VTableHook F)
      → pack_params args (push f h) ≡ push (record f { params = f.params ++ args }) h
  unfolding pack_params
  pack_params-push [] f h = rw (append-nil f.params) refl
  pack_params-push (a ∷ args) f h =
      pack_params-push args (record f { params = f.params ++ (a ∷ []) }) h
      ∙ rw (append_assoc f.params (a ∷ []) args) refl

  pub prepare_lem :
      (args : List (Param F)) (h : VTableHook F)
      → pack_params args (prepare_for_call h) ≡ push (start args) h
  unfolding prepare_for_call
  prepare_lem args h = pack_params-push args (start []) h

  pub cleanup-push : (f : Frame F) (h : VTableHook F) → cleanup (push f h) ≡ h
  unfolding cleanup
  cleanup-push f h = refl

  exec_from-push :
      (P : Frame F → Type 0) (callbacks : List (Callback F)) (post : Bool) (value : Return)
      (f : Frame F) (h : VTableHook F)
      → All (IsTame P) callbacks
      → P f
      → (f' : Frame F) × ((exec_from callbacks post value (push f h)).1 ≡ push f' h)
        × P f'
        × (f'.original_return ≡ f.original_return)
  unfolding exec_from
  exec_from-push P [] post value f h tame p = (f, refl, p, refl)
  exec_from-push P (c ∷ cs) post value f h (tame, rest) p =
      let (f1, e1, p1, o1) = tame post f h p in
      let (f2, e2, p2, o2) =
        exec_from-push P cs post (max_of (c post (push f h)).0 value) f1 h rest p1 in
      (
        f2,
        ap (λ k. (exec_from cs post (max_of (c post (push f h)).0 value) k).1) e1 ∙ e2,
        p2,
        o2 ∙ o1,
      )

  pub exec_callbacks-push :
      (P : Frame F → Type 0) (callbacks : List (Callback F)) (post : Bool) (f : Frame F)
      (h : VTableHook F)
      → All (IsTame P) callbacks
      → P f
      → (f' : Frame F) × ((exec_callbacks callbacks post (push f h)).1 ≡ push f' h)
        × P f'
        × (f'.original_return ≡ f.original_return)
  unfolding exec_callbacks
  exec_callbacks-push P callbacks post f h tame p =
      exec_from-push P callbacks post ignored f h tame p

  -- The value that the function of the game gives is that of the call on top.
  pub exec_original-push :
      (original : Original F ℤ) (args : List (Param F)) (f : Frame F) (h : VTableHook F)
      → KeepsHook original
      → exec_original original args (push f h)
        ≡ push (record f { original_return = some (int32 (original args (push f h)).0) }) h
  unfolding exec_original
  exec_original-push original args f h keeps = rw (keeps args (push f h)) refl
