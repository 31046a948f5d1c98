-- ===== src/VTable/Others.antt =====
-- vSpawnHook and vTraceAttack leave the stacks as they find them.
use spmod.Common.{ℕ, ◌≡◌, refl, ap, true, false, List, [], ◌∷◌, some, All, ℤ}
use spmod.VTable.{
  Return, ignored, handled, override, supercede, Param, int32, uint32, real, reals, ent_vars, trace,
  VTableHook, Callback, Original, exec_callbacks, cleanup, spawn_original, spawn_hook, trace_args,
  void_read, trace_original, trace_after, trace_attack_hook,
}
use spmod.VTable.Stacks.{Frame, push, start, IsTame, KeepsHook, prepare_lem, exec_callbacks-push}

module _ {F : Type 0} where
  abbrev pub attack : ℕ → F → F → F → F → ℕ → ℤ → List (Param F)
  attack attacker amount x y z tr bits =
      ent_vars attacker ∷ real amount ∷ reals x y z ∷ trace tr ∷ int32 bits ∷ []

  -- The parameters have the types of TraceAttack.
  abbrev pub IsAttack : Frame F → Type 0
  IsAttack f =
      (id : Param F) × (a : ℕ) × (d x y z : F) × (tr : ℕ) × (b : ℤ) × (f.params
        ≡ id ∷ attack a d x y z tr b)

  abbrev pub IsAny : Frame F → Type 0
  IsAny f = Unit

  spawn_original-push :
      (original : Original F Unit) (status : Return) (f : Frame F) (h : VTableHook F)
      → KeepsHook original
      → spawn_original original status (push f h) ≡ push f h
  unfolding spawn_original
  spawn_original-push original ignored f h keeps = keeps [] (push f h)
  spawn_original-push original handled f h keeps = keeps [] (push f h)
  spawn_original-push original override f h keeps = keeps [] (push f h)
  spawn_original-push original supercede f h keeps = refl

  trace_original-push :
      (original : Original F Unit) (tr : ℕ) (args : List (Param F)) (status : Return) (f : Frame F)
      (h : VTableHook F)
      → KeepsHook original
      → IsAttack f
      → trace_original original tr args status (push f h) ≡ some (push f h)
  unfolding trace_original void_read trace_args
  trace_original-push original tr args ignored f h keeps is = rw (keeps args (push f h)) refl
  trace_original-push original tr args supercede f h keeps is = refl
  trace_original-push original tr args handled f h keeps (id, a, d, x, y, z, tr', b, shape) =
      rw shape (
        ap some (
          keeps (attack a d x y z tr b)
            (push (record f { params = id ∷ attack a d x y z tr' b }) h)))
  trace_original-push original tr args override f h keeps (id, a, d, x, y, z, tr', b, shape) =
      rw shape (
        ap some (
          keeps (attack a d x y z tr b)
            (push (record f { params = id ∷ attack a d x y z tr' b }) h)))

  -- If the callbacks keep to their call and the function of the game leaves the hook as it finds it,
  -- then whatever the callbacks answer the hook of Spawn leaves the stacks as before, and so does the
  -- hook of TraceAttack, without an exception, if the callbacks keep the types of its parameters.
  pub hooks_balance :
      (original : Original F Unit) (id a : ℕ) (d x y z : F) (tr : ℕ) (b : ℤ) (h : VTableHook F)
      → KeepsHook original
      → ((callbacks : List (Callback F))
          → All (IsTame IsAny) callbacks
          → spawn_hook callbacks original id h ≡ h)
        × ((callbacks : List (Callback F))
            → All (IsTame IsAttack) callbacks
            → trace_attack_hook callbacks original id tr (attack a d x y z tr b) h ≡ some h)
  unfolding spawn_hook trace_attack_hook trace_after cleanup
  hooks_balance original id a d x y z tr b h keeps = (spawn, traced)
    where
      spawn :
          (callbacks : List (Callback F))
          → All (IsTame IsAny) callbacks
          → spawn_hook callbacks original id h ≡ h
      spawn callbacks tame =
          let args = uint32 id ∷ [] in
          let (f, e, _, _) = exec_callbacks-push IsAny callbacks false (start args) h tame tt in
          let (g, e', _, _) = exec_callbacks-push IsAny callbacks true f h tame tt in
          let status = (exec_callbacks callbacks false (push (start args) h)).0 in
          rw (prepare_lem args h, e, spawn_original-push original status f h keeps, e') refl

      traced :
          (callbacks : List (Callback F))
          → All (IsTame IsAttack) callbacks
          → trace_attack_hook callbacks original id tr (attack a d x y z tr b) h ≡ some h
      traced callbacks tame =
          let args = uint32 id ∷ attack a d x y z tr b in
          let (f, e, is, _) =
            exec_callbacks-push IsAttack callbacks false (start args) h tame
              (uint32 id, a, d, x, y, z, tr, b, refl) in
          let (g, e', _, _) = exec_callbacks-push IsAttack callbacks true f h tame is in
          let status = (exec_callbacks callbacks false (push (start args) h)).0 in
          rw
            (
              prepare_lem args h,
              e,
              trace_original-push original tr (attack a d x y z tr b) status f h keeps is,
              e',
            )
            refl
