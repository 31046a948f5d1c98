-- ===== src/VTable.antt =====
-- src/VTableHookManager.cpp and .hpp: the hooks of virtual functions of the game, and the stacks by
-- which a hook keeps its calls apart when one starts inside another. What the callbacks and the
-- function of the game do is a parameter; both are given the hook, since both can call the hooked
-- function again.
pub mod Stacks
pub mod Damage
pub mod Others
pub mod Manager
pub mod Restored
use spmod.Common.{
  ℕ, ◌≤◌, Bool, true, false, ◌&&◌, List, [], ◌∷◌, ◌++◌, Option, none, some, leb, ltb, if◌then◌else◌,
  ℤ, pos,
}

-- IVTableHook::Return.
pub data Return : Type 0 where
  ignored handled override supercede : Return

abbrev pub code : Return → ℕ
code ignored = 0
code handled = 1
code override = 2
code supercede = 3

-- IVTableHook::Param. An object of the engine is the address behind its pointer, `reals` the vector
-- behind a pointer.
pub data Param (F : Type 0) : Type 0 where
  int32 : ℤ → Param F
  uint32 int16 : ℕ → Param F
  real : F → Param F
  reals : F → F → F → Param F
  ent_vars edict trace text : ℕ → Param F

-- `m_params`, `m_status`, `m_originalReturn` and `m_return`, each from the top on.
pub record VTableHook (F : Type 0) : Type 0 where
  pub params : List (List (Param F))
  pub status : List Return
  pub original_return : List (Option (Param F))
  pub ret : List (Option (Param F))

abbrev pub Callback : Type 0 → Type 0
Callback F = Bool → VTableHook F → Return × VTableHook F

-- The function of the game behind the hook, on its arguments without the instance.
abbrev pub Original : Type 0 → Type 0 → Type 0
Original F R = List (Param F) → VTableHook F → R × VTableHook F

module _ {ℓ} {A : Type ℓ} where
  abbrev pub pop : List A → List A
  pop [] = []
  pop (x ∷ xs) = xs

  -- A write to the top, if there is one.
  abbrev pub set_top : A → List A → List A
  set_top y [] = []
  set_top y (x ∷ xs) = y ∷ xs

  abbrev pub top_or : A → List A → A
  top_or e [] = e
  top_or e (x ∷ xs) = x

-- The answer of a callback that is above those before.
abbrev pub max_of : Return → Return → Return
max_of result value = if ltb (code value) (code result) then result else value

module _ {F : Type 0} where
  unfoldable pub prepare_for_call : VTableHook F → VTableHook F
  prepare_for_call h = record {
    params = [] ∷ h.params;
    status = ignored ∷ h.status;
    original_return = none ∷ h.original_return;
    ret = none ∷ h.ret;
  }

  unfoldable pub cleanup : VTableHook F → VTableHook F
  cleanup h = record {
    params = pop h.params;
    status = pop h.status;
    original_return = pop h.original_return;
    ret = pop h.ret;
  }

  unfoldable pub pack_params : List (Param F) → VTableHook F → VTableHook F
  pack_params [] h = h
  pack_params (arg ∷ args) h =
      pack_params args (record h { params = set_top (top_or [] h.params ++ (arg ∷ [])) h.params })

  -- A stack that is empty gives the static empty value.
  abbrev pub get_return : VTableHook F → Option (Param F)
  get_return h = top_or none h.ret

  abbrev pub get_original_return : VTableHook F → Option (Param F)
  get_original_return h = top_or none h.original_return

  abbrev pub get_params : VTableHook F → List (Param F)
  get_params h = top_or [] h.params

  abbrev pub set_return : Param F → VTableHook F → VTableHook F
  set_return value h = record h { ret = set_top (some value) h.ret }

  exec_from : List (Callback F) → Bool → Return → VTableHook F → Return × VTableHook F
  exec_from [] post value h = (value, h)
  exec_from (callback ∷ callbacks) post value h =
      let (result, h') = callback post h in exec_from callbacks post (max_of result value) h'

  unfoldable pub exec_callbacks : List (Callback F) → Bool → VTableHook F → Return × VTableHook F
  unfolding exec_from
  exec_callbacks callbacks post h = exec_from callbacks post ignored h

  -- `execOriginalFunc` of a function that returns a number, and of one that returns nothing.
  unfoldable pub exec_original : Original F ℤ → List (Param F) → VTableHook F → VTableHook F
  exec_original original args h =
      let (result, h') = original args h in
      record h' { original_return = set_top (some (int32 result)) h'.original_return }

  abbrev pub exec_void : Original F Unit → List (Param F) → VTableHook F → VTableHook F
  exec_void original args h = (original args h).1

  unfoldable pub spawn_original : Original F Unit → Return → VTableHook F → VTableHook F
  spawn_original original supercede h = h
  spawn_original original _ h = exec_void original [] h

  unfoldable pub spawn_hook : List (Callback F) → Original F Unit → ℕ → VTableHook F → VTableHook F
  unfolding spawn_original
  spawn_hook callbacks original id h =
      let (value, h1) =
        exec_callbacks callbacks false (pack_params (uint32 id ∷ []) (prepare_for_call h)) in
      let h2 = spawn_original original value h1 in cleanup (exec_callbacks callbacks true h2).1

  -- The arguments that `std::get` reads from the parameters of TakeDamage; `none` is one that is not
  -- there or has another type.
  unfoldable pub damage_args : List (Param F) → Option (List (Param F))
  damage_args (_ ∷ ent_vars inflictor ∷ ent_vars attacker ∷ real damage ∷ int32 bits ∷ _) =
      some (ent_vars inflictor ∷ ent_vars attacker ∷ real damage ∷ int32 bits ∷ [])
  damage_args _ = none

  exec_read : Original F ℤ → Option (List (Param F)) → VTableHook F → Option (VTableHook F)
  exec_read original none h = none
  exec_read original (some args) h = some (exec_original original args h)

  damage_original : Original F ℤ → List (Param F) → Return → VTableHook F → Option (VTableHook F)
  unfolding exec_read
  damage_original original args ignored h = some (exec_original original args h)
  damage_original original args supercede h = some h
  damage_original original args _ h = exec_read original (damage_args (get_params h)) h

  returned : Param F → VTableHook F → Option (ℤ × VTableHook F)
  returned (int32 value) h = some (value, cleanup h)
  returned _ h = none

  original_returned : Option (Param F) → VTableHook F → Option (ℤ × VTableHook F)
  unfolding returned
  original_returned none h = some (pos 0, h)
  original_returned (some value) h = returned value h

  damage_returned : Return → Option (Param F) → VTableHook F → Option (ℤ × VTableHook F)
  unfolding returned original_returned
  damage_returned status none h = original_returned (get_original_return h) h
  damage_returned status (some value) h =
      if leb 2 (code status) then returned value h else original_returned (get_original_return h) h

  damage_after : List (Callback F) → Option (VTableHook F) → Option (ℤ × VTableHook F)
  unfolding damage_returned
  damage_after callbacks none = none
  damage_after callbacks (some h) =
      let (status, h') = exec_callbacks callbacks true h in
      damage_returned status (get_return h') h'

  -- `vTakeDamageHook`; `none` is the exception of `std::get`.
  unfoldable pub take_damage_hook :
      List (Callback F)
      → Original F ℤ
      → ℕ
      → List (Param F)
      → VTableHook F
      → Option (ℤ × VTableHook F)
  unfolding damage_original damage_after
  take_damage_hook callbacks original id args h =
      let (status, h1) =
        exec_callbacks callbacks false (pack_params (uint32 id ∷ args) (prepare_for_call h)) in
      damage_after callbacks (damage_original original args status h1)

  -- The trace result of the call is passed on as it is.
  unfoldable pub trace_args : ℕ → List (Param F) → Option (List (Param F))
  trace_args tr (_ ∷ ent_vars attacker ∷ real damage ∷ reals x y z ∷ _ ∷ int32 bits ∷ _) =
      some (ent_vars attacker ∷ real damage ∷ reals x y z ∷ trace tr ∷ int32 bits ∷ [])
  trace_args tr _ = none

  void_read : Original F Unit → Option (List (Param F)) → VTableHook F → Option (VTableHook F)
  void_read original none h = none
  void_read original (some args) h = some (exec_void original args h)

  trace_original :
      Original F Unit → ℕ → List (Param F) → Return → VTableHook F → Option (VTableHook F)
  unfolding void_read
  trace_original original tr args ignored h = some (exec_void original args h)
  trace_original original tr args supercede h = some h
  trace_original original tr args _ h = void_read original (trace_args tr (get_params h)) h

  trace_after : List (Callback F) → Option (VTableHook F) → Option (VTableHook F)
  trace_after callbacks none = none
  trace_after callbacks (some h) = some (cleanup (exec_callbacks callbacks true h).1)

  -- `vTraceAttack`, on the arguments with the trace result that `createTraceResult` made.
  unfoldable pub trace_attack_hook :
      List (Callback F)
      → Original F Unit
      → ℕ
      → ℕ
      → List (Param F)
      → VTableHook F
      → Option (VTableHook F)
  unfolding trace_original trace_after
  trace_attack_hook callbacks original id tr args h =
      let (status, h1) =
        exec_callbacks callbacks false (pack_params (uint32 id ∷ args) (prepare_for_call h)) in
      trace_after callbacks (trace_original original tr args status h1)
