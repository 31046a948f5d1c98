-- ===== src/VTable/Damage.antt =====
-- vTakeDamageHook: what it returns, and what it leaves on the stacks.
use spmod.Common.{
  ℕ, ◌≡◌, ◌≢◌, ◌⊎◌, inl, inr, refl, ◌∙◌, true, false, Bool-cases, List, [], ◌∷◌, Option, none, some,
  All, leb, if◌then◌else◌, ℤ, pos,
}
use spmod.VTable.{
  Return, code, ignored, handled, override, supercede, Param, int32, uint32, real, ent_vars,
  VTableHook, Callback, Original, get_return, get_params, exec_callbacks, exec_original, cleanup,
  damage_args, exec_read, damage_original, returned, original_returned, damage_returned,
  damage_after, take_damage_hook,
}
use spmod.VTable.Stacks.{
  Frame, push, start, IsTame, KeepsHook, prepare_lem, exec_callbacks-push, exec_original-push,
}

-- The value that is returned when the function of the game gave one.
abbrev pub chosen : {F : Type 0} → Return → Option (Param F) → ℤ → ℤ
chosen status (some (int32 value)) result = if leb 2 (code status) then value else result
chosen status _ result = result

module _ {F : Type 0} where
  abbrev pub damage : ℕ → ℕ → F → ℤ → List (Param F)
  damage inflictor attacker amount bits =
      ent_vars inflictor ∷ ent_vars attacker ∷ real amount ∷ int32 bits ∷ []

  -- The parameters have the types of TakeDamage, and a value to return is a number.
  abbrev pub IsDamage : Frame F → Type 0
  IsDamage f =
      ((id : Param F) × (i a : ℕ) × (d : F) × (b : ℤ) × (f.params ≡ id ∷ damage i a d b))
      × ((f.ret ≡ none) ⊎ ((v : ℤ) × (f.ret ≡ some (int32 v))))

  damage_after-result :
      (callbacks : List (Callback F)) (f : Frame F) (h : VTableHook F) (result : ℤ)
      → All (IsTame IsDamage) callbacks
      → IsDamage f
      → f.original_return ≡ some (int32 result)
      → let (status, h') = exec_callbacks callbacks true (push f h) in
        damage_after callbacks (some (push f h)) ≡ some (chosen status (get_return h') result, h)
  unfolding damage_after damage_returned original_returned returned cleanup
  damage_after-result callbacks f h result tame is given =
      let (f', e, (shape, value), same) = exec_callbacks-push IsDamage callbacks true f h tame is in
      let status = (exec_callbacks callbacks true (push f h)).0 in
      rw e (by_value status f' (same ∙ given) value)
    where
      by_value :
          (status : Return) (g : Frame F)
          → g.original_return ≡ some (int32 result)
          → (g.ret ≡ none) ⊎ ((v : ℤ) × (g.ret ≡ some (int32 v)))
          → damage_returned status g.ret (push g h) ≡ some (chosen status g.ret result, h)
      by_value status g o (inl none') = rw (none', o) refl
      by_value status g o (inr (v, e)) =
          rw (e, o)
            (elim (Bool-cases (leb 2 (code status))) [
              | inl above ↦ rw above refl
              | inr below ↦ rw below refl
            ])

  -- The state in front of the call of the function of the game, and what the callbacks answered.
  abbrev pub before_call :
      List (Callback F) → ℕ → List (Param F) → VTableHook F → Return × VTableHook F
  before_call callbacks id args h =
      exec_callbacks callbacks false (push (start (uint32 id ∷ args)) h)

  start-IsDamage : (id i a : ℕ) (d : F) (b : ℤ) → IsDamage (start (uint32 id ∷ damage i a d b))
  start-IsDamage id i a d b = ((uint32 id, i, a, d, b, refl), inl refl)

  -- What comes of a call of the function of the game.
  abbrev pub IsCalled :
      List (Callback F)
      → Original F ℤ
      → List (Param F)
      → VTableHook F
      → Return × VTableHook F
      → Option (ℤ × VTableHook F)
      → Type 0
  IsCalled callbacks original given h (status, h1) outcome =
      (args : List (Param F)) × (status ≡ ignored → args ≡ given)
      × (status ≢ ignored → damage_args (get_params h1) ≡ some args)
      × (let (status', h2) = exec_callbacks callbacks true (exec_original original args h1) in
          outcome ≡ some (chosen status' (get_return h2) (original args h1).0, h))

  called_lem :
      (callbacks : List (Callback F)) (original : Original F ℤ) (args : List (Param F))
      (f : Frame F) (h h1 : VTableHook F)
      → All (IsTame IsDamage) callbacks
      → KeepsHook original
      → IsDamage f
      → h1 ≡ push f h
      → let (status', h2) = exec_callbacks callbacks true (exec_original original args h1) in
        damage_after callbacks (some (exec_original original args h1))
        ≡ some (chosen status' (get_return h2) (original args h1).0, h)
  called_lem callbacks original args f h h1 tame keeps is e =
      rw (e, exec_original-push original args f h keeps)
        (damage_after-result callbacks
          (record f { original_return = some (int32 (original args (push f h)).0) }) h
          (original args (push f h)).0 tame is refl)

  by_status :
      (callbacks : List (Callback F)) (original : Original F ℤ) (given : List (Param F))
      (f : Frame F) (h : VTableHook F) (status : Return) (h1 : VTableHook F)
      → All (IsTame IsDamage) callbacks
      → KeepsHook original
      → IsDamage f
      → h1 ≡ push f h
      → status ≢ supercede
      → IsCalled callbacks original given h
          (status, h1)
          (damage_after callbacks (damage_original original given status h1))
  unfolding damage_original exec_read damage_args
  by_status callbacks original given f h ignored h1 tame keeps is e n = (
    given,
    λ _. refl,
    λ m. absurd (m refl),
    called_lem callbacks original given f h h1 tame keeps is e,
  )
  by_status callbacks original given f h supercede h1 tame keeps is e n = absurd (n refl)
  by_status callbacks original given f h handled h1 tame keeps is e n =
      let ((id, i, a, d, b, shape), value) = is in
      let read : damage_args (get_params h1) ≡ some (damage i a d b) = rw (e, shape) refl in
      (
        damage i a d b,
        λ q. absurd cc,
        λ _. read,
        rw read (called_lem callbacks original (damage i a d b) f h h1 tame keeps is e),
      )
  by_status callbacks original given f h override h1 tame keeps is e n =
      let ((id, i, a, d, b, shape), value) = is in
      let read : damage_args (get_params h1) ≡ some (damage i a d b) = rw (e, shape) refl in
      (
        damage i a d b,
        λ q. absurd cc,
        λ _. read,
        rw read (called_lem callbacks original (damage i a d b) f h h1 tame keeps is e),
      )

  -- If the callbacks do not supersede the call, each keeps to its call with parameters of TakeDamage
  -- and a number for a value, and the function of the game leaves the hook as it finds it: the hook
  -- calls that function once, with the arguments it was given if every callback answered `ignored`
  -- and with the parameters of the callbacks otherwise, and returns the value of a callback when one
  -- is set and an answer behind the call is at least `override`, else the value of the function; the
  -- stacks are as before.
  pub take_damage_hook-IsCalled :
      (callbacks : List (Callback F)) (original : Original F ℤ) (id i a : ℕ) (d : F) (b : ℤ)
      (h : VTableHook F)
      → All (IsTame IsDamage) callbacks
      → KeepsHook original
      → (before_call callbacks id (damage i a d b) h).0 ≢ supercede
      → IsCalled callbacks original
          (damage i a d b)
          h
          (before_call callbacks id (damage i a d b) h)
          (take_damage_hook callbacks original id (damage i a d b) h)
  unfolding take_damage_hook
  take_damage_hook-IsCalled callbacks original id i a d b h tame keeps called =
      let (f, e, is, same) =
        exec_callbacks-push IsDamage callbacks false (start (uint32 id ∷ damage i a d b)) h tame
          (start-IsDamage id i a d b) in
      let (status, h1) = before_call callbacks id (damage i a d b) h in
      rw (prepare_lem (uint32 id ∷ damage i a d b) h)
        (by_status callbacks original (damage i a d b) f h status h1 tame keeps is e called)

  -- If the callbacks supersede the call, under the same conditions on them, the function of the game
  -- is not called. The hook returns the value of a callback, with the stacks as before, when one is
  -- set and an answer behind the call is at least `override`; otherwise it returns 0 and leaves the
  -- tops of the finished call on the stacks.
  pub take_damage_hook-superseded :
      (callbacks : List (Callback F)) (original : Original F ℤ) (id i a : ℕ) (d : F) (b : ℤ)
      (h : VTableHook F)
      → All (IsTame IsDamage) callbacks
      → (before_call callbacks id (damage i a d b) h).0 ≡ supercede
      → let (status, h2) =
          exec_callbacks callbacks true (before_call callbacks id (damage i a d b) h).1 in
        let outcome = take_damage_hook callbacks original id (damage i a d b) h in
        ((v : ℤ) × (get_return h2 ≡ some (int32 v))
          × (leb 2 (code status) ≡ true)
          × (outcome ≡ some (v, h)))
        ⊎ ((f : Frame F) × ((f.ret ≡ none) ⊎ (leb 2 (code status) ≡ false))
            × (h2 ≡ push f h)
            × (outcome ≡ some (pos 0, push f h)))
  unfolding take_damage_hook damage_original damage_after damage_returned original_returned returned
      cleanup
  take_damage_hook-superseded callbacks original id i a d b h tame superseded =
      let (f, e, is, same) =
        exec_callbacks-push IsDamage callbacks false (start (uint32 id ∷ damage i a d b)) h tame
          (start-IsDamage id i a d b) in
      let (g, e', (shape, value), same') =
        exec_callbacks-push IsDamage callbacks true f h tame is in
      let status = (exec_callbacks callbacks true (push f h)).0 in
      rw (prepare_lem (uint32 id ∷ damage i a d b) h, superseded, e, e')
        (by_value status g (same' ∙ same) value)
    where
      by_value :
          (status : Return) (g : Frame F)
          → g.original_return ≡ none
          → (g.ret ≡ none) ⊎ ((v : ℤ) × (g.ret ≡ some (int32 v)))
          → ((v : ℤ) × (g.ret ≡ some (int32 v))
              × (leb 2 (code status) ≡ true)
              × (damage_returned status g.ret (push g h) ≡ some (v, h)))
            ⊎ ((f : Frame F) × ((f.ret ≡ none) ⊎ (leb 2 (code status) ≡ false))
                × (push g h ≡ push f h)
                × (damage_returned status g.ret (push g h) ≡ some (pos 0, push f h)))
      by_value status g o (inl unset) = inr (g, inl unset, refl, rw (unset, o) refl)
      by_value status g o (inr (v, e)) = elim (Bool-cases (leb 2 (code status))) [
        | inl above ↦ inl (v, e, above, rw (e, above) refl)
        | inr below ↦ inr (g, inr below, refl, rw (e, below, o) refl)
      ]
