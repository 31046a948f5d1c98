-- ===== src/Natives/Cvars/Values/Numbered.antt =====
-- The numbers that CvarRegister and CvarFind give.
use spmod.Common.{
  ℕ, ◌≡◌, ◌≢◌, refl, ap, ◌∙◌, Bytes, some, ◌==◌, ==_self, ==_false, if_true, if_false,
}
use spmod.Handles.{create, get_key}
use spmod.Handles.Keys.{IsUnnumbered, get_key-create}
use spmod.Cvar as Cvars
use spmod.Cvar.{Cvar, register_cvar, find_cvar}
use spmod.Cvar.Cached.{register_cvar-IsCached, find_cvar-cached}
use spmod.Natives.Cvars.{State}
use spmod.Natives.Cvars.Values.{
  returned, Setting, no_key, numbered, found_cvar, registered, cvar_register, cvar_find,
}

module _ {E : Type 0} (t : Setting E) where
  numbered_new :
      (key : Bytes) (s : State E)
      → IsUnnumbered (Setting.address_of t key) s.handlers.handlers
      → let (id, handlers) =
          create (Setting.place t) (some (Setting.address_of t key)) s.handlers in
        numbered t key s ≡ returned id (record s { handlers = handlers })
  unfolding numbered
  numbered_new key s u =
      let (missing, _) = get_key-create (Setting.place t) (Setting.address_of t key) s.handlers u in
      if_true _ _ _ (ap (λ k. k == no_key) missing ∙ ==_self no_key)

  numbered_old :
      (key : Bytes) (id : ℕ) (s : State E)
      → get_key (some (Setting.address_of t key)) s.handlers ≡ id
      → id ≢ no_key
      → numbered t key s ≡ returned id s
  unfolding numbered
  numbered_old key id s its ok =
      if_false _ _ _ (ap (λ k. k == no_key) its ∙ ==_false id no_key ok)
      ∙ ap (λ k. returned k s) its

  -- The registration of a variable succeeds with the cache `cvars` behind it, no number stands for the
  -- variable, and the new number is not that of a missing key. Then CvarRegister returns the new
  -- number, and CvarFind of the name returns the same number and changes nothing.
  pub cvar_find-cvar_register :
      (name value : Bytes) (flags : ℕ) (c : Cvar) (cvars : Cvars.State E) (s : State E)
      → register_cvar
          (Setting.ops t)
          (Setting.cvar_place t)
          (Setting.rehlds t)
          (Setting.fuel t)
          name
          value
          flags
          s.cvars
        ≡ some (some c, cvars)
      → IsUnnumbered (Setting.address_of t name) s.handlers.handlers
      → (create (Setting.place t) (some (Setting.address_of t name)) s.handlers).0 ≢ no_key
      → let (id, handlers) =
          create (Setting.place t) (some (Setting.address_of t name)) s.handlers in
        let s' = record s { cvars = cvars; handlers = handlers } in
        (cvar_register t name value flags s ≡ returned id s')
        × (cvar_find t name s' ≡ returned id s')
  unfolding cvar_register cvar_find registered found_cvar
  cvar_find-cvar_register name value flags c cvars s made u ok =
      let pointer = some (Setting.address_of t name) in
      let (id, handlers) = create (Setting.place t) pointer s.handlers in
      let s' = record s { cvars = cvars; handlers = handlers } in
      let there =
        register_cvar-IsCached (Setting.ops t) (Setting.cvar_place t) (Setting.rehlds t)
          (Setting.fuel t) name value flags s.cvars (some c, cvars) made c refl in
      let (_, its) = get_key-create (Setting.place t) (Setting.address_of t name) s.handlers u in
      (
        ap (registered t name s) made ∙ numbered_new name (record s { cvars = cvars }) u,
        ap (found_cvar t name s')
              (find_cvar-cached (Setting.ops t) (Setting.cvar_place t) name c cvars there)
            ∙ numbered_old name id s' its ok,
      )
