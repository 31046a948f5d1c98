-- ===== src/Tests/VTable.antt =====
-- Hooks of virtual functions, with natural numbers for `float`.
use spmod.Common.{
  ℕ, ◌≡◌, refl, true, false, Bytes, codes, bytes_eq, if◌then◌else◌, arith, [], ◌∷◌, Option, some,
  inr, ℤ, pos,
}
use spmod.Dict.{Place, bytes_key, find}
use spmod.VTable.{
  handled, override, supercede, int32, VTableHook, Callback, Original, exec_callbacks, set_return,
  take_damage_hook, spawn_hook,
}
use spmod.VTable.Stacks.{Frame, IsTame, KeepsHook}
use spmod.VTable.Damage.{damage, IsDamage, before_call, IsCalled, take_damage_hook-IsCalled}
use spmod.VTable.Others.{IsAny, hooks_balance}
use spmod.VTable.Manager.{
  vfunc_key, write_word, VFuncType, take_damage, Hooked, State, entry_of, offset_name, clear_hooks,
  register_hook,
}
use spmod.VTable.Restored.{IsApart, clear_hooks-register_hook}

abbrev idle : VTableHook ℕ
idle = record { params = []; status = []; original_return = []; ret = [] }

-- Answers `handled` in front of the call and `override` with the value 7 behind it.
abbrev seven : Callback ℕ
seven false h = (handled, h)
seven true h = (override, set_return (int32 (pos 7)) h)

seven-IsTame : IsTame IsDamage seven
seven-IsTame false f h is = (f, refl, is, refl)
seven-IsTame true f h is =
    (record f { ret = some (int32 (pos 7)) }, refl, (is.0, inr (pos 7, refl)), refl)

-- Supersedes the call without a value.
abbrev silent : Callback ℕ
silent post h = (supercede, h)

silent-IsTame : (P : Frame ℕ → Type 0) → IsTame P silent
silent-IsTame P post f h is = (f, refl, is, refl)

abbrev hurt : Original ℕ ℤ
hurt args h = (pos 1, h)

take_damage_hook-IsCalled_example :
    IsCalled
      (seven ∷ [])
      hurt
      (damage 2 3 50 (pos 4))
      idle
      (before_call (seven ∷ []) 9 (damage 2 3 50 (pos 4)) idle)
      (take_damage_hook (seven ∷ []) hurt 9 (damage 2 3 50 (pos 4)) idle)
unfolding exec_callbacks
take_damage_hook-IsCalled_example =
    take_damage_hook-IsCalled (seven ∷ []) hurt 9 2 3 50 (pos 4) idle (seven-IsTame, tt)
      (λ args h. refl) (λ e. absurd cc)

-- The function of the game spawns another object of the class.
abbrev plain : Original ℕ Unit
plain args h = (tt, h)

abbrev nested : Original ℕ Unit
nested args h = (tt, spawn_hook (silent ∷ []) plain 8 h)

nested-KeepsHook : KeepsHook nested
nested-KeepsHook args h =
    (hooks_balance plain 8 3 50 0 0 1 6 (pos 4) h (λ a k. refl)).0 (silent ∷ [])
      (silent-IsTame IsAny, tt)

abbrev first : Place VFuncType Hooked
first k d = 0

abbrev hook_of : VFuncType → ℕ
hook_of func = 77

-- A table at 100 for the class "player", one at 200 for all others.
abbrev vtable_of : Bytes → Option ℕ
vtable_of classname = if bytes_eq classname (codes "player") then some 100 else some 200

abbrev fresh : State
fresh = record {
  hooks = [];
  vtable_offsets = (codes "takedamage", 3) ∷ [];
  callbacks = [];
  memory = λ a. a;
}

-- The hook of the class "player" stands at the word 112.
abbrev hooked : State
hooked = record fresh {
  hooks = (take_damage, record { vtable = 100; entry = 112; original = 112 }) ∷ [];
  memory = write_word 112 77 (λ a. a);
}

monster-IsApart :
    (vtable offset : ℕ)
    → vtable_of (codes "monster") ≡ some vtable
    → find (offset_name take_damage) hooked.vtable_offsets ≡ some offset
    → IsApart vtable (entry_of 4 vtable offset) hooked.hooks
unfolding bytes_eq
monster-IsApart vtable offset has known =
    let e : 200 ≡ vtable = cc in (λ w. absurd (omega (arith, e, w)), tt)

clear_hooks-register_hook_example :
    (clear_hooks
        (register_hook first hook_of 4 vtable_of take_damage (codes "monster") hooked).1).memory
      212
    ≡ (clear_hooks hooked).memory 212
clear_hooks-register_hook_example =
    clear_hooks-register_hook first hook_of 4 vtable_of take_damage (codes "monster") hooked
      monster-IsApart 212
