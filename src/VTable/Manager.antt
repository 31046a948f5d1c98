-- ===== src/VTable/Manager.antt =====
-- VTableHookManager of src/VTableHookManager.cpp: the hooks by their function, and the words of memory
-- in which the tables of virtual functions stand. The entity that the game makes for a class, the
-- addresses of the functions of the hooks and the size of a word are parameters.
use spmod.Common.{
  ℕ, zero, suc, ◌+◌, ◌*◌, ◌≡◌, ◌↔◌, refl, Bool, true, false, ◌&&◌, Bytes, codes, List, [], ◌∷◌,
  ◌++◌, Option, none, some, ◌==◌ as nat_eq, if◌then◌else◌,
}
use spmod.Dict.{Eq, Dict, Place, bytes_key, find, try_emplace}

-- IVTableHookManager::vFuncType.
pub data VFuncType : Type 0 where
  spawn take_damage trace_attack : VFuncType

abbrev pub vfunc_eq : VFuncType → VFuncType → Bool
vfunc_eq spawn spawn = true
vfunc_eq take_damage take_damage = true
vfunc_eq trace_attack trace_attack = true
vfunc_eq _ _ = false

pub vfunc_eq_iff : (a b : VFuncType) → (vfunc_eq a b ≡ true) ↔ (a ≡ b)
vfunc_eq_iff spawn spawn = (λ _. refl, λ _. refl)
vfunc_eq_iff spawn take_damage = (λ e. absurd cc, λ e. absurd cc)
vfunc_eq_iff spawn trace_attack = (λ e. absurd cc, λ e. absurd cc)
vfunc_eq_iff take_damage spawn = (λ e. absurd cc, λ e. absurd cc)
vfunc_eq_iff take_damage take_damage = (λ _. refl, λ _. refl)
vfunc_eq_iff take_damage trace_attack = (λ e. absurd cc, λ e. absurd cc)
vfunc_eq_iff trace_attack spawn = (λ e. absurd cc, λ e. absurd cc)
vfunc_eq_iff trace_attack take_damage = (λ e. absurd cc, λ e. absurd cc)
vfunc_eq_iff trace_attack trace_attack = (λ _. refl, λ _. refl)

instance abbrev pub vfunc_key : Eq VFuncType
vfunc_key = record { beq = vfunc_eq; beq_iff = vfunc_eq_iff }

-- `m_vtable`, `m_entry` and `m_original` of a hook.
pub record Hooked : Type 0 where
  pub vtable : ℕ
  pub entry : ℕ
  pub original : ℕ

abbrev pub Memory : Type 0
Memory = ℕ → ℕ

-- The manager, with callbacks by their numbers, and the memory.
pub record State : Type 0 where
  pub hooks : Dict VFuncType Hooked
  pub vtable_offsets : Dict Bytes ℕ
  pub callbacks : List ℕ
  pub memory : Memory

abbrev pub write_word : ℕ → ℕ → Memory → Memory
write_word entry value memory = λ a. if nat_eq a entry then value else memory a

abbrev pub offset_name : VFuncType → Bytes
offset_name spawn = codes "spawn"
offset_name take_damage = codes "takedamage"
offset_name trace_attack = codes "traceattack"

-- The constructor of a hook reads the entry before it is overwritten; the destructor writes it back.
abbrev pub new_hook : ℕ → ℕ → ℕ → Memory → Hooked × Memory
new_hook vtable entry hook memory = (
  record { vtable = vtable; entry = entry; original = memory entry },
  write_word entry hook memory,
)

abbrev pub destroy : Hooked → Memory → Memory
destroy h memory = write_word h.entry h.original memory

-- `_getHook`.
unfoldable pub get_hook_at : ℕ → ℕ → Dict VFuncType Hooked → Option VFuncType
get_hook_at vtable entry [] = none
get_hook_at vtable entry ((func, h) ∷ hooks) =
    if nat_eq h.vtable vtable && nat_eq h.entry entry
    then some func
    else get_hook_at vtable entry hooks

-- `getHook`; `none` is the exception of `at`.
abbrev pub get_hook : VFuncType → State → Option Hooked
get_hook func s = find func s.hooks

abbrev pub get_pev_offset : State → Option ℕ
get_pev_offset s = find (codes "pev") s.vtable_offsets

abbrev pub add_callback : ℕ → State → State
add_callback callback s = record s { callbacks = s.callbacks ++ (callback ∷ []) }

unfoldable pub destroy_all : Dict VFuncType Hooked → Memory → Memory
destroy_all [] memory = memory
destroy_all ((func, h) ∷ hooks) memory = destroy_all hooks (destroy h memory)

-- `clearHooks`, which is all that `ServerDeactivatePost` does.
unfoldable pub clear_hooks : State → State
clear_hooks s = record s { hooks = []; callbacks = []; memory = destroy_all s.hooks s.memory }

-- A hook that finds no place in the map is destroyed.
unfoldable pub after_emplace :
    VFuncType → Hooked → Dict VFuncType Hooked × Bool → State → Option VFuncType × State
after_emplace func h (hooks, true) s = (some func, record s { hooks = hooks })
after_emplace func h (hooks, false) s =
    (some func, record s { hooks = hooks; memory = destroy h s.memory })

-- The word of a function in a table.
abbrev pub entry_of : ℕ → ℕ → ℕ → ℕ
entry_of word vtable offset = vtable + word * offset

module _ (place : Place VFuncType Hooked) (hook_of : VFuncType → ℕ) where
  unfoldable pub register_at :
      VFuncType → ℕ → ℕ → Option VFuncType → State → Option VFuncType × State
  unfolding after_emplace
  register_at func vtable entry (some found) s = (some found, s)
  register_at func vtable entry none s =
      let (h, memory) = new_hook vtable entry (hook_of func) s.memory in
      after_emplace func h (try_emplace place func h s.hooks) (record s { memory = memory })

  -- No private data, or a null table.
  unfoldable pub register_vtable : ℕ → VFuncType → ℕ → Option ℕ → State → Option VFuncType × State
  unfolding register_at
  register_vtable word func offset none s = (none, s)
  register_vtable word func offset (some zero) s = (none, s)
  register_vtable word func offset (some (suc n)) s =
      let entry = entry_of word (suc n) offset in
      register_at func (suc n) entry (get_hook_at (suc n) entry s.hooks) s

  unfoldable pub register_offset :
      ℕ → (Bytes → Option ℕ) → VFuncType → Bytes → Option ℕ → State → Option VFuncType × State
  unfolding register_vtable
  register_offset word vtable_of func classname none s = (none, s)
  register_offset word vtable_of func classname (some offset) s =
      register_vtable word func offset (vtable_of classname) s

  -- `registerHook`: the function under which the hook stands that is returned, or a null pointer.
  -- `vtable_of` is the table of the private data of an entity of the class, if it has private data.
  unfoldable pub register_hook :
      ℕ → (Bytes → Option ℕ) → VFuncType → Bytes → State → Option VFuncType × State
  unfolding register_offset
  register_hook word vtable_of func classname s =
      register_offset word vtable_of func classname (find (offset_name func) s.vtable_offsets) s
