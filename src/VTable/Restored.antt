-- ===== src/VTable/Restored.antt =====
-- What VTableHookManager writes into the tables of virtual functions, and that it is undone.
use spmod.Common.{
  ℕ, zero, suc, ◌≡◌, ◌≢◌, ◌⊎◌, inl, inr, refl, ap, sym, ◌∙◌, Bool, true, false, Bool-cases, ◌&&◌,
  Bytes, [], ◌∷◌, Option, Option-cases, none, some, arith, All, ◌==◌, ==_iff, ==_self, if_true,
  if_false, insert_at,
}
use spmod.Dict.{Dict, Place, bytes_key, find, try_emplace}
use spmod.Dict.Laws.{try_emplace_new, try_emplace_old, find-try_emplace_new}
use spmod.VTable.Manager.{
  VFuncType, vfunc_key, Hooked, Memory, State, write_word, offset_name, destroy, get_hook_at,
  destroy_all, clear_hooks, after_emplace, register_at, entry_of, register_vtable, register_offset,
  register_hook,
}

destroy_all-congr :
    (hooks : Dict VFuncType Hooked) (m m' : Memory)
    → ((a : ℕ) → m a ≡ m' a)
    → (a : ℕ) → destroy_all hooks m a ≡ destroy_all hooks m' a
unfolding destroy_all
destroy_all-congr [] m m' same a = same a
destroy_all-congr ((func, h) ∷ hooks) m m' same a =
    destroy_all-congr hooks (destroy h m) (destroy h m') (λ b. rw (same b) refl) a

-- Writes to two places, in either order.
write_word-swap :
    (e e' v v' : ℕ) (m : Memory)
    → e ≢ e'
    → (a : ℕ) → write_word e v (write_word e' v' m) a ≡ write_word e' v' (write_word e v m) a
write_word-swap e e' v v' m n a = elim (Bool-cases (a == e)) [
  | inl here ↦ let off : (a == e') ≡ false = ground arith in rw (here, off) refl
  | inr there ↦ rw there refl
]

write_word-back : (e v : ℕ) (m : Memory) (a : ℕ) → write_word e (m e) (write_word e v m) a ≡ m a
write_word-back e v m a = elim (Bool-cases (a == e)) [
  | inl here ↦ if_true _ _ _ here ∙ ap m (sym ((==_iff a e).0 here))
  | inr there ↦ if_false _ _ _ there ∙ if_false _ _ _ there
]

undone :
    (n : Hooked) (v : ℕ) (m : Memory)
    → n.original ≡ m n.entry
    → (a : ℕ) → destroy n (write_word n.entry v m) a ≡ m a
undone n v m o a = rw o (write_word-back n.entry v m a)

abbrev pub IsFree : ℕ → Dict VFuncType Hooked → Type 0
IsFree entry hooks = All (λ p. p.1.entry ≢ entry) hooks

destroy_all-insert_at :
    (func : VFuncType) (n : Hooked) (v i : ℕ) (hooks : Dict VFuncType Hooked) (m : Memory)
    → n.original ≡ m n.entry
    → IsFree n.entry hooks
    → (a : ℕ)
    → destroy_all (insert_at i (func, n) hooks) (write_word n.entry v m) a ≡ destroy_all hooks m a
unfolding destroy_all
destroy_all-insert_at func n v zero hooks m o free a =
    destroy_all-congr hooks (destroy n (write_word n.entry v m)) m (undone n v m o) a
destroy_all-insert_at func n v (suc i) [] m o free a = undone n v m o a
destroy_all-insert_at func n v (suc i) ((g, h) ∷ hooks) m o (ne, free) a =
    destroy_all-congr (insert_at i (func, n) hooks) (destroy h (write_word n.entry v m))
      (write_word n.entry v (destroy h m)) (write_word-swap h.entry n.entry h.original v m ne) a
    ∙ destroy_all-insert_at func n v i hooks (destroy h m) (o ∙ sym (if_false _ _ _ (off ne))) free
        a
  where
    off : {x y : ℕ} → x ≢ y → (y == x) ≡ false
    off {x} {y} q = elim (Bool-cases (y == x)) [
      | inl e ↦ absurd (q (sym ((==_iff y x).0 e)))
      | inr e ↦ e
    ]

-- A hook at the same word is one of the same table.
abbrev pub IsApart : ℕ → ℕ → Dict VFuncType Hooked → Type 0
IsApart vtable entry hooks = All (λ p. p.1.entry ≡ entry → p.1.vtable ≡ vtable) hooks

get_hook_at-IsFree :
    (vtable entry : ℕ) (hooks : Dict VFuncType Hooked)
    → IsApart vtable entry hooks
    → get_hook_at vtable entry hooks ≡ none
    → IsFree entry hooks
unfolding get_hook_at
get_hook_at-IsFree vtable entry [] apart e = tt
get_hook_at-IsFree vtable entry ((g, h) ∷ hooks) (same, apart) e =
    elim (Bool-cases ((h.vtable == vtable) && (h.entry == entry))) [
      | inl found ↦ absurd (cc (sym (if_true _ _ _ found) ∙ e))
      | inr missed ↦ (
        λ q. absurd (both q (same q) missed),
        get_hook_at-IsFree vtable entry hooks apart (sym (if_false _ _ _ missed) ∙ e),
      )
    ]
  where
    both :
        h.entry ≡ entry
        → h.vtable ≡ vtable
        → ((h.vtable == vtable) && (h.entry == entry)) ≡ false
        → ⊥
    both x y z = ground arith

module _ (place : Place VFuncType Hooked) (hook_of : VFuncType → ℕ) (word : ℕ) where
  clear_hooks-register_at :
      (func : VFuncType) (vtable entry : ℕ) (s : State)
      → IsApart vtable entry s.hooks
      → (a : ℕ)
      → (clear_hooks
            (register_at place hook_of func vtable entry
              (get_hook_at vtable entry s.hooks)
              s).1).memory
          a
        ≡ (clear_hooks s).memory a
  unfolding clear_hooks register_at after_emplace
  clear_hooks-register_at func vtable entry s apart a =
      elim (Option-cases (get_hook_at vtable entry s.hooks)) [
        | inr (found, e) ↦ rw e refl
        | inl e ↦ rw e (elim (Option-cases (find func s.hooks)) [
          | inl new ↦ rw (try_emplace_new place func n s.hooks new) (
              destroy_all-insert_at func n (hook_of func) (place func s.hooks) s.hooks s.memory refl
                (get_hook_at-IsFree vtable entry s.hooks apart e) a)
          | inr (old, taken) ↦ rw (try_emplace_old place func n old s.hooks taken) (
              destroy_all-congr s.hooks (destroy n (write_word entry (hook_of func) s.memory))
                s.memory (undone n (hook_of func) s.memory refl) a)
        ])
      ]
    where
      n : Hooked
      n = record { vtable = vtable; entry = entry; original = s.memory entry }

  -- `clearHooks` behind `registerHook` leaves each word of memory as `clearHooks` without it would, if
  -- a hook that stands at the word of the new one is of the same table; so all that the hooks wrote
  -- is undone, whether the new hook was made, was there already or found no place in the map.
  pub clear_hooks-register_hook :
      (vtable_of : Bytes → Option ℕ) (func : VFuncType) (classname : Bytes) (s : State)
      → ((vtable offset : ℕ)
          → vtable_of classname ≡ some vtable
          → find (offset_name func) s.vtable_offsets ≡ some offset
          → IsApart vtable (entry_of word vtable offset) s.hooks)
      → (a : ℕ)
      → (clear_hooks (register_hook place hook_of word vtable_of func classname s).1).memory a
        ≡ (clear_hooks s).memory a
  unfolding register_hook register_offset register_vtable
  clear_hooks-register_hook vtable_of func classname s apart a =
      elim (Option-cases (find (offset_name func) s.vtable_offsets)) [
        | inl unknown ↦ rw unknown refl
        | inr (offset, known) ↦ rw known (by_vtable offset (vtable_of classname) refl known)
      ]
    where
      by_vtable :
          (offset : ℕ) (o : Option ℕ)
          → vtable_of classname ≡ o
          → find (offset_name func) s.vtable_offsets ≡ some offset
          → (clear_hooks (register_vtable place hook_of word func offset o s).1).memory a
            ≡ (clear_hooks s).memory a
      by_vtable offset none e known = refl
      by_vtable offset (some zero) e known = refl
      by_vtable offset (some (suc n)) e known =
          clear_hooks-register_at func (suc n) (entry_of word (suc n) offset) s
            (apart (suc n) offset e known) a

  -- For a class with a table, a function with an offset, and a word without a hook: the first hook of
  -- a function stands in the map with the old content of the word, and that word alone is changed to
  -- the function of the hook. For a function that has a hook already, `registerHook` returns that hook
  -- of another class, and changes neither the map nor a word of memory: the class is not hooked.
  pub register_hook_cases :
      (vtable_of : Bytes → Option ℕ) (func : VFuncType) (classname : Bytes) (s : State)
      (n offset : ℕ)
      → vtable_of classname ≡ some (suc n)
      → find (offset_name func) s.vtable_offsets ≡ some offset
      → get_hook_at (suc n) (entry_of word (suc n) offset) s.hooks ≡ none
      → let (result, s') = register_hook place hook_of word vtable_of func classname s in
        let entry = entry_of word (suc n) offset in
        (result ≡ some func)
        × (find func s.hooks ≡ none
            → (find func s'.hooks
                ≡ some (record { vtable = suc n; entry = entry; original = s.memory entry }))
              × (s'.memory entry ≡ hook_of func)
              × ((a : ℕ) → (a ≡ entry) ⊎ (s'.memory a ≡ s.memory a)))
        × ((old : Hooked)
            → find func s.hooks ≡ some old
            → (s'.hooks ≡ s.hooks) × ((a : ℕ) → s'.memory a ≡ s.memory a))
  unfolding register_hook register_offset register_vtable register_at after_emplace
  register_hook_cases vtable_of func classname s n offset has known missing =
      rw (known, has, missing)
        (
          by_flag (try_emplace place func h s.hooks),
          λ new. rw (try_emplace_new place func h s.hooks new) (
            rw (try_emplace_new place func h s.hooks new) at
                (find-try_emplace_new place func h s.hooks new),
            if_true _ _ _ (==_self entry),
            λ a. elim (Bool-cases (a == entry)) [
              | inl here ↦ inl ((==_iff a entry).0 here)
              | inr there ↦ inr (if_false _ _ _ there)
            ],
          ),
          λ old taken.
              rw (try_emplace_old place func h old s.hooks taken)
                (refl, λ a. undone h (hook_of func) s.memory refl a),
        )
    where
      entry : ℕ
      entry = entry_of word (suc n) offset

      h : Hooked
      h = record { vtable = suc n; entry = entry; original = s.memory entry }

      by_flag :
          (r : Dict VFuncType Hooked × Bool)
          → (after_emplace func h r
              (record s { memory = write_word entry (hook_of func) s.memory })).0
            ≡ some func
      by_flag (hooks, true) = refl
      by_flag (hooks, false) = refl
