-- ===== src/Natives/Messages/Unhooked.antt =====
-- What UnhookMessage leaves of the number of a hook.
use mathlib.Core.Path.{subst}
use spmod.Common.{
  ℕ, zero, suc, ◌<◌, ◌^◌, ◌≡◌, ◌≢◌, refl, ap, sym, ◌∙◌, inl, inr, true, false, List, [], ◌∷◌,
  Option, none, some, pos, ◌==◌, ==_iff, ==_self, ==_false, if_true, if_false, All, Bool-cases,
  arith, ltb-false, find_first, if◌then◌else◌,
}
use spmod.Dict.{Place}
use spmod.Handles.{create, get}
use spmod.Handles.Numbers.{IsValid, create-IsValid}
use spmod.Message.Hooks.{MessageHook, pre, post, add_hook, remove_hook}
use spmod.Message.Manager.{MessageMngr, register_hook, unregister_hook}
use spmod.Natives.Packed.{is_negative, to_size}
use spmod.Natives.Messages.{
  State, returned, crashed, max_user_messages, is_message, first_hook, hook_of, hook_message,
  unhook_message, unhooked, at_pointer,
}

-- No hook is at the address.
abbrev pub IsUnused : ℕ → (ℕ → List MessageHook) → Type 0
IsUnused address hooks = (type : ℕ) → All (λ h. h.id ≢ address) (hooks type)

find_first-unused :
    (address : ℕ) (hs : List MessageHook)
    → All (λ h. h.id ≢ address) hs
    → find_first (λ h. h.id == address) hs ≡ none
find_first-unused address [] u = refl
find_first-unused address (h ∷ hs) (u, us) =
    if_false _ _ _ (==_false h.id address u) ∙ find_first-unused address hs us

find_first-add_hook :
    (h : MessageHook) (hs : List MessageHook)
    → All (λ g. g.id ≢ h.id) hs
    → find_first (λ g. g.id == h.id) (add_hook h hs) ≡ some h
find_first-add_hook h [] u = if_true _ _ _ (==_self h.id)
find_first-add_hook h (g ∷ hs) (u, us) =
    if_false _ _ _ (==_false g.id h.id u) ∙ find_first-add_hook h hs us

remove_hook-add_hook :
    (h : MessageHook) (hs : List MessageHook)
    → All (λ g. g.id ≢ h.id) hs
    → remove_hook h.id (add_hook h hs) ≡ hs
remove_hook-add_hook h [] u = if_true _ _ _ (==_self h.id)
remove_hook-add_hook h (g ∷ hs) (u, us) =
    if_false _ _ _ (==_false g.id h.id u) ∙ ap (◌∷◌ g) (remove_hook-add_hook h hs us)

hook_of-unused :
    (address n : ℕ) (hooks : ℕ → List MessageHook)
    → IsUnused address hooks
    → hook_of address n hooks ≡ none
unfolding hook_of first_hook
hook_of-unused address zero hooks u = refl
hook_of-unused address (suc n) hooks u =
    rw (find_first-unused address (hooks n) (u n)) (hook_of-unused address n hooks u)

hook_of-register_hook :
    (h : MessageHook) (n : ℕ) (m : MessageMngr)
    → h.msg_type < n
    → IsUnused h.id m.hooks
    → hook_of h.id n (register_hook h m).hooks ≡ some h
unfolding hook_of first_hook
hook_of-register_hook h zero m low u = absurd (omega arith)
hook_of-register_hook h (suc n) m low u = elim (Bool-cases (n == h.msg_type)) [
  | inl here ↦
      ap (λ hs. first_hook (found hs) (hook_of h.id n hooks')) (if_true _ _ _ here)
      ∙ ap (λ o. first_hook o (hook_of h.id n hooks'))
          (find_first-add_hook h (m.hooks h.msg_type) (u h.msg_type))
  | inr other ↦
      let apart : n ≢ h.msg_type = λ e. cc (other, (==_iff n h.msg_type).1 e) in
      let below : h.msg_type < n = omega arith in
      ap (λ hs. first_hook (found hs) (hook_of h.id n hooks')) (if_false _ _ _ other)
      ∙ (ap (λ o. first_hook o (hook_of h.id n hooks')) (find_first-unused h.id (m.hooks n) (u n))
          ∙ hook_of-register_hook h n m below u)
]
  where
    found : List MessageHook → Option MessageHook
    found = find_first (λ g. g.id == h.id)

    hooks' : ℕ → List MessageHook
    hooks' = (register_hook h m).hooks

unregister_hook-register_hook :
    (h : MessageHook) (m : MessageMngr) (type : ℕ)
    → IsUnused h.id m.hooks
    → (unregister_hook h (register_hook h m)).hooks type ≡ m.hooks type
unregister_hook-register_hook h m type u = elim (Bool-cases (type == h.msg_type)) [
  | inl here ↦
      let same : type ≡ h.msg_type = (==_iff _ _).0 here in
      if_true _ _ _ here
      ∙ (ap (remove_hook h.id) (if_true _ _ _ (==_self h.msg_type))
          ∙ (remove_hook-add_hook h (m.hooks h.msg_type) (u h.msg_type) ∙ ap m.hooks (sym same)))
  | inr other ↦ if_false _ _ _ other ∙ if_false _ _ _ other
]

module _ {W : Type 0} where
  unhook_message-pointer :
      (id address : ℕ) (s : State W)
      → id < 2 ^ 31
      → get id s.message_hooks ≡ some address
      → unhook_message id s ≡ unhooked (hook_of address max_user_messages s.mngr.hooks) s
  unfolding unhook_message at_pointer to_size
  unhook_message-pointer id address s low its =
      let ok : is_negative id ≡ false = ltb-false _ _ (omega arith) in
      let size : to_size id ≡ id = if_false _ _ _ ok in rw (size, its) refl

  -- The numbers of the hooks are valid and the new one is below 2 ^ 31, the type of message is below 256,
  -- and no hook is at the address of the new hook. Then HookMessage returns its number, and
  -- UnhookMessage of this number returns 1 and leaves the hooks of every type as they were before. The
  -- number stays: a second UnhookMessage of it uses the hook that has been destroyed.
  pub unhook_message-hook_message :
      (place : Place ℕ (Option ℕ)) (address type func is_post : ℕ) (s : State W)
      → IsValid s.message_hooks
      → (create place (some address) s.message_hooks).0 < 2 ^ 31
      → type < 256
      → IsUnused address s.mngr.hooks
      → let id = (create place (some address) s.message_hooks).0 in
        (s₁ : State W) × (hook_message place address type func is_post s ≡ returned (pos id) [] s₁)
        × (s₂ : State W) × (unhook_message id s₁ ≡ returned (pos 1) [] s₂)
        × ((t : ℕ) → s₂.mngr.hooks t ≡ s.mngr.hooks t)
        × (unhook_message id s₂ ≡ crashed)
  unfolding hook_message unhooked
  unhook_message-hook_message place address type func is_post s valid low small unused' = (
    s₁,
    if_true _ _ _ ok,
    s₂,
    unhook_message-pointer id address s₁ low its
        ∙ rw (hook_of-register_hook hook 256 s.mngr small unused') refl,
    λ t. unregister_hook-register_hook hook s.mngr t unused',
    unhook_message-pointer id address s₂ low its
        ∙ rw (hook_of-unused address 256 s₂.mngr.hooks gone) refl,
  )
    where
      ok : is_message type ≡ true
      ok = ground arith

      hook : MessageHook
      hook = record {
        id = address;
        msg_type = type;
        handler = func;
        hook_type = if is_post == 1 then post else pre;
        active = true;
      }

      id : ℕ
      id = (create place (some address) s.message_hooks).0

      its : get id (create place (some address) s.message_hooks).1 ≡ some address
      its = (create-IsValid place (some address) s.message_hooks valid).2

      s₁ : State W
      s₁ = record s {
        mngr = register_hook hook s.mngr;
        message_hooks = (create place (some address) s.message_hooks).1;
      }

      s₂ : State W
      s₂ = record s₁ { mngr = unregister_hook hook s₁.mngr }

      gone : IsUnused address s₂.mngr.hooks
      gone t =
          subst (All (λ h. h.id ≢ address))
            (sym (unregister_hook-register_hook hook s.mngr t unused')) (unused' t)
