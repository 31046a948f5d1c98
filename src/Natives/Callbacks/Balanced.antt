-- ===== src/Natives/Callbacks/Balanced.antt =====
-- The stacks around a call of a native that a plugin provides.
use spmod.Common.{
  ℕ, ◌≤◌, ◌≡◌, refl, ap, sym, ◌∙◌, inl, inr, ℤ, pos, Bool-cases, List, [], ◌∷◌, some, ltb-false,
  ==_iff, if_true, if_false,
}
use spmod.Natives.Callbacks.{
  Frame, NativeCallback, State, returned, is_at, find_callback, with_frames, pop, too_many, entered,
  after_run, called, invoked, invoke,
}

find_callback-address :
    (a : ℕ) (c : NativeCallback) (cs : List NativeCallback)
    → find_callback a cs ≡ some c
    → c.address ≡ a
find_callback-address a c [] e = absurd cc
find_callback-address a c (d ∷ cs) e = elim (Bool-cases (is_at a d)) [
  | inl here ↦
      let same : some d ≡ some c = sym (if_true _ _ _ here) ∙ e in
      let own = (==_iff d.address a).0 here in cc
  | inr other ↦ find_callback-address a c cs (sym (if_false _ _ _ other) ∙ e)
]

with_frames-pop :
    (f : Frame) (a : ℕ) (cs : List NativeCallback)
    → with_frames pop a (with_frames (λ fs. f ∷ fs) a cs) ≡ cs
unfolding with_frames
with_frames-pop f a [] = refl
with_frames-pop f a (c ∷ cs) = elim (Bool-cases (is_at a c)) [
  | inl here ↦ ap (with_frames pop a) (if_true _ _ _ here) ∙ if_true _ _ _ here
  | inr other ↦
      ap (with_frames pop a) (if_false _ _ _ other)
      ∙ (if_false _ _ _ other ∙ ap (◌∷◌ c) (with_frames-pop f a cs))
]

-- Functions that leave the stacks as they find them, as those do that invoke natives themselves.
abbrev pub AreBalanced : ((func : ℕ) → State → ℤ × State) → Type 0
AreBalanced run =
    (func : ℕ) (s : State)
    → ((run func s).1.callbacks ≡ s.callbacks) × ((run func s).1.current ≡ s.current)

module _ (run : (func : ℕ) → State → ℤ × State) where
  -- A call of a native whose callback is there and has a function, with at most 32 parameters behind
  -- their number, by functions that leave the stacks as they find them: the native returns what the
  -- function does, which runs with the call on the top of the stacks, and the stacks are then as they
  -- were before; only the memory is as the function left it.
  pub invoke-AreBalanced :
      (address ctx n func : ℕ) (c : NativeCallback) (args : List ℤ) (s : State)
      → AreBalanced run
      → find_callback address s.callbacks ≡ some c
      → c.plugin_function ≡ some func
      → n ≤ 32
      → let (result, s') = run func (entered address ctx (pos n ∷ args) s) in
        invoke run address ctx (pos n ∷ args) s ≡ returned result (record s { memory = s'.memory })
  unfolding invoke invoked called after_run too_many
  invoke-AreBalanced address ctx n func c args s balanced found has_function few =
      let own = find_callback-address address c s.callbacks found in
      ap (λ o. invoked run o ctx (pos n ∷ args) s) found
      ∙ (if_false _ _ _ (ltb-false 32 n few)
          ∙ (ap (λ o. called run o c.address (entered c.address ctx (pos n ∷ args) s)) has_function
              ∙ (ap (λ a. after_run run a (run func (entered a ctx (pos n ∷ args) s))) own
                  ∙ restored)))
    where
      ran : ℤ × State
      ran = run func (entered address ctx (pos n ∷ args) s)

      restored : after_run run address ran ≡ returned ran.0 (record s { memory = ran.1.memory })
      restored =
          let (callbacks, current) = balanced func (entered address ctx (pos n ∷ args) s) in
          rw (callbacks, current)
            (rw (with_frames-pop (record { ctx = ctx; params = pos n ∷ args }) address s.callbacks)
              refl)
