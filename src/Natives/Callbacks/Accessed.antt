-- ===== src/Natives/Callbacks/Accessed.antt =====
-- What a function of a plugin reads and writes of the arguments of its native.
use spmod.Common.{
  ℕ, zero, suc, ◌+◌, ◌*◌, ◌≤◌, ◌<◌, ◌≡◌, ◌≢◌, refl, ap, sym, ◌∙◌, inl, inr, ◌⊎◌, ℤ, pos, negsuc,
  Bool, true, Bool-cases, List, [], ◌∷◌, some, arith, ◌==◌, ==_self, ==_false, ltb-false, lt→ltb,
  if_true, if_false, get_elem?,
}
use spmod.Natives.Callbacks.{
  Frame, NativeCallback, State, Memory, Result, returned, reported, is_at, find_callback,
  with_frames, entered, top_frame, at_param, in_frame, with_param, is_outside, index_of, at_address,
  written, copy_cells, all_valid, copied, copied_ints, native_get_int, native_get_int_ref,
  native_set_int_ref, native_get_array_int, native_set_array_int,
}

top_frame-with_frames :
    (f : Frame) (a : ℕ) (c : NativeCallback) (cs : List NativeCallback)
    → find_callback a cs ≡ some c
    → top_frame (find_callback a (with_frames (λ fs. f ∷ fs) a cs)) ≡ some f
unfolding with_frames top_frame
top_frame-with_frames f a c [] e = absurd cc
top_frame-with_frames f a c (d ∷ cs) e = elim (Bool-cases (is_at a d)) [
  | inl here ↦
      ap (λ ds. top_frame (find_callback a ds)) (if_true _ _ _ here)
      ∙ ap top_frame (if_true _ _ _ here)
  | inr other ↦
      ap (λ ds. top_frame (find_callback a ds)) (if_false _ _ _ other)
      ∙ (ap top_frame (if_false _ _ _ other)
          ∙ top_frame-with_frames f a c cs (sym (if_false _ _ _ other) ∙ e))
]

-- Within a call of a native with `n` parameters.
abbrev pub inside : ℕ → ℕ → ℕ → List ℤ → State → State
inside address ctx n args s = entered address ctx (pos n ∷ args) s

module _ (address ctx n : ℕ) (c : NativeCallback) (args : List ℤ) (s : State)
    (found : find_callback address s.callbacks ≡ some c) where
  frame : Frame
  frame = record { ctx = ctx; params = pos n ∷ args }

  with_param-inside :
      (param : ℤ) (g : Frame → ℤ → Result)
      → with_param param g (inside address ctx n args s)
        ≡ in_frame (some frame) param g (inside address ctx n args s)
  unfolding with_param frame
  with_param-inside param g =
      ap (λ o. in_frame o param g (inside address ctx n args s))
        (top_frame-with_frames frame address c s.callbacks found)

  with_param-found :
      (i : ℕ) (value : ℤ) (g : Frame → ℤ → Result)
      → i ≤ n
      → get_elem? (pos n ∷ args) i ≡ some value
      → with_param (pos i) g (inside address ctx n args s) ≡ g frame value
  unfolding in_frame at_param is_outside index_of frame
  with_param-found i value g low at =
      with_param-inside (pos i) g
      ∙ (if_false _ _ _ (ltb-false n i low) ∙ ap (λ o. at_param o (g frame)) at)

  -- Within a call of a native of `n` parameters, whatever calls are around it: NativeGetInt of an index
  -- up to `n` returns the parameter of this call at the index, the number of parameters for 0, and of
  -- any other index it reports and changes nothing.
  pub native_get_int_cases :
      (param : ℤ)
      → ((i : ℕ) (value : ℤ)
          → param ≡ pos i
          → i ≤ n
          → get_elem? (pos n ∷ args) i ≡ some value
          → native_get_int param (inside address ctx n args s)
            ≡ returned value (inside address ctx n args s))
        × ((i : ℕ)
            → (param ≡ negsuc i) ⊎ ((param ≡ pos i) × (n < i))
            → native_get_int param (inside address ctx n args s)
              ≡ reported (inside address ctx n args s))
  unfolding native_get_int in_frame at_param is_outside frame
  native_get_int_cases param = (
    (λ i value is low at.
        ap (λ p. native_get_int p (inside address ctx n args s)) is
        ∙ with_param-found i value _ low at),
    refused,
  )
    where
      refused :
          (i : ℕ)
          → (param ≡ negsuc i) ⊎ ((param ≡ pos i) × (n < i))
          → native_get_int param (inside address ctx n args s)
            ≡ reported (inside address ctx n args s)
      refused i (inl is) =
          ap (λ p. native_get_int p (inside address ctx n args s)) is
          ∙ with_param-inside (negsuc i) _
      refused i (inr (is, far)) =
          ap (λ p. native_get_int p (inside address ctx n args s)) is
          ∙ (with_param-inside (pos i) _ ∙ if_true _ _ _ (lt→ltb n i far))

-- The address is none of those of `n` cells from `b` on.
abbrev pub IsOutside : ℕ → ℕ → ℕ → Type 0
IsOutside n b x = (k : ℕ) → k < n → x ≢ b + 4 * k

copy_cells-apart :
    (n from a to b : ℕ) (m : Memory)
    → from ≢ to
    → ((k : ℕ) → k < n → copy_cells n from a to b m to (b + 4 * k) ≡ m from (a + 4 * k))
      × ((d x : ℕ) → (d ≢ to) ⊎ IsOutside n b x → copy_cells n from a to b m d x ≡ m d x)
unfolding copy_cells
copy_cells-apart zero from a to b m apart = ((λ k h. absurd (omega arith)), (λ d x h. refl))
copy_cells-apart (suc n) from a to b m apart =
    let (copied, kept) =
      copy_cells-apart n from (a + 4) to (b + 4) (written to b (m from a) m) apart in
    (by_place copied kept, λ d x h. kept d x (further d x h) ∙ unwritten d x (first d x h))
  where
    next : Memory
    next = written to b (m from a) m

    further : (d x : ℕ) → (d ≢ to) ⊎ IsOutside (suc n) b x → (d ≢ to) ⊎ IsOutside n (b + 4) x
    further d x (inl e) = inl e
    further d x (inr out) = inr (λ k h q. out (suc k) (omega arith) (omega (arith, q)))

    first : (d x : ℕ) → (d ≢ to) ⊎ IsOutside (suc n) b x → (d ≢ to) ⊎ (x ≢ b)
    first d x (inl e) = inl e
    first d x (inr out) = inr (λ q. out 0 (omega arith) (omega (arith, q)))

    unwritten : (d x : ℕ) → (d ≢ to) ⊎ (x ≢ b) → next d x ≡ m d x
    unwritten d x (inl e) = rw (==_false d to e) refl
    unwritten d x (inr l) = elim (Bool-cases (d == to)) [
      | inl e ↦ rw (e, ==_false x b l) refl
      | inr e ↦ rw e refl
    ]

    by_place :
        ((k : ℕ)
          → k < n
          → copy_cells n from (a + 4) to (b + 4) next to (b + 4 + 4 * k)
            ≡ next from (a + 4 + 4 * k))
        → ((d x : ℕ)
            → (d ≢ to) ⊎ IsOutside n (b + 4) x
            → copy_cells n from (a + 4) to (b + 4) next d x ≡ next d x)
        → (k : ℕ) → k < suc n
        → copy_cells n from (a + 4) to (b + 4) next to (b + 4 * k) ≡ m from (a + 4 * k)
    by_place copied kept zero h =
        let at_b : b + 4 * 0 ≡ b = omega arith in
        let at_a : a + 4 * 0 ≡ a = omega arith in
        rw (at_b, at_a)
          (kept to b (inr (λ k l q. omega (arith, q))) ∙ rw (==_self to, ==_self b) refl)
    by_place copied kept (suc k) h =
        let at_b : b + 4 * suc k ≡ b + 4 + 4 * k = omega arith in
        let at_a : a + 4 * suc k ≡ a + 4 + 4 * k = omega arith in
        rw (at_b, at_a) (copied k (omega arith) ∙ unwritten from _ (inl apart))

module _ (valid : ℕ → ℕ → Bool) where
  -- Within a call of a native, and for a parameter that holds an address of a cell of the caller:
  -- NativeSetIntRef returns 1 and writes the value to the memory of the caller at the address and
  -- nowhere else, and NativeGetIntRef then returns it.
  pub native_get_int_ref-native_set_int_ref :
      (address ctx n i a : ℕ) (value : ℤ) (c : NativeCallback) (args : List ℤ) (s : State)
      → find_callback address s.callbacks ≡ some c
      → i ≤ n
      → get_elem? (pos n ∷ args) i ≡ some (pos a)
      → valid ctx a ≡ true
      → let s' = record s { memory = written ctx a value s.memory } in
        (native_set_int_ref valid (pos i) value (inside address ctx n args s)
          ≡ returned (pos 1) (inside address ctx n args s'))
        × (native_get_int_ref valid (pos i) (inside address ctx n args s')
            ≡ returned value (inside address ctx n args s'))
        × ((d b : ℕ) → (d ≢ ctx) ⊎ (b ≢ a) → s'.memory d b ≡ s.memory d b)
  unfolding native_set_int_ref native_get_int_ref at_address frame
  native_get_int_ref-native_set_int_ref address ctx n i a value c args s found low at cell =
      let s' = record s { memory = written ctx a value s.memory } in
      (
        with_param-found address ctx n c args s found i (pos a) _ low at ∙ if_true _ _ _ cell,
        with_param-found address ctx n c args s' found i (pos a) _ low at
            ∙ (if_true _ _ _ cell ∙ ap (λ v. returned v (inside address ctx n args s')) here),
        elsewhere,
      )
    where
      here : written ctx a value s.memory ctx a ≡ value
      here = rw (==_self ctx, ==_self a) refl

      elsewhere : (d b : ℕ) → (d ≢ ctx) ⊎ (b ≢ a) → written ctx a value s.memory d b ≡ s.memory d b
      elsewhere d b (inl e) = rw (==_false d ctx e) refl
      elsewhere d b (inr e) = elim (Bool-cases (d == ctx)) [
        | inl same ↦ rw (same, ==_false b a e) refl
        | inr other ↦ rw other refl
      ]

  -- Within a call of a native, for a parameter that holds an address of the caller, and for a context
  -- other than the caller's with a buffer, each with `size` cells of its own at its address:
  -- NativeGetArrayInt returns 1 and copies as many cells of the caller to the buffer, and
  -- NativeSetArrayInt returns 1 and copies those of the buffer to the caller; in each case no other cell
  -- of the memory changes, before them, behind them, or in any other context.
  pub native_array_int_cases :
      (address ctx other n i a b size : ℕ) (c : NativeCallback) (args : List ℤ) (s : State)
      → find_callback address s.callbacks ≡ some c
      → i ≤ n
      → get_elem? (pos n ∷ args) i ≡ some (pos a)
      → ctx ≢ other
      → (valid ctx a ≡ true) × (valid other b ≡ true)
      → (all_valid (valid ctx) size a ≡ true) × (all_valid (valid other) size b ≡ true)
      → ((m : Memory) × (native_get_array_int valid other
              (pos i)
              (pos b)
              (pos size)
              (inside address ctx n args s)
            ≡ returned (pos 1) (inside address ctx n args (record s { memory = m })))
          × ((k : ℕ) → k < size → m other (b + 4 * k) ≡ s.memory ctx (a + 4 * k))
          × ((d x : ℕ) → (d ≢ other) ⊎ IsOutside size b x → m d x ≡ s.memory d x))
        × ((m : Memory) × (native_set_array_int valid other
                (pos i)
                (pos b)
                (pos size)
                (inside address ctx n args s)
              ≡ returned (pos 1) (inside address ctx n args (record s { memory = m })))
            × ((k : ℕ) → k < size → m ctx (a + 4 * k) ≡ s.memory other (b + 4 * k))
            × ((d x : ℕ) → (d ≢ ctx) ⊎ IsOutside size a x → m d x ≡ s.memory d x))
  unfolding native_get_array_int native_set_array_int at_address copied_ints copied frame
  native_array_int_cases address ctx other n i a b size c args s found low at apart first all =
      let (read, kept) = copy_cells-apart size ctx a other b s.memory apart in
      let (set, left) = copy_cells-apart size other b ctx a s.memory (λ e. apart (sym e)) in
      let (first_a, first_b) = first in
      let (all_a, all_b) = all in
      (
        (
          copy_cells size ctx a other b s.memory,
          with_param-found address ctx n c args s found i (pos a) _ low at
              ∙ rw (first_b, first_a, all_a, all_b) refl,
          read,
          kept,
        ),
        (
          copy_cells size other b ctx a s.memory,
          with_param-found address ctx n c args s found i (pos a) _ low at
              ∙ rw (first_b, first_a, all_b, all_a) refl,
          set,
          left,
        ),
      )
