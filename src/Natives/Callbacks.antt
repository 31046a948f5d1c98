-- ===== src/Natives/Callbacks.antt =====
-- subprojects/sourcepawn/NativeCallback.cpp and the natives of CoreNatives.cpp that read and write the
-- arguments of a native that a plugin provides. The function of the plugin is a parameter, and a native
-- of another adapter is left out. Memory is made of the cells of the contexts, by their addresses in
-- bytes, and a `float` is the cell of its pattern.
pub mod Balanced
pub mod Accessed
use spmod.Common.{
  ℕ, zero, suc, ◌+◌, ◌*◌, ℤ, pos, negsuc, Bool, true, false, ◌&&◌, ◌||◌, List, [], ◌∷◌, Option,
  none, some, ◌==◌, ltb, if◌then◌else◌, map, find_first, get_elem?,
}

-- The context and the parameters of a call; the first parameter is the number of the others.
pub record Frame : Type 0 where
  pub ctx : ℕ
  pub params : List ℤ

-- `frames` holds the stacks `m_ctx` and `m_params`, from the top on.
pub record NativeCallback : Type 0 where
  pub address : ℕ
  pub plugin_function : Option ℕ
  pub frames : List Frame

abbrev pub Memory : Type 0
Memory = ℕ → ℕ → ℤ

-- `gSourcePawnPluginsNatives`, the stack `currentPluginNative` from the top on, and the memory.
pub record State : Type 0 where
  pub callbacks : List NativeCallback
  pub current : List ℕ
  pub memory : Memory

-- `crashed` is a use of an empty stack, of a callback that is not there or of a bad address.
pub data Result : Type 0 where
  returned : ℤ → State → Result
  reported : State → Result
  crashed : Result

abbrev pub is_at : ℕ → NativeCallback → Bool
is_at address c = c.address == address

abbrev pub find_callback : ℕ → List NativeCallback → Option NativeCallback
find_callback address cs = find_first (is_at address) cs

-- A change of the frames of the callback at the address.
unfoldable pub with_frames :
    (List Frame → List Frame) → ℕ → List NativeCallback → List NativeCallback
with_frames g address [] = []
with_frames g address (c ∷ cs) =
    if is_at address c then record c { frames = g c.frames } ∷ cs else c ∷ with_frames g address cs

abbrev pub pop {ℓ} : {A : Type ℓ} → List A → List A
pop [] = []
pop (x ∷ xs) = xs

-- SP_MAX_CALL_ARGUMENTS
abbrev pub max_call_arguments : ℕ
max_call_arguments = 32

-- Whether there are more parameters than a call may have.
too_many : List ℤ → Bool
too_many (pos n ∷ params) = ltb max_call_arguments n
too_many _ = false

abbrev pub entered : ℕ → ℕ → List ℤ → State → State
entered address ctx params s = record s {
  callbacks = with_frames (λ fs. record { ctx = ctx; params = params } ∷ fs) address s.callbacks;
  current = address ∷ s.current;
}

abbrev pub left : ℕ → State → State
left address s = record s {
  callbacks = with_frames pop address s.callbacks;
  current = pop s.current;
}

module _ (run : (func : ℕ) → State → ℤ × State) where
  after_run : ℕ → ℤ × State → Result
  after_run address (result, s) = returned result (left address s)

  called : Option ℕ → ℕ → State → Result
  unfolding after_run
  called none address s = crashed
  called (some func) address s = after_run address (run func s)

  invoked : Option NativeCallback → ℕ → List ℤ → State → Result
  unfolding called too_many
  invoked none ctx params s = crashed
  invoked (some c) ctx params s =
      if too_many params
      then reported s
      else called c.plugin_function c.address (entered c.address ctx params s)

  -- NativeCallback::Invoke of the callback at the address, for a function that can be run.
  unfoldable pub invoke : ℕ → (ctx : ℕ) → List ℤ → State → Result
  unfolding invoked
  invoke address ctx params s = invoked (find_callback address s.callbacks) ctx params s

-- getParamAsInt of the frame on the top, and its context.
top_frame : Option NativeCallback → Option Frame
top_frame none = none
top_frame (some c) = elim c.frames [ [] ↦ none | f ∷ fs ↦ some f ]

at_param : Option ℤ → (ℤ → Result) → Result
at_param none g = crashed
at_param (some value) g = g value

-- `param > paramsNum || param < 0`
is_outside : ℤ → ℤ → Bool
is_outside (pos n) (pos i) = ltb n i
is_outside (negsuc n) (pos i) = true
is_outside _ (negsuc i) = true

index_of : ℤ → ℕ
index_of (pos i) = i
index_of (negsuc i) = 0

in_frame : Option Frame → ℤ → (Frame → ℤ → Result) → State → Result
unfolding at_param is_outside index_of
in_frame none param g s = crashed
in_frame (some f) param g s = at_param (get_elem? f.params 0) (λ count.
    if is_outside count param
    then reported s
    else at_param (get_elem? f.params (index_of param)) (g f))

-- The tests of the natives, and the parameter.
pub with_param : ℤ → (Frame → ℤ → Result) → State → Result
unfolding top_frame in_frame
with_param param g s = elim s.current [
  | [] ↦ reported s
  | address ∷ _ ↦ in_frame (top_frame (find_callback address s.callbacks)) param g s
]

-- NativeGetInt and NativeGetFloat.
unfoldable pub native_get_int : ℤ → State → Result
unfolding with_param
native_get_int param s = with_param param (λ f value. returned value s) s

abbrev pub written : ℕ → ℕ → ℤ → Memory → Memory
written ctx address value m c a = if c == ctx && a == address then value else m c a

-- Copies of `n` cells from one context to another, from the first on.
unfoldable pub copy_cells : ℕ → (from from_address to to_address : ℕ) → Memory → Memory
copy_cells zero from a to b m = m
copy_cells (suc n) from a to b m = copy_cells n from (a + 4) to (b + 4) (written to b (m from a) m)

-- Whether `n` cells from an address on pass a test.
abbrev pub all_valid : (ℕ → Bool) → ℕ → ℕ → Bool
all_valid test zero a = true
all_valid test (suc n) a = test a && all_valid test n (a + 4)

-- `valid` tells of a context and an address whether `LocalToPhysAddr` finds a cell there. The natives do
-- not look at its answer and use the pointer, and they use as many cells behind it as they are told.
module _ (valid : ℕ → ℕ → Bool) where
  at_address : (ctx : ℕ) → ℤ → (ℕ → Result) → Result
  at_address ctx (pos a) g = if valid ctx a then g a else crashed
  at_address ctx (negsuc a) g = crashed

  -- NativeGetIntRef and NativeGetFloatRef.
  unfoldable pub native_get_int_ref : ℤ → State → Result
  unfolding with_param at_address
  native_get_int_ref param s =
      with_param param (λ f value. at_address f.ctx value (λ a. returned (s.memory f.ctx a) s)) s

  -- NativeSetIntRef and NativeSetFloatRef.
  unfoldable pub native_set_int_ref : ℤ → (value : ℤ) → State → Result
  unfolding with_param at_address
  native_set_int_ref param value s =
      with_param param
        (λ f address.
          at_address f.ctx address
            (λ a. returned (pos 1) (record s { memory = written f.ctx a value s.memory })))
        s

  copied : ℕ → (from a to b : ℕ) → State → Result
  copied n from a to b s =
      if all_valid (valid from) n a && all_valid (valid to) n b
      then returned (pos 1) (record s { memory = copy_cells n from a to b s.memory })
      else crashed

  -- `std::copy_n` of a count below 0 copies nothing; the loop of the natives of floats counts it as a
  -- `std::size_t`, and leaves the memory.
  copied_ints : ℤ → (from a to b : ℕ) → State → Result
  unfolding copied
  copied_ints (pos n) from a to b s = copied n from a to b s
  copied_ints (negsuc n) from a to b s = returned (pos 1) s

  copied_floats : ℤ → (from a to b : ℕ) → State → Result
  unfolding copied
  copied_floats (pos n) from a to b s = copied n from a to b s
  copied_floats (negsuc n) from a to b s = crashed

  -- The natives of arrays, called by the context `ctx` with an address of its own.
  unfoldable pub native_get_array_int : (ctx : ℕ) → ℤ → (buffer size : ℤ) → State → Result
  unfolding with_param at_address copied_ints
  native_get_array_int ctx param buffer size s =
      with_param param
        (λ f array.
          at_address ctx buffer
            (λ b. at_address f.ctx array (λ a. copied_ints size f.ctx a ctx b s)))
        s

  unfoldable pub native_get_array_float : (ctx : ℕ) → ℤ → (buffer size : ℤ) → State → Result
  unfolding with_param at_address copied_floats
  native_get_array_float ctx param buffer size s =
      with_param param
        (λ f array.
          at_address ctx buffer
            (λ b. at_address f.ctx array (λ a. copied_floats size f.ctx a ctx b s)))
        s

  unfoldable pub native_set_array_int : (ctx : ℕ) → ℤ → (buffer size : ℤ) → State → Result
  unfolding with_param at_address copied_ints
  native_set_array_int ctx param buffer size s =
      with_param param
        (λ f array.
          at_address ctx buffer
            (λ b. at_address f.ctx array (λ a. copied_ints size ctx b f.ctx a s)))
        s

  unfoldable pub native_set_array_float : (ctx : ℕ) → ℤ → (buffer size : ℤ) → State → Result
  unfolding with_param at_address copied_floats
  native_set_array_float ctx param buffer size s =
      with_param param
        (λ f array.
          at_address ctx buffer
            (λ b. at_address f.ctx array (λ a. copied_floats size ctx b f.ctx a s)))
        s
