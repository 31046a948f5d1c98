-- ===== src/Natives/Messages/Arguments.antt =====
-- The natives of the arguments of a message that is intercepted.
use spmod.Common.{
  ℕ, ◌<◌, ◌≤◌, ◌^◌, ◌≡◌, ◌⊎◌, inl, inr, refl, ap, ◌∙◌, ℤ, pos, true, false, ◌||◌, Bool-cases, Bytes,
  [], some, arith, leb, get_elem?, set as set_at, length, get_elem?-some, get_elem?-set_self,
  if_true, if_false,
}
use spmod.Message.{Message, Param, ParamData, int, real, text, set_param}
use spmod.Utils.Copy.{str_copy}
use spmod.Utils.View.{whole}
use spmod.Natives.Packed.{is_negative, to_size}
use spmod.Natives.Messages.{
  State, Result, returned, reported, with_argument, at_param, set_argument, copied,
  get_msg_arg_type, get_msg_arg_int, get_msg_arg_float, get_msg_arg_string, set_msg_arg_int,
  set_msg_arg_float, set_msg_arg_string,
}

-- A call of one of the natives, behind the index of its argument.
pub data Operation : Type 0 where
  arg_type get_int get_float : Operation
  get_string : (buffer : Bytes) (size : ℕ) → Operation
  set_int : ℤ → Operation
  set_float : ℕ → Operation
  set_string : Bytes → Operation

-- The natives that set an argument to a value, and read it.
abbrev pub setter : ParamData → Operation
setter (int i) = set_int i
setter (real x) = set_float x
setter (text string) = set_string string

abbrev pub getter : (buffer : Bytes) (size : ℕ) → ParamData → Operation
getter buffer size (int i) = get_int
getter buffer size (real x) = get_float
getter buffer size (text string) = get_string buffer size

set_param-found :
    (index : ℕ) (p : Param) (value : ParamData) (m : Message)
    → get_elem? m.params index ≡ some p
    → set_param index value m
      ≡ record m { params = set_at m.params index (record p { value = value }) }
unfolding set_param
set_param-found index p value m at = rw (at, set_param) refl

module _ {W : Type 0} (to_cell : ℕ → ℤ) where
  unfoldable pub on_argument : ℕ → Operation → State W → Result W
  on_argument index arg_type s = get_msg_arg_type index s
  on_argument index get_int s = get_msg_arg_int index s
  on_argument index get_float s = get_msg_arg_float to_cell index s
  on_argument index (get_string buffer size) s = get_msg_arg_string index buffer size s
  on_argument index (set_int value) s = set_msg_arg_int index value s
  on_argument index (set_float value) s = set_msg_arg_float index value s
  on_argument index (set_string string) s = set_msg_arg_string index string s

  -- An index below 0 or of no argument, or a call outside of a hook.
  abbrev pub IsRefused : ℕ → State W → Type 0
  IsRefused index s =
      (s.mngr.inhook ≡ false) ⊎ (is_negative index ≡ true) ⊎ (length s.mngr.message.params ≤ index)

  with_argument-refused :
      (index : ℕ) (f : Param → Result W) (s : State W)
      → IsRefused index s
      → with_argument index f s ≡ reported s
  unfolding with_argument
  with_argument-refused index f s h = elim (Bool-cases s.mngr.inhook) [
    | inr outside ↦ if_false _ _ _ outside
    | inl inside ↦ if_true _ _ _ inside ∙ if_true _ _ _ (out_of_range h inside)
  ]
    where
      out_of_range :
          IsRefused index s
          → s.mngr.inhook ≡ true
          → (is_negative index || leb (length s.mngr.message.params) index) ≡ true
      out_of_range (inl outside) inside = absurd cc
      out_of_range (inr (inl below)) inside = rw below refl
      out_of_range (inr (inr far)) inside = ground arith

  -- A native of an argument that is called outside of a hook, with an index below 0 or with one of no
  -- argument reports it and changes nothing.
  pub on_argument-refused :
      (index : ℕ) (o : Operation) (s : State W)
      → IsRefused index s
      → on_argument index o s ≡ reported s
  unfolding on_argument get_msg_arg_type get_msg_arg_int get_msg_arg_float get_msg_arg_string
      set_msg_arg_int set_msg_arg_float set_msg_arg_string
  on_argument-refused index arg_type s h = with_argument-refused index _ s h
  on_argument-refused index get_int s h = with_argument-refused index _ s h
  on_argument-refused index get_float s h = with_argument-refused index _ s h
  on_argument-refused index (get_string buffer size) s h = with_argument-refused index _ s h
  on_argument-refused index (set_int value) s h = with_argument-refused index _ s h
  on_argument-refused index (set_float value) s h = with_argument-refused index _ s h
  on_argument-refused index (set_string string) s h = with_argument-refused index _ s h

  with_argument-found :
      (index : ℕ) (p : Param) (f : Param → Result W) (s : State W)
      → s.mngr.inhook ≡ true
      → index < 2 ^ 31
      → get_elem? s.mngr.message.params index ≡ some p
      → with_argument index f s ≡ f p
  unfolding with_argument at_param
  with_argument-found index p f s inside low at =
      let near = get_elem?-some s.mngr.message.params index p at in
      let ok : (is_negative index || leb (length s.mngr.message.params) index) ≡ false =
        ground (arith, near) in
      if_true _ _ _ inside ∙ (if_false _ _ _ ok ∙ rw at refl)

  params-set_argument :
      (index : ℕ) (p : Param) (value : ParamData) (s : State W)
      → get_elem? s.mngr.message.params index ≡ some p
      → (set_argument index value s).mngr.message.params
        ≡ set_at s.mngr.message.params index (record p { value = value })
  unfolding set_argument
  params-set_argument index p value s at =
      ap (λ m. m.params) (set_param-found index p value s.mngr.message at)

  -- What is read of a value.
  abbrev pub read : (buffer : Bytes) (size : ℕ) → ParamData → State W → Result W
  read buffer size (int i) s = returned i [] s
  read buffer size (real x) s = returned (to_cell x) [] s
  read buffer size (text string) s = copied s (str_copy buffer (to_size size) (whole string))

  inhook-set_argument :
      (index : ℕ) (p : Param) (value : ParamData) (s : State W)
      → get_elem? s.mngr.message.params index ≡ some p
      → (set_argument index value s).mngr.inhook ≡ s.mngr.inhook
  unfolding set_argument
  inhook-set_argument index p value s at = refl

  -- In a hook, and for the index of an argument below 2 ^ 31: SetMsgArgInt, SetMsgArgFloat or
  -- SetMsgArgString returns 1, and the native of the same kind then reads the value that was set. The
  -- type of the argument stays, and so do the other arguments. A float is read converted to a cell.
  pub on_argument-setter :
      (index : ℕ) (p : Param) (value : ParamData) (buffer : Bytes) (size : ℕ) (s : State W)
      → s.mngr.inhook ≡ true
      → index < 2 ^ 31
      → get_elem? s.mngr.message.params index ≡ some p
      → (s' : State W) × (on_argument index (setter value) s ≡ returned (pos 1) [] s')
        × (on_argument index (getter buffer size value) s' ≡ read buffer size value s')
        × (s'.mngr.message.params ≡ set_at s.mngr.message.params index (record p { value = value }))
  unfolding on_argument get_msg_arg_int get_msg_arg_float get_msg_arg_string set_msg_arg_int
      set_msg_arg_float set_msg_arg_string
  on_argument-setter index p value buffer size s inside low at = (
    set_argument index value s,
    is_set value,
    is_read value,
    params-set_argument index p value s at,
  )
    where
      is_set :
          (v : ParamData)
          → on_argument index (setter v) s ≡ returned (pos 1) [] (set_argument index v s)
      is_set (int i) = with_argument-found index p _ s inside low at
      is_set (real x) = with_argument-found index p _ s inside low at
      is_set (text string) = with_argument-found index p _ s inside low at

      there :
          (v : ParamData)
          → get_elem? (set_argument index v s).mngr.message.params index
            ≡ some (record p { value = v })
      there v =
          ap (λ ps. get_elem? ps index) (params-set_argument index p v s at)
          ∙ get_elem?-set_self s.mngr.message.params index _
              (get_elem?-some s.mngr.message.params index p at)

      inside' : (v : ParamData) → (set_argument index v s).mngr.inhook ≡ true
      inside' v = inhook-set_argument index p v s at ∙ inside

      is_read :
          (v : ParamData)
          → on_argument index (getter buffer size v) (set_argument index v s)
            ≡ read buffer size v (set_argument index v s)
      is_read (int i) = with_argument-found index _ _ _ (inside' (int i)) low (there (int i))
      is_read (real x) = with_argument-found index _ _ _ (inside' (real x)) low (there (real x))
      is_read (text string) =
          with_argument-found index _ _ _ (inside' (text string)) low (there (text string))
