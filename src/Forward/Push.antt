-- ===== src/Forward/Push.antt =====
-- The push functions of class Forward.
use spmod.Common.{
  ℕ, ◌+◌, ℤ, Bool, true, false, Bytes, none, some, ◌==◌, leb, if◌then◌else◌, get_elem?, set,
}
use spmod.Forward.{Forward, Param, Contents}
use spmod.Forward.ParamType.{
  array as array_type, pointer as pointer_type, int as int_type, float as float_type,
  string as string_type,
}

-- The frame of every push: the position must be below the number of parameters, and the parameter
-- there must be of the type; `at` past the array throws, which the function catches.
unfoldable pub push_with : ℕ → (Param → Param) → Forward → Forward × Bool
push_with wanted write f =
    if leb f.params_num f.current_pos then (f, false) else elim (get_elem? f.params f.current_pos) [
      | none ↦ (f, false)
      | some p ↦
          if p.data_type == wanted
          then (
            record f {
              params = set f.params f.current_pos (write p);
              current_pos = f.current_pos + 1;
            },
            true,
          )
          else (f, false)
    ]

pub push_int : ℤ → Forward → Forward × Bool
push_int integer = push_with int_type (λ p. record p { contents = Contents.int integer })

pub push_int_pointer : ℕ → Bool → Forward → Forward × Bool
push_int_pointer integer copyback =
    push_with (int_type + pointer_type)
      (λ p. record p { contents = Contents.int_pointer integer; copyback = copyback })

pub push_float : ℕ → Forward → Forward × Bool
push_float number = push_with float_type (λ p. record p { contents = Contents.real number })

pub push_float_pointer : ℕ → Bool → Forward → Forward × Bool
push_float_pointer number copyback =
    push_with (float_type + pointer_type)
      (λ p. record p { contents = Contents.real_pointer number; copyback = copyback })

-- `std::variant<std::int32_t *, float *>`
pub data ArrayPointer : Type 0 where
  ints floats : ℕ → ArrayPointer

abbrev pub array_contents : ArrayPointer → Contents
array_contents (ints address) = Contents.int_array address
array_contents (floats address) = Contents.real_array address

pub push_array : ArrayPointer → ℕ → Bool → Forward → Forward × Bool
push_array array size copyback =
    push_with array_type
      (λ p. record p { contents = array_contents array; size = some size; copyback = copyback })

pub push_string : Bytes → Forward → Forward × Bool
push_string text = push_with string_type (λ p. record p { contents = Contents.string text })

pub push_buffer : ℕ → ℕ → ℕ → Bool → Forward → Forward × Bool
push_buffer address size sflags copyback = push_with string_type (λ p. record p {
  contents = Contents.buffer address;
  size = some size;
  copyback = copyback;
  string_flags = sflags;
})

-- A call of one of the seven functions.
pub data Push : Type 0 where
  int : ℤ → Push
  int_pointer : ℕ → Bool → Push
  float : ℕ → Push
  float_pointer : ℕ → Bool → Push
  array : ArrayPointer → ℕ → Bool → Push
  string : Bytes → Push
  buffer : ℕ → ℕ → ℕ → Bool → Push

unfoldable pub push : Push → Forward → Forward × Bool
unfolding push_int push_int_pointer push_float push_float_pointer push_array push_string push_buffer
push (Push.int integer) = push_int integer
push (Push.int_pointer integer copyback) = push_int_pointer integer copyback
push (Push.float number) = push_float number
push (Push.float_pointer number copyback) = push_float_pointer number copyback
push (Push.array pointer size copyback) = push_array pointer size copyback
push (Push.string text) = push_string text
push (Push.buffer address size sflags copyback) = push_buffer address size sflags copyback
