-- ===== src/Forward.antt =====
-- include/public/IForwardSystem.hpp and src/ForwardSystem.cpp: forwards, their parameters, and how
-- they are made. Pointers are addresses; a `float` is carried as its 32-bit pattern.
pub mod ParamType
pub mod StringFlags
pub mod Push
pub mod Exec
pub mod Registry
pub mod Arguments
pub mod Delivery
pub mod Uniqueness
pub mod Deletion
use spmod.Common.{
  ℕ, zero, suc, ◌+◌, ◌≡◌, ℤ, Bool, true, false, Bytes, List, [], ◌∷◌, Option, none, some, map, ◌==◌,
  if◌then◌else◌, length,
}

-- The `std::any` of a parameter, by what the push functions store in it.
pub data Contents : Type 0 where
  empty : Contents
  int : ℤ → Contents
  int_pointer : ℕ → Contents
  real : ℕ → Contents
  real_pointer : ℕ → Contents
  int_array real_array : ℕ → Contents
  string : Bytes → Contents
  buffer : ℕ → Contents

pub record Param : Type 0 where
  pub data_type : ℕ
  pub contents : Contents
  -- `none` is a member that no constructor has set.
  pub size : Option ℕ
  pub copyback : Bool
  pub string_flags : ℕ

pub data ExecType : Type 0 where
  ignore stop highest : ExecType

pub data ReturnValue : Type 0 where
  ignored stop handled : ReturnValue

-- MultiForward with its type, or SingleForward with its plugin.
pub data Kind : Type 0 where
  multi : ExecType → Kind
  single : ℕ → Kind

pub record Forward : Type 0 where
  pub name : Bytes
  pub params_num : ℕ
  -- Whether the forward is being executed; `none` is a member that no constructor has set.
  pub exec : Option Bool
  pub params : List Param
  pub current_pos : ℕ
  pub kind : Kind

abbrev pub max_exec_params : ℕ
max_exec_params = 32

-- Param::Param
abbrev pub new_param : ℕ → Param
new_param type = record {
  data_type = type;
  contents = empty;
  size = none;
  copyback = false;
  string_flags = 0;
}

-- The count of the constructor: every type but None, wherever it stands.
unfoldable pub count_params : List ℕ → ℕ
count_params [] = 0
count_params (type ∷ types) =
    if type == ParamType.none then count_params types else suc (count_params types)

-- Forward::Forward with the constructors of the two classes; the array has 32 types.
unfoldable pub new_forward : Bytes → List ℕ → Kind → Forward
unfolding count_params
new_forward name types kind = record {
  name = name;
  params_num = count_params types;
  exec = none;
  params = map new_param types;
  current_pos = 0;
  kind = kind;
}

-- getPlugin of the two classes.
abbrev pub get_plugin : Kind → Option ℕ
get_plugin (multi type) = none
get_plugin (single plugin) = some plugin

-- Forward::resetParams
abbrev pub reset_params : Forward → Forward
reset_params f = record f { current_pos = 0 }
