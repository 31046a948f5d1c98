-- ===== src/Adapter.antt =====
-- subprojects/sourcepawn/ExtMain.cpp: what a forward of the core comes to for the plugins of
-- SourcePawn. Which function of a plugin can be run, and what it answers, are parameters; an address
-- stands for a buffer that the plugin is given.
pub mod Passed
pub mod Results
pub mod Query
use spmod.Common.{
  ℕ, ◌/◌, ◌%◌, ℤ, pos, negsuc, Bool, true, false, ◌&&◌, ◌||◌, not, Bytes, List, [], ◌∷◌, ◌++◌,
  Option, none, some, ◌==◌, ltb, if◌then◌else◌, find_first,
}
use spmod.Forward.{Forward, Param, Contents, ExecType, ignore, stop, highest, Kind, multi, single}
use spmod.Forward.ParamType.{
  array as array_type, pointer as pointer_type, int as int_type, float as float_type,
  string as string_type,
}

-- An argument that is pushed to a function: the cells and texts themselves, or addresses with what is
-- copied back. The flags of a string are those of SourcePawn.
pub data Argument : Type 0 where
  cell : ℤ → Argument
  real : ℕ → Argument
  cell_by_ref real_by_ref : ℕ → (copyback : Bool) → Argument
  cells : ℕ → (size : Option ℕ) → (copyback : Bool) → Argument
  string : Bytes → Argument
  string_ex : ℕ → (size : Option ℕ) → (copyback : Bool) → (flags : ℕ) → Argument

-- `paramType & type`, of a type of one bit.
abbrev pub has : ℕ → ℕ → Bool
has bit type = type / bit % 2 == 1

-- The pushes of a parameter by its type; `none` is the exception of a cast of `std::any`.
push_array : Bool → Contents → Param → Option (List Argument)
push_array true (Contents.int_array a) p = some (cells a p.size p.copyback ∷ [])
push_array false (Contents.real_array a) p = some (cells a p.size p.copyback ∷ [])
push_array _ _ p = none

push_pointer : Bool → Contents → Param → Option (List Argument)
push_pointer true (Contents.int_pointer a) p = some (cell_by_ref a p.copyback ∷ [])
push_pointer false (Contents.real_pointer a) p = some (real_by_ref a p.copyback ∷ [])
push_pointer _ _ p = none

push_number : Bool → Contents → Option (List Argument)
push_number true (Contents.int i) = some (cell i ∷ [])
push_number false (Contents.real x) = some (real x ∷ [])
push_number _ _ = none

-- The flags are read from a local variable that is `None`, so they are 0.
push_buffer : Contents → Param → Option (List Argument)
push_buffer (Contents.buffer a) p = some (string_ex a p.size p.copyback 0 ∷ [])
push_buffer _ p = none

push_text : Contents → Option (List Argument)
push_text (Contents.string s) = some (string s ∷ [])
push_text _ = none

unfoldable pub push_param : Param → Option (List Argument)
unfolding push_array push_pointer push_number push_buffer push_text
push_param p =
    if has int_type p.data_type || has float_type p.data_type
    then (if has array_type p.data_type
        then push_array (has int_type p.data_type) p.contents p
        else if has pointer_type p.data_type
        then push_pointer (has int_type p.data_type) p.contents p
        else push_number (has int_type p.data_type) p.contents)
    else if has string_type p.data_type
    then (if p.copyback || not (p.string_flags == 0)
        then push_buffer p.contents p
        else push_text p.contents)
    else some []

abbrev pub joined : Option (List Argument) → Option (List Argument) → Option (List Argument)
joined none rest = none
joined (some xs) none = none
joined (some xs) (some ys) = some (xs ++ ys)

-- The loop over the parameters.
unfoldable pub push_params : List Param → Option (List Argument)
unfolding push_param
push_params [] = some []
push_params (p ∷ ps) = joined (push_param p) (push_params ps)

-- `<` of two cells.
unfoldable pub less : ℤ → ℤ → Bool
less (pos a) (pos b) = ltb a b
less (pos a) (negsuc b) = false
less (negsuc a) (pos b) = true
less (negsuc a) (negsuc b) = ltb b a

-- ReturnValue::Stop as a cell.
abbrev pub is_stop : ℤ → Bool
is_stop (pos n) = n == 1
is_stop (negsuc n) = false

-- Whether the bit Stop is set, without the bit Highest.
abbrev pub is_stopping : ExecType → Bool
is_stopping stop = true
is_stopping ignore = false
is_stopping highest = false

-- The functions of the plugins: the one of a name that can be run, and its execution, which gives no
-- answer where it ends with an error.
pub record Functions (W : Type 0) : Type 0 where
  pub function_of : (plugin : ℕ) → Bytes → Option ℕ
  pub execute : (func : ℕ) → List Argument → W → Option ℤ × W

-- `getPlugin` of a pointer, which may be null or of a plugin of another adapter.
own_plugin : Kind → List ℕ → Option ℕ
own_plugin (multi type) plugins = none
own_plugin (single plugin) plugins = find_first (λ a. a == plugin) plugins

exec_type : Kind → ExecType
exec_type (multi type) = type
exec_type (single plugin) = ignore

module _ {W : Type 0} where
  single_answer : ℤ → Option (Option ℤ × W) → Option (ℤ × W)
  single_answer result none = none
  single_answer result (some (none, w)) = some (result, w)
  single_answer result (some (some r, w)) = some (r, w)

  -- What the loop does with an answer; no forward has the bit of ExecType::Ignore, which is 0.
  multi_answer :
      ExecType → ℤ → Option (Option ℤ × W) → (ℤ → W → Option (ℤ × Bool × W)) → Option (ℤ × Bool × W)
  multi_answer type result none rest = none
  multi_answer type result (some (none, w)) rest = rest result w
  multi_answer type result (some (some r, w)) rest =
      if is_stopping type && is_stop r
      then some (r, true, w)
      else rest (if less result r then r else result) w

  kept_flag : Bool → Option (ℤ × W) → Option (ℤ × Bool × W)
  kept_flag stopped none = none
  kept_flag stopped (some (result, w)) = some (result, stopped, w)

module _ {W : Type 0} (fs : Functions W) where
  executed : ℕ → Option (List Argument) → W → Option (Option ℤ × W)
  executed func none w = none
  executed func (some arguments) w = some (Functions.execute fs func arguments w)

  -- pushParamsToFunc for a function that can be run; the outer `none` is an exception.
  unfoldable pub push_params_to_func : ℕ → Forward → W → Option (Option ℤ × W)
  unfolding executed
  push_params_to_func func f w = executed func (push_params f.params) w

  -- The branch of the forward of one plugin.
  unfoldable pub run_function : Option ℕ → Forward → ℤ → W → Option (ℤ × W)
  unfolding single_answer
  run_function none f result w = some (result, w)
  run_function (some func) f result w = single_answer result (push_params_to_func func f w)

  with_function :
      Option ℕ
      → ExecType
      → Forward
      → ℤ
      → W
      → (ℤ → W → Option (ℤ × Bool × W))
      → Option (ℤ × Bool × W)
  unfolding multi_answer
  with_function none type f result w rest = rest result w
  with_function (some func) type f result w rest =
      multi_answer type result (push_params_to_func func f w) rest

  -- The loop over the plugins, by their addresses, with the result so far; the flag is `stop`.
  unfoldable pub run_plugins : List ℕ → ExecType → Forward → Bool → ℤ → W → Option (ℤ × Bool × W)
  unfolding with_function
  run_plugins [] type f stopped result w = some (result, stopped, w)
  run_plugins (plugin ∷ plugins) type f stopped result w =
      with_function (Functions.function_of fs plugin f.name) type f result w
        (run_plugins plugins type f stopped)

  single_or_all : Option ℕ → List ℕ → ExecType → Forward → Bool → ℤ → W → Option (ℤ × Bool × W)
  unfolding kept_flag
  single_or_all (some plugin) plugins type f stopped result w =
      kept_flag stopped (run_function (Functions.function_of fs plugin f.name) f result w)
  single_or_all none plugins type f stopped result w = run_plugins plugins type f stopped result w

  -- The listener of SPMod_Init, over the plugins of SourcePawn.
  unfoldable pub forward_listener : List ℕ → Forward → ℤ → Bool → W → Option (ℤ × Bool × W)
  unfolding single_or_all own_plugin exec_type
  forward_listener plugins f result stopped w =
      single_or_all (own_plugin f.kind plugins) plugins (exec_type f.kind) f stopped result w
