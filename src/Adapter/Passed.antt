-- ===== src/Adapter/Passed.antt =====
-- Which arguments of a forward the function of a plugin is given.
use spmod.Common.{
  ℕ, ◌≡◌, refl, ℤ, Bool, true, false, ◌||◌, not, List, [], ◌∷◌, ◌++◌, Option, none, some, ◌==◌, All,
  find_first,
}
use spmod.Forward.{Forward, Param, single}
use spmod.Forward.Push.{Push, ArrayPointer}
use spmod.Forward.Arguments.{wanted, Matches, stored, stored_all}
use spmod.Adapter.{
  Argument, cell, real, cell_by_ref, real_by_ref, string, string_ex, push_param, push_params,
  Functions, push_params_to_func, executed, single_answer, run_function, kept_flag, single_or_all,
  own_plugin, forward_listener,
}

-- What a pushed value is passed as: an array is not passed at all, and a buffer without its flags.
abbrev pub passed : Push → List Argument
passed (Push.int i) = cell i ∷ []
passed (Push.int_pointer a c) = cell_by_ref a c ∷ []
passed (Push.float x) = real x ∷ []
passed (Push.float_pointer a c) = real_by_ref a c ∷ []
passed (Push.array a n c) = []
passed (Push.string s) = string s ∷ []
passed (Push.buffer a n flags c) = string_ex a (some n) c 0 ∷ []

abbrev pub passed_all : List Push → List Argument
passed_all [] = []
passed_all (c ∷ cs) = passed c ++ passed_all cs

-- A parameter that no buffer was pushed to before.
abbrev pub IsClean : Param → Type 0
IsClean p = (p.copyback ≡ false) × (p.string_flags ≡ 0)

-- A buffer has a flag or is copied back.
abbrev pub IsFlagged : Push → Type 0
IsFlagged (Push.buffer a n flags c) = (c || not (flags == 0)) ≡ true
IsFlagged _ = Unit

push_param-stored :
    (c : Push) (p : Param)
    → p.data_type ≡ wanted c
    → IsClean p
    → IsFlagged c
    → push_param (stored c p) ≡ some (passed c)
unfolding push_param
push_param-stored (Push.int i) p t (k, s) f = rw t refl
push_param-stored (Push.int_pointer a c) p t (k, s) f = rw t refl
push_param-stored (Push.float x) p t (k, s) f = rw t refl
push_param-stored (Push.float_pointer a c) p t (k, s) f = rw t refl
push_param-stored (Push.array (ArrayPointer.ints a) n c) p t (k, s) f = rw t refl
push_param-stored (Push.array (ArrayPointer.floats a) n c) p t (k, s) f = rw t refl
push_param-stored (Push.string x) p t (k, s) f = rw (t, k, s) refl
push_param-stored (Push.buffer a n flags c) p t (k, s) f = rw (t, f) refl

push_params-unset :
    (rest : List Param) → All (λ p. p.data_type ≡ 0) rest → push_params rest ≡ some []
unfolding push_params push_param
push_params-unset [] u = refl
push_params-unset (p ∷ rest) (t, u) = rw (t, push_params-unset rest u) refl

push_params-stored_all :
    (cs : List Push) (ps rest : List Param)
    → Matches cs ps
    → All IsClean ps
    → All IsFlagged cs
    → All (λ p. p.data_type ≡ 0) rest
    → push_params (stored_all cs ps ++ rest) ≡ some (passed_all cs)
unfolding push_params
push_params-stored_all [] [] rest m k f u = push_params-unset rest u
push_params-stored_all [] (p ∷ ps) rest m k f u = absurd cc
push_params-stored_all (c ∷ cs) [] rest m k f u = absurd m
push_params-stored_all (c ∷ cs) (p ∷ ps) rest (t, m) (k, ks) (f, fs) u =
    rw (push_param-stored c p t k f, push_params-stored_all cs ps rest m ks fs u) refl

module _ {W : Type 0} (fs : Functions W) where
  -- A forward of one plugin of SourcePawn that has a function of its name, and whose parameters hold
  -- pushed values of their types, with no value pushed before, each buffer being flagged or copied
  -- back, and the types behind them being None. The listener runs the function once, with the values
  -- that are not arrays, and buffers without their flags; its answer is the result, which stays where
  -- the function fails, and `stop` is not changed.
  pub forward_listener-stored_all :
      (plugins : List ℕ) (plugin func : ℕ) (f : Forward) (cs : List Push) (ps rest : List Param)
      (result : ℤ) (stopped : Bool) (w : W)
      → f.kind ≡ single plugin
      → find_first (λ a. a == plugin) plugins ≡ some plugin
      → Functions.function_of fs plugin f.name ≡ some func
      → f.params ≡ stored_all cs ps ++ rest
      → Matches cs ps
      → All IsClean ps
      → All IsFlagged cs
      → All (λ p. p.data_type ≡ 0) rest
      → let (answer, w') = Functions.execute fs func (passed_all cs) w in
        forward_listener fs plugins f result stopped w
        ≡ some (elim answer [ none ↦ result | some r ↦ r ], stopped, w')
  unfolding forward_listener single_or_all own_plugin kept_flag run_function single_answer
      push_params_to_func executed
  forward_listener-stored_all plugins plugin func f cs ps rest result stopped w its own has_function
        e m k flagged u =
      rw (its, own, has_function, e, push_params-stored_all cs ps rest m k flagged u)
        (by_answer (Functions.execute fs func (passed_all cs) w).0)
    where
      by_answer :
          (answer : Option ℤ)
          → kept_flag stopped (
              single_answer result (some (answer, (Functions.execute fs func (passed_all cs) w).1)))
            ≡ some (
              elim answer [ none ↦ result | some r ↦ r ],
              stopped,
              (Functions.execute fs func (passed_all cs) w).1,
            )
      by_answer none = refl
      by_answer (some r) = refl
