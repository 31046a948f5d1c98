-- ===== src/Adapter/Results.antt =====
-- The result of a forward for all plugins.
use mathlib.Core.Path.{subst}
use spmod.Common.{
  ℕ, ◌≡◌, refl, ap, sym, ◌∙◌, ℤ, Bool, true, false, List, [], ◌∷◌, ◌++◌, Option, none, some, ◌==◌,
  All, if_false, if◌then◌else◌, find_first,
}
use spmod.Forward.{Forward, ExecType, ignore, stop, single}
use spmod.Adapter.{
  less, is_stop, is_stopping, Functions, push_params_to_func, multi_answer, with_function,
  run_plugins, single_or_all, own_plugin, exec_type, forward_listener,
}

-- The highest of the result so far and the answers.
abbrev pub highest_of : ℤ → List ℤ → ℤ
highest_of result [] = result
highest_of result (r ∷ rs) = highest_of (if less result r then r else result) rs

module _ {W : Type 0} where
  abbrev pub with_highest : Bool → ℤ → Option (List ℤ × W) → Option (ℤ × Bool × W)
  with_highest stopped result none = none
  with_highest stopped result (some (rs, w)) = some (highest_of result rs, stopped, w)

  consed : ℤ → Option (List ℤ × W) → Option (List ℤ × W)
  consed r none = none
  consed r (some (rs, w)) = some (r ∷ rs, w)

  collected : Option (Option ℤ × W) → (W → Option (List ℤ × W)) → Option (List ℤ × W)
  unfolding consed
  collected none rest = none
  collected (some (none, w)) rest = rest w
  collected (some (some r, w)) rest = consed r (rest w)

module _ {W : Type 0} (fs : Functions W) where
  collected_of : Option ℕ → Forward → W → (W → Option (List ℤ × W)) → Option (List ℤ × W)
  unfolding collected
  collected_of none f w rest = rest w
  collected_of (some func) f w rest = collected (push_params_to_func fs func f w) rest

  -- The answers of the plugins when all of them are run in their order.
  unfoldable pub answers : List ℕ → Forward → W → Option (List ℤ × W)
  unfolding collected_of
  answers [] f w = some ([], w)
  answers (plugin ∷ plugins) f w =
      collected_of (Functions.function_of fs plugin f.name) f w (answers plugins f)

  -- A forward for all plugins whose type is Ignore or Highest: every plugin that has the function is
  -- run, in the order of the table, and the result becomes the highest of their answers if one of them
  -- is higher than it was. An answer that is to be ignored counts as any other.
  pub run_plugins-highest :
      (plugins : List ℕ) (type : ExecType) (f : Forward) (stopped : Bool) (result : ℤ) (w : W)
      → is_stopping type ≡ false
      → run_plugins fs plugins type f stopped result w
        ≡ with_highest stopped result (answers plugins f w)
  unfolding run_plugins answers with_function collected_of multi_answer collected consed
  run_plugins-highest [] type f stopped result w h = refl
  run_plugins-highest (plugin ∷ plugins) type f stopped result w h =
      by_function (λ result' w'. run_plugins-highest plugins type f stopped result' w' h)
        (Functions.function_of fs plugin f.name)
    where
      Rest : Type 0
      Rest =
          (result' : ℤ) (w' : W)
          → run_plugins fs plugins type f stopped result' w'
            ≡ with_highest stopped result' (answers plugins f w')

      cons :
          (r : ℤ) (o : Option (List ℤ × W))
          → with_highest stopped (if less result r then r else result) o
            ≡ with_highest stopped result (consed r o)
      cons r none = refl
      cons r (some rs) = refl

      by_answer :
          Rest
          → (o : Option (Option ℤ × W))
          → multi_answer type result o (run_plugins fs plugins type f stopped)
            ≡ with_highest stopped result (collected o (answers plugins f))
      by_answer again none = refl
      by_answer again (some (none, w')) = again result w'
      by_answer again (some (some r, w')) =
          rw h (again (if less result r then r else result) w' ∙ cons r (answers plugins f w'))

      by_function :
          Rest
          → (o : Option ℕ)
          → with_function fs o type f result w (run_plugins fs plugins type f stopped)
            ≡ with_highest stopped result (collected_of o f w (answers plugins f))
      by_function again none = again result w
      by_function again (some func) = by_answer again (push_params_to_func fs func f w)

  -- Plugins that come before another in the order of the table, and whose answers are not Stop, are run
  -- for a forward whose type is Stop; that other answers Stop. Then its answer is the result, whatever
  -- was answered before, `stop` is set, and no plugin behind it is run.
  pub run_plugins-stops :
      (before after : List ℕ) (plugin func : ℕ) (f : Forward) (stopped : Bool) (result r : ℤ)
      (rs : List ℤ) (w w₁ w₂ : W)
      → answers before f w ≡ some (rs, w₁)
      → All (λ q. is_stop q ≡ false) rs
      → Functions.function_of fs plugin f.name ≡ some func
      → push_params_to_func fs func f w₁ ≡ some (some r, w₂)
      → is_stop r ≡ true
      → run_plugins fs (before ++ (plugin ∷ after)) stop f stopped result w ≡ some (r, true, w₂)
  unfolding run_plugins answers with_function collected_of multi_answer collected consed
  run_plugins-stops [] after plugin func f stopped result r rs w w₁ w₂ a n has_function e s =
      let here : w ≡ w₁ = cc in rw has_function (rw here (rw (e, s) refl))
  run_plugins-stops (p ∷ before) after plugin func f stopped result r rs w w₁ w₂ a n has_function e
        s =
      by_function
        (λ result' rs' v a' n'.
          run_plugins-stops before after plugin func f stopped result' r rs' v w₁ w₂ a' n'
            has_function e s)
        (Functions.function_of fs p f.name) a
    where
      Rest : Type 0
      Rest =
          (result' : ℤ) (rs' : List ℤ) (v : W)
          → answers before f v ≡ some (rs', w₁)
          → All (λ q. is_stop q ≡ false) rs'
          → run_plugins fs (before ++ (plugin ∷ after)) stop f stopped result' v
            ≡ some (r, true, w₂)

      by_rest :
          Rest
          → (q : ℤ) (v : W) (o : Option (List ℤ × W)) → answers before f v ≡ o
          → consed q o ≡ some (rs, w₁)
          → multi_answer stop result
              (some (some q, v))
              (run_plugins fs (before ++ (plugin ∷ after)) stop f stopped)
            ≡ some (r, true, w₂)
      by_rest again q v none x c = absurd cc
      by_rest again q v (some (qs, v')) x c =
          let list : q ∷ qs ≡ rs = cc in
          let last : v' ≡ w₁ = cc in
          let (first, others) = subst (All (λ t. is_stop t ≡ false)) (sym list) n in
          if_false (is_stop q) _ _ first ∙ again _ qs v (x ∙ rw last refl) others

      by_answer :
          Rest
          → (o : Option (Option ℤ × W)) → collected o (answers before f) ≡ some (rs, w₁)
          → multi_answer stop result o (run_plugins fs (before ++ (plugin ∷ after)) stop f stopped)
            ≡ some (r, true, w₂)
      by_answer again none c = absurd cc
      by_answer again (some (none, v)) c = again result rs v c n
      by_answer again (some (some q, v)) c = by_rest again q v (answers before f v) refl c

      by_function :
          Rest
          → (o : Option ℕ) → collected_of o f w (answers before f) ≡ some (rs, w₁)
          → with_function fs o stop f result w
              (run_plugins fs (before ++ (plugin ∷ after)) stop f stopped)
            ≡ some (r, true, w₂)
      by_function again none c = again result rs w c n
      by_function again (some g) c = by_answer again (push_params_to_func fs g f w) c

  -- A forward of one plugin that is none of SourcePawn's, such as one of another adapter: the listener
  -- runs the functions of its name of all plugins of SourcePawn.
  pub forward_listener_foreign :
      (plugins : List ℕ) (plugin : ℕ) (f : Forward) (result : ℤ) (stopped : Bool) (w : W)
      → f.kind ≡ single plugin
      → find_first (λ a. a == plugin) plugins ≡ none
      → forward_listener fs plugins f result stopped w
        ≡ with_highest stopped result (answers plugins f w)
  unfolding forward_listener single_or_all own_plugin exec_type
  forward_listener_foreign plugins plugin f result stopped w its foreign =
      ap (λ k. listened (own_plugin k plugins) (exec_type k)) its
      ∙ (ap (λ o. listened o ignore) foreign
          ∙ run_plugins-highest plugins ignore f stopped result w refl)
    where
      listened : Option ℕ → ExecType → Option (ℤ × Bool × W)
      listened o type = single_or_all fs o plugins type f stopped result w
