-- ===== src/Forward/Delivery.antt =====
-- A whole call of a forward: the arguments are pushed, then it is executed.
use spmod.Common.{
  if_false, if_true, ℕ, ◌+◌, ◌<◌, ◌≡◌, refl, ◌∙◌, ℤ, Bool, true, false, List, [], ◌∷◌, ◌++◌, none,
  some, arith, lt→ltb, ltb-false, length,
}
use spmod.Forward.{Forward, Param}
use spmod.Forward.Push.{Push}
use spmod.Forward.Exec.{Executed, exec_func, run_callbacks, run_multi, run_single}
use spmod.Forward.Arguments.{push_all, Matches, stored_all, push_all-fills, push_all-pos}

module _ {W : Type 0} (run : ℕ → Forward → ℤ → Bool → W → ℤ × Bool × W) where
  abbrev pub deliver : List Push → List ℕ → Bool → Forward → W → Executed W
  deliver cs callbacks dummy f w = exec_func run callbacks dummy (push_all cs f).0 w

  -- Arguments of the types of all parameters, pushed from the start: the listeners run on the forward
  -- that holds them, `*result` is what they made, and the forward is ready for the next call.
  pub deliver_all :
      (cs : List Push) (callbacks : List ℕ) (dummy : Bool) (f : Forward) (ps rest : List Param)
      (w : W)
      → f.params ≡ ps ++ rest
      → f.current_pos ≡ 0
      → f.params_num ≡ length ps
      → Matches cs ps
      → let filled = record f { params = stored_all cs ps ++ rest; current_pos = f.params_num } in
        let (result, w') =
          run_callbacks run f.kind callbacks (record filled { exec = some true }) dummy w in
        deliver cs callbacks dummy f w ≡ record {
          forward = record filled { exec = some false; current_pos = 0 };
          returned = some result;
          world = w';
        }
  unfolding exec_func
  deliver_all cs callbacks dummy f ps rest w e at num m =
      rw (push_all-fills cs f ps rest e at num m, ltb-false f.params_num f.params_num (omega arith))
        refl

  -- With fewer arguments than parameters left, whatever their types, nothing runs, `*result` is not
  -- written, and the forward keeps the arguments and the position that the pushes left.
  pub deliver_short :
      (cs : List Push) (callbacks : List ℕ) (dummy : Bool) (f : Forward) (w : W)
      → f.current_pos + length cs < f.params_num
      → deliver cs callbacks dummy f w
        ≡ record { forward = (push_all cs f).0; returned = none; world = w }
  unfolding exec_func
  deliver_short cs callbacks dummy f w h =
      rw
        (lt→ltb (push_all cs f).0.current_pos (push_all cs f).0.params_num
          (omega (arith, push_all-pos cs f)))
        refl

  -- What the listeners of a list make of a result, a flag and a world when all of them are called.
  abbrev pub run_all : List ℕ → Forward → ℤ → Bool → W → ℤ × Bool × W
  run_all [] f result stop w = (result, stop, w)
  run_all (c ∷ cs) f result stop w =
      let (result', stop', w') = run c f result stop w in run_all cs f result' stop' w'

  -- None of the listeners sets the flag when they are called in turn.
  abbrev pub NoStop : List ℕ → Forward → ℤ → Bool → W → Type 0
  NoStop [] f result stop w = Unit
  NoStop (c ∷ cs) f result stop w =
      let (result', stop', w') = run c f result stop w in
      (stop' ≡ false) × NoStop cs f result' stop' w'

  -- The loop of a global forward calls all listeners in order when none of them sets `stop`.
  pub run_multi-all :
      (callbacks : List ℕ) (f : Forward) (result : ℤ) (stop : Bool) (w : W)
      → NoStop callbacks f result stop w
      → let (result', _, w') = run_all callbacks f result stop w in
        run_multi run callbacks f result stop w ≡ (result', w')
  unfolding run_multi
  run_multi-all [] f result stop w quiet = refl
  run_multi-all (b ∷ bs) f result stop w (e, quiet) =
      let (result', stop', w') = run b f result stop w in
      if_false _ _ _ e ∙ run_multi-all bs f result' stop' w' quiet

  -- The call of a listener behind others, with what these have made.
  abbrev pub run_behind : List ℕ → ℕ → Forward → ℤ → Bool → W → ℤ × Bool × W
  run_behind before c f result stop w =
      let (result', stop', w') = run_all before f result stop w in run c f result' stop' w'

  -- Behind listeners that do not set `stop`, the first that sets it is the last that is called, and
  -- its result stands, whatever listeners come after it.
  pub run_multi-stops :
      (before : List ℕ) (c : ℕ) (after : List ℕ) (f : Forward) (result : ℤ) (stop : Bool) (w : W)
      → NoStop before f result stop w
      → (run_behind before c f result stop w).1 ≡ true
      → let (result', _, w') = run_behind before c f result stop w in
        run_multi run (before ++ (c ∷ after)) f result stop w ≡ (result', w')
  unfolding run_multi
  run_multi-stops [] c after f result stop w quiet h = if_true _ _ _ h
  run_multi-stops (b ∷ bs) c after f result stop w (e, quiet) h =
      let (result', stop', w') = run b f result stop w in
      if_false _ _ _ e ∙ run_multi-stops bs c after f result' stop' w' quiet h

  -- A forward of a plugin calls all listeners, whatever they do to their flag.
  pub run_single-all :
      (callbacks : List ℕ) (f : Forward) (result : ℤ) (dummy : Bool) (w : W)
      → let (result', _, w') = run_all callbacks f result dummy w in
        run_single run callbacks f result dummy w ≡ (result', w')
  unfolding run_single
  run_single-all [] f result dummy w = refl
  run_single-all (c ∷ cs) f result dummy w =
      let (result', dummy', w') = run c f result dummy w in run_single-all cs f result' dummy' w'
