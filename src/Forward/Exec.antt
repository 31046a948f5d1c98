-- ===== src/Forward/Exec.antt =====
-- execFunc of MultiForward and SingleForward. The listeners are code outside the program (extensions),
-- so what one does is a parameter: from the forward, the result so far, the flag and the state of the
-- world it makes a new result, flag and world. That they push or execute the same forward again from
-- within is left out.
use spmod.Common.{
  ℕ, ℤ, pos, Bool, true, false, List, [], ◌∷◌, Option, none, some, ltb, if◌then◌else◌,
}
use spmod.Forward.{Forward, Kind, multi, single}

pub record Executed (W : Type 0) : Type 0 where
  pub forward : Forward
  -- The value for `*result`, or `none` where the function returned false and ran nothing.
  pub returned : Option ℤ
  pub world : W

module _ {W : Type 0} (run : ℕ → Forward → ℤ → Bool → W → ℤ × Bool × W) where
  -- The loop of MultiForward: it breaks when a listener has set `stop`.
  unfoldable pub run_multi : List ℕ → Forward → ℤ → Bool → W → ℤ × W
  run_multi [] f result stop w = (result, w)
  run_multi (callback ∷ callbacks) f result stop w =
      let (result', stop', w') = run callback f result stop w in
      if stop' then (result', w') else run_multi callbacks f result' stop' w'

  -- The loop of SingleForward: its flag is never read.
  unfoldable pub run_single : List ℕ → Forward → ℤ → Bool → W → ℤ × W
  run_single [] f result dummy w = (result, w)
  run_single (callback ∷ callbacks) f result dummy w =
      let (result', dummy', w') = run callback f result dummy w in
      run_single callbacks f result' dummy' w'

  unfoldable pub run_callbacks : Kind → List ℕ → Forward → Bool → W → ℤ × W
  unfolding run_multi run_single
  run_callbacks (multi type) callbacks f dummy w = run_multi callbacks f (pos 0) false w
  run_callbacks (single plugin) callbacks f dummy w = run_single callbacks f (pos 0) dummy w

  -- The listeners are the manager's, which the forward refers to; `dummy` is what the static flag
  -- holds.
  unfoldable pub exec_func : List ℕ → Bool → Forward → W → Executed W
  unfolding run_callbacks
  exec_func callbacks dummy f w =
      if ltb f.current_pos f.params_num
      then record { forward = f; returned = none; world = w }
      else let (result, w') =
          run_callbacks f.kind callbacks (record f { exec = some true }) dummy w in
        record {
          forward = record f { exec = some false; current_pos = 0 };
          returned = some result;
          world = w';
        }
