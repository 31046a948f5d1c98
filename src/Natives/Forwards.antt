-- ===== src/Natives/Forwards.antt =====
-- subprojects/sourcepawn/ForwardsNatives.cpp: the natives that push arguments to a forward, execute it
-- and cancel it, over the numbers of forwards. The constructor and Remove have no model here.
pub mod Delivered
use spmod.Common.{
  ℕ, ◌-◌, ◌^◌, ℤ, Bool, true, false, Bytes, Option, none, some, ◌==◌, if◌then◌else◌, List,
}
use spmod.Dict.{Dict, nat_key, find, write}
use spmod.Handles.{TypeHandler, get}
use spmod.Forward.{Forward, reset_params}
use spmod.Forward.Push.{Push, ints}
use spmod.Forward.Push as P
use spmod.Forward.Exec.{Executed, exec_func}

-- The forwards by their pointers, `gForwardHandlers`, the listeners and the world that they change.
pub record State (W : Type 0) : Type 0 where
  pub forwards : Dict ℕ Forward
  pub handlers : TypeHandler
  pub callbacks : List ℕ
  pub world : W

-- What a native returns, and the result that PushExec writes; or a reported error, for which it returns
-- 0; or the use of a forward that is not there.
pub data Result (W : Type 0) : Type 0 where
  returned : Bool → State W → Result W
  executed : Option ℤ → State W → Result W
  reported : State W → Result W
  crashed : Result W

-- The natives that push, with the values that SourcePawn reads from the plugin.
pub data PushNative : Type 0 where
  push_cell : ℤ → PushNative
  push_cell_ref : (address : ℕ) → PushNative
  push_float : (bits : ℕ) → PushNative
  push_float_ref : (address : ℕ) → PushNative
  push_string : Bytes → PushNative
  push_array : (address size : ℕ) → PushNative
  push_string_ex : (address length sflags : ℕ) (copyback : Bool) → PushNative
  push_array_ex : (address size : ℕ) (cpflags : Bool) → PushNative

pub data Operation : Type 0 where
  push_native : PushNative → Operation
  push_exec push_cancel : Operation

-- The cell -1.
abbrev pub invalid : ℕ
invalid = 2 ^ 32 - 1

-- The function of the forward that a native calls.
unfoldable pub pushed : PushNative → Push
pushed (push_cell cell) = Push.int cell
pushed (push_cell_ref address) = Push.int_pointer address true
pushed (push_float bits) = Push.float bits
pushed (push_float_ref address) = Push.float_pointer address true
pushed (push_string text) = Push.string text
pushed (push_array address size) = Push.array (ints address) size false
pushed (push_string_ex address length sflags copyback) = Push.buffer address length sflags copyback
pushed (push_array_ex address size cpflags) = Push.array (ints address) size cpflags

module _ {W : Type 0} (run : ℕ → Forward → ℤ → Bool → W → ℤ × Bool × W) (dummy : Bool) where
  -- A change of the forward behind the pointer.
  abbrev pub update : ℕ → Forward → State W → State W
  update address f s = record s { forwards = write address f s.forwards }

  after_exec : ℕ → Executed W → State W → Result W
  after_exec address r s =
      executed r.returned (record (update address r.forward s) { world = r.world })

  on_forward : Operation → ℕ → Forward → State W → Result W
  unfolding after_exec
  on_forward (push_native native) address f s =
      let (f', done) = P.push (pushed native) f in returned done (update address f' s)
  on_forward push_exec address f s =
      after_exec address (exec_func run s.callbacks dummy f s.world) s
  on_forward push_cancel address f s = returned true (update address (reset_params f) s)

  at_address : Operation → ℕ → Option Forward → State W → Result W
  unfolding on_forward
  at_address o address none s = crashed
  at_address o address (some f) s = on_forward o address f s

  at_pointer : Operation → Option ℕ → State W → Result W
  unfolding at_address
  at_pointer o none s = reported s
  at_pointer o (some address) s = at_address o address (find address s.forwards) s

  unfoldable pub call : ℕ → Operation → State W → Result W
  unfolding at_pointer
  call id o s = if id == invalid then reported s else at_pointer o (get id s.handlers) s
