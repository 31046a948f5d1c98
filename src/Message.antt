-- ===== src/Message.antt =====
-- src/MessageSystem.cpp, src/MessageSystem.hpp: the message that is being intercepted.
pub mod Hooks
pub mod Manager
pub mod Transaction
pub mod Closing
use spmod.Common.{
  ℕ, ◌%◌, ◌≡◌, ℤ, Bool, true, false, Bytes, List, [], ◌∷◌, ◌++◌, Option, none, some, map, ◌==◌,
  if◌then◌else◌, length, get_elem?, set, pos,
}
use spmod.Engine.{
  Origin, EngineCall, message_begin, write_byte, write_char, write_short, write_long, write_entity,
  write_angle, write_coord, write_string, message_end,
}

pub data MsgParamType : Type 0 where
  byte char short long angle coord string entity : MsgParamType

-- `std::variant<int, float, std::string>`
pub data ParamData : Type 0 where
  int : ℤ → ParamData
  real : ℕ → ParamData
  text : Bytes → ParamData

pub record Param : Type 0 where
  pub type : MsgParamType
  pub value : ParamData

-- `edict` is the index of the edict that `m_edict` wraps, which is never null.
pub record Message : Type 0 where
  pub dest : ℕ
  pub type : ℕ
  pub origin : Origin
  pub edict : ℕ
  pub params : List Param

-- Message::init; the destination is cast to a byte. `none` is the read through a null origin.
unfoldable pub init : ℕ → ℕ → Option Origin → ℕ → Message → Option Message
init dest type none edict m = none
init dest type (some origin) edict m =
    some (record m { dest = dest % 256; type = type; origin = origin; edict = edict })

-- One round of the loop of Message::exec; `none` is the exception of `std::get`.
unfoldable pub exec_param : Param → Option EngineCall
exec_param p = dispatch p.type p.value
  where
    dispatch : MsgParamType → ParamData → Option EngineCall
    dispatch byte (int i) = some (write_byte i)
    dispatch char (int i) = some (write_char i)
    dispatch short (int i) = some (write_short i)
    dispatch long (int i) = some (write_long i)
    dispatch angle (real x) = some (write_angle x)
    dispatch coord (real x) = some (write_coord x)
    dispatch string (text s) = some (write_string s)
    dispatch entity (int i) = some (write_entity i)
    dispatch _ _ = none

abbrev pub prepend : Option EngineCall → Option (List EngineCall) → Option (List EngineCall)
prepend none cs = none
prepend (some c) none = none
prepend (some c) (some cs) = some (c ∷ cs)

unfoldable pub exec_params : List Param → Option (List EngineCall)
unfolding exec_param
exec_params [] = some (message_end ∷ [])
exec_params (p ∷ ps) = prepend (exec_param p) (exec_params ps)

-- Message::exec
unfoldable pub exec : Message → Option (List EngineCall)
unfolding exec_params
exec m =
    prepend (some (message_begin m.dest m.type (some m.origin) (some m.edict)))
      (exec_params m.params)

unfoldable pub clear_params : Message → Message
clear_params m = record m { params = [] }

unfoldable pub add_param : MsgParamType → ParamData → Message → Message
add_param type value m = record m {
  params = m.params ++ (record { type = type; value = value } ∷ []);
}

-- setParam; an index past the end is undefined behaviour, here no change.
unfoldable pub set_param : ℕ → ParamData → Message → Message
set_param index value m = elim (get_elem? m.params index) [
  | none ↦ m
  | some p ↦ record m { params = set m.params index (record p { value = value }) }
]

-- getParam of the three types; another alternative than the asked one reads as an empty value.
abbrev pub as_int : ParamData → ℤ
as_int (int i) = i
as_int (real x) = pos 0
as_int (text s) = pos 0

abbrev pub as_real : ParamData → ℕ
as_real (int i) = 0
as_real (real x) = x
as_real (text s) = 0

abbrev pub as_text : ParamData → Bytes
as_text (int i) = []
as_text (real x) = []
as_text (text s) = s
