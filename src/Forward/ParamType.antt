-- ===== src/Forward/ParamType.antt =====
-- `IParam::Type` of include/public/IForwardSystem.hpp, a set of bits; `Int | Pointer` is a type too.
use spmod.Common.{ℕ}

abbrev pub none : ℕ
none = 0

abbrev pub array : ℕ
array = 1

abbrev pub pointer : ℕ
pointer = 2

abbrev pub int : ℕ
int = 4

abbrev pub float : ℕ
float = 8

abbrev pub string : ℕ
string = 16
