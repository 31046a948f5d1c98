-- ===== src/Forward/StringFlags.antt =====
-- `IForward::StringFlags` of include/public/IForwardSystem.hpp, a set of bits.
use spmod.Common.{ℕ}

abbrev pub none : ℕ
none = 0

abbrev pub utf8 : ℕ
utf8 = 1

abbrev pub copy : ℕ
copy = 2
