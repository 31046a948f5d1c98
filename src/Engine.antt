-- ===== src/Engine.antt =====
-- What the server engine is told: the calls of engine functions for one message, in order. A `float`
-- is carried as its 32-bit pattern, and an edict is its index; a null pointer is `none`.
use spmod.Common.{Bytes, ℕ, ℤ, Option}

abbrev pub Origin : Type 0
Origin = ℕ × ℕ × ℕ

pub data EngineCall : Type 0 where
  message_begin : ℕ → ℕ → Option Origin → Option ℕ → EngineCall
  write_byte write_char write_short write_long write_entity : ℤ → EngineCall
  write_angle write_coord : ℕ → EngineCall
  write_string : Bytes → EngineCall
  message_end : EngineCall

-- What a plugin hook answers metamod: the engine runs the call, or it does not.
pub data MetaRes : Type 0 where
  ignored supercede : MetaRes
