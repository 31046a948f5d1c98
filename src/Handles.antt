-- ===== src/Handles.antt =====
-- subprojects/sourcepawn/TypeHandler.hpp: the numbers by which plugins know the objects of the module.
-- A pointer is an address; the null pointer is `none`.
pub mod Keys
pub mod Numbers
use spmod.Common.{
  ℕ, zero, suc, ◌-◌, ◌^◌, ◌≡◌, List, [], ◌∷◌, ◌++◌, Option, none, some, ◌==◌, if◌then◌else◌, length,
}
use spmod.Dict.{nat_key, Dict, Place, find, assign}

-- `m_handlers` and the queue `m_freeIds`, from its front on.
pub record TypeHandler : Type 0 where
  pub handlers : Dict ℕ (Option ℕ)
  pub free_ids : List ℕ

-- The number of the next object, and the queue behind it.
next_id : List ℕ → Dict ℕ (Option ℕ) → ℕ × List ℕ
next_id [] handlers = (length handlers, [])
next_id (id ∷ ids) handlers = (id, ids)

-- `create` of a pointer, which may be null.
unfoldable pub create : Place ℕ (Option ℕ) → Option ℕ → TypeHandler → ℕ × TypeHandler
unfolding next_id
create place pointer h =
    let (id, free_ids) = next_id h.free_ids h.handlers in
    (id, record { handlers = assign place id pointer h.handlers; free_ids = free_ids })

at_pointer : Option (Option ℕ) → Option ℕ
at_pointer none = none
at_pointer (some pointer) = pointer

-- A number that is not there gives the null pointer too.
unfoldable pub get : ℕ → TypeHandler → Option ℕ
unfolding at_pointer
get id h = at_pointer (find id h.handlers)

same_pointer : Option ℕ → Option ℕ → ℕ → ℕ → ℕ
same_pointer none none key rest = key
same_pointer (some a) (some b) key rest = if a == b then key else rest
same_pointer _ _ key rest = rest

-- `getKey`, the first number of the pointer in the order of iteration.
key_from : Option ℕ → Dict ℕ (Option ℕ) → ℕ
unfolding same_pointer
key_from pointer [] = 2 ^ 64 - 1
key_from pointer ((key, content) ∷ rest) = same_pointer content pointer key (key_from pointer rest)

unfoldable pub get_key : Option ℕ → TypeHandler → ℕ
unfolding key_from
get_key pointer h = key_from pointer h.handlers

freed : Place ℕ (Option ℕ) → ℕ → Option ℕ → TypeHandler → TypeHandler
freed place id none h = h
freed place id (some pointer) h = record {
  handlers = assign place id none h.handlers;
  free_ids = h.free_ids ++ (id ∷ []);
}

-- `free` of a number that is not there or has the null pointer does nothing.
unfoldable pub free : Place ℕ (Option ℕ) → ℕ → TypeHandler → TypeHandler
unfolding freed
free place id h = freed place id (get id h) h

abbrev pub clear : TypeHandler → TypeHandler
clear h = record { handlers = []; free_ids = [] }
