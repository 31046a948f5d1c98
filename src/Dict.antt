-- ===== src/Dict.antt =====
-- `std::unordered_map`, as the registries of src/NativeProxy.cpp, src/SPGlobal.cpp, src/CvarSystem.cpp,
-- src/LoggingSystem.cpp, src/VTableHookManager.cpp and subprojects/sourcepawn use it: the entries in
-- the order of iteration. Where the table puts a new entry is a parameter of the operations that
-- insert, and the lemmas hold for every choice.
pub mod Laws
use spmod.Common.{
  ℕ, ◌≡◌, ◌↔◌, refl, Bool, true, false, not, ◌&&◌, Bytes, bytes_eq, bytes_eq_iff, List, [], ◌∷◌,
  ◌++◌, Option, none, some, ◌==◌ as nat_eq, ==_iff, if◌then◌else◌, insert_at,
}

-- `operator==` of a type of keys.
pub record Eq {ℓ} (K : Type ℓ) : Type ℓ where
  pub beq : K → K → Bool
  pub beq_iff : (a b : K) → (beq a b ≡ true) ↔ (a ≡ b)

infix 50 ◌==◌
abbrev pub ◌==◌ {ℓ} : {K : Type ℓ} ⦃e : Eq K⦄ → K → K → Bool
◌==◌ ⦃e⦄ = e.beq

instance abbrev pub nat_key : Eq ℕ
nat_key = record { beq = nat_eq; beq_iff = ==_iff }

instance abbrev pub bytes_key : Eq Bytes
bytes_key = record { beq = bytes_eq; beq_iff = bytes_eq_iff }

abbrev pub Dict {ℓ κ} : Type ℓ → Type κ → Type (ℓ ⊔ κ)
Dict K V = List (K × V)

-- The place of a new entry in the order of iteration.
abbrev pub Place {ℓ κ} : Type ℓ → Type κ → Type (ℓ ⊔ κ)
Place K V = K → Dict K V → ℕ

module _ {ℓ κ} {K : Type ℓ} {V : Type κ} ⦃e : Eq K⦄ where
  unfoldable pub find : K → Dict K V → Option V
  find k [] = none
  find k ((j, v) ∷ d) = if j == k then some v else find k d

  unfoldable pub insert_new : Place K V → K → V → Dict K V → Option V → Dict K V × Bool
  insert_new place k v d none = (insert_at (place k d) (k, v) d, true)
  insert_new place k v d (some w) = (d, false)

  -- `try_emplace` and `emplace`: an entry that is there stays, and the flag says if one was made.
  unfoldable pub try_emplace : Place K V → K → V → Dict K V → Dict K V × Bool
  unfolding insert_new
  try_emplace place k v d = insert_new place k v d (find k d)

  -- A write through an iterator to the entry.
  unfoldable pub write : K → V → Dict K V → Dict K V
  write k v [] = []
  write k v ((j, w) ∷ d) = if j == k then (j, v) ∷ d else (j, w) ∷ write k v d

  unfoldable pub assign_found : Place K V → K → V → Dict K V → Option V → Dict K V
  assign_found place k v d none = insert_at (place k d) (k, v) d
  assign_found place k v d (some w) = write k v d

  -- `operator[]` on the left of an assignment.
  unfoldable pub assign : Place K V → K → V → Dict K V → Dict K V
  unfolding assign_found
  assign place k v d = assign_found place k v d (find k d)
