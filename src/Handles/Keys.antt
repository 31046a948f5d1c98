-- ===== src/Handles/Keys.antt =====
-- TypeHandler::getKey of a pointer that has just been given a number.
use spmod.Common.{
  ℕ, zero, suc, ◌-◌, ◌^◌, ◌≡◌, ◌≢◌, refl, ap, sym, ◌∙◌, inl, inr, [], ◌∷◌, Option, none, some, ◌==◌,
  ==_self, ==_false, ==_iff, if_true, if_false, All, Bool-cases, insert_at,
}
use spmod.Dict.{Dict, Place, nat_key, find, assign, assign_found, write}
use spmod.Handles.{TypeHandler, create, same_pointer, key_from, get_key}

-- No number stands for the pointer.
abbrev pub IsUnnumbered : ℕ → Dict ℕ (Option ℕ) → Type 0
IsUnnumbered a = All (λ e. e.1 ≢ some a)

same_pointer-other :
    (a key rest : ℕ) (o : Option ℕ) → o ≢ some a → same_pointer o (some a) key rest ≡ rest
unfolding same_pointer
same_pointer-other a key rest none h = refl
same_pointer-other a key rest (some b) h = if_false _ _ _ (==_false b a (λ e. h (ap some e)))

same_pointer_self : (a key rest : ℕ) → same_pointer (some a) (some a) key rest ≡ key
unfolding same_pointer
same_pointer_self a key rest = if_true _ _ _ (==_self a)

key_from-IsUnnumbered :
    (a : ℕ) (d : Dict ℕ (Option ℕ)) → IsUnnumbered a d → key_from (some a) d ≡ 2 ^ 64 - 1
unfolding key_from
key_from-IsUnnumbered a [] h = refl
key_from-IsUnnumbered a ((k, o) ∷ d) (h, hs) =
    same_pointer-other a k (key_from (some a) d) o h ∙ key_from-IsUnnumbered a d hs

key_from-insert_at :
    (a id i : ℕ) (d : Dict ℕ (Option ℕ))
    → IsUnnumbered a d
    → key_from (some a) (insert_at i (id, some a) d) ≡ id
unfolding key_from
key_from-insert_at a id zero d h = same_pointer_self a id _
key_from-insert_at a id (suc i) [] h = same_pointer_self a id _
key_from-insert_at a id (suc i) ((k, o) ∷ d) (h, hs) =
    same_pointer-other a k _ o h ∙ key_from-insert_at a id i d hs

key_from-write :
    (a id : ℕ) (o : Option ℕ) (d : Dict ℕ (Option ℕ))
    → IsUnnumbered a d
    → find id d ≡ some o
    → key_from (some a) (write id (some a) d) ≡ id
unfolding key_from write find
key_from-write a id o [] h e = absurd cc
key_from-write a id o ((k, p) ∷ d) (h, hs) e = elim (Bool-cases (k == id)) [
  | inl here ↦
      let same : k ≡ id = (==_iff k id).0 here in
      ap (key_from (some a)) (if_true _ _ _ here) ∙ (same_pointer_self a k _ ∙ same)
  | inr other ↦
      ap (key_from (some a)) (if_false _ _ _ other)
      ∙ (same_pointer-other a k _ p h ∙ key_from-write a id o d hs (sym (if_false _ _ _ other) ∙ e))
]

-- A pointer without a number is not found, and behind `create` it is found by the new number.
pub get_key-create :
    (place : Place ℕ (Option ℕ)) (a : ℕ) (h : TypeHandler)
    → IsUnnumbered a h.handlers
    → let (id, h') = create place (some a) h in
      (get_key (some a) h ≡ 2 ^ 64 - 1) × (get_key (some a) h' ≡ id)
unfolding create get_key assign assign_found
get_key-create place a h u =
    (key_from-IsUnnumbered a h.handlers u, by_entry (find id h.handlers) refl)
  where
    id : ℕ
    id = (create place (some a) h).0

    by_entry :
        (o : Option (Option ℕ))
        → find id h.handlers ≡ o
        → key_from (some a) (assign_found place id (some a) h.handlers o) ≡ id
    by_entry none e = key_from-insert_at a id (place id h.handlers) h.handlers u
    by_entry (some o) e = key_from-write a id o h.handlers u e
