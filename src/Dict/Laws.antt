-- ===== src/Dict/Laws.antt =====
-- What lookups find after an insertion or a write.
use spmod.Common.{
  ℕ, zero, suc, ◌+◌, ◌≡◌, ◌≢◌, inl, inr, refl, ap, sym, ◌∙◌, true, false, [], ◌∷◌, none, some,
  arith, if_true, if_false, insert_at, length, Bool-cases, Option-cases,
}
use spmod.Dict.{Eq, ◌==◌, Dict, Place, find, insert_new, try_emplace, write, assign_found, assign}

module _ {ℓ} {K : Type ℓ} ⦃e : Eq K⦄ where
  pub key_refl : (k : K) → (k == k) ≡ true
  key_refl k = (e.beq_iff k k).1 refl

  pub key_ne : (j k : K) → j ≢ k → (j == k) ≡ false
  key_ne j k n = elim (Bool-cases (j == k)) [
    | inl same ↦ absurd (n ((e.beq_iff j k).0 same))
    | inr other ↦ other
  ]

module _ {ℓ κ} {K : Type ℓ} {V : Type κ} ⦃e : Eq K⦄ where
  find-insert_at_new :
      (k : K) (v : V) (i : ℕ) (d : Dict K V)
      → find k d ≡ none
      → find k (insert_at i (k, v) d) ≡ some v
  unfolding find
  find-insert_at_new k v zero d h = if_true _ _ _ (key_refl k)
  find-insert_at_new k v (suc i) [] h = if_true _ _ _ (key_refl k)
  find-insert_at_new k v (suc i) ((j, w) ∷ d) h = elim (Bool-cases (j == k)) [
    | inl same ↦ absurd (taken (sym (if_true _ _ _ same) ∙ h))
    | inr other ↦ if_false _ _ _ other ∙ find-insert_at_new k v i d (sym (if_false _ _ _ other) ∙ h)
  ]
    where
      taken : some w ≡ none → ⊥
      taken x = cc

  find-insert_at_other :
      (k j : K) (v : V) (i : ℕ) (d : Dict K V) → k ≢ j → find j (insert_at i (k, v) d) ≡ find j d
  unfolding find
  find-insert_at_other k j v zero d n = if_false _ _ _ (key_ne k j n)
  find-insert_at_other k j v (suc i) [] n = if_false _ _ _ (key_ne k j n)
  find-insert_at_other k j v (suc i) ((a, w) ∷ d) n = elim (Bool-cases (a == j)) [
    | inl same ↦ rw same refl
    | inr other ↦ rw other (find-insert_at_other k j v i d n)
  ]

  -- An entry is made for a key that is not there; one that is there stays.
  pub try_emplace_new :
      (place : Place K V) (k : K) (v : V) (d : Dict K V)
      → find k d ≡ none
      → try_emplace place k v d ≡ (insert_at (place k d) (k, v) d, true)
  unfolding try_emplace insert_new
  try_emplace_new place k v d h = rw h refl

  pub try_emplace_old :
      (place : Place K V) (k : K) (v w : V) (d : Dict K V)
      → find k d ≡ some w
      → try_emplace place k v d ≡ (d, false)
  unfolding try_emplace insert_new
  try_emplace_old place k v w d h = rw h refl

  pub find-try_emplace_new :
      (place : Place K V) (k : K) (v : V) (d : Dict K V)
      → find k d ≡ none
      → find k (try_emplace place k v d).0 ≡ some v
  find-try_emplace_new place k v d h =
      rw (try_emplace_new place k v d h) (find-insert_at_new k v (place k d) d h)

  pub find-try_emplace_other :
      (place : Place K V) (k j : K) (v : V) (d : Dict K V)
      → k ≢ j
      → find j (try_emplace place k v d).0 ≡ find j d
  find-try_emplace_other place k j v d n = elim (Option-cases (find k d)) [
    | inl new ↦ rw (try_emplace_new place k v d new) (find-insert_at_other k j v (place k d) d n)
    | inr (w, old) ↦ rw (try_emplace_old place k v w d old) refl
  ]

  pub find-write_self :
      (k : K) (v w : V) (d : Dict K V) → find k d ≡ some w → find k (write k v d) ≡ some v
  unfolding find write
  find-write_self k v w [] h = absurd cc
  find-write_self k v w ((j, x) ∷ d) h = elim (Bool-cases (j == k)) [
    | inl same ↦ rw same (if_true _ _ _ same)
    | inr other ↦
        rw other (if_false _ _ _ other ∙ find-write_self k v w d (sym (if_false _ _ _ other) ∙ h))
  ]

  pub find-write_other : (k j : K) (v : V) (d : Dict K V) → k ≢ j → find j (write k v d) ≡ find j d
  unfolding find write
  find-write_other k j v [] n = refl
  find-write_other k j v ((a, x) ∷ d) n = elim (Bool-cases (a == k)) [
    | inl same ↦
        let off = key_ne a j (λ q. n (sym ((e.beq_iff a k).0 same) ∙ q)) in
        rw same (if_false _ _ _ off ∙ sym (if_false _ _ _ off))
    | inr other ↦ rw other (elim (Bool-cases (a == j)) [
      | inl here ↦ rw here refl
      | inr there ↦ rw there (find-write_other k j v d n)
    ])
  ]

  pub find-assign_self :
      (place : Place K V) (k : K) (v : V) (d : Dict K V) → find k (assign place k v d) ≡ some v
  unfolding assign assign_found
  find-assign_self place k v d = elim (Option-cases (find k d)) [
    | inl new ↦ rw new (find-insert_at_new k v (place k d) d new)
    | inr (w, old) ↦ rw old (find-write_self k v w d old)
  ]

  pub find-assign_other :
      (place : Place K V) (k j : K) (v : V) (d : Dict K V)
      → k ≢ j
      → find j (assign place k v d) ≡ find j d
  unfolding assign assign_found
  find-assign_other place k j v d n = elim (Option-cases (find k d)) [
    | inl new ↦ rw new (find-insert_at_other k j v (place k d) d n)
    | inr (w, old) ↦ rw old (find-write_other k j v d n)
  ]

  length-insert_at : (i : ℕ) (x : K × V) (d : Dict K V) → length (insert_at i x d) ≡ length d + 1
  length-insert_at zero x d = omega arith
  length-insert_at (suc i) x [] = omega arith
  length-insert_at (suc i) x (y ∷ d) = omega (arith, length-insert_at i x d)

  length-write : (k : K) (v : V) (d : Dict K V) → length (write k v d) ≡ length d
  unfolding write
  length-write k v [] = refl
  length-write k v ((j, w) ∷ d) = elim (Bool-cases (j == k)) [
    | inl same ↦ rw same refl
    | inr other ↦ rw other (ap suc (length-write k v d))
  ]

  pub length-assign_new :
      (place : Place K V) (k : K) (v : V) (d : Dict K V)
      → find k d ≡ none
      → length (assign place k v d) ≡ length d + 1
  unfolding assign assign_found
  length-assign_new place k v d h = rw h (length-insert_at (place k d) (k, v) d)

  pub length-assign_old :
      (place : Place K V) (k : K) (v w : V) (d : Dict K V)
      → find k d ≡ some w
      → length (assign place k v d) ≡ length d
  unfolding assign assign_found
  length-assign_old place k v w d h = rw h (length-write k v d)

  pub length-try_emplace_new :
      (place : Place K V) (k : K) (v : V) (d : Dict K V)
      → find k d ≡ none
      → length (try_emplace place k v d).0 ≡ length d + 1
  length-try_emplace_new place k v d h =
      rw (try_emplace_new place k v d h) (length-insert_at (place k d) (k, v) d)
