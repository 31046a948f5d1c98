-- ===== src/Natives/Timers/Lookup.antt =====
-- Timers by their address, in vectors that change.
use spmod.Common.{
  ℕ, ◌≡◌, ◌≢◌, inl, inr, refl, ap, sym, ◌∙◌, true, false, Bool-cases, List, [], ◌∷◌, ◌++◌, Option,
  none, some, arith, ◌==◌, ==_iff, ==_self, if_true, if_false,
}
use spmod.Timer.{Timer, remove_timer, is_at}
use spmod.Natives.Timers.{replace, lookup}

module _ {F : Type 0} where
  pub lookup-address :
      (a : ℕ) (ts : List (Timer F)) (t : Timer F) → lookup a ts ≡ some t → t.address ≡ a
  lookup-address a [] t e = absurd cc
  lookup-address a (u ∷ us) t e = elim (Bool-cases (is_at a u)) [
    | inl here ↦
        let same : some u ≡ some t = sym (if_true _ _ _ here) ∙ e in
        ap (λ o. address_of o) (sym same) ∙ (==_iff u.address a).0 here
    | inr there ↦ lookup-address a us t (sym (if_false _ _ _ there) ∙ e)
  ]
    where
      address_of : Option (Timer F) → ℕ
      address_of none = 0
      address_of (some v) = v.address

  -- A lookup that found a timer still finds one.
  pub lookup-replace :
      (a b : ℕ) (t u : Timer F) (ts : List (Timer F))
      → t.address ≡ a
      → lookup b ts ≡ some u
      → (u' : Timer F) × (lookup b (replace a t ts) ≡ some u')
  unfolding replace
  lookup-replace a b t u [] at e = absurd cc
  lookup-replace a b t u (v ∷ vs) at e = elim (Bool-cases (is_at a v)) [
    | inl here ↦ elim (Bool-cases (is_at b v)) [
      | inl both ↦
          let same : (t.address == b) ≡ true = ground arith in (t, rw here (if_true _ _ _ same))
      | inr apart ↦
          let off : (t.address == b) ≡ false = ground arith in
          (u, rw here (if_false _ _ _ off ∙ (sym (if_false _ _ _ apart) ∙ e)))
    ]
    | inr there ↦ elim (Bool-cases (is_at b v)) [
      | inl found ↦ (v, rw there (if_true _ _ _ found))
      | inr apart ↦
          let (u', e') = lookup-replace a b t u vs at (sym (if_false _ _ _ apart) ∙ e) in
          (u', rw there (if_false _ _ _ apart ∙ e'))
    ]
  ]

  pub lookup-remove_timer :
      (a b : ℕ) (ts : List (Timer F)) → a ≢ b → lookup b (remove_timer a ts) ≡ lookup b ts
  lookup-remove_timer a b [] n = refl
  lookup-remove_timer a b (v ∷ vs) n = elim (Bool-cases (is_at a v)) [
    | inl here ↦
        let off : (v.address == b) ≡ false = ground arith in rw here (sym (if_false _ _ _ off))
    | inr there ↦ rw there (elim (Bool-cases (is_at b v)) [
      | inl found ↦ rw found refl
      | inr apart ↦ rw apart (lookup-remove_timer a b vs n)
    ])
  ]

  pub lookup-append :
      (b : ℕ) (ts us : List (Timer F)) (u : Timer F)
      → lookup b ts ≡ some u
      → lookup b (ts ++ us) ≡ some u
  lookup-append b [] us u e = absurd cc
  lookup-append b (v ∷ vs) us u e = elim (Bool-cases (is_at b v)) [
    | inl found ↦ if_true _ _ _ found ∙ (sym (if_true _ _ _ found) ∙ e)
    | inr apart ↦ if_false _ _ _ apart ∙ lookup-append b vs us u (sym (if_false _ _ _ apart) ∙ e)
  ]

  pub lookup-snoc :
      (ts : List (Timer F)) (t : Timer F)
      → (u : Timer F) × (lookup t.address (ts ++ (t ∷ [])) ≡ some u)
  lookup-snoc [] t = (t, if_true _ _ _ (==_self t.address))
  lookup-snoc (v ∷ vs) t = elim (Bool-cases (is_at t.address v)) [
    | inl found ↦ (v, if_true _ _ _ found)
    | inr apart ↦ let (u, e) = lookup-snoc vs t in (u, if_false _ _ _ apart ∙ e)
  ]
