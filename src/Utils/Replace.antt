-- ===== src/Utils/Replace.antt =====
-- Utils::strReplaced: replaces the first occurrence of a text.
use spmod.Common.{
  take-append_length, ℕ, suc, ◌+◌, ◌≤◌, ◌≡◌, ◌⊎◌, inl, inr, refl, ap, Bool, true, false, Bytes, [],
  ◌∷◌, ◌++◌, Option, none, some, arith, ◌==◌, ◌&&◌, if◌then◌else◌, length, take, drop, Bool-cases,
  ==_self,
}

starts_with : Bytes → Bytes → Bool
starts_with [] s = true
starts_with (c ∷ p) [] = false
starts_with (c ∷ p) (b ∷ s) = (c == b) && starts_with p s

abbrev after_one : Option ℕ → Option ℕ
after_one none = none
after_one (some p) = some (suc p)

-- `std::string::find`; `none` is `npos`.
find : Bytes → Bytes → Option ℕ
find from [] = if starts_with from [] then some 0 else none
find from (b ∷ s) = if starts_with from (b ∷ s) then some 0 else after_one (find from s)

unfoldable pub str_replaced : Bytes → Bytes → Bytes → Bytes
unfolding find starts_with
str_replaced source from to = elim (find from source) [
  | none ↦ source
  | some p ↦ take p source ++ (to ++ drop (p + length from) source)
]

starts_with-split : (p s : Bytes) → starts_with p s ≡ true → (ys : Bytes) × (s ≡ p ++ ys)
unfolding starts_with
starts_with-split [] s h = (s, refl)
starts_with-split (c ∷ p) [] h = cc
starts_with-split (c ∷ p) (b ∷ s) h =
    let (ys, e) = starts_with-split p s (ground arith) in (ys, ground (arith, e))

starts_with-append : (p ys : Bytes) → starts_with p (p ++ ys) ≡ true
unfolding starts_with
starts_with-append [] ys = refl
starts_with-append (c ∷ p) ys = rw (==_self c) (starts_with-append p ys)

-- What a search for `from` in `s` found: nothing, or the first occurrence.
abbrev pub Absent : Bytes → Bytes → Type 0
Absent from s = (xs ys : Bytes) → ¬ (s ≡ xs ++ (from ++ ys))

abbrev pub First : Bytes → Bytes → Bytes → Type 0
First from s xs = (xs' ys' : Bytes) → s ≡ xs' ++ (from ++ ys') → length xs ≤ length xs'

abbrev Finds : Bytes → Bytes → Option ℕ → Type 0
Finds from s none = Absent from s
Finds from s (some p) =
    (xs : Bytes) × (ys : Bytes) × (s ≡ xs ++ (from ++ ys)) × (p ≡ length xs) × First from s xs

no_start : (from s : Bytes) → starts_with from s ≡ false → (ys : Bytes) → ¬ (s ≡ from ++ ys)
no_start from s h ys e = cc (h, ap (starts_with from) e, starts_with-append from ys)

find-Finds_next :
    (from : Bytes) (b : ℕ) (s : Bytes)
    → starts_with from (b ∷ s) ≡ false
    → (o : Option ℕ) → Finds from s o
    → Finds from (b ∷ s) (after_one o)
find-Finds_next from b s h none f = nowhere
  where
    nowhere : Absent from (b ∷ s)
    nowhere [] ys e = no_start from (b ∷ s) h ys e
    nowhere (x ∷ xs) ys e = f xs ys (ground arith)
find-Finds_next from b s h (some p) (xs, ys, e, at, first) =
    (b ∷ xs, ys, ap (◌∷◌ b) e, ap suc at, earlier)
  where
    earlier : (xs' ys' : Bytes) → b ∷ s ≡ xs' ++ (from ++ ys') → length (b ∷ xs) ≤ length xs'
    earlier [] ys' e' = absurd (no_start from (b ∷ s) h ys' e')
    earlier (x ∷ xs') ys' e' = omega (arith, first xs' ys' (ground arith))

find-Finds : (from s : Bytes) → Finds from s (find from s)
unfolding find
find-Finds from [] = elim (Bool-cases (starts_with from [])) [
  | inl e ↦ rw e (found_here from [] e)
  | inr e ↦ rw e (λ xs ys. none_in_nil xs ys e)
]
  where
    found_here : (from s : Bytes) → starts_with from s ≡ true → Finds from s (some 0)
    found_here from s e =
        let (ys, split) = starts_with-split from s e in
        ([], ys, split, refl, λ xs' ys' _. omega arith)

    none_in_nil : (xs ys : Bytes) → starts_with from [] ≡ false → ¬ ([] ≡ xs ++ (from ++ ys))
    none_in_nil [] ys e q = no_start from [] e ys q
    none_in_nil (x ∷ xs) ys e q = cc
find-Finds from (b ∷ s) = elim (Bool-cases (starts_with from (b ∷ s))) [
  | inl e ↦
      let (ys, split) = starts_with-split from (b ∷ s) e in
      rw e ([], ys, split, refl, λ xs' ys' _. omega arith)
  | inr e ↦ rw e (find-Finds_next from b s e (find from s) (find-Finds from s))
]

drop-append_add : (xs ys zs : Bytes) → drop (length xs + length ys) (xs ++ (ys ++ zs)) ≡ zs
drop-append_add [] [] zs = refl
drop-append_add [] (y ∷ ys) zs =
    let e : 0 + suc (length ys) ≡ suc (0 + length ys) = omega arith in
    rw e (drop-append_add [] ys zs)
drop-append_add (x ∷ xs) ys zs =
    let e : suc (length xs) + length ys ≡ suc (length xs + length ys) = omega arith in
    rw e (drop-append_add xs ys zs)

-- Either the text does not occur, and the source is returned, or the first of its occurrences is
-- replaced, and the bytes before and behind it are kept.
pub str_replaced_cases :
    (source from to : Bytes)
    → (Absent from source × (str_replaced source from to ≡ source))
      ⊎ ((xs : Bytes) × (ys : Bytes) × (source ≡ xs ++ (from ++ ys))
          × (str_replaced source from to ≡ xs ++ (to ++ ys))
          × First from source xs)
unfolding str_replaced
str_replaced_cases source from to = by_search (find from source) refl (find-Finds from source)
  where
    by_search :
        (o : Option ℕ)
        → find from source ≡ o
        → Finds from source o
        → (Absent from source × (str_replaced source from to ≡ source))
          ⊎ ((xs : Bytes) × (ys : Bytes) × (source ≡ xs ++ (from ++ ys))
              × (str_replaced source from to ≡ xs ++ (to ++ ys))
              × First from source xs)
    by_search none e f = inl (f, rw (e, str_replaced) refl)
    by_search (some p) e (xs, ys, split, at, first) = inr (
      xs,
      ys,
      split,
      rw (e, str_replaced)
          (rw (at, split, take-append_length xs (from ++ ys), drop-append_add xs from ys) refl),
      first,
    )
