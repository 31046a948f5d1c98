-- ===== src/Handles/Numbers.antt =====
-- The numbers of TypeHandler: those in use, those that are free, and what they stand for.
use spmod.Common.{
  ℕ, ◌+◌, ◌≤◌, ◌<◌, ◌≡◌, ◌≢◌, ◌⊎◌, inl, inr, refl, ap, sym, ◌∙◌, Bool, true, false, Bool-cases,
  List, [], ◌∷◌, ◌++◌, Option, none, some, arith, length, All, All-append, ==_iff, ◌==◌,
}
use spmod.Dict.{nat_key, Dict, Place, find, assign}
use spmod.Dict.Laws.{find-assign_self, find-assign_other, length-assign_new, length-assign_old}
use spmod.Handles.{TypeHandler, next_id, create, at_pointer, get, freed, free}

-- A number below the count of the entries has one, and no other has.
abbrev pub IsNumbered : Dict ℕ (Option ℕ) → ℕ → Type 0
IsNumbered d j =
    ((c : Option ℕ) × (find j d ≡ some c) × (j < length d)) ⊎ ((find j d ≡ none) × (length d ≤ j))

abbrev pub AreDistinct : List ℕ → Type 0
AreDistinct [] = Unit
AreDistinct (i ∷ is) = All (λ j. i ≢ j) is × AreDistinct is

-- The entries have the numbers from 0 on, and those that are free are distinct and have the null
-- pointer.
abbrev pub IsValid : TypeHandler → Type 0
IsValid h =
    ((j : ℕ) → IsNumbered h.handlers j)
    × All (λ j. find j h.handlers ≡ some none) h.free_ids
    × AreDistinct h.free_ids

nat_cases : (i j : ℕ) → (i ≡ j) ⊎ (i ≢ j)
nat_cases i j = elim (Bool-cases (i == j)) [
  | inl e ↦ inl ((==_iff i j).0 e)
  | inr e ↦ inr (λ q. absurd (clash e ((==_iff i j).1 q)))
]
  where
    clash : {b : Bool} → b ≡ false → b ≡ true → ⊥
    clash x y = cc

assign-IsNumbered_new :
    (place : Place ℕ (Option ℕ)) (p : Option ℕ) (d : Dict ℕ (Option ℕ))
    → find (length d) d ≡ none
    → ((j : ℕ) → IsNumbered d j)
    → (j : ℕ) → IsNumbered (assign place (length d) p d) j
assign-IsNumbered_new place p d new v j =
    let size = length-assign_new place (length d) p d new in
    elim (nat_cases (length d) j) [
      | inl e ↦ inl (p, rw (← e) (find-assign_self place (length d) p d), omega arith)
      | inr n ↦
          let other = find-assign_other place (length d) j p d n in
          elim (v j) [
            | inl (c, found, below) ↦ inl (c, other ∙ found, omega arith)
            | inr (missing, above) ↦ inr (other ∙ missing, above_next j size n above)
          ]
    ]
  where
    above_next :
        (j : ℕ)
        → length (assign place (length d) p d) ≡ length d + 1
        → length d ≢ j
        → length d ≤ j
        → length (assign place (length d) p d) ≤ j
    above_next j size n above = ground arith

assign-IsNumbered_old :
    (place : Place ℕ (Option ℕ)) (id : ℕ) (p w : Option ℕ) (d : Dict ℕ (Option ℕ))
    → find id d ≡ some w
    → ((j : ℕ) → IsNumbered d j)
    → (j : ℕ) → IsNumbered (assign place id p d) j
assign-IsNumbered_old place id p w d old v j =
    let size = length-assign_old place id p w d old in
    elim (nat_cases id j) [
      | inl e ↦ elim (v id) [
        | inl (c, found, below) ↦
            inl (p, rw (← e) (find-assign_self place id p d), omega (arith, e, below, size))
        | inr (missing, above) ↦ absurd (clash old missing)
      ]
      | inr n ↦
          let other = find-assign_other place id j p d n in
          elim (v j) [
            | inl (c, found, below) ↦ inl (c, other ∙ found, omega (arith, size, below))
            | inr (missing, above) ↦ inr (other ∙ missing, omega (arith, size, above))
          ]
    ]
  where
    clash : {o : Option (Option ℕ)} → o ≡ some w → o ≡ none → ⊥
    clash x y = cc

-- Entries with other numbers stay free.
still_free :
    (place : Place ℕ (Option ℕ)) (id : ℕ) (p : Option ℕ) (d : Dict ℕ (Option ℕ)) (is : List ℕ)
    → All (λ j. id ≢ j) is
    → All (λ j. find j d ≡ some none) is
    → All (λ j. find j (assign place id p d) ≡ some none) is
still_free place id p d [] n f = tt
still_free place id p d (i ∷ is) n f =
    (find-assign_other place id i p d n.0 ∙ f.0, still_free place id p d is n.1 f.1)

ids_apart :
    (id : ℕ) (d : Dict ℕ (Option ℕ)) (is : List ℕ)
    → ((j : ℕ) → find j d ≡ some none → id ≢ j)
    → All (λ j. find j d ≡ some none) is
    → All (λ j. id ≢ j) is
ids_apart id d [] n f = tt
ids_apart id d (i ∷ is) n f = (n i f.0, ids_apart id d is n f.1)

AreDistinct-snoc :
    (is : List ℕ) (id : ℕ) → AreDistinct is → All (λ j. id ≢ j) is → AreDistinct (is ++ (id ∷ []))
AreDistinct-snoc [] id d n = (tt, tt)
AreDistinct-snoc (i ∷ is) id (away, d) (m, n) =
    (All-append _ is (id ∷ []) away ((λ e. m (sym e)), tt), AreDistinct-snoc is id d n)

missing_at : (d : Dict ℕ (Option ℕ)) (j : ℕ) → length d ≤ j → IsNumbered d j → find j d ≡ none
missing_at d j h (inl (c, found, below)) = absurd (omega arith)
missing_at d j h (inr (missing, above)) = missing

-- `create` gives a number whose pointer was null or missing, keeps the numbers valid, and binds the
-- number to the pointer; the other numbers stand for what they stood for.
pub create-IsValid :
    (place : Place ℕ (Option ℕ)) (pointer : Option ℕ) (h : TypeHandler)
    → IsValid h
    → let (id, h') = create place pointer h in
      IsValid h'
      × (get id h ≡ none)
      × (get id h' ≡ pointer)
      × ((j : ℕ) → (id ≡ j) ⊎ (get j h' ≡ get j h))
unfolding create next_id get at_pointer
create-IsValid place pointer h (numbered, unused, distinct) = by_queue h.free_ids refl
  where
    others :
        (id j : ℕ)
        → (id ≡ j)
          ⊎ (at_pointer (find j (assign place id pointer h.handlers))
              ≡ at_pointer (find j h.handlers))
    others id j = elim (nat_cases id j) [
      | inl same ↦ inl same
      | inr n ↦ inr (ap at_pointer (find-assign_other place id j pointer h.handlers n))
    ]

    by_queue :
        (ids : List ℕ)
        → h.free_ids ≡ ids
        → let (id, free_ids) = next_id ids h.handlers in
          let h' : TypeHandler = record {
            handlers = assign place id pointer h.handlers;
            free_ids = free_ids;
          } in
          IsValid h'
          × (get id h ≡ none)
          × (get id h' ≡ pointer)
          × ((j : ℕ) → (id ≡ j) ⊎ (get j h' ≡ get j h))
    by_queue [] e =
        let id = length h.handlers in
        let new = missing_at h.handlers id (omega arith) (numbered id) in
        (
          (assign-IsNumbered_new place pointer h.handlers new numbered, tt, tt),
          ap at_pointer new,
          ap at_pointer (find-assign_self place id pointer h.handlers),
          λ j. others id j,
        )
    by_queue (id ∷ ids) e =
        let frees = rw e at unused in
        let away = rw e at distinct in
        (
          (
            assign-IsNumbered_old place id pointer none h.handlers frees.0 numbered,
            still_free place id pointer h.handlers ids away.0 frees.1,
            away.1,
          ),
          ap at_pointer frees.0,
          ap at_pointer (find-assign_self place id pointer h.handlers),
          λ j. others id j,
        )

-- `free` keeps the numbers valid, the number stands for nothing behind it, and the other numbers
-- stand for what they stood for; a number that stood for nothing is left as it is.
pub free-IsValid :
    (place : Place ℕ (Option ℕ)) (id : ℕ) (h : TypeHandler)
    → IsValid h
    → let h' = free place id h in
      IsValid h' × (get id h' ≡ none) × ((j : ℕ) → (id ≡ j) ⊎ (get j h' ≡ get j h))
unfolding free freed get at_pointer
free-IsValid place id h (numbered, unused, distinct) = by_entry (find id h.handlers) refl
  where
    ne :
        {a : ℕ} (j : ℕ)
        → find id h.handlers ≡ some (some a)
        → find j h.handlers ≡ some none
        → id ≢ j
    ne j x y q = cc (x, y, ap (λ k. find k h.handlers) q)

    by_entry :
        (o : Option (Option ℕ))
        → find id h.handlers ≡ o
        → let h' = freed place id (at_pointer o) h in
          IsValid h' × (get id h' ≡ none) × ((j : ℕ) → (id ≡ j) ⊎ (get j h' ≡ get j h))
    by_entry none e = ((numbered, unused, distinct), ap at_pointer e, λ j. inr refl)
    by_entry (some none) e = ((numbered, unused, distinct), ap at_pointer e, λ j. inr refl)
    by_entry (some (some a)) e =
        let away = ids_apart id h.handlers h.free_ids (λ j. ne j e) unused in
        (
          (
            assign-IsNumbered_old place id none (some a) h.handlers e numbered,
            All-append _ h.free_ids (id ∷ [])
                (still_free place id none h.handlers h.free_ids away unused)
                (find-assign_self place id none h.handlers, tt),
            AreDistinct-snoc h.free_ids id distinct away,
          ),
          ap at_pointer (find-assign_self place id none h.handlers),
          λ j. elim (nat_cases id j) [
            | inl same ↦ inl same
            | inr n ↦ inr (ap at_pointer (find-assign_other place id j none h.handlers n))
          ],
        )

-- A number that stands for nothing cannot be freed.
pub free-none :
    (place : Place ℕ (Option ℕ)) (id : ℕ) (h : TypeHandler) → get id h ≡ none → free place id h ≡ h
unfolding free freed
free-none place id h e = ap (λ p. freed place id p h) e
