-- ===== src/Forward/Deletion.antt =====
-- What deleteForward erases.
use spmod.Common.{
  if_true, if_false, ℕ, ◌≡◌, ◌⊎◌, inl, inr, refl, ap, ◌∙◌, Bool, true, false, not, ◌||◌, Bytes,
  List, [], ◌∷◌, ◌++◌, Option, none, some, arith, bytes_eq, bytes_eq_refl, All, Bool-cases,
}
use spmod.Forward.{Forward, Kind, multi, single, ExecType}
use spmod.Forward.Registry.{
  ForwardMngr, plugin_is, is_executed, is_passed, keep, erase_from, erase_named, delete_forward,
}

-- What a search over the elements came to: it erased one that is not passed over, or nothing.
abbrev ErasesOne : Bool → Kind → List Forward → Option (List Forward) → Type 0
ErasesOne junk kind fs none = Unit
ErasesOne junk kind fs (some rest) =
    (xs : List Forward) × (g : Forward) × (ys : List Forward) × (fs ≡ xs ++ (g ∷ ys))
    × (rest ≡ xs ++ ys)
    × (is_passed junk kind g ≡ false)

keep-ErasesOne :
    (junk : Bool) (kind : Kind) (f : Forward) (fs : List Forward) (o : Option (List Forward))
    → ErasesOne junk kind fs o
    → ErasesOne junk kind (f ∷ fs) (keep f o)
keep-ErasesOne junk kind f fs none h = tt
keep-ErasesOne junk kind f fs (some rest) (xs, g, ys, e, r, n) =
    (f ∷ xs, g, ys, ap (◌∷◌ f) e, ap (◌∷◌ f) r, n)

erase_from-ErasesOne :
    (junk : Bool) (kind : Kind) (fs : List Forward)
    → ErasesOne junk kind fs (erase_from junk kind fs)
unfolding erase_from
erase_from-ErasesOne junk kind [] = tt
erase_from-ErasesOne junk kind (f ∷ fs) = elim (Bool-cases (is_passed junk kind f)) [
  | inl e ↦
      rw (if_true _ (keep f (erase_from junk kind fs)) (some fs) e)
        (keep-ErasesOne junk kind f fs _ (erase_from-ErasesOne junk kind fs))
  | inr e ↦
      rw (if_false _ (keep f (erase_from junk kind fs)) (some fs) e) ([], f, fs, refl, refl, e)
]

erase_named-ErasesOne :
    (junk : Bool) (name : Bytes) (kind : Kind) (fs : List Forward)
    → ErasesOne junk kind fs (erase_named junk name kind fs)
unfolding erase_named
erase_named-ErasesOne junk name kind [] = tt
erase_named-ErasesOne junk name kind (f ∷ fs) = elim (Bool-cases (bytes_eq f.name name)) [
  | inl e ↦ rw e (erase_from-ErasesOne junk kind (f ∷ fs))
  | inr e ↦ rw e (keep-ErasesOne junk kind f fs _ (erase_named-ErasesOne junk name kind fs))
]

or_left : (a b : Bool) → (a || b) ≡ false → (a ≡ false) × (b ≡ false)
or_left true b h = cc
or_left false b h = (refl, h)

idle :
    (junk : Bool) (k : Kind) (g : Forward) → is_passed junk k g ≡ false → is_executed junk g ≡ false
idle junk (multi t) g h = h
idle junk (single p) g h = (or_left (is_executed junk g) (not (plugin_is p g.kind)) h).0

plugin_is-eq : (p : ℕ) (k : Kind) → not (plugin_is p k) ≡ false → k ≡ single p
plugin_is-eq p (multi t) h = cc
plugin_is-eq p (single q) h = ground arith

owner :
    (junk : Bool) (p : ℕ) (g : Forward) → is_passed junk (single p) g ≡ false → g.kind ≡ single p
owner junk p g h =
    plugin_is-eq p g.kind (or_left (is_executed junk g) (not (plugin_is p g.kind)) h).1

-- A forward to delete that belongs to a plugin asks for an element of that plugin.
abbrev pub OwnsAs : Kind → Kind → Type 0
OwnsAs (multi t) k = Unit
OwnsAs (single p) k = k ≡ single p

owns :
    (junk : Bool) (kind : Kind) (g : Forward) → is_passed junk kind g ≡ false → OwnsAs kind g.kind
owns junk (multi t) g h = tt
owns junk (single p) g h = owner junk p g h

-- Whatever a member that was never set reads as: deleteForward changes nothing and returns false, or
-- it erases one element, which is not being executed and, where the forward to delete is one of a
-- plugin, is of that plugin; all others are kept in their order.
pub delete_forward_cases :
    (junk : Bool) (name : Bytes) (kind : Kind) (m : ForwardMngr)
    → (delete_forward junk name kind m ≡ (m, false))
      ⊎ ((xs : List Forward) × (g : Forward) × (ys : List Forward) × (m.forwards ≡ xs ++ (g ∷ ys))
          × (delete_forward junk name kind m ≡ (record m { forwards = xs ++ ys }, true))
          × (is_executed junk g ≡ false)
          × OwnsAs kind g.kind)
unfolding delete_forward
delete_forward_cases junk name kind m =
    by_search (erase_named junk name kind m.forwards) refl
      (erase_named-ErasesOne junk name kind m.forwards)
  where
    by_search :
        (o : Option (List Forward))
        → erase_named junk name kind m.forwards ≡ o
        → ErasesOne junk kind m.forwards o
        → (delete_forward junk name kind m ≡ (m, false))
          ⊎ ((xs : List Forward) × (g : Forward) × (ys : List Forward) × (m.forwards
                ≡ xs ++ (g ∷ ys))
              × (delete_forward junk name kind m ≡ (record m { forwards = xs ++ ys }, true))
              × (is_executed junk g ≡ false)
              × OwnsAs kind g.kind)
    by_search none e h = inl (rw (e, delete_forward) refl)
    by_search (some rest) e (xs, g, ys, split, left, n) = inr (
      xs,
      g,
      ys,
      split,
      rw (e, delete_forward) (rw left refl),
      idle junk kind g n,
      owns junk kind g n,
    )

-- The elements are all being executed, or none of them has the name.
abbrev pub IsBusy : List Forward → Type 0
IsBusy = All (λ f. f.exec ≡ some true)

abbrev pub IsNamedOther : Bytes → List Forward → Type 0
IsNamedOther name = All (λ f. bytes_eq f.name name ≡ false)

erase_from_busy :
    (junk : Bool) (busy : List Forward) (g : Forward) (ys : List Forward) (t : ExecType)
    → IsBusy busy
    → g.exec ≡ some false
    → erase_from junk (multi t) (busy ++ (g ∷ ys)) ≡ some (busy ++ ys)
unfolding erase_from
erase_from_busy junk [] g ys t b e = rw e refl
erase_from_busy junk (f ∷ fs) g ys t (b, bs) e = rw (b, erase_from_busy junk fs g ys t bs e) refl

erase_named_at :
    (junk : Bool) (name : Bytes) (kind : Kind) (xs : List Forward) (f : Forward)
    (fs rest : List Forward)
    → IsNamedOther name xs
    → bytes_eq f.name name ≡ true
    → erase_from junk kind (f ∷ fs) ≡ some rest
    → erase_named junk name kind (xs ++ (f ∷ fs)) ≡ some (xs ++ rest)
unfolding erase_named
erase_named_at junk name kind [] f fs rest n e h = if_true _ _ _ e ∙ h
erase_named_at junk name kind (x ∷ xs) f fs rest n e h =
    if_false _ _ _ n.0 ∙ ap (keep x) (erase_named_at junk name kind xs f fs rest n.1 e h)

-- deleteForward of a global forward that is being executed erases instead the next element that is
-- not, in the order of iteration, whatever its name and its plugin.
pub delete_forward_other :
    (junk : Bool) (t : ExecType) (xs : List Forward) (f : Forward) (busy : List Forward)
    (g : Forward) (ys : List Forward) (m : ForwardMngr)
    → m.forwards ≡ xs ++ (f ∷ (busy ++ (g ∷ ys)))
    → IsNamedOther f.name xs
    → IsBusy (f ∷ busy)
    → g.exec ≡ some false
    → delete_forward junk f.name (multi t) m
      ≡ (record m { forwards = xs ++ (f ∷ (busy ++ ys)) }, true)
unfolding delete_forward
delete_forward_other junk t xs f busy g ys m split n b e =
    let found : erase_named junk f.name (multi t) m.forwards ≡ some (xs ++ (f ∷ (busy ++ ys))) =
      rw split (
        erase_named_at junk f.name (multi t) xs f (busy ++ (g ∷ ys)) _ n (bytes_eq_refl f.name)
          (erase_from_busy junk (f ∷ busy) g ys t b e)) in
    rw (found, delete_forward) refl
