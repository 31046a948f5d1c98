-- ===== src/Forward/Uniqueness.antt =====
-- The forwards of the manager are distinct: no two have the same name and the same plugin.
use spmod.Common.{
  if_true, if_false, ℕ, zero, suc, ◌≡◌, ◌⊎◌, ◌≢◌, inl, inr, refl, ap, sym, true, false, not, Bytes,
  List, [], ◌∷◌, none, some, arith, bytes_eq, bytes_eq_iff, bytes_eq_refl, insert_at, All,
  Bool-cases,
}
use spmod.Forward.{Forward, Kind, multi, single, ExecType, new_forward, get_plugin}
use spmod.Forward.Registry.{
  ForwardMngr, from_find, plugin_is, any_plugin, is_taken, emplace, create_forward, get_forward,
  first, is_empty,
}

abbrev pub Same : Forward → Forward → Type 0
Same f g = (f.name ≡ g.name) × (get_plugin f.kind ≡ get_plugin g.kind)

abbrev pub IsFresh : Forward → List Forward → Type 0
IsFresh f = All (λ g. ¬ (Same f g))

abbrev pub IsDistinct : List Forward → Type 0
IsDistinct [] = Unit
IsDistinct (f ∷ fs) = IsFresh f fs × IsDistinct fs

IsFresh-insert_at :
    (g f : Forward) (i : ℕ) (fs : List Forward)
    → ¬ (Same g f)
    → IsFresh g fs
    → IsFresh g (insert_at i f fs)
IsFresh-insert_at g f zero fs h all = (h, all)
IsFresh-insert_at g f (suc i) [] h all = (h, tt)
IsFresh-insert_at g f (suc i) (x ∷ xs) h all = (all.0, IsFresh-insert_at g f i xs h all.1)

IsDistinct-insert_at :
    (f : Forward) (i : ℕ) (fs : List Forward)
    → IsFresh f fs
    → IsDistinct fs
    → IsDistinct (insert_at i f fs)
IsDistinct-insert_at f zero fs fresh d = (fresh, d)
IsDistinct-insert_at f (suc i) [] fresh d = (tt, tt)
IsDistinct-insert_at f (suc i) (x ∷ xs) fresh d = (
  IsFresh-insert_at x f i xs (λ s. fresh.0 (sym s.0, sym s.1)) d.0,
  IsDistinct-insert_at f i xs fresh.1 d.1,
)

no_plugin-IsFresh :
    (f : Forward) (p : ℕ) (fs : List Forward)
    → f.kind ≡ single p
    → any_plugin p fs ≡ false
    → IsFresh f fs
unfolding any_plugin
no_plugin-IsFresh f p [] k h = tt
no_plugin-IsFresh f p (g ∷ gs) k h =
    (differs g.kind refl (ground arith), no_plugin-IsFresh f p gs k (ground arith))
  where
    differs : (kind : Kind) → g.kind ≡ kind → plugin_is p kind ≡ false → ¬ (Same f g)
    differs (multi t) e n s = cc (ap get_plugin k, ap get_plugin e, s.1)
    differs (single q) e n s =
        let same : some p ≡ some q = cc (ap get_plugin k, ap get_plugin e, s.1) in
        ground (arith, same, n)

other_name : (f g : Forward) → bytes_eq g.name f.name ≡ false → ¬ (Same f g)
other_name f g h s = cc (h, ap (bytes_eq g.name) s.0, bytes_eq_refl g.name)

global-IsFresh :
    (f : Forward) (fs : List Forward) → is_empty (from_find f.name fs) ≡ true → IsFresh f fs
unfolding from_find
global-IsFresh f [] h = tt
global-IsFresh f (g ∷ gs) h = elim (Bool-cases (bytes_eq g.name f.name)) [
  | inl e ↦ cc (h, ap is_empty (if_true (bytes_eq g.name f.name) (g ∷ gs) (from_find f.name gs) e))
  | inr e ↦ (
    other_name f g e,
    global-IsFresh f gs (rw (if_false _ (g ∷ gs) (from_find f.name gs) e) at h),
  )
]

single-IsFresh :
    (f : Forward) (p : ℕ) (fs : List Forward)
    → f.kind ≡ single p
    → any_plugin p (from_find f.name fs) ≡ false
    → IsFresh f fs
unfolding from_find
single-IsFresh f p [] k h = tt
single-IsFresh f p (g ∷ gs) k h = elim (Bool-cases (bytes_eq g.name f.name)) [
  | inl e ↦ no_plugin-IsFresh f p (g ∷ gs) k (rw (if_true _ (g ∷ gs) (from_find f.name gs) e) at h)
  | inr e ↦ (
    other_name f g e,
    single-IsFresh f p gs k (rw (if_false _ (g ∷ gs) (from_find f.name gs) e) at h),
  )
]

-- Where the name and kind are not taken, the new forward differs from all others.
is_taken-IsFresh :
    (name : Bytes) (types : List ℕ) (kind : Kind) (fs : List Forward)
    → is_taken name kind fs ≡ false
    → IsFresh (new_forward name types kind) fs
unfolding is_taken new_forward
is_taken-IsFresh name types (multi t) fs h =
    global-IsFresh (new_forward name types (multi t)) fs (ground arith)
is_taken-IsFresh name types (single p) fs h =
    single-IsFresh (new_forward name types (single p)) p fs refl h

-- Wherever the table puts a new element, creating a forward keeps the forwards distinct.
pub create_forward-IsDistinct :
    (place : Bytes → List Forward → ℕ) (name : Bytes) (types : List ℕ) (kind : Kind)
    (m : ForwardMngr)
    → IsDistinct m.forwards
    → IsDistinct (create_forward place name types kind m).0.forwards
unfolding create_forward
create_forward-IsDistinct place name types kind m d =
    elim (Bool-cases (is_taken name kind m.forwards)) [
      | inl e ↦ rw (e, create_forward) d
      | inr e ↦
          rw (e, create_forward)
            (IsDistinct-insert_at (new_forward name types kind) _ m.forwards
              (is_taken-IsFresh name types kind m.forwards e) d)
    ]

from_find-insert_at_other :
    (name : Bytes) (f : Forward) (i : ℕ) (fs : List Forward)
    → bytes_eq f.name name ≡ false
    → first (from_find name (insert_at i f fs)) ≡ first (from_find name fs)
unfolding from_find
from_find-insert_at_other name f zero fs h = rw h refl
from_find-insert_at_other name f (suc i) [] h = rw h refl
from_find-insert_at_other name f (suc i) (g ∷ gs) h = elim (Bool-cases (bytes_eq g.name name)) [
  | inl e ↦ rw e refl
  | inr e ↦ rw e (from_find-insert_at_other name f i gs h)
]

from_find-insert_at_new :
    (f : Forward) (i : ℕ) (fs : List Forward)
    → from_find f.name fs ≡ []
    → first (from_find f.name (insert_at i f fs)) ≡ some f
unfolding from_find
from_find-insert_at_new f zero fs h = rw (bytes_eq_refl f.name) refl
from_find-insert_at_new f (suc i) [] h = rw (bytes_eq_refl f.name) refl
from_find-insert_at_new f (suc i) (g ∷ gs) h = elim (Bool-cases (bytes_eq g.name f.name)) [
  | inl e ↦ absurd (cons_ne (if_true _ (g ∷ gs) (from_find f.name gs) e) h)
  | inr e ↦
      rw e (from_find-insert_at_new f i gs (rw (if_false _ (g ∷ gs) (from_find f.name gs) e) at h))
]
  where
    cons_ne : {l : List Forward} {g : Forward} {gs : List Forward} → l ≡ g ∷ gs → l ≡ [] → ⊥
    cons_ne a b = cc

create_refused :
    (place : Bytes → List Forward → ℕ) (name : Bytes) (types : List ℕ) (kind : Kind)
    (m : ForwardMngr)
    → is_taken name kind m.forwards ≡ true
    → create_forward place name types kind m ≡ (m, none)
unfolding create_forward
create_refused place name types kind m e = rw (e, create_forward) refl

create_made :
    (place : Bytes → List Forward → ℕ) (name : Bytes) (types : List ℕ) (kind : Kind)
    (m : ForwardMngr)
    → is_taken name kind m.forwards ≡ false
    → create_forward place name types kind m ≡ (
      record m { forwards = emplace place (new_forward name types kind) m.forwards },
      some (new_forward name types kind),
    )
unfolding create_forward
create_made place name types kind m e = rw (e, create_forward) refl

global_taken :
    (name : Bytes) (t : ExecType) (m : ForwardMngr) (found : List Forward)
    → from_find name m.forwards ≡ found
    → is_taken name (multi t) m.forwards ≡ not (is_empty found)
unfolding is_taken
global_taken name t m [] e = rw e refl
global_taken name t m (g ∷ gs) e = rw e refl

-- Creating a global forward, wherever the table puts it, changes nothing of what is found by the
-- other names.
pub create_global_other :
    (place : Bytes → List Forward → ℕ) (name : Bytes) (types : List ℕ) (t : ExecType)
    (m : ForwardMngr) (other : Bytes)
    → other ≢ name
    → get_forward other (create_forward place name types (multi t) m).0 ≡ get_forward other m
unfolding get_forward new_forward
create_global_other place name types t m other ne =
    elim (Bool-cases (is_taken name (multi t) m.forwards)) [
      | inl e ↦ rw (create_refused place name types (multi t) m e) refl
      | inr e ↦ rw (create_made place name types (multi t) m e) (
          from_find-insert_at_other other (new_forward name types (multi t)) _ m.forwards
            (ground (arith, bytes_eq_iff name other)))
    ]

-- Creating a global forward is refused exactly when a forward of its name is found, and then nothing
-- changes. Else the new forward is found by its name.
pub create_global_cases :
    (place : Bytes → List Forward → ℕ) (name : Bytes) (types : List ℕ) (t : ExecType)
    (m : ForwardMngr)
    → let (m', created) = create_forward place name types (multi t) m in
      (((g : Forward) × (get_forward name m ≡ some g)) × (created ≡ none) × (m' ≡ m))
      ⊎ ((get_forward name m ≡ none)
          × (created ≡ some (new_forward name types (multi t)))
          × (get_forward name m' ≡ created))
unfolding get_forward new_forward
create_global_cases place name types t m = by_find (from_find name m.forwards) refl
  where
    by_find :
        (found : List Forward)
        → from_find name m.forwards ≡ found
        → let (m', created) = create_forward place name types (multi t) m in
          (((g : Forward) × (get_forward name m ≡ some g)) × (created ≡ none) × (m' ≡ m))
          ⊎ ((get_forward name m ≡ none)
              × (created ≡ some (new_forward name types (multi t)))
              × (get_forward name m' ≡ created))
    by_find [] e = rw (create_made place name types (multi t) m (global_taken name t m [] e)) (
        inr (
          ap first e,
          refl,
          from_find-insert_at_new (new_forward name types (multi t)) _ m.forwards e,
        ))
    by_find (g ∷ gs) e =
        rw (create_refused place name types (multi t) m (global_taken name t m (g ∷ gs) e))
          (inl ((g, ap first e), refl, refl))
