-- ===== src/Menu/Loop.antt =====
-- The first loop of Menu::display, where no item is hidden and none is static.
use mathlib.Core.Path.{subst}
use spmod.Common.{
  ℕ, zero, suc, ◌+◌, ◌<◌, ◌≤◌, ◌≡◌, ◌≢◌, ◌⊎◌, inl, inr, refl, ap, sym, ◌∙◌, false, ltb, ◌==◌, List,
  [], ◌∷◌, Option, none, some, arith, if_true, if_false, get_elem?, set, take, length, replicate,
  All, Bool-cases, ltb→lt, get_elem?-set_self, get_elem?-set_ne, length-set,
}
use spmod.Menu.{
  Menu, Item, Status, enabled, disabled, hide, Answers, exec_callback, max_static_items, pointer_of,
}
use spmod.Menu.Draw.{Page, place, static_at, round, item_round}
use spmod.Menu.Display.{go_on, show_items, count_hidden, count_statics, is_hide}

pub no_static : (n s : ℕ) → pointer_of (get_elem? (replicate {A = Option Item} n none) s) ≡ none
no_static zero s = refl
no_static (suc n) zero = refl
no_static (suc n) (suc s) = no_static n s

pub count_statics-none : (k n : ℕ) → count_statics (take k (replicate n none)) ≡ 0
unfolding count_statics
count_statics-none zero n = refl
count_statics-none (suc k) zero = refl
count_statics-none (suc k) (suc n) = count_statics-none k n

All-get {ℓ κ} :
    {A : Type ℓ} (P : A → Type κ) (xs : List A) (i : ℕ) (x : A)
    → All P xs
    → get_elem? xs i ≡ some x
    → P x
All-get P [] i x h e = absurd cc
All-get P (y ∷ ys) zero x h e = subst P (some-eq e) h.0
  where
    some-eq : some y ≡ some x → y ≡ x
    some-eq q = cc
All-get P (y ∷ ys) (suc i) x h e = All-get P ys i x h.1 e

apart : (a b : ℕ) → (a == b) ≡ false → b ≢ a
apart a b h e = ground arith

below : (a b : ℕ) → (a == b) ≡ false → a < suc b → a < b
below a b h l = ground arith

module _ (m : Menu) (answers : Answers) where
  -- No item is hidden from the player.
  abbrev pub NoneHidden : List Item → Type 0
  NoneHidden = All (λ item. exec_callback answers item ≢ hide)

  pub count_hidden-none :
      (k : ℕ) (items : List Item) → NoneHidden items → count_hidden answers (take k items) ≡ 0
  unfolding count_hidden
  count_hidden-none zero items h = refl
  count_hidden-none (suc k) [] h = refl
  count_hidden-none (suc k) (item ∷ items) h =
      rw (no (exec_callback answers item) h.0) (count_hidden-none k items h.1)
    where
      no : (r : Status) → r ≢ hide → is_hide r ≡ false
      no enabled h = refl
      no disabled h = refl
      no hide h = absurd (h refl)

  -- The items from `start` on are in the slots below the current one.
  unfoldable pub Shows : ℕ → Page → Type 0
  Shows start p =
      (p.i ≡ start + p.slot)
      × (length p.slots ≡ 10)
      × ((j : ℕ) (item : Item)
          → j < p.slot
          → get_elem? m.items (start + j) ≡ some item
          → get_elem? p.slots j ≡ some (some item))

  round-Shows :
      (start : ℕ) (item : Item) (p : Page)
      → exec_callback answers item ≢ hide
      → p.slot < 10
      → get_elem? m.items p.i ≡ some item
      → Shows start p
      → Shows start (round m answers none item p)
  unfolding round Shows place
  round-Shows start item p ok small found (at, size, shows) =
      by_answer (exec_callback answers item) ok
    where
      slots :
          (j : ℕ) (item' : Item)
          → j < suc p.slot
          → get_elem? m.items (start + j) ≡ some item'
          → get_elem? (set p.slots p.slot (some item)) j ≡ some (some item')
      slots j item' h e = elim (Bool-cases (j == p.slot)) [
        | inl here ↦
            let same : j ≡ p.slot = ground arith in
            let place' : start + j ≡ p.i = omega arith in
            rw same (
              get_elem?-set_self p.slots p.slot (some item) (omega arith)
              ∙ (ap some (sym (ap (λ k. get_elem? m.items k) place' ∙ found) ∙ e)))
        | inr other ↦
            get_elem?-set_ne p.slots p.slot j (some item) (apart j p.slot other)
            ∙ shows j item' (below j p.slot other h) e
      ]

      by_answer : (r : Status) → r ≢ hide → Shows start (item_round m r item p)
      by_answer hide h = absurd (h refl)
      by_answer enabled h = (omega (arith, at), length-set p.slots p.slot (some item) ∙ size, slots)
      by_answer disabled h =
          (omega (arith, at), length-set p.slots p.slot (some item) ∙ size, slots)

  -- Why the first loop ended.
  unfoldable pub Ended : Page → Type 0
  Ended p = (get_elem? m.items p.i ≡ none) ⊎ (m.items_per_page ≤ p.slot)

  abbrev page_of : Page → Option Page → Page
  page_of p none = p
  page_of p (some q) = q

  pub not_below : (a b : ℕ) → ltb a b ≡ false → b ≤ a
  not_below a b h = ground arith

  pub show_items-Shows :
      (fuel start : ℕ) (p p' : Page)
      → m.static_items ≡ replicate max_static_items none
      → NoneHidden m.items
      → m.items_per_page ≤ 7
      → show_items m answers fuel p ≡ some p'
      → Shows start p
      → Shows start p' × Ended p'
  unfolding show_items go_on Shows Ended
  show_items-Shows zero start p p' st ok per e s = absurd cc
  show_items-Shows (suc fuel) start p p' st ok per e s =
      by_item (get_elem? m.items p.i) refl
        (λ q e' s'. show_items-Shows fuel start q p' st ok per e' s') e
    where
      by_item :
          (o : Option Item)
          → get_elem? m.items p.i ≡ o
          → ((q : Page)
              → show_items m answers fuel q ≡ some p'
              → Shows start q
              → Shows start p' × Ended p')
          → go_on m answers o p (λ q. show_items m answers fuel q) ≡ some p'
          → Shows start p' × Ended p'
      by_item none found rest e' =
          subst (λ q. Shows start q × Ended q) (ap (page_of p) e') (s, inl found)
      by_item (some item) found rest e' = elim (Bool-cases (ltb p.slot m.items_per_page)) [
        | inl more ↦
            let none_here : static_at m p.slot ≡ none = rw st (no_static 10 p.slot) in
            let small = ltb→lt p.slot m.items_per_page more in
            let step = sym (if_true _ _ _ more) ∙ e' in
            rest (round m answers none item p) (rw none_here at step) (
              round-Shows start item p (All-get _ m.items p.i item ok found)
                (omega (arith, small, per)) found s)
        | inr full ↦
            subst (λ q. Shows start q × Ended q) (ap (page_of p) (sym (if_false _ _ _ full) ∙ e'))
              (s, inr (not_below p.slot m.items_per_page full))
      ]
