-- ===== src/Menu/Answers.antt =====
-- The keys that a displayed menu takes, and the items behind them.
use spmod.Common.{
  ℕ, zero, suc, ◌<◌, ◌≡◌, ◌⊎◌, ◌-◌, ◌*◌, inl, inr, refl, ap, sym, ◌∙◌, Bool, true, false, not, ◌||◌,
  ◌==◌, ltb, leb, List, Option, none, some, arith, if_true, if_false, get_elem?, set, length,
  Bool-cases, get_elem?-set_self, get_elem?-set_ne,
}
use mathlib.Core.Path.{subst}
use spmod.Menu.{
  Menu, Item, item_style, Status, enabled, disabled, hide, Keys, Answers, exec_callback,
}
use spmod.Menu.Draw.{
  Page, add_item, place, next_slot, skip_line, static_at, round, static_round, item_round, filled,
  fill_round, navigate,
}
use spmod.Menu.Display.{
  Shown, shown, undefined, out_of_fuel, go_on, show_items, fill_slots, drawn, drawn_after,
  draw_page, first_page, with_time, draw, display, hidden_before,
}

module _ (m : Menu) (answers : Answers) where
  -- An item that the player may choose.
  abbrev pub IsChoosable : Item → Type 0
  IsChoosable item =
      (exec_callback answers item ≡ enabled)
      ⊎ (item ≡ m.next_item)
      ⊎ (item ≡ m.back_item)
      ⊎ (item ≡ m.exit_item)

  -- Each key that is set has such an item in its slot.
  abbrev pub IsAnswered : Keys → List (Option Item) → Type 0
  IsAnswered keys slots =
      (k : ℕ)
      → keys k ≡ true
      → (item : Item) × (get_elem? slots k ≡ some (some item)) × IsChoosable item

  -- While the page is drawn, the keys that are set are also below the slot.
  IsSound : Page → Type 0
  IsSound p =
      p.overrun ≡ false
      → (k : ℕ) → p.keys k ≡ true
      → (k < p.slot) × (item : Item) × (get_elem? p.slots k ≡ some (some item)) × IsChoosable item

  or_false : (a b : Bool) → (a || b) ≡ false → (a ≡ false) × (b ≡ false)
  or_false a b h = ground arith

  -- A key that was set before, when another slot is written.
  kept_lem :
      (p : Page) (item : Item) (k : ℕ)
      → IsSound p
      → (p.overrun || leb (length p.slots) p.slot) ≡ false
      → p.keys k ≡ true
      → (k < suc p.slot)
        × (item' : Item) × (get_elem? (set p.slots p.slot (some item)) k ≡ some (some item'))
        × IsChoosable item'
  unfolding IsSound
  kept_lem p item k s ok e =
      let (below, item', at, c) = s ((or_false p.overrun _ ok).0) k e in
      (
        omega arith,
        item',
        get_elem?-set_ne p.slots p.slot k (some item) (λ x. absurd (omega (arith, x, below))) ∙ at,
        c,
      )

  place-IsSound :
      (r : Status) (item : Item) (p : Page)
      → (r ≡ enabled → IsChoosable item)
      → IsSound p
      → IsSound (next_slot (place m r item p))
  unfolding place add_item IsSound
  place-IsSound disabled item p c s ok k e = kept_lem p item k s ok e
  place-IsSound hide item p c s ok k e = kept_lem p item k s ok e
  place-IsSound enabled item p c s ok k e = elim (Bool-cases (k == p.slot)) [
    | inl here ↦
        let at : k ≡ p.slot = ground (arith, here) in
        let inside : p.slot < length p.slots = ground (arith, (or_false p.overrun _ ok).1) in
        (
          omega (arith, at),
          item,
          rw at (get_elem?-set_self p.slots p.slot (some item) inside),
          c refl,
        )
    | inr other ↦ kept_lem p item k s ok (sym (if_false (k == p.slot) true (p.keys k) other) ∙ e)
  ]

  round-IsSound :
      (static : Option Item) (item : Item) (p : Page)
      → IsSound p
      → IsSound (round m answers static item p)
  unfolding round place IsSound
  round-IsSound none item p s = by_answer (exec_callback answers item) refl
    where
      by_answer : (r : Status) → exec_callback answers item ≡ r → IsSound (item_round m r item p)
      by_answer hide e = s
      by_answer enabled e = place-IsSound enabled item p (λ _. inl e) s
      by_answer disabled e = place-IsSound disabled item p (λ x. cc) s
  round-IsSound (some static) item p s = by_answer (exec_callback answers static) refl
    where
      by_answer :
          (r : Status) → exec_callback answers static ≡ r → IsSound (static_round m r static p)
      by_answer hide e = s
      by_answer enabled e = place-IsSound enabled static p (λ _. inl e) s
      by_answer disabled e = place-IsSound disabled static p (λ x. cc) s

  next_slot-IsSound : (p : Page) → IsSound p → IsSound (next_slot p)
  unfolding IsSound
  next_slot-IsSound p s ok k e = let (below, item, at, c) = s ok k e in (omega arith, item, at, c)

  fill_round-IsSound :
      (static : Option Item) (p : Page) → IsSound p → IsSound (fill_round m answers static p)
  unfolding fill_round IsSound
  fill_round-IsSound none p s = next_slot-IsSound (skip_line p) s
  fill_round-IsSound (some static) p s = by_answer (exec_callback answers static) refl
    where
      by_answer :
          (r : Status)
          → exec_callback answers static ≡ r
          → IsSound (next_slot (filled m r static p))
      by_answer hide e = next_slot-IsSound p s
      by_answer enabled e = place-IsSound enabled static p (λ _. inl e) s
      by_answer disabled e = place-IsSound disabled static p (λ x. cc) s

  navigate-IsSound :
      (b : Bool) (item : Item) (p : Page)
      → IsChoosable item
      → IsSound p
      → IsSound (navigate m b item p)
  unfolding navigate IsSound
  navigate-IsSound true item p c s = place-IsSound enabled item p (λ _. c) s
  navigate-IsSound false item p c s = next_slot-IsSound p s

  abbrev page_of : Page → Option Page → Page
  page_of p none = p
  page_of p (some q) = q

  show_items-IsSound :
      (fuel : ℕ) (p p' : Page) → show_items m answers fuel p ≡ some p' → IsSound p → IsSound p'
  unfolding show_items go_on
  show_items-IsSound zero p p' e s = absurd cc
  show_items-IsSound (suc fuel) p p' e s =
      by_item (get_elem? m.items p.i) (λ q e'. show_items-IsSound fuel q p' e') e
    where
      by_item :
          (o : Option Item)
          → ((q : Page) → show_items m answers fuel q ≡ some p' → IsSound q → IsSound p')
          → go_on m answers o p (λ q. show_items m answers fuel q) ≡ some p'
          → IsSound p'
      by_item none rest e' = subst IsSound (ap (page_of p) e') s
      by_item (some item) rest e' = elim (Bool-cases (ltb p.slot m.items_per_page)) [
        | inl more ↦
            rest (round m answers (static_at m p.slot) item p) (sym (if_true _ _ _ more) ∙ e')
              (round-IsSound (static_at m p.slot) item p s)
        | inr full ↦ subst IsSound (ap (page_of p) (sym (if_false _ _ _ full) ∙ e')) s
      ]

  fill_slots-IsSound : (n : ℕ) (p : Page) → IsSound p → IsSound (fill_slots m answers n p)
  unfolding fill_slots
  fill_slots-IsSound zero p s = s
  fill_slots-IsSound (suc n) p s =
      fill_slots-IsSound n (fill_round m answers (static_at m p.slot) p)
        (fill_round-IsSound (static_at m p.slot) p s)

  drawn-IsSound :
      (page hidden : ℕ) (p : Page)
      → IsSound p
      → IsSound (next_slot (drawn_after m answers page hidden p))
  unfolding IsSound
  drawn-IsSound page hidden p s =
      let p' = fill_slots m answers (7 - p.slot) (skip_line p) in
      let s' : IsSound p' = fill_slots-IsSound (7 - p.slot) (skip_line p) s in
      let n = navigate m (ltb p'.i (length m.items - hidden)) m.next_item p' in
      let s'' : IsSound n = navigate-IsSound _ m.next_item p' (inr (inl refl)) s' in
      place-IsSound enabled m.exit_item (navigate m (not (page == 0)) m.back_item n)
        (λ _. inr (inr (inr refl))) (navigate-IsSound _ m.back_item n (inr (inr (inl refl))) s'')

  -- The same for the result of a display.
  AnsweredIn : Shown → Type 0
  AnsweredIn (shown m') = IsAnswered m'.keys m'.slots
  AnsweredIn undefined = Unit
  AnsweredIn out_of_fuel = Unit

  drawn_lem :
      (time : ℕ) (p : Page) → IsSound (next_slot p) → AnsweredIn (with_time time (drawn m p))
  unfolding with_time drawn IsSound AnsweredIn
  drawn_lem time p s = elim (Bool-cases p.overrun) [
    | inl over ↦ rw over tt
    | inr ok ↦ rw ok (λ k e. let (below, item, at, c) = s ok k e in (item, at, c))
  ]

  first_page-IsSound : (page : ℕ) → IsSound (first_page m answers page)
  unfolding IsSound
  first_page-IsSound page ok k e = absurd cc

  draw_lem :
      (fuel page time : ℕ) → AnsweredIn (with_time time (draw item_style m answers fuel page))
  unfolding draw draw_page with_time AnsweredIn
  draw_lem fuel page time = elim (Bool-cases (ltb (length m.items) (page * m.items_per_page))) [
    | inl out ↦ rw out tt
    | inr fits ↦ rw fits (by_page (show_items m answers fuel (first_page m answers page)) refl)
  ]
    where
      by_page :
          (o : Option Page)
          → show_items m answers fuel (first_page m answers page) ≡ o
          → AnsweredIn (with_time time (draw_page m answers page (hidden_before m answers page) o))
      by_page none e = tt
      by_page (some p) e =
          drawn_lem time (drawn_after m answers page (hidden_before m answers page) p) (
            drawn-IsSound page (hidden_before m answers page) p
              (show_items-IsSound fuel (first_page m answers page) p e (first_page-IsSound page)))

  -- When the display of a menu of items shows a page, each key that the player may press has an item
  -- in its slot, and that item is one of the three for the navigation, or its callback has just
  -- answered that it is enabled, whatever the static items, the callbacks and the page.
  pub display-IsChoosable :
      (fuel page time : ℕ) (m' : Menu)
      → m.style ≡ item_style
      → display m answers fuel page time ≡ shown m'
      → (k : ℕ) → m'.keys k ≡ true
      → (item : Item) × (get_elem? m'.slots k ≡ some (some item)) × IsChoosable item
  unfolding display AnsweredIn
  display-IsChoosable fuel page time m' st e = subst AnsweredIn e (
      subst (λ st'. AnsweredIn (with_time time (draw st' m answers fuel page))) (sym st)
        (draw_lem fuel page time))
