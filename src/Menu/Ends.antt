-- ===== src/Menu/Ends.antt =====
-- When Menu::display ends.
use spmod.Common.{
  ℕ, zero, suc, ◌+◌, ◌-◌, ◌*◌, ◌<◌, ◌≡◌, ◌≢◌, inl, inr, refl, ap, ◌∙◌, false, ltb, Option, none,
  some, arith, if_true, if_false, get_elem?, length, Bool-cases, ltb→lt, get_elem?-some, lt→ltb,
  ltb-false,
}
use spmod.Menu.{
  Menu, Item, Style, item_style, text_style, Status, enabled, disabled, hide, Answers,
  exec_callback,
}
use spmod.Menu.Draw.{Page, place, static_at, round, static_round, item_round}
use spmod.Menu.Display.{
  out_of_fuel, go_on, show_items, drawn, drawn_after, draw_page, first_page, with_time, draw,
  display, hidden_before, start_of,
}

module _ (m : Menu) (answers : Answers) where
  -- How many rounds are left at most.
  rounds_left : Page → ℕ
  rounds_left p = (length m.items - p.i) + (m.items_per_page - p.slot)

  abbrev pub NoHiddenStatic : Type 0
  NoHiddenStatic =
      (s : ℕ) (item : Item) → static_at m s ≡ some item → exec_callback answers item ≢ hide

  round_progress :
      (p : Page) (item : Item) (static : Option Item)
      → static_at m p.slot ≡ static
      → NoHiddenStatic
      → p.i < length m.items
      → p.slot < m.items_per_page
      → rounds_left (round m answers static item p) < rounds_left p
  unfolding round rounds_left place
  round_progress p item none at never more room = by_answer (exec_callback answers item)
    where
      by_answer : (r : Status) → rounds_left (item_round m r item p) < rounds_left p
      by_answer hide = omega arith
      by_answer enabled = omega arith
      by_answer disabled = omega arith
  round_progress p item (some static) at never more room =
      by_answer (exec_callback answers static) refl
    where
      by_answer :
          (r : Status)
          → exec_callback answers static ≡ r
          → rounds_left (static_round m r static p) < rounds_left p
      by_answer hide e = absurd (never p.slot static at e)
      by_answer enabled e = omega arith
      by_answer disabled e = omega arith

  show_items_ends :
      (fuel : ℕ) (p : Page)
      → NoHiddenStatic
      → rounds_left p < fuel
      → (p' : Page) × (show_items m answers fuel p ≡ some p')
  unfolding show_items go_on
  show_items_ends zero p never h = absurd (omega arith)
  show_items_ends (suc fuel) p never h =
      by_item (get_elem? m.items p.i) refl (λ q h'. show_items_ends fuel q never h')
    where
      by_item :
          (o : Option Item)
          → get_elem? m.items p.i ≡ o
          → ((q : Page)
              → rounds_left q < fuel
              → (p' : Page) × (show_items m answers fuel q ≡ some p'))
          → (p' : Page) × (go_on m answers o p (λ q. show_items m answers fuel q) ≡ some p')
      by_item none e rest = (p, refl)
      by_item (some item) e rest = elim (Bool-cases (ltb p.slot m.items_per_page)) [
        | inl room ↦
            let less =
              round_progress p item (static_at m p.slot) refl never
                (get_elem?-some m.items p.i item e) (ltb→lt p.slot m.items_per_page room) in
            let (p', done) =
              rest (round m answers (static_at m p.slot) item p) (omega (arith, less, h)) in
            (p', if_true _ _ _ room ∙ done)
        | inr full ↦ (p, if_false _ _ _ full)
      ]

  stuck :
      (fuel : ℕ) (p : Page) (item static : Item)
      → get_elem? m.items p.i ≡ some item
      → p.slot < m.items_per_page
      → static_at m p.slot ≡ some static
      → exec_callback answers static ≡ hide
      → show_items m answers fuel p ≡ none
  unfolding show_items go_on round static_round
  stuck zero p item static e room at hidden = refl
  stuck (suc fuel) p item static e room at hidden = rw e (
      if_true _ _ _ (lt→ltb p.slot m.items_per_page room)
      ∙ rw (at, hidden) (stuck fuel p item static e room at hidden))

  page_drawn : (time : ℕ) (p : Page) → with_time time (drawn m p) ≢ out_of_fuel
  unfolding with_time drawn
  page_drawn time p e = elim (Bool-cases p.overrun) [ inl over ↦ absurd cc | inr ok ↦ absurd cc ]

  draw_ends :
      (st : Style) (fuel page time : ℕ)
      → NoHiddenStatic
      → length m.items + m.items_per_page < fuel
      → with_time time (draw st m answers fuel page) ≢ out_of_fuel
  unfolding draw draw_page with_time rounds_left
  draw_ends text_style fuel page time never h = λ e. cc
  draw_ends item_style fuel page time never h =
      elim (Bool-cases (ltb (length m.items) (page * m.items_per_page))) [
        | inl out ↦ rw out (λ e. cc)
        | inr fits ↦
            let (p, done) = show_items_ends fuel (first_page m answers page) never (omega arith) in
            rw (fits, done)
              (page_drawn time (drawn_after m answers page (hidden_before m answers page) p))
      ]

  -- The display of a menu for whose player no static item is hidden ends with more fuel than the
  -- menu has items and slots on a page, whatever the page and the other items answer.
  pub display_ends :
      (fuel page time : ℕ)
      → NoHiddenStatic
      → length m.items + m.items_per_page < fuel
      → display m answers fuel page time ≢ out_of_fuel
  unfolding display draw draw_page with_time
  display_ends fuel page time never h = draw_ends m.style fuel page time never h

  -- A menu that has an item and a page of at least one slot, and whose first static item is hidden
  -- from the player, never ends the display of its first page.
  pub display_hangs :
      (fuel time : ℕ) (item static : Item)
      → m.style ≡ item_style
      → get_elem? m.items 0 ≡ some item
      → 0 < m.items_per_page
      → static_at m 0 ≡ some static
      → exec_callback answers static ≡ hide
      → display m answers fuel 0 time ≡ out_of_fuel
  unfolding display draw draw_page with_time
  display_hangs fuel time item static st e room at hidden =
      let at_start : start_of m answers 0 ≡ 0 = omega arith in
      let fits : ltb (length m.items) (0 * m.items_per_page) ≡ false =
        ltb-false _ _ (omega arith) in
      let first : get_elem? m.items (start_of m answers 0) ≡ some item = rw at_start e in
      let never = stuck fuel (first_page m answers 0) item static first room at hidden in
      ap (λ st'. with_time time (draw st' m answers fuel 0)) st ∙ rw (fits, never) refl
