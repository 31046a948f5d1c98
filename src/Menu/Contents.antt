-- ===== src/Menu/Contents.antt =====
-- What Menu::display puts into the slots of a page.
use mathlib.Core.Path.{subst}
use spmod.Common.{
  ℕ, zero, suc, ◌+◌, ◌-◌, ◌*◌, ◌<◌, ◌≤◌, ◌≡◌, inl, inr, refl, sym, ◌∙◌, Bool, true, false, not, ltb,
  ◌==◌, Option, none, some, arith, get_elem?, take, length, replicate, Bool-cases, ltb→lt,
  get_elem?-some, get_elem?_lt, get_elem?-set_ne,
}
use spmod.Menu.{Menu, Item, item_style, enabled, Answers, max_static_items}
use spmod.Menu.Draw.{Page, add_item, place, next_slot, skip_line, static_at, fill_round, navigate}
use spmod.Menu.Display.{
  Shown, shown, undefined, out_of_fuel, show_items, fill_slots, count_statics, drawn, drawn_after,
  draw_page, first_page, hidden_before, start_of, with_time, draw, display,
}
use spmod.Menu.Loop.{
  no_static, count_statics-none, count_hidden-none, not_below, NoneHidden, Shows, Ended,
  show_items-Shows,
}

module _ (m : Menu) (answers : Answers) where
  -- What the later loops leave of a slot.
  Keeps : ℕ → Item → Page → Type 0
  Keeps j item p = (j < p.slot) × (get_elem? p.slots j ≡ some (some item))

  fill_slots-Keeps :
      (n j : ℕ) (item : Item) (p : Page)
      → m.static_items ≡ replicate max_static_items none
      → Keeps j item p
      → Keeps j item (fill_slots m answers n p)
  unfolding fill_slots fill_round Keeps
  fill_slots-Keeps zero j item p st k = k
  fill_slots-Keeps (suc n) j item p st (h, k) =
      let none_here : static_at m p.slot ≡ none = rw st (no_static 10 p.slot) in
      subst (λ o. Keeps j item (fill_slots m answers n (fill_round m answers o p))) (sym none_here)
        (fill_slots-Keeps n j item (next_slot (skip_line p)) st (omega arith, k))

  place-Keeps :
      (j : ℕ) (item other : Item) (p : Page)
      → Keeps j item p
      → Keeps j item (place m enabled other p)
  unfolding place add_item Keeps
  place-Keeps j item other p (h, k) =
      (h, get_elem?-set_ne p.slots p.slot j (some other) (λ x. absurd (omega (arith, x, h))) ∙ k)

  navigate-Keeps :
      (b : Bool) (j : ℕ) (item other : Item) (p : Page)
      → Keeps j item p
      → Keeps j item (navigate m b other p)
  unfolding navigate Keeps
  navigate-Keeps true j item other p k =
      let (h, kept) = place-Keeps j item other p k in (omega arith, kept)
  navigate-Keeps false j item other p (h, k) = (omega arith, k)

  drawn_after-Keeps :
      (page hidden j : ℕ) (item : Item) (p : Page)
      → m.static_items ≡ replicate max_static_items none
      → Keeps j item p
      → Keeps j item (drawn_after m answers page hidden p)
  unfolding Keeps
  drawn_after-Keeps page hidden j item p st k =
      let p' = fill_slots m answers (7 - p.slot) (skip_line p) in
      let k' : Keeps j item p' = fill_slots-Keeps (7 - p.slot) j item (skip_line p) st k in
      let n = navigate m (ltb p'.i (length m.items - hidden)) m.next_item p' in
      place-Keeps j item m.exit_item (navigate m (not (page == 0)) m.back_item n)
        (navigate-Keeps _ j item m.back_item n (navigate-Keeps _ j item m.next_item p' k'))

  -- An item of the page is in its slot when the first loop has ended.
  reached :
      (start j : ℕ) (item : Item) (p : Page)
      → Shows m answers start p
      → Ended m answers p
      → j < m.items_per_page
      → get_elem? m.items (start + j) ≡ some item
      → Keeps j item p
  unfolding Shows Ended Keeps
  reached start j item p (at, size, shows) ended small found = elim (Bool-cases (ltb j p.slot)) [
    | inl before ↦ let h = ltb→lt j p.slot before in (h, shows j item h found)
    | inr after ↦
        let h = not_below m answers j p.slot after in
        elim ended [
          | inl over ↦
              let inside = get_elem?-some m.items (start + j) item found in
              let (x, there) = get_elem?_lt m.items p.i (omega (arith, at, h, inside)) in
              absurd (differ (sym over ∙ there))
          | inr full ↦ absurd (omega arith)
        ]
  ]
    where
      differ : {x : Item} → none ≡ some x → ⊥
      differ e = cc

  -- The slot of an item in a menu that was shown.
  HasItem : ℕ → Item → Shown → Type 0
  HasItem j item (shown m') = get_elem? m'.slots j ≡ some (some item)
  HasItem j item undefined = Unit
  HasItem j item out_of_fuel = Unit

  drawn-HasItem :
      (time j : ℕ) (item : Item) (p : Page)
      → Keeps j item p
      → HasItem j item (with_time time (drawn m p))
  unfolding with_time drawn Keeps HasItem
  drawn-HasItem time j item p k = elim (Bool-cases p.overrun) [
    | inl over ↦ rw over tt
    | inr ok ↦ rw ok k.1
  ]

  draw-HasItem :
      (fuel page time j : ℕ) (item : Item)
      → length m.slots ≡ 10
      → m.static_items ≡ replicate max_static_items none
      → NoneHidden m answers m.items
      → m.items_per_page ≤ 7
      → j < m.items_per_page
      → get_elem? m.items (page * m.items_per_page + j) ≡ some item
      → HasItem j item (with_time time (draw item_style m answers fuel page))
  unfolding draw draw_page with_time HasItem Shows
  draw-HasItem fuel page time j item size st ok per small found =
      elim (Bool-cases (ltb (length m.items) (page * m.items_per_page))) [
        | inl out ↦ rw out tt
        | inr fits ↦ rw fits (by_page (show_items m answers fuel (first_page m answers page)) refl)
      ]
    where
      start : ℕ
      start = page * m.items_per_page

      hidden : hidden_before m answers page ≡ 0
      hidden = elim (Bool-cases (page == 0)) [
        | inl e ↦ rw e refl
        | inr e ↦ rw e (count_hidden-none m answers (page * m.items_per_page) m.items ok)
      ]

      statics : count_statics (take m.items_per_page m.static_items) ≡ 0
      statics = rw st (count_statics-none m.items_per_page 10)

      at_start : start_of m answers page ≡ start + 0
      at_start = rw (hidden, statics) (omega arith)

      by_page :
          (o : Option Page)
          → show_items m answers fuel (first_page m answers page) ≡ o
          → HasItem j item
              (with_time time (draw_page m answers page (hidden_before m answers page) o))
      by_page none e = tt
      by_page (some p) e =
          let (shows, ended) =
            show_items-Shows m answers fuel start (first_page m answers page) p st ok per e
              (at_start, size, λ k i h. absurd (omega arith)) in
          drawn-HasItem time j item (drawn_after m answers page (hidden_before m answers page) p) (
            drawn_after-Keeps page (hidden_before m answers page) j item p st
              (reached start j item p shows ended small found))

  -- A menu of items without static items, with at most seven items on a page, and with no item hidden
  -- from the player: when a page is shown, the slot `j` of the page, counted from zero, holds the
  -- item number `page * items per page + j` of the menu, if there is one, whatever the slots held
  -- before and whichever of the items are disabled.
  pub display_slots :
      (fuel page time j : ℕ) (item : Item) (m' : Menu)
      → m.style ≡ item_style
      → length m.slots ≡ 10
      → m.static_items ≡ replicate max_static_items none
      → NoneHidden m answers m.items
      → m.items_per_page ≤ 7
      → j < m.items_per_page
      → get_elem? m.items (page * m.items_per_page + j) ≡ some item
      → display m answers fuel page time ≡ shown m'
      → get_elem? m'.slots j ≡ some (some item)
  unfolding display HasItem
  display_slots fuel page time j item m' style size st ok per small found e =
      subst (HasItem j item) e (
        subst (λ style'. HasItem j item (with_time time (draw style' m answers fuel page)))
          (sym style) (draw-HasItem fuel page time j item size st ok per small found))
