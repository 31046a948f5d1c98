-- ===== src/Menu/Display.antt =====
-- Menu::display of src/MenuSystem.cpp. The player's menu and page are part of the result; what
-- Utils::ShowMenu sends is the outcome of its own model.
use spmod.Common.{
  ℕ, zero, suc, ◌+◌, ◌-◌, ◌*◌, Bool, true, false, not, List, [], ◌∷◌, ◌++◌, Option, none, some,
  ◌==◌, ltb, if◌then◌else◌, get_elem?, length, take,
}
use spmod.Menu.{
  Menu, Item, Style, item_style, text_style, Status, enabled, disabled, hide, Answers,
  exec_callback,
}
use spmod.Menu.Draw.{Page, place, skip_line, static_at, round, fill_round, navigate}

-- `undefined` is an access out of bounds; `out_of_fuel` is a loop that has not ended.
pub data Shown : Type 0 where
  shown : Menu → Shown
  undefined : Shown
  out_of_fuel : Shown

unfoldable pub is_hide : Status → Bool
is_hide hide = true
is_hide enabled = false
is_hide disabled = false

-- The hidden items among those of the earlier pages, and the static items of a page.
unfoldable pub count_hidden : Answers → List Item → ℕ
unfolding is_hide
count_hidden answers [] = 0
count_hidden answers (item ∷ items) =
    if is_hide (exec_callback answers item)
    then suc (count_hidden answers items)
    else count_hidden answers items

unfoldable pub count_statics : List (Option Item) → ℕ
count_statics [] = 0
count_statics (none ∷ items) = count_statics items
count_statics (some item ∷ items) = suc (count_statics items)

unfoldable pub go_on : Menu → Answers → Option Item → Page → (Page → Option Page) → Option Page
go_on m answers none p rest = some p
go_on m answers (some item) p rest =
    if ltb p.slot m.items_per_page
    then rest (round m answers (static_at m p.slot) item p)
    else some p

-- The first loop, with fuel.
unfoldable pub show_items : Menu → Answers → ℕ → Page → Option Page
unfolding go_on
show_items m answers zero p = none
show_items m answers (suc fuel) p =
    go_on m answers (get_elem? m.items p.i) p (λ p'. show_items m answers fuel p')

-- The second loop, for the slots that are left of seven.
unfoldable pub fill_slots : Menu → Answers → ℕ → Page → Page
fill_slots m answers zero p = p
fill_slots m answers (suc n) p =
    fill_slots m answers n (fill_round m answers (static_at m p.slot) p)

-- The navigation items.
abbrev pub finish : Menu → ℕ → ℕ → Page → Page
finish m page hidden p = place m enabled m.exit_item (
    navigate m (not (page == 0)) m.back_item
      (navigate m (ltb p.i (length m.items - hidden)) m.next_item p))

abbrev pub drawn_after : Menu → Answers → ℕ → ℕ → Page → Page
drawn_after m answers page hidden p =
    let p' = skip_line p in finish m page hidden (fill_slots m answers (7 - p'.slot) p')

unfoldable pub drawn : Menu → Page → Shown
drawn m p =
    if p.overrun
    then undefined
    else shown (record m { keys = p.keys; text = p.text; slots = p.slots })

unfoldable pub draw_page : Menu → Answers → ℕ → ℕ → Option Page → Shown
unfolding drawn
draw_page m answers page hidden none = out_of_fuel
draw_page m answers page hidden (some p) = drawn m (drawn_after m answers page hidden p)

-- The items of the earlier pages, without those that are hidden from the player.
abbrev pub hidden_before : Menu → Answers → ℕ → ℕ
hidden_before m answers page =
    if page == 0 then 0 else count_hidden answers (take (page * m.items_per_page) m.items)

abbrev pub start_of : Menu → Answers → ℕ → ℕ
start_of m answers page =
    (page * m.items_per_page + hidden_before m answers page)
    - page * count_statics (take m.items_per_page m.static_items)

abbrev pub first_page : Menu → Answers → ℕ → Page
first_page m answers page = record {
  slot = 0;
  i = start_of m answers page;
  keys = λ k. false;
  text = m.title ++ (10 ∷ 10 ∷ []);
  slots = m.slots;
  overrun = false;
}

unfoldable pub with_time : ℕ → Shown → Shown
with_time time (shown m) = shown (record m { time = time })
with_time time undefined = undefined
with_time time out_of_fuel = out_of_fuel

-- The items before the page are read without a check of the bounds.
unfoldable pub draw : Style → Menu → Answers → ℕ → ℕ → Shown
unfolding draw_page
draw text_style m answers fuel page = shown m
draw item_style m answers fuel page =
    if ltb (length m.items) (page * m.items_per_page)
    then undefined
    else draw_page m answers page (hidden_before m answers page)
        (show_items m answers fuel (first_page m answers page))

-- The menu after the call; it shows its text for the keys that are set in it.
unfoldable pub display : Menu → Answers → ℕ → ℕ → ℕ → Shown
unfolding draw with_time
display m answers fuel page time = with_time time (draw m.style m answers fuel page)
