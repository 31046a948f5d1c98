-- ===== src/Tests/Menu.antt =====
-- A menu of src/MenuSystem.cpp with two items, the first of them disabled for the player.
use spmod.Common.{
  ℕ, zero, suc, ◌≡◌, ◌≢◌, refl, true, codes, [], ◌∷◌, Option, none, some, arith, get_elem?,
  replicate,
}
use spmod.Menu.{
  Menu, Item, Status, enabled, disabled, hide, Style, item_style, Answers, answer_of, pointer_of,
  no_navigation, new_menu, exec_callback,
}
use spmod.Menu.Draw.{round, item_round, static_round, place, add_item, fill_round, filled, navigate}
use spmod.Menu.Display.{
  Shown, shown, out_of_fuel, display, with_time, draw, draw_page, show_items, go_on, count_statics,
  count_hidden, fill_slots,
}
use spmod.Menu.Answers.{IsChoosable, display-IsChoosable}
use spmod.Menu.Ends.{NoHiddenStatic, display_hangs}
use spmod.Menu.Sent.{display_menu, endless, display_menu_ends}
use spmod.Menu.Select.{
  PlayerMenu, World, Handlers, find_menu, player_at, set_player, set_menu, from_chars,
  after_handler, client_command,
}
use spmod.Menu.Select.Chosen.{display-client_command}

abbrev item : ℕ → Option ℕ → Item
item address callback = record {
  address = address;
  name = codes "x";
  callback = callback;
  content = none;
  nav_type = no_navigation;
}

-- The callback 0 disables its item, any other hides it.
abbrev answers : Answers
answers zero i = disabled
answers (suc k) i = hide

abbrev menu : Menu
menu = record (new_menu 100 101 102 103 item_style true) {
  items = item 1 (some 0) ∷ (item 2 none ∷ []);
}

abbrev drawn_of : Shown → Menu
drawn_of (shown m) = m
drawn_of _ = menu

drawn : Menu
unfolding display
drawn = drawn_of (display menu answers 10 0 30)

display-drawn : display menu answers 10 0 30 ≡ shown drawn
unfolding drawn display with_time draw draw_page spmod.Menu.Display.drawn show_items go_on round
    item_round static_round place add_item exec_callback answer_of count_statics count_hidden
    fill_slots fill_round filled navigate
display-drawn = refl

-- The key 1 is set, for the second item; the key 0 is not.
display-IsChoosable_example :
    (i : Item) × (get_elem? drawn.slots 1 ≡ some (some i)) × IsChoosable menu answers i
unfolding drawn display with_time draw draw_page spmod.Menu.Display.drawn show_items go_on round
    item_round static_round place add_item exec_callback answer_of count_statics count_hidden
    fill_slots fill_round filled navigate
display-IsChoosable_example =
    display-IsChoosable menu answers 10 0 30 drawn refl display-drawn 1 refl

-- A menu whose first slot has a hidden static item.
abbrev stuck_menu : Menu
stuck_menu = record menu { static_items = some (item 3 (some 1)) ∷ replicate 9 none }

no_pointer : (n s : ℕ) → pointer_of (get_elem? (replicate {A = Option Item} n none) s) ≡ none
no_pointer zero s = refl
no_pointer (suc n) zero = refl
no_pointer (suc n) (suc s) = no_pointer n s

display_menu_ends_example : display_menu 1 96 3 menu answers 10 0 30 ≢ endless
unfolding display with_time draw draw_page spmod.Menu.Display.drawn show_items go_on round
    item_round static_round place add_item exec_callback answer_of count_statics count_hidden
    fill_slots fill_round filled navigate spmod.Utils.Replace.str_replaced spmod.Common.to_decimal
display_menu_ends_example =
    display_menu_ends 1 96 menu answers 10 0 30 no_statics (omega arith) (omega arith)
  where
    no_statics : NoHiddenStatic menu answers
    no_statics s i e = cc (e, no_pointer 10 s)

display_hangs_example : display stuck_menu answers 1000 0 30 ≡ out_of_fuel
unfolding exec_callback
display_hangs_example =
    display_hangs stuck_menu answers 1000 30 (item 1 (some 0)) (item 3 (some 1)) refl refl
      (omega arith) refl refl

abbrev handlers : Handlers
handlers c w = w

abbrev world : World
world = record {
  menus = drawn ∷ [];
  players = record { in_game = true; menu = some 100; menu_page = 0 } ∷ [];
}

abbrev player : PlayerMenu
player = record { in_game = true; menu = some 100; menu_page = 0 }

display-client_command_example :
    (i : Item) × (get_elem? drawn.slots 1 ≡ some (some i))
    × IsChoosable menu answers i
    × (client_command handlers (λ n. answers) 10 1 (codes "2") world
        ≡ after_handler handlers
            (λ n. answers)
            10
            1
            i
            (find_menu 100 (set_player 1 (set_menu none) world))
            (player_at 1 (set_player 1 (set_menu none) world))
            (set_player 1 (set_menu none) world))
unfolding drawn from_chars display with_time draw draw_page spmod.Menu.Display.drawn show_items
    go_on round item_round static_round place add_item exec_callback answer_of count_statics
    count_hidden fill_slots fill_round filled navigate
display-client_command_example =
    display-client_command handlers (λ n. answers) 10 menu drawn 1 0 30 1 2 (codes "2") player world
      refl refl display-drawn refl refl refl refl (omega arith) refl
