-- ===== src/Natives/Menus.antt =====
-- subprojects/sourcepawn/MenuNatives.cpp: the natives of the menus, over the menus, the players and
-- `gMenuHandlers`. The functions of the plugins are part of the handlers of the menus and of the
-- answers of the items' callbacks; the addresses of new menus and items are given.
pub mod Call
pub mod Refused
pub mod Stored
pub mod Destroyed
use spmod.Common.{
  ℕ, zero, suc, ◌%◌, ◌^◌, ◌/◌, Bool, true, false, not, ◌||◌, Bytes, List, [], ◌∷◌, Option, none,
  some, ◌==◌, ltb, if◌then◌else◌, get_elem?, length,
}
use spmod.Dict.{Place}
use spmod.Handles.{TypeHandler, create, get}
use spmod.Menu as Menus
use spmod.Menu.{Menu, Item, Style, item_style, text_style, Answers, get_item, change_item}
use spmod.Menu.Select.{
  World, PlayerMenu, Handlers, Selected, ignored, supercede, dangling, threw as has_thrown,
  endless as is_endless, find_menu, update_menu, register_menu, destroy_menu, display_to,
}
use spmod.Menu.Select as Select
use spmod.Utils.Copy.{str_copy}
use spmod.Utils.View.{whole}
use spmod.Natives.Packed.{is_negative, to_size, menu_unpack_item}

pub record State : Type 0 where
  pub world : World
  pub handlers : TypeHandler

-- What a native returns (with the buffer of the plugin that it wrote), or the message that it reports.
-- `crashed` is the use of a null pointer, of a menu that has been destroyed or of storage out of
-- bounds, `threw` an exception, and `endless` a display that does not end.
pub data Result : Type 0 where
  returned : ℕ → State → Result
  returned_text : ℕ → Bytes → State → Result
  reported : State → Result
  crashed threw endless : Result

-- The test of a number, and the menu behind it.
at_menu : Option Menu → (Menu → Result) → Result
at_menu none f = crashed
at_menu (some m) f = f m

at_pointer : Option ℕ → (Menu → Result) → State → Result
unfolding at_menu
at_pointer none f s = reported s
at_pointer (some address) f s = at_menu (find_menu address s.world) f

pub with_menu : ℕ → (Menu → Result) → State → Result
unfolding at_pointer
with_menu id f s = if is_negative id then reported s else at_pointer (get id s.handlers) f s

pub for_style : Style → Style → Result → State → Result
for_style item_style item_style r s = r
for_style text_style text_style r s = r
for_style _ _ r s = reported s

-- The natives that serve the menus of one style.
pub styled_menu : Style → ℕ → (Menu → Result) → State → Result
unfolding with_menu for_style
styled_menu style id f s = with_menu id (λ m. for_style style m.style (f m) s) s

updated : State → Menu → Result
updated s m = returned 1 (record s { world = update_menu m s.world })

-- `Style` is of 8 bits, and a value that is not `Item` makes a menu of text.
style_of_cell : ℕ → Style
style_of_cell cell = if cell % 2 ^ 8 == 0 then item_style else text_style

unfoldable pub menu_create :
    Place ℕ (Option ℕ) → ℕ → ℕ → ℕ → ℕ → (style global : ℕ) → State → Result
unfolding style_of_cell
menu_create place address next_at back_at exit_at style global s =
    let (m, world) =
      register_menu address next_at back_at exit_at (style_of_cell style) (not (global == 0))
        s.world in
    let (id, handlers) = create place (some m.address) s.handlers in
    returned id (record { world = world; handlers = handlers })

unfoldable pub menu_set_title : ℕ → Bytes → State → Result
unfolding styled_menu updated
menu_set_title id title s = styled_menu item_style id (λ m. updated s (Menus.set_title title m)) s

appended : State → Option Item × Menu → Result
unfolding updated
appended s (none, m) = returned 0 s
appended s (some item, m) = updated s m

-- The callback of a new item is never empty.
unfoldable pub menu_add_item : ℕ → (address : ℕ) → Bytes → (content callback : ℕ) → State → Result
unfolding styled_menu appended
menu_add_item id address name content callback s =
    styled_menu item_style id
      (λ m. appended s (Menus.append_item address name (some callback) (some content) m)) s

unfoldable pub menu_add_static_item :
    ℕ → (position address : ℕ) → Bytes → (content callback : ℕ) → State → Result
unfolding styled_menu updated
menu_add_static_item id position address name content callback s =
    styled_menu item_style id
      (λ m.
        updated s
          (Menus.set_static_item (to_size position) address name (some callback) (some content)
            m).1)
      s

unfoldable pub menu_insert_item :
    ℕ → (position address : ℕ) → Bytes → (content callback : ℕ) → State → Result
unfolding styled_menu updated
menu_insert_item id position address name content callback s =
    styled_menu item_style id
      (λ m.
        updated s
          (Menus.insert_item (to_size position) address name (some callback) (some content) m).1)
      s

unfoldable pub menu_remove_item : ℕ → (position : ℕ) → State → Result
unfolding styled_menu updated
menu_remove_item id position s =
    styled_menu item_style id (λ m. updated s (Menus.remove_item (to_size position) m).1) s

unfoldable pub menu_remove_all_items : ℕ → State → Result
unfolding styled_menu updated
menu_remove_all_items id s = styled_menu item_style id (λ m. updated s (Menus.remove_all_items m)) s

unfoldable pub menu_items_get : ℕ → State → Result
unfolding styled_menu
menu_items_get id s = styled_menu item_style id (λ m. returned (length m.items % 2 ^ 32) s) s

unfoldable pub menu_items_per_page_set : ℕ → (value : ℕ) → State → Result
unfolding styled_menu updated
menu_items_per_page_set id value s =
    styled_menu item_style id (λ m. updated s (Menus.set_items_per_page (to_size value) m)) s

unfoldable pub menu_items_per_page_get : ℕ → State → Result
unfolding styled_menu
menu_items_per_page_get id s =
    styled_menu item_style id (λ m. returned (m.items_per_page % 2 ^ 32) s) s

-- `MProp_NumberFormat` is 0, and any other property does nothing.
unfoldable pub menu_set_prop : ℕ → (prop : ℕ) → Bytes → State → Result
unfolding styled_menu updated
menu_set_prop id prop format s =
    styled_menu item_style id
      (λ m. if prop == 0 then updated s (Menus.set_number_format format m) else returned 1 s) s

unfoldable pub menu_set_text : ℕ → Bytes → State → Result
unfolding styled_menu updated
menu_set_text id text s = styled_menu text_style id (λ m. updated s (Menus.set_text text m)) s

key_bit : ℕ → ℕ → Bool
key_bit cell k = cell / 2 ^ k % 2 == 1

unfoldable pub menu_set_keys : ℕ → (keys : ℕ) → State → Result
unfolding styled_menu updated key_bit
menu_set_keys id keys s =
    styled_menu text_style id (λ m. updated s (Menus.set_keys (key_bit keys) m)) s

-- `getPlayer` of a cell: player 0 was never made.
player_of : ℕ → World → Option PlayerMenu
player_of zero w = none
player_of (suc i) w = get_elem? w.players i

-- The natives that run handlers and callbacks.
module _ (run : Handlers) where
  unfoldable pub menu_destroy : ℕ → State → Result
  unfolding styled_menu
  menu_destroy id s =
      styled_menu item_style id
        (λ m. returned 1 (record s { world = destroy_menu run m.address s.world })) s

  module _ (answers : ℕ → Answers) (fuel : ℕ) where
    selected : State → Selected → Result
    selected s (ignored w) = returned 1 (record s { world = w })
    selected s (supercede w) = returned 1 (record s { world = w })
    selected s dangling = crashed
    selected s has_thrown = threw
    selected s is_endless = endless

    displayed_to : ℕ → ℕ → ℕ → Option PlayerMenu → State → Menu → Result
    unfolding selected
    displayed_to i page time none s m = crashed
    displayed_to i page time (some p) s m =
        selected s (display_to run answers fuel i m page time s.world)

    unfoldable pub menu_display : ℕ → (player page time : ℕ) → State → Result
    unfolding with_menu displayed_to player_of
    menu_display id player page time s =
        with_menu id (displayed_to player page time (player_of player s.world) s) s

  closed : State → Option World → Result
  closed s none = crashed
  closed s (some w) = returned 1 (record s { world = w })

  closed_of : ℕ → Option PlayerMenu → State → Result
  unfolding closed
  closed_of i none s = crashed
  closed_of i (some p) s = closed s (Select.close_menu run i p s.world)

  -- The number of clients is that of the players.
  unfoldable pub menu_close : (player : ℕ) → State → Result
  unfolding closed_of player_of
  menu_close player s =
      if is_negative player || ltb (length s.world.players) player
      then reported s
      else closed_of player (player_of player s.world) s

-- The item behind a packed cell, without a test of the pointer.
at_item : Option Item → (Item → Result) → Result
at_item none f = crashed
at_item (some item) f = f item

with_item : ℕ → (Menu → Item → Result) → State → Result
unfolding styled_menu at_item
with_item packed f s =
    if is_negative packed
    then returned 0 s
    else let (menu_id, item_id) = menu_unpack_item packed in
      styled_menu item_style menu_id (λ m. at_item (get_item item_id m) (f m)) s

unfoldable pub menu_item_set_name : ℕ → Bytes → State → Result
unfolding with_item updated
menu_item_set_name packed name s =
    with_item packed (λ m item. updated s (change_item item.address (Menus.set_item_name name) m)) s

unfoldable pub copied : State → Option (ℕ × Bytes) → Result
copied s none = crashed
copied s (some (written, buffer)) = returned_text (written % 2 ^ 32) buffer s

unfoldable pub menu_item_get_name : ℕ → (buffer : Bytes) (size : ℕ) → State → Result
unfolding with_item copied
menu_item_get_name packed buffer size s =
    with_item packed (λ m item. copied s (str_copy buffer (to_size size) (whole item.name))) s

unfoldable pub menu_item_set_data : ℕ → (content : ℕ) → State → Result
unfolding with_item updated
menu_item_set_data packed content s =
    with_item packed
      (λ m item. updated s (change_item item.address (Menus.set_item_data (some content)) m)) s

-- `std::any_cast` throws where the data is no cell.
cast : State → Option ℕ → Result
cast s none = threw
cast s (some content) = returned content s

unfoldable pub menu_item_get_data : ℕ → State → Result
unfolding with_item cast
menu_item_get_data packed s = with_item packed (λ m item. cast s item.content) s
