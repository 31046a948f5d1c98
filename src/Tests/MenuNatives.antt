-- ===== src/Tests/MenuNatives.antt =====
-- Natives of subprojects/sourcepawn/MenuNatives.cpp: menu 0 of items with two items, and menu 1 of
-- text.
use spmod.Common.{ℕ, ◌≡◌, ◌<◌, ◌^◌, refl, inr, false, codes, [], ◌∷◌, none, some, arith}
use spmod.Dict.{Place}
use spmod.Handles.{TypeHandler}
use spmod.Menu.{
  Menu, Item, Status, enabled, item_style, text_style, no_navigation, new_menu, get_item,
}
use spmod.Menu.Select.{Handlers}
use spmod.Natives.Packed.{packed_cell, menu_unpack_item, menu_unpack_item-menu_pack_item, to_size}
use spmod.Natives.Menus.{
  State, returned, reported, crashed, copied, menu_add_item, menu_item_set_data, menu_item_get_data,
  menu_item_set_name, menu_item_get_name,
}
use spmod.Natives.Menus.Call.{destroy, items_get, operate, style_of}
use spmod.Natives.Menus.Refused.{operate-refused}
use spmod.Natives.Menus.Stored.{IsMenu, get_data-set_data, get_data-add_item}
use spmod.Natives.Menus.Destroyed.{operate-destroy}
use spmod.Utils.Copy.{str_copy}
use spmod.Utils.View.{whole}

abbrev item : ℕ → Item
item address = record {
  address = address;
  name = codes "item";
  callback = none;
  content = some 7;
  nav_type = no_navigation;
}

abbrev menu : Menu
menu = record (new_menu 100 101 102 103 item_style false) { items = item 1 ∷ (item 2 ∷ []) }

abbrev text_menu : Menu
text_menu = new_menu 200 201 202 203 text_style false

abbrev state : State
state = record {
  world = record { menus = menu ∷ (text_menu ∷ []); players = [] };
  handlers = record { handlers = (0, some 100) ∷ ((1, some 200) ∷ []); free_ids = [] };
}

abbrev quiet : Handlers
quiet c w = w

abbrev answers : ℕ → ℕ → Item → Status
answers i f it = enabled

menu_unpack_item-menu_pack_item_example :
    (packed_cell 3 5 < 2 ^ 31) × (menu_unpack_item (packed_cell 3 5) ≡ (3, 5))
menu_unpack_item-menu_pack_item_example =
    menu_unpack_item-menu_pack_item 3 5 (omega arith) (omega arith)

-- Menu.Destroy refuses the menu of text.
operate-refused_example : operate quiet answers 100 1 destroy state ≡ reported state
unfolding spmod.Handles.get spmod.Dict.find style_of
operate-refused_example =
    operate-refused quiet answers 100 1 destroy state
      (inr (refl, 200, refl, text_menu, refl, λ e. cc))

is_menu : IsMenu 0 menu state
unfolding spmod.Handles.get spmod.Dict.find
is_menu = (refl, refl, refl)

get_data-set_data_example :
    ((s' : State) × (menu_item_set_data (packed_cell 0 1) 42 state ≡ returned 1 s')
      × (menu_item_get_data (packed_cell 0 1) s' ≡ returned 42 s'))
    × ((s' : State) × (menu_item_set_name (packed_cell 0 1) (codes "new") state ≡ returned 1 s')
        × (menu_item_get_name (packed_cell 0 1) (codes "buffer") 6 s'
            ≡ copied s' (str_copy (codes "buffer") (to_size 6) (whole (codes "new")))))
unfolding get_item
get_data-set_data_example =
    get_data-set_data 0 1 42 (codes "new") (codes "buffer") 6 menu (item 2) state (omega arith)
      (omega arith) is_menu refl

get_data-add_item_example :
    (s' : State) × (menu_add_item 0 9 (codes "third") 11 0 state ≡ returned 1 s')
    × (menu_item_get_data (packed_cell 0 2) s' ≡ returned 11 s')
    × (menu_item_get_name (packed_cell 0 2) (codes "buffer") 6 s'
        ≡ copied s' (str_copy (codes "buffer") (to_size 6) (whole (codes "third"))))
get_data-add_item_example =
    get_data-add_item 0 9 11 0 (codes "third") (codes "buffer") 6 menu state (omega arith)
      (omega arith) is_menu

operate-destroy_example :
    (s' : State) × (operate quiet answers 100 0 destroy state ≡ returned 1 s')
    × (operate quiet answers 100 0 items_get s' ≡ crashed)
operate-destroy_example =
    operate-destroy quiet answers 100 0 menu items_get state (omega arith) is_menu
      (((λ e. absurd (omega (arith, e))), tt), (tt, tt)) (λ c w. refl)
