-- ===== src/Natives/Menus/Call.antt =====
-- The natives of subprojects/sourcepawn/MenuNatives.cpp that take the number of a menu.
use spmod.Common.{ℕ, Bytes, Option, none, some}
use spmod.Menu.{Style, item_style, text_style, Answers}
use spmod.Menu.Select.{Handlers}
use spmod.Natives.Menus.{
  State, Result, menu_set_title, menu_add_item, menu_add_static_item, menu_insert_item,
  menu_remove_item, menu_remove_all_items, menu_set_prop, menu_display, menu_destroy,
  menu_items_get, menu_items_per_page_set, menu_items_per_page_get, menu_set_text, menu_set_keys,
}

-- A call of one of them, with its arguments behind the number.
pub data Operation : Type 0 where
  set_title set_text : Bytes → Operation
  add_item : (address : ℕ) → Bytes → (content callback : ℕ) → Operation
  add_static_item insert_item : (position address : ℕ) → Bytes → (content callback : ℕ) → Operation
  remove_item items_per_page_set set_keys : ℕ → Operation
  remove_all_items destroy items_get items_per_page_get : Operation
  set_prop : ℕ → Bytes → Operation
  display : (player page time : ℕ) → Operation

-- The style of menus that a native serves; Menu.Display serves both.
unfoldable pub style_of : Operation → Option Style
style_of (set_text text) = some text_style
style_of (set_keys keys) = some text_style
style_of (display player page time) = none
style_of _ = some item_style

module _ (run : Handlers) (answers : ℕ → Answers) (fuel : ℕ) where
  unfoldable pub operate : ℕ → Operation → State → Result
  operate id (set_title title) s = menu_set_title id title s
  operate id (set_text text) s = menu_set_text id text s
  operate id (add_item address name content callback) s =
      menu_add_item id address name content callback s
  operate id (add_static_item position address name content callback) s =
      menu_add_static_item id position address name content callback s
  operate id (insert_item position address name content callback) s =
      menu_insert_item id position address name content callback s
  operate id (remove_item position) s = menu_remove_item id position s
  operate id remove_all_items s = menu_remove_all_items id s
  operate id (set_prop prop format) s = menu_set_prop id prop format s
  operate id (display player page time) s = menu_display run answers fuel id player page time s
  operate id destroy s = menu_destroy run id s
  operate id items_get s = menu_items_get id s
  operate id (items_per_page_set value) s = menu_items_per_page_set id value s
  operate id items_per_page_get s = menu_items_per_page_get id s
  operate id (set_keys keys) s = menu_set_keys id keys s
