-- ===== src/Natives/Menus/Destroyed.antt =====
-- What Menu.Destroy leaves of the number of a menu.
use spmod.Common.{ℕ, ◌≡◌, refl, ◌∙◌, ◌^◌, ◌<◌, arith, false, none, some, if_false, ltb-false}
use spmod.Handles.{get}
use spmod.Menu.{Menu, Answers}
use spmod.Menu.Select.{Handlers, find_menu, destroy_menu}
use spmod.Menu.Select.Lookup.{AreQuiet, AreApart, find_menu-destroy_menu}
use spmod.Natives.Packed.{is_negative}
use spmod.Natives.Menus.{
  State, Result, returned, crashed, at_menu, at_pointer, with_menu, styled_menu, menu_set_title,
  menu_add_item, menu_add_static_item, menu_insert_item, menu_remove_item, menu_remove_all_items,
  menu_set_prop, menu_display, menu_destroy, menu_items_get, menu_items_per_page_set,
  menu_items_per_page_get, menu_set_text, menu_set_keys,
}
use spmod.Natives.Menus.Call.{
  Operation, set_title, set_text, add_item, add_static_item, insert_item, remove_item,
  remove_all_items, set_prop, display, destroy, items_get, items_per_page_set, items_per_page_get,
  set_keys, operate,
}
use spmod.Natives.Menus.Stored.{IsMenu, styled_menu-IsMenu}

-- A number that stands for a pointer to no menu.
abbrev pub IsDangling : ℕ → State → Type 0
IsDangling id s =
    (id < 2 ^ 31) × (a : ℕ) × (get id s.handlers ≡ some a) × (find_menu a s.world ≡ none)

with_menu-IsDangling :
    (id : ℕ) (f : Menu → Result) (s : State) → IsDangling id s → with_menu id f s ≡ crashed
unfolding with_menu at_pointer at_menu
with_menu-IsDangling id f s (low, a, its, gone) =
    let ok : is_negative id ≡ false = ltb-false _ _ (omega arith) in
    if_false _ _ _ ok ∙ rw (its, gone) refl

operate-IsDangling :
    (run : Handlers) (answers : ℕ → Answers) (fuel id : ℕ) (o : Operation) (s : State)
    → IsDangling id s
    → operate run answers fuel id o s ≡ crashed
unfolding operate styled_menu menu_set_title menu_add_item menu_add_static_item menu_insert_item
    menu_remove_item menu_remove_all_items menu_set_prop menu_display menu_destroy menu_items_get
    menu_items_per_page_set menu_items_per_page_get menu_set_text menu_set_keys
operate-IsDangling run answers fuel id (set_title _) s h = with_menu-IsDangling id _ s h
operate-IsDangling run answers fuel id (set_text _) s h = with_menu-IsDangling id _ s h
operate-IsDangling run answers fuel id (add_item _ _ _ _) s h = with_menu-IsDangling id _ s h
operate-IsDangling run answers fuel id (add_static_item _ _ _ _ _) s h =
    with_menu-IsDangling id _ s h
operate-IsDangling run answers fuel id (insert_item _ _ _ _ _) s h = with_menu-IsDangling id _ s h
operate-IsDangling run answers fuel id (remove_item _) s h = with_menu-IsDangling id _ s h
operate-IsDangling run answers fuel id remove_all_items s h = with_menu-IsDangling id _ s h
operate-IsDangling run answers fuel id (set_prop _ _) s h = with_menu-IsDangling id _ s h
operate-IsDangling run answers fuel id (display _ _ _) s h = with_menu-IsDangling id _ s h
operate-IsDangling run answers fuel id destroy s h = with_menu-IsDangling id _ s h
operate-IsDangling run answers fuel id items_get s h = with_menu-IsDangling id _ s h
operate-IsDangling run answers fuel id (items_per_page_set _) s h = with_menu-IsDangling id _ s h
operate-IsDangling run answers fuel id items_per_page_get s h = with_menu-IsDangling id _ s h
operate-IsDangling run answers fuel id (set_keys _) s h = with_menu-IsDangling id _ s h

-- The number is not below 0 and stands for a menu of items, no two menus are at the same address, and
-- the handlers change none of the menus. Then Menu.Destroy returns 1 and keeps the number: the next
-- native with this number, whichever it is, uses the menu that has been destroyed.
pub operate-destroy :
    (run : Handlers) (answers : ℕ → Answers) (fuel id : ℕ) (m : Menu) (o : Operation) (s : State)
    → id < 2 ^ 31
    → IsMenu id m s
    → AreApart s.world.menus
    → AreQuiet run
    → (s' : State) × (operate run answers fuel id destroy s ≡ returned 1 s')
      × (operate run answers fuel id o s' ≡ crashed)
unfolding operate menu_destroy
operate-destroy run answers fuel id m o s low (its, there, st) apart quiet =
    let s' : State = record s { world = destroy_menu run m.address s.world } in
    (
      s',
      styled_menu-IsMenu id m _ s low (its, there, st),
      operate-IsDangling run answers fuel id o s'
          (low, m.address, its, find_menu-destroy_menu run m.address s.world quiet apart),
    )
