-- ===== src/Natives/Menus/Stored.antt =====
-- What the natives of the items read of what was stored.
use spmod.Common.{
  ℕ, ◌^◌, ◌<◌, ◌≡◌, refl, ap, sym, ◌∙◌, false, Bytes, some, arith, length, ltb-false, if_false,
}
use spmod.Handles.{get}
use spmod.Menu as Menus
use spmod.Menu.{Menu, Item, Style, item_style, get_item, change_item, append_item}
use spmod.Menu.Changes.{get_item-change_item, get_item-append_item}
use spmod.Menu.Select.{find_menu, update_menu}
use spmod.Menu.Select.Lookup.{find_menu-update_menu}
use spmod.Utils.Copy.{str_copy}
use spmod.Utils.View.{whole}
use spmod.Natives.Packed.{is_negative, to_size, packed_cell, menu_unpack_item-menu_pack_item}
use spmod.Natives.Menus.{
  State, Result, returned, for_style, styled_menu, updated, appended, at_item, with_item, cast,
  copied, menu_add_item, menu_item_set_name, menu_item_get_name, menu_item_set_data,
  menu_item_get_data,
}
use spmod.Natives.Menus.Refused.{with_menu-found, for_style_self}

-- The number stands for a menu of items.
abbrev pub IsMenu : ℕ → Menu → State → Type 0
IsMenu id m s =
    (get id s.handlers ≡ some m.address)
    × (find_menu m.address s.world ≡ some m)
    × (m.style ≡ item_style)

is_negative-low : (id : ℕ) → id < 2 ^ 31 → is_negative id ≡ false
is_negative-low id h = ltb-false _ _ (omega arith)

pub styled_menu-IsMenu :
    (id : ℕ) (m : Menu) (f : Menu → Result) (s : State)
    → id < 2 ^ 31
    → IsMenu id m s
    → styled_menu item_style id f s ≡ f m
unfolding styled_menu
styled_menu-IsMenu id m f s low (its, there, st) =
    with_menu-found id m.address m _ s (is_negative-low id low) its there
    ∙ (ap (λ st'. for_style item_style st' (f m) s) st ∙ for_style_self item_style (f m) s)

with_item-packed_cell :
    (id i : ℕ) (m : Menu) (item : Item) (f : Menu → Item → Result) (s : State)
    → id < 2 ^ 15
    → i < 2 ^ 16
    → IsMenu id m s
    → get_item i m ≡ some item
    → with_item (packed_cell id i) f s ≡ f m item
unfolding with_item at_item
with_item-packed_cell id i m item f s low small is at =
    let (positive, unpacked) = menu_unpack_item-menu_pack_item id i low small in
    if_false _ _ _ (is_negative-low _ positive)
    ∙ rw unpacked (styled_menu-IsMenu id m _ s (omega arith) is ∙ rw at refl)

-- The menu has been changed.
abbrev pub with_updated : Menu → State → State
with_updated m s = record s { world = update_menu m s.world }

IsMenu-with_updated :
    (id : ℕ) (m m' : Menu) (s : State)
    → IsMenu id m s
    → m'.address ≡ m.address
    → m'.style ≡ m.style
    → IsMenu id m' (with_updated m' s)
IsMenu-with_updated id m m' s (its, there, st) same style = (
  its ∙ ap some (sym same),
  ap (λ a. find_menu a (update_menu m' s.world)) same
      ∙ find_menu-update_menu m.address m m' s.world there same,
  style ∙ st,
)

-- The number is below 2 ^ 15 and stands for a menu of items, and the index is below 2 ^ 16 and that of
-- an item. Then MenuItem.SetData and MenuItem.SetName of the packed item return 1; behind the former
-- MenuItem.GetData returns the data that was set, and behind the latter MenuItem.GetName copies the
-- name that was set.
pub get_data-set_data :
    (id i content : ℕ) (name buffer : Bytes) (size : ℕ) (m : Menu) (item : Item) (s : State)
    → id < 2 ^ 15
    → i < 2 ^ 16
    → IsMenu id m s
    → get_item i m ≡ some item
    → ((s' : State) × (menu_item_set_data (packed_cell id i) content s ≡ returned 1 s')
        × (menu_item_get_data (packed_cell id i) s' ≡ returned content s'))
      × ((s' : State) × (menu_item_set_name (packed_cell id i) name s ≡ returned 1 s')
          × (menu_item_get_name (packed_cell id i) buffer size s'
              ≡ copied s' (str_copy buffer (to_size size) (whole name))))
unfolding menu_item_set_data menu_item_get_data menu_item_set_name menu_item_get_name updated cast
    change_item
get_data-set_data id i content name buffer size m item s low small is at = (
  (
    stored set_data,
    with_item-packed_cell id i m item _ s low small is at,
    read set_data (λ m' item'. cast (stored set_data) item'.content),
  ),
  (
    stored set_name,
    with_item-packed_cell id i m item _ s low small is at,
    read set_name
        (λ m' item'. copied (stored set_name) (str_copy buffer (to_size size) (whole item'.name))),
  ),
)
  where
    set_data : Item → Item
    set_data = Menus.set_item_data (some content)

    set_name : Item → Item
    set_name = Menus.set_item_name name

    changed : (Item → Item) → Menu
    changed g = change_item item.address g m

    stored : (Item → Item) → State
    stored g = with_updated (changed g) s

    read :
        (g : Item → Item) (f : Menu → Item → Result)
        → with_item (packed_cell id i) f (stored g) ≡ f (changed g) (g item)
    read g f =
        with_item-packed_cell id i (changed g) (g item) f (stored g) low small
          (IsMenu-with_updated id m (changed g) s is refl refl) (get_item-change_item g i item m at)

-- The number is below 2 ^ 15 and stands for a menu of fewer than 2 ^ 16 items. Then Menu.AddItem
-- returns 1, and the item whose index was the number of items has the data and the name: of its packed
-- cell, MenuItem.GetData returns the data and MenuItem.GetName copies the name.
pub get_data-add_item :
    (id address content callback : ℕ) (name buffer : Bytes) (size : ℕ) (m : Menu) (s : State)
    → id < 2 ^ 15
    → length m.items < 2 ^ 16
    → IsMenu id m s
    → let cell = packed_cell id (length m.items) in
      (s' : State) × (menu_add_item id address name content callback s ≡ returned 1 s')
      × (menu_item_get_data cell s' ≡ returned content s')
      × (menu_item_get_name cell buffer size s'
          ≡ copied s' (str_copy buffer (to_size size) (whole name)))
unfolding menu_add_item appended updated menu_item_get_data menu_item_get_name cast
get_data-add_item id address content callback name buffer size m s low small is =
    let m' = (append_item address name (some callback) (some content) m).1 in
    let s' = with_updated m' s in
    let is' = IsMenu-with_updated id m m' s is refl refl in
    let at = get_item-append_item address name (some callback) (some content) m in
    (
      s',
      styled_menu-IsMenu id m _ s (omega arith) is,
      with_item-packed_cell id (length m.items) m' _ _ s' low small is' at,
      with_item-packed_cell id (length m.items) m' _ _ s' low small is' at,
    )
