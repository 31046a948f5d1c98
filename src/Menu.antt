-- ===== src/Menu.antt =====
-- src/MenuSystem.cpp and .hpp: a menu and its items. The callbacks of the items are parameters:
-- their answers to the player for whom the menu is drawn.
pub mod Display
pub mod Draw
pub mod Answers
pub mod Loop
pub mod Changes
pub mod Contents
pub mod Ends
pub mod Sent
pub mod Select
use spmod.Common.{
  ℕ, Bool, true, false, Bytes, codes, List, [], ◌∷◌, ◌++◌, Option, none, some, ◌+◌, ◌-◌, ◌%◌, ◌^◌,
  ◌==◌, ltb, leb, ◌&&◌, if◌then◌else◌, get_elem?, set, erase_at, insert_at, length, replicate, map,
}

pub data NavigationType : Type 0 where
  no_navigation back next exit : NavigationType

pub data Status : Type 0 where
  enabled disabled hide : Status

-- `address` stands for the pointer to the item, and `content` for its `std::any`: a cell, or `none` for
-- anything else.
pub record Item : Type 0 where
  pub address : ℕ
  pub name : Bytes
  pub callback : Option ℕ
  pub content : Option ℕ
  pub nav_type : NavigationType

pub data Style : Type 0 where
  item_style text_style : Style

-- A `std::uint32_t` of keys, by its bits.
abbrev pub Keys : Type 0
Keys = ℕ → Bool

-- `m_slots` holds `none` where it was never written.
pub record Menu : Type 0 where
  pub address : ℕ
  pub style : Style
  pub global : Bool
  pub text : Bytes
  pub title : Bytes
  pub number_format : Bytes
  pub time : ℕ
  pub items_per_page : ℕ
  pub keys : Keys
  pub slots : List (Option Item)
  pub static_items : List (Option Item)
  pub next_item : Item
  pub back_item : Item
  pub exit_item : Item
  pub items : List Item

abbrev pub max_static_items : ℕ
max_static_items = 10

abbrev pub navigation : ℕ → Bytes → NavigationType → Item
navigation address name nav_type = record {
  address = address;
  name = name;
  callback = none;
  content = none;
  nav_type = nav_type;
}

-- The constructor; the four addresses are those of the menu and its navigation items.
abbrev pub new_menu : ℕ → ℕ → ℕ → ℕ → Style → Bool → Menu
new_menu address next_at back_at exit_at style global = record {
  address = address;
  style = style;
  global = global;
  text = [];
  title = [];
  number_format = 92 ∷ codes "r#num.";
  time = 2 ^ 32 - 1;
  items_per_page = 7;
  keys = λ k. false;
  slots = replicate 10 none;
  static_items = replicate max_static_items none;
  next_item = navigation next_at (codes "Next") next;
  back_item = navigation back_at (codes "Back") back;
  exit_item = navigation exit_at (codes "Exit") exit;
  items = [];
}

-- What the callbacks answer for a player.
abbrev pub Answers : Type 0
Answers = ℕ → Item → Status

unfoldable pub answer_of : Answers → Item → Option ℕ → Status
answer_of answers item none = enabled
answer_of answers item (some f) = answers f item

unfoldable pub exec_callback : Answers → Item → Status
unfolding answer_of
exec_callback answers item = answer_of answers item item.callback

abbrev pub set_items_per_page : ℕ → Menu → Menu
set_items_per_page value m = record m { items_per_page = if ltb value 10 then value else 10 }

abbrev pub set_number_format : Bytes → Menu → Menu
set_number_format format m = record m { number_format = format }

abbrev pub set_title : Bytes → Menu → Menu
set_title text m = record m { title = text }

abbrev pub set_text : Bytes → Menu → Menu
set_text text m = record m { text = text }

abbrev pub set_keys : Keys → Menu → Menu
set_keys keys m = record m { keys = keys }

-- The operations on the items; the first component is the pointer that the code returns.
abbrev pub append_item : ℕ → Bytes → Option ℕ → Option ℕ → Menu → Option Item × Menu
append_item address name callback content m =
    let item : Item = record {
      address = address;
      name = name;
      callback = callback;
      content = content;
      nav_type = no_navigation;
    } in
    (some item, record m { items = m.items ++ (item ∷ []) })

abbrev pub insert_item : ℕ → ℕ → Bytes → Option ℕ → Option ℕ → Menu → Option Item × Menu
insert_item position address name callback content m =
    let item : Item = record {
      address = address;
      name = name;
      callback = callback;
      content = content;
      nav_type = no_navigation;
    } in
    if leb (length m.items) position
    then (none, m)
    else (some item, record m { items = insert_at position item m.items })

abbrev pub set_static_item : ℕ → ℕ → Bytes → Option ℕ → Option ℕ → Menu → Option Item × Menu
set_static_item position address name callback content m =
    let item : Item = record {
      address = address;
      name = name;
      callback = callback;
      content = content;
      nav_type = no_navigation;
    } in
    if leb m.items_per_page position
    then (none, m)
    else (some item, record m { static_items = set m.static_items position (some item) })

abbrev pub remove_item : ℕ → Menu → Bool × Menu
remove_item position m =
    if leb (length m.items) position
    then (false, m)
    else (true, record m { items = erase_at position m.items })

abbrev pub remove_all_items : Menu → Menu
remove_all_items m = record m { items = [] }

-- A place of an array of pointers; `none` is the null pointer.
abbrev pub pointer_of : Option (Option Item) → Option Item
pointer_of none = none
pointer_of (some item) = item

unfoldable pub get_item : ℕ → Menu → Option Item
get_item position m =
    if leb (length m.items) position && ltb position (length m.items + max_static_items)
    then pointer_of (get_elem? m.static_items (position - length m.items))
    else get_elem? m.items position

-- Menu::Item::setName and setData.
abbrev pub set_item_name : Bytes → Item → Item
set_item_name name item = record item { name = name }

abbrev pub set_item_data : Option ℕ → Item → Item
set_item_data content item = record item { content = content }

abbrev pub changed_at : ℕ → (Item → Item) → Item → Item
changed_at address f item = if item.address == address then f item else item

abbrev pub changed_pointer : ℕ → (Item → Item) → Option Item → Option Item
changed_pointer address f none = none
changed_pointer address f (some item) = some (changed_at address f item)

-- A change of the item behind a pointer, which is seen wherever the menu has the pointer.
unfoldable pub change_item : ℕ → (Item → Item) → Menu → Menu
change_item address f m = record m {
  slots = map (changed_pointer address f) m.slots;
  static_items = map (changed_pointer address f) m.static_items;
  items = map (changed_at address f) m.items;
}

-- The loops of `getItemIndex`, from an index on.
points_to : ℕ → Option Item → Bool
points_to address none = false
points_to address (some item) = item.address == address

static_index : ℕ → ℕ → List (Option Item) → Option ℕ
static_index address i [] = none
static_index address i (item ∷ items) =
    if points_to address item then some i else static_index address (i + 1) items

item_index : ℕ → ℕ → List Item → Option ℕ
item_index address i [] = none
item_index address i (item ∷ items) =
    if points_to address (some item) then some i else item_index address (i + 1) items

first_of : Option ℕ → Option ℕ → ℕ
first_of (some i) j = i % 2 ^ 32
first_of none (some j) = j % 2 ^ 32
first_of none none = 2 ^ 32 - 1

unfoldable pub get_item_index : ℕ → Menu → ℕ
unfolding static_index item_index first_of points_to
get_item_index address m =
    first_of (static_index address (length m.items) m.static_items) (item_index address 0 m.items)
