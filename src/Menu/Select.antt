-- ===== src/Menu/Select.antt =====
-- The choice in a menu: MenuMngr::ClientCommand, destroyMenu and registerMenu of src/MenuSystem.cpp,
-- and Player::closeMenu of src/PlayerSystem.cpp. The plugins' handlers and callbacks are
-- parameters; a handler may do anything to the menus and the players.
pub mod Chosen
pub mod Lookup
use spmod.Common.{
  ℕ, zero, suc, ◌+◌, ◌-◌, ◌*◌, ◌%◌, ◌^◌, Bool, true, false, not, ◌&&◌, ◌||◌, Bytes, List, [], ◌∷◌,
  ◌++◌, Option, none, some, ◌==◌, ltb, leb, if◌then◌else◌, get_elem?, set, erase_first, find_first,
  map, length,
}
use spmod.Menu.{
  Menu, Item, Style, item_style, text_style, NavigationType, no_navigation, back, next, exit,
  Answers, new_menu,
}
use spmod.Menu.Display.{Shown, shown, undefined, out_of_fuel, display}

-- The part of a player that the menus use; `menu` is the address of the open menu.
pub record PlayerMenu : Type 0 where
  pub in_game : Bool
  pub menu : Option ℕ
  pub menu_page : ℕ

-- The menus, and the players from number 1 on.
pub record World : Type 0 where
  pub menus : List Menu
  pub players : List PlayerMenu

pub data HandlerCall : Type 0 where
  item_handler : (menu : ℕ) (item : Item) (player : ℕ) → HandlerCall
  text_handler : (menu key player : ℕ) → HandlerCall

abbrev pub Handlers : Type 0
Handlers = HandlerCall → World → World

-- How the command ended. `dangling` is a use of a menu, player or item that is not there, or a shift
-- by more than the width of a number; `threw` is an exception; `endless` is a display without end.
pub data Selected : Type 0 where
  ignored supercede : World → Selected
  dangling threw endless : Selected

abbrev pub menu_at : ℕ → Menu → Bool
menu_at address m = m.address == address

abbrev pub find_menu : ℕ → World → Option Menu
find_menu address w = find_first (menu_at address) w.menus

abbrev pub replaced : Menu → Menu → Menu
replaced m' m = if m.address == m'.address then m' else m

abbrev pub update_menu : Menu → World → World
update_menu m' w = record w { menus = map (replaced m') w.menus }

abbrev pub player_at : ℕ → World → Option PlayerMenu
player_at i w = get_elem? w.players (i - 1)

unfoldable pub set_player : ℕ → (PlayerMenu → PlayerMenu) → World → World
set_player i f w = elim (player_at i w) [
  | none ↦ w
  | some p ↦ record w { players = set w.players (i - 1) (f p) }
]

abbrev pub set_menu : Option ℕ → PlayerMenu → PlayerMenu
set_menu menu p = record p { menu = menu }

-- `std::from_chars` for a `std::uint32_t`: the digits at the start.
is_digit : ℕ → Bool
is_digit b = leb 48 b && leb b 57

digits_from : ℕ → Bytes → ℕ
digits_from n [] = n
digits_from n (b ∷ s) =
    let rest = digits_from (n * 10 + (b - 48)) s in if is_digit b then rest else n

in_range : ℕ → Option ℕ
in_range n = if ltb n (2 ^ 32) then some n else none

unfoldable pub from_chars : Bytes → Option ℕ
unfolding is_digit digits_from in_range
from_chars [] = none
from_chars (b ∷ s) = if is_digit b then in_range (digits_from 0 (b ∷ s)) else none

-- `pressedKey -= 1`
abbrev pub pressed_key : ℕ → ℕ
pressed_key n = (n + 2 ^ 32 - 1) % 2 ^ 32

present : List (Option Item) → List Item
present [] = []
present (none ∷ items) = present items
present (some item ∷ items) = item ∷ present items

-- The items that a menu holds.
items_of : Menu → List Item
unfolding present
items_of m = m.exit_item ∷ (m.next_item ∷ (m.back_item ∷ (m.items ++ present m.static_items)))

module _ (run : Handlers) where
  -- Player::closeMenu, for the player `i` whose menu is at the address.
  close_open : ℕ → ℕ → Option Menu → World → World
  close_open i address none w = set_player i (set_menu none) w
  close_open i address (some m) w = close_style m.style
    where
      close_style : Style → World
      close_style item_style =
          set_player i (set_menu none) (run (item_handler address m.exit_item i) w)
      close_style text_style = set_player i (set_menu none) w

  -- The call of closeMenu; `none` is the use of a menu that has been destroyed.
  close_found : ℕ → ℕ → Option Menu → World → Option World
  unfolding close_open
  close_found i address none w = none
  close_found i address (some m) w = some (close_open i address (some m) w)

  unfoldable pub close_menu : ℕ → PlayerMenu → World → Option World
  unfolding close_found
  close_menu i p w = elim p.menu [
    | none ↦ some w
    | some address ↦ close_found i address (find_menu address w) w
  ]

  has_open : ℕ → Option PlayerMenu → Bool
  has_open address none = false
  has_open address (some p) = p.in_game && is_open p.menu
    where
      is_open : Option ℕ → Bool
      is_open none = false
      is_open (some a) = a == address

  -- The loop of `destroyMenu` over the players from `i` on.
  close_all : ℕ → ℕ → ℕ → World → World
  unfolding close_open has_open
  close_all address zero i w = w
  close_all address (suc n) i w =
      close_all address n (suc i) (
        if has_open address (player_at i w)
        then close_open i address (find_menu address w) w
        else w)

  unfoldable pub destroy_menu : ℕ → World → World
  unfolding close_all
  destroy_menu address w =
      let w' = close_all address (length w.players) 1 w in
      record w' { menus = erase_first (menu_at address) w'.menus }

  module _ (answers : ℕ → Answers) (fuel : ℕ) where
    displayed : World → Shown → Selected
    displayed w (shown m) = supercede (update_menu m w)
    displayed w undefined = dangling
    displayed w out_of_fuel = endless

    -- `display`, called for a player.
    unfoldable pub display_to : ℕ → Menu → ℕ → ℕ → World → Selected
    unfolding displayed
    display_to i m page time w =
        displayed (set_player i (λ p. record p { menu = some m.address; menu_page = page }) w)
          (display m (answers i) fuel page time)

    -- What follows the handler, by the kind of the item. The pages are of 32 bits.
    navigated : ℕ → NavigationType → Menu → PlayerMenu → World → Selected
    navigated i back m p w = display_to i m ((p.menu_page + 2 ^ 32 - 1) % 2 ^ 32) m.time w
    navigated i next m p w = display_to i m ((p.menu_page + 1) % 2 ^ 32) m.time w
    navigated i no_navigation m p w = supercede (if m.global then w else destroy_menu m.address w)
    navigated i exit m p w = supercede (if m.global then w else destroy_menu m.address w)

    -- The kind of the item is read through its pointer, which dangles if the handler destroyed it.
    by_item : ℕ → Option Item → Menu → PlayerMenu → World → Selected
    unfolding navigated
    by_item i none m p w = dangling
    by_item i (some item) m p w = navigated i item.nav_type m p w

    -- The menu, too, is read again after the handler.
    unfoldable pub after_handler : ℕ → Item → Option Menu → Option PlayerMenu → World → Selected
    unfolding by_item items_of
    after_handler i item (some m) (some p) w =
        by_item i (find_first (λ other. other.address == item.address) (items_of m)) m p w
    after_handler i item none p w = dangling
    after_handler i item (some m) none w = dangling

    -- `keyToItem`, which throws out of range, and the handler.
    unfoldable pub on_item : ℕ → Menu → Option (Option Item) → World → Selected
    on_item i m none w = threw
    on_item i m (some none) w = dangling
    on_item i m (some (some item)) w =
        let w' = run (item_handler m.address item i) w in
        after_handler i item (find_menu m.address w') (player_at i w') w'

    unfoldable pub on_key : ℕ → ℕ → Menu → Style → World → Selected
    on_key i key m item_style w = on_item i m (get_elem? m.slots key) w
    on_key i key m text_style w = supercede (run (text_handler m.address key i) w)

    unfoldable pub on_menu : ℕ → ℕ → Option Menu → World → Selected
    on_menu i key none w = dangling
    on_menu i key (some m) w =
        if leb 32 key
        then dangling
        else if m.keys key
        then on_key i key m m.style (set_player i (set_menu none) w)
        else ignored w

    unfoldable pub on_address : ℕ → ℕ → Option ℕ → World → Selected
    on_address i key none w = ignored w
    on_address i key (some address) w = on_menu i key (find_menu address w) w

    unfoldable pub on_player : ℕ → ℕ → Option PlayerMenu → World → Selected
    on_player i key none w = dangling
    on_player i key (some p) w = on_address i key p.menu w

    unfoldable pub on_number : ℕ → Option ℕ → World → Selected
    on_number i none w = ignored w
    on_number i (some n) w = on_player i (pressed_key n) (player_at i w) w

    -- The whole command of the player `i`, whose argument is the text of the key.
    unfoldable pub client_command : ℕ → Bytes → World → Selected
    client_command i text w = on_number i (from_chars text) w

-- `registerMenu`, by the kind of the handler.
abbrev pub register_menu : ℕ → ℕ → ℕ → ℕ → Style → Bool → World → Menu × World
register_menu address next_at back_at exit_at style global w =
    let m = new_menu address next_at back_at exit_at style global in
    (m, record w { menus = w.menus ++ (m ∷ []) })

abbrev pub clear_menus : World → World
clear_menus w = record w { menus = [] }
