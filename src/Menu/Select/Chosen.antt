-- ===== src/Menu/Select/Chosen.antt =====
-- The choice in a menu that has been displayed.
use spmod.Common.{
  ℕ, ◌≡◌, ◌<◌, ap, ◌∙◌, true, false, Bytes, some, none, arith, leb, get_elem?, if_true, if_false,
  if◌then◌else◌,
}
use spmod.Menu.{Menu, Item, item_style, Answers}
use spmod.Menu.Display.{shown, display}
use spmod.Menu.Answers.{IsChoosable, display-IsChoosable}
use spmod.Menu.Select.{
  PlayerMenu, World, Handlers, item_handler, ignored, find_menu, player_at, set_player, set_menu,
  from_chars, pressed_key, after_handler, on_item, on_key, on_menu, on_address, on_number,
  on_player, client_command,
}

module _ (run : Handlers) (answers : ℕ → Answers) (fuel : ℕ) where
  -- A player whose open menu is `m` sends the text of the number `n`, which is the key `n - 1` of 32
  -- bits, below 32. The command is ignored and changes nothing where the key is not set in the
  -- menu; where it is set, the player's menu is closed and the key goes to the menu.
  pub client_command-set_player :
      (i : ℕ) (text : Bytes) (n : ℕ) (p : PlayerMenu) (m : Menu) (w : World)
      → from_chars text ≡ some n
      → player_at i w ≡ some p
      → p.menu ≡ some m.address
      → find_menu m.address w ≡ some m
      → pressed_key n < 32
      → client_command run answers fuel i text w ≡ (
          if m.keys (pressed_key n)
          then on_key run answers fuel i (pressed_key n) m m.style (set_player i (set_menu none) w)
          else ignored w)
  unfolding client_command on_number on_player on_address on_menu
  client_command-set_player i text n p m w number there its registered narrow =
      let fits : leb 32 (pressed_key n) ≡ false = ground arith in
      rw (number, there, its, registered) (if_false _ _ _ fits)

  -- The player's open menu is one of items that has been displayed to a player, whatever its items,
  -- static items and callbacks are. A key that is set in it is never answered by an exception or by a
  -- pointer that was not written: the slot of the key holds an item that the player may choose, and
  -- the handler is called with this item once the player's menu is closed.
  pub display-client_command :
      (m₀ m : Menu) (shown_to page time i n : ℕ) (text : Bytes) (p : PlayerMenu) (w : World)
      → m₀.style ≡ item_style
      → m.style ≡ item_style
      → display m₀ (answers shown_to) fuel page time ≡ shown m
      → from_chars text ≡ some n
      → player_at i w ≡ some p
      → p.menu ≡ some m.address
      → find_menu m.address w ≡ some m
      → pressed_key n < 32
      → m.keys (pressed_key n) ≡ true
      → (item : Item) × (get_elem? m.slots (pressed_key n) ≡ some (some item))
        × IsChoosable m₀ (answers shown_to) item
        × (client_command run answers fuel i text w
            ≡ after_handler run answers fuel i item
                (find_menu m.address
                  (run (item_handler m.address item i) (set_player i (set_menu none) w)))
                (player_at i (run (item_handler m.address item i) (set_player i (set_menu none) w)))
                (run (item_handler m.address item i) (set_player i (set_menu none) w)))
  unfolding on_key on_item
  display-client_command m₀ m shown_to page time i n text p w st st' drawn number there its
        registered narrow set_key =
      let w' = set_player i (set_menu none) w in
      let (item, at, chosen) =
        display-IsChoosable m₀ (answers shown_to) fuel page time m st drawn (pressed_key n)
          set_key in
      (
        item,
        at,
        chosen,
        client_command-set_player i text n p m w number there its registered narrow
            ∙ (if_true _ _ _ set_key
                ∙ (ap (λ s. on_key run answers fuel i (pressed_key n) m s w') st'
                    ∙ ap (λ o. on_item run answers fuel i m o w') at)),
      )
