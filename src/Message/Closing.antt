-- ===== src/Message/Closing.antt =====
-- Player::closeMenu, as MessageBegin_Pre of src/engine_api.cpp calls it: the exit handler of the menu
-- runs, and Utils::ShowMenu sends the player an empty menu.
use spmod.Common.{ℕ, zero, suc, pos, if◌then◌else◌, codes, List, [], ◌∷◌, ◌++◌, Option, none, some}
use spmod.Engine.{
  EngineCall, message_begin, write_byte, write_char, write_short, write_string, message_end,
}
use spmod.Menu.Select.{World, PlayerMenu, Handlers, player_at, close_menu}
use spmod.Message.Transaction.{Closed, Menus}
use spmod.Utils.ShowMenu.{MenuPacket, Outcome, sent, threw, out_of_fuel, show_menu}
use spmod.Utils.View.{whole}

-- The calls of the engine for one message ShowMenu.
abbrev packet_calls : ℕ → MenuPacket → List EngineCall
packet_calls type p =
    message_begin 1 type none (some p.edict)
    ∷ (write_short (pos p.slots)
        ∷ (write_char (pos p.time)
            ∷ (write_byte (pos (if p.more then 1 else 0))
                ∷ (write_string p.string ∷ (message_end ∷ [])))))

packets_calls : ℕ → List MenuPacket → List EngineCall
packets_calls type [] = []
packets_calls type (p ∷ ps) = packet_calls type p ++ packets_calls type ps

module _ {V : Type 0} (run : Handlers) (show_menu_id vgui_menu_id : ℕ) where
  with_packets : Outcome → V → Option World → Closed (World × V)
  unfolding packets_calls
  with_packets (sent ps) v (some w) = some (packets_calls show_menu_id ps, (w, v))
  with_packets (sent ps) v none = none
  with_packets threw v w = none
  with_packets out_of_fuel v w = none

  -- The text "\n" takes one message.
  close_open : ℕ → PlayerMenu → World × V → Closed (World × V)
  unfolding with_packets
  close_open i p (w, v) = elim p.menu [
    | none ↦ some ([], (w, v))
    | some address ↦
        with_packets (show_menu i 0 0 (whole (codes "\n")) show_menu_id 3) v (close_menu run i p w)
  ]

  close_pointer : ℕ → Option PlayerMenu → World × V → Closed (World × V)
  unfolding close_open
  close_pointer i none s = none
  close_pointer i (some p) s = close_open i p s

  -- `getPlayer` and the call; number 0 is that of no player.
  unfoldable pub close_player : ℕ → World × V → Closed (World × V)
  unfolding close_pointer
  close_player zero s = none
  close_player (suc k) (w, v) = close_pointer (suc k) (player_at (suc k) w) (w, v)

  -- The menus of the module, beside the world of the hooks of messages.
  abbrev pub menus_of : Menus (World × V)
  menus_of = record { show_menu = show_menu_id; vgui_menu = vgui_menu_id; close = close_player }
