-- ===== src/Utils/ShowMenu.antt =====
-- Utils::ShowMenu: a menu text is sent in pieces.
pub mod Ends
use spmod.Common.{
  ℕ, suc, zero, ◌+◌, ◌-◌, ◌%◌, ◌^◌, ◌≤◌, ◌<◌, ◌≡◌, refl, ap, Bool, true, false, Bytes, List, [],
  ◌∷◌, ◌++◌, Option, none, some, arith, ltb, ◌==◌, if◌then◌else◌, length, take, drop, length-take,
  length-drop, Option-cases, inl, inr, ltb-false, lt→ltb,
}
use spmod.Utils.View.{View, c_str, substr}

-- One message ShowMenu, from MESSAGE_BEGIN to MESSAGE_END.
pub record MenuPacket : Type 0 where
  pub edict : ℕ
  pub slots : ℕ
  pub time : ℕ
  pub more : Bool
  pub string : Bytes

-- How a run of the loop ended: it sent these messages, `substr` threw, or the fuel ran out.
pub data Outcome : Type 0 where
  sent : List MenuPacket → Outcome
  threw : Outcome
  out_of_fuel : Outcome

abbrev after_packet : MenuPacket → Outcome → Outcome
after_packet p (sent ps) = sent (p ∷ ps)
after_packet p threw = threw
after_packet p out_of_fuel = out_of_fuel

abbrev pub max_string_to_send : ℕ
max_string_to_send = 175

abbrev pub max_menu_length : ℕ
max_menu_length = 512

-- `std::string_view::npos`
abbrev npos : ℕ
npos = 2 ^ 64 - 1

-- `menu_length -= buffer.length()` on std::size_t.
left_after : ℕ → View → ℕ
left_after menu_length buffer = (menu_length + 2 ^ 64 - length buffer.text) % 2 ^ 64

abbrev pub piece_length : ℕ → ℕ
piece_length left = if ltb max_string_to_send left then max_string_to_send else npos

take_end : (n : ℕ) (s : Bytes) → take n (drop (length s) s) ≡ []
take_end zero [] = refl
take_end (suc n) [] = refl
take_end n (b ∷ s) = take_end n s

module _ (edict slots time : ℕ) where
  abbrev pub packet_of : View → Bool → MenuPacket
  packet_of buffer more = record {
    edict = edict;
    slots = slots;
    time = time;
    more = more;
    string = c_str buffer;
  }

  -- The end of a round, after `substr`: the loop goes on while bytes are left.
  next_round : ℕ → View → Option View → (View → Outcome) → Outcome
  next_round left buffer none again = threw
  next_round zero buffer (some buffer') again = sent (packet_of buffer false ∷ [])
  next_round (suc left) buffer (some buffer') again =
      after_packet (packet_of buffer true) (again buffer')

  module _ (menu : View) where
    -- The `do` loop, with fuel.
    show_loop : ℕ → ℕ → ℕ → View → Outcome
    unfolding next_round left_after
    show_loop zero menu_length current_pos buffer = out_of_fuel
    show_loop (suc fuel) menu_length current_pos buffer =
        let left = left_after menu_length buffer in
        let current_pos' = current_pos + length buffer.text in
        next_round left buffer (substr menu current_pos' (piece_length left))
          (λ buffer'. show_loop fuel left current_pos' buffer')

    abbrev pub menu_length_of : ℕ
    menu_length_of =
        if ltb max_menu_length (length menu.text) then max_menu_length else length menu.text

    abbrev pub first_buffer : View
    first_buffer =
        if ltb max_string_to_send menu_length_of
        then record {
          text = take max_string_to_send menu.text;
          after = drop max_string_to_send menu.text ++ menu.after;
        }
        else menu

    -- The whole call; a game without the message (`gmsgShowMenu` is 0) is sent nothing.
    unfoldable pub show_menu : ℕ → ℕ → Outcome
    unfolding show_loop
    show_menu gmsg_show_menu fuel =
        if gmsg_show_menu == 0 then sent [] else show_loop fuel menu_length_of 0 first_buffer

    substr_in :
        (pos' n : ℕ)
        → pos' ≤ length menu.text
        → substr menu pos' n
          ≡ some (record {
            text = take n (drop pos' menu.text);
            after = drop n (drop pos' menu.text) ++ menu.after;
          })
    unfolding substr
    substr_in pos' n h = ground arith

    show_loop_more :
        (fuel menu_length current_pos left : ℕ) (buffer buffer' : View)
        → left_after menu_length buffer ≡ left
        → 0 < left
        → substr menu (current_pos + length buffer.text) (piece_length left) ≡ some buffer'
        → show_loop (suc fuel) menu_length current_pos buffer
          ≡ after_packet
              (packet_of buffer true)
              (show_loop fuel left (current_pos + length buffer.text) buffer')
    unfolding show_loop
    show_loop_more fuel menu_length current_pos zero buffer buffer' e h s = absurd (omega arith)
    show_loop_more fuel menu_length current_pos (suc left) buffer buffer' e h s = rw (e, s) refl

    show_loop_last :
        (fuel menu_length current_pos : ℕ) (buffer buffer' : View)
        → left_after menu_length buffer ≡ 0
        → substr menu (current_pos + length buffer.text) (piece_length 0) ≡ some buffer'
        → show_loop (suc fuel) menu_length current_pos buffer ≡ sent (packet_of buffer false ∷ [])
    unfolding show_loop
    show_loop_last fuel menu_length current_pos buffer buffer' e s = rw (e, s) refl

    -- With an empty buffer at the end of the text and a count that is not 0, the loop never ends.
    show_loop_stuck :
        (fuel menu_length : ℕ) (buffer : View)
        → 0 < menu_length
        → menu_length < 2 ^ 64
        → buffer.text ≡ []
        → show_loop fuel menu_length (length menu.text) buffer ≡ out_of_fuel
    unfolding show_loop
    show_loop_stuck zero menu_length buffer h g e = refl
    show_loop_stuck (suc fuel) menu_length buffer h g e =
        let same : left_after menu_length buffer ≡ menu_length =
          unfold left_after in omega (arith, ap length e) in
        let stays : length menu.text + length buffer.text ≡ length menu.text =
          omega (arith, ap length e) in
        rw
          (
            show_loop_more fuel menu_length (length menu.text) menu_length buffer _ same h
                (substr_in _ _ (omega (arith, stays))),
            stays,
          )
          (ap (after_packet (packet_of buffer true)) (
            show_loop_stuck fuel menu_length _ h g (take_end (piece_length menu_length) menu.text)))
