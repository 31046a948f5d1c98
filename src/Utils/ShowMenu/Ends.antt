-- ===== src/Utils/ShowMenu/Ends.antt =====
-- When the loop of Utils::ShowMenu ends, and what it has sent by then.
use spmod.Common.{
  take-append-drop, ℕ, suc, zero, ◌+◌, ◌-◌, ◌*◌, ◌^◌, ◌≤◌, ◌<◌, ◌≡◌, ◌≢◌, refl, ap, ◌∙◌, true,
  false, Bytes, List, [], ◌∷◌, ◌++◌, some, arith, ltb, if◌then◌else◌, length, take, drop,
  length-take, length-drop, ltb-false, lt→ltb, append_assoc, take_all, Bool-cases, inl, inr, ltb→lt,
  ==_false,
}
use spmod.Utils.View.{View, c_str, substr}
use spmod.Utils.ShowMenu.{
  MenuPacket, sent, out_of_fuel, after_packet, max_menu_length, piece_length, left_after, packet_of,
  menu_length_of, first_buffer, show_loop, show_menu, show_loop_more, show_loop_last,
  show_loop_stuck, substr_in, take_end,
}

drop_all : (n : ℕ) (xs : Bytes) → length xs ≤ n → drop n xs ≡ []
drop_all zero [] h = refl
drop_all zero (x ∷ xs) h = absurd (omega arith)
drop_all (suc n) [] h = refl
drop_all (suc n) (x ∷ xs) h = drop_all n xs (omega arith)

drop-drop : (m n : ℕ) (xs : Bytes) → drop n (drop m xs) ≡ drop (m + n) xs
drop-drop zero n xs = let e : 0 + n ≡ n = omega arith in rw e refl
drop-drop (suc m) n [] = let e : suc m + n ≡ suc (m + n) = omega arith in rw e (drop_nil n)
  where
    drop_nil : (k : ℕ) → drop {A = ℕ} k [] ≡ []
    drop_nil zero = refl
    drop_nil (suc k) = refl
drop-drop (suc m) n (x ∷ xs) =
    let e : suc m + n ≡ suc (m + n) = omega arith in rw e (drop-drop m n xs)

-- The buffer that holds the next piece of what is left of the text.
abbrev piece : Bytes → Bytes → View
piece rest after =
    if ltb 175 (length rest)
    then record { text = take 175 rest; after = drop 175 rest ++ after }
    else record { text = rest; after = after }

module _ (edict slots time : ℕ) where
  -- What is sent: a message for each 175 bytes, and each carries the whole rest of the text.
  abbrev pub pieces : ℕ → Bytes → Bytes → List MenuPacket
  pieces zero rest after = []
  pieces (suc n) rest after =
      let packet = packet_of edict slots time (record { text = rest; after = after }) in
      if ltb 175 (length rest)
      then packet true ∷ pieces n (drop 175 rest) after
      else packet false ∷ []

  module _ (menu : View) where
    substr-piece :
        (pos' : ℕ) (rest : Bytes)
        → drop pos' menu.text ≡ rest
        → pos' ≤ length menu.text
        → length rest < 2 ^ 64
        → substr menu pos' (piece_length (length rest)) ≡ some (piece rest menu.after)
    substr-piece pos' rest e h small =
        rw (substr_in edict slots time menu pos' _ h, e)
          (elim (Bool-cases (ltb 175 (length rest))) [
            | inl more ↦ rw more refl
            | inr last ↦
                rw
                  (
                    last,
                    take_all (2 ^ 64 - 1) rest (omega arith),
                    drop_all (2 ^ 64 - 1) rest (omega arith),
                  )
                  refl
          ])

    -- A round that is not the last.
    more_pieces :
        (fuel pos' : ℕ) (rest : Bytes)
        → drop pos' menu.text ≡ rest
        → pos' ≤ length menu.text
        → length rest < 2 ^ 64
        → 175 < length rest
        → show_loop edict slots time menu fuel
            (length (drop 175 rest))
            (pos' + 175)
            (piece (drop 175 rest) menu.after)
          ≡ sent (pieces fuel (drop 175 rest) menu.after)
        → show_loop edict slots time menu
            (suc fuel)
            (length rest)
            pos'
            (record { text = take 175 rest; after = drop 175 rest ++ menu.after })
          ≡ sent (
              packet_of edict slots time (record { text = rest; after = menu.after }) true
              ∷ pieces fuel (drop 175 rest) menu.after)
    unfolding c_str left_after
    more_pieces fuel pos' rest e h small long ih =
        let taken : length (take 175 rest) ≡ 175 = omega (arith, length-take 175 rest) in
        let left : length (drop 175 rest) ≡ length rest - 175 = length-drop 175 rest in
        let dropped : drop (pos' + length (take 175 rest)) menu.text ≡ drop 175 rest =
          rw (taken, ← drop-drop pos' 175 menu.text, e) refl in
        show_loop_more edict slots time menu fuel (length rest) pos' (length (drop 175 rest)) _ _
          (omega (arith, taken, left)) (omega (arith, left))
          (substr-piece (pos' + length (take 175 rest)) (drop 175 rest) dropped
            (omega (arith, taken, ap length e, length-drop pos' menu.text)) (omega (arith, left)))
        ∙ rw (taken, ih)
            (rw
              (← append_assoc (take 175 rest) (drop 175 rest) menu.after, take-append-drop 175 rest)
              refl)

    last_piece :
        (fuel pos' : ℕ) (rest : Bytes)
        → drop pos' menu.text ≡ rest
        → pos' ≤ length menu.text
        → length rest < 2 ^ 64
        → show_loop edict slots time menu
            (suc fuel)
            (length rest)
            pos'
            (record { text = rest; after = menu.after })
          ≡ sent
              (packet_of edict slots time (record { text = rest; after = menu.after }) false ∷ [])
    unfolding left_after
    last_piece fuel pos' rest e h small =
        let len = ap length e in
        show_loop_last edict slots time menu fuel (length rest) pos' _ _ (omega arith) (
          substr_in edict slots time menu (pos' + length rest) _
            (omega (arith, len, length-drop pos' menu.text)))

    show_loop-pieces :
        (fuel pos' : ℕ) (rest : Bytes)
        → drop pos' menu.text ≡ rest
        → pos' ≤ length menu.text
        → length rest < 2 ^ 64
        → length rest ≤ 175 * fuel
        → 0 < fuel
        → show_loop edict slots time menu fuel (length rest) pos' (piece rest menu.after)
          ≡ sent (pieces fuel rest menu.after)
    show_loop-pieces zero pos' rest e h small enough fuel_pos = absurd (omega arith)
    show_loop-pieces (suc fuel) pos' rest e h small enough fuel_pos =
        elim (Bool-cases (ltb 175 (length rest))) [
          | inl more ↦
              let long : 175 < length rest = ltb→lt 175 (length rest) more in
              rw more (
                more_pieces fuel pos' rest e h small long (
                  show_loop-pieces fuel (pos' + 175) (drop 175 rest)
                    (rw (← drop-drop pos' 175 menu.text, e) refl)
                    (omega (arith, ap length e, length-drop pos' menu.text))
                    (omega (arith, length-drop 175 rest)) (omega (arith, length-drop 175 rest))
                    (omega (arith, length-drop 175 rest))))
          | inr last ↦ rw last (last_piece fuel pos' rest e h small)
        ]

    -- One more round in front of rounds that never end.
    diverges_step :
        (menu_length pos' left : ℕ) (buffer : View)
        → left_after menu_length buffer ≡ left
        → 0 < left
        → pos' + length buffer.text ≤ length menu.text
        → ((fuel : ℕ)
            → show_loop edict slots time menu fuel left (pos' + length buffer.text) (record {
              text = take (piece_length left) (drop (pos' + length buffer.text) menu.text);
              after =
                  drop (piece_length left) (drop (pos' + length buffer.text) menu.text)
                  ++ menu.after;
            })
              ≡ out_of_fuel)
        → (fuel : ℕ) → show_loop edict slots time menu fuel menu_length pos' buffer ≡ out_of_fuel
    unfolding show_loop
    diverges_step menu_length pos' left buffer e h inside rest zero = refl
    diverges_step menu_length pos' left buffer e h inside rest (suc fuel) =
        show_loop_more edict slots time menu fuel menu_length pos' left buffer _ e h
          (substr_in edict slots time menu (pos' + length buffer.text) _ inside)
        ∙ ap (after_packet (packet_of edict slots time buffer true)) (rest fuel)

    diverges_from_third :
        (after : Bytes) (fuel : ℕ)
        → max_menu_length < length menu.text
        → length menu.text < 2 ^ 64
        → show_loop edict slots time menu fuel 162 350
            (record { text = take (2 ^ 64 - 1) (drop 350 menu.text); after = after })
          ≡ out_of_fuel
    unfolding left_after
    diverges_from_third after fuel long fits =
        let rest = drop 350 menu.text in
        let len : length (take (2 ^ 64 - 1) rest) ≡ length menu.text - 350 =
          omega (arith, length-take (2 ^ 64 - 1) rest, length-drop 350 menu.text) in
        let at_end : 350 + length (take (2 ^ 64 - 1) rest) ≡ length menu.text =
          omega (arith, len) in
        diverges_step 162 350 (2 ^ 64 + 512 - length menu.text)
          (record { text = take (2 ^ 64 - 1) rest; after = after }) (omega (arith, len))
          (omega arith) (omega (arith, len))
          (λ f. rw at_end (
            show_loop_stuck edict slots time menu f (2 ^ 64 + 512 - length menu.text) _
              (omega arith) (omega arith)
              (take_end (piece_length (2 ^ 64 + 512 - length menu.text)) menu.text)))
          fuel

    show_menu-loop :
        (gmsg_show_menu fuel n : ℕ) (buffer : View)
        → gmsg_show_menu ≢ 0
        → menu_length_of edict slots time menu ≡ n
        → first_buffer edict slots time menu ≡ buffer
        → show_menu edict slots time menu gmsg_show_menu fuel
          ≡ show_loop edict slots time menu fuel n 0 buffer
    unfolding show_menu
    show_menu-loop gmsg_show_menu fuel n buffer known e f =
        rw (==_false gmsg_show_menu 0 known, ← e, ← f) refl

    -- A text of at most 512 bytes: the loop ends within three rounds. Each round sends the whole rest
    -- of the text, starting 175 bytes further on, and every message but the last says that more follows.
    pub show_menu-pieces :
        (gmsg_show_menu : ℕ)
        → gmsg_show_menu ≢ 0
        → length menu.text ≤ max_menu_length
        → show_menu edict slots time menu gmsg_show_menu 3 ≡ sent (pieces 3 menu.text menu.after)
    show_menu-pieces gmsg_show_menu known fits =
        let short = ltb-false 512 (length menu.text) fits in
        show_menu-loop gmsg_show_menu 3 (length menu.text) (piece menu.text menu.after) known
          (rw short refl) (rw short refl)
        ∙ show_loop-pieces 3 0 menu.text refl (omega arith) (omega arith) (omega arith)
            (omega arith)

    -- A text of more than 512 bytes: however many rounds are run, the loop has not ended.
    pub show_menu_diverges :
        (gmsg_show_menu fuel : ℕ)
        → gmsg_show_menu ≢ 0
        → max_menu_length < length menu.text
        → length menu.text < 2 ^ 64
        → show_menu edict slots time menu gmsg_show_menu fuel ≡ out_of_fuel
    unfolding left_after
    show_menu_diverges gmsg_show_menu fuel known long fits =
        let taken : length (take 175 menu.text) ≡ 175 = omega (arith, length-take 175 menu.text) in
        let taken' : length (take 175 (drop 175 menu.text)) ≡ 175 =
          omega (arith, length-take 175 (drop 175 menu.text), length-drop 175 menu.text) in
        let long' = lt→ltb 512 (length menu.text) long in
        show_menu-loop gmsg_show_menu fuel 512
          (record { text = take 175 menu.text; after = drop 175 menu.text ++ menu.after }) known
          (rw long' refl) (rw long' refl)
        ∙ diverges_step 512 0 337 _ (omega (arith, taken)) (omega arith) (omega (arith, taken))
            (rw taken (
              diverges_step 337 175 162 _ (omega (arith, taken')) (omega arith)
                (omega (arith, taken')) (rw taken' (λ f. diverges_from_third _ f long fits))))
            fuel
