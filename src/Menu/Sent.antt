-- ===== src/Menu/Sent.antt =====
-- The whole of Menu::display of src/MenuSystem.cpp: the page is drawn, and Utils::ShowMenu sends it.
use spmod.Common.{
  ℕ, zero, suc, ◌+◌, ◌^◌, ◌≤◌, ◌<◌, ◌≡◌, ◌≢◌, refl, ap, sym, ◌∙◌, inl, inr, Bool-cases, Bytes, List,
  [], length, arith, ◌==◌, ==_false, ==_iff, if_true, if◌then◌else◌,
}
use spmod.Menu.{Menu, Keys, Answers}
use spmod.Menu.Display.{Shown, shown, undefined, out_of_fuel, display}
use spmod.Menu.Ends.{NoHiddenStatic, display_ends}
use spmod.Utils.ShowMenu as ShowMenu
use spmod.Utils.ShowMenu.{MenuPacket, Outcome, show_menu, max_menu_length}
use spmod.Utils.ShowMenu.Ends.{show_menu-pieces}
use spmod.Utils.View.{whole}

-- `m_keys` as a number, from its lowest `n` bits.
unfoldable key_bits : ℕ → Keys → ℕ
key_bits zero keys = 0
key_bits (suc n) keys = if keys n then key_bits n keys + 2 ^ n else key_bits n keys

-- How the call ended: with the menu and the messages that show it, by a fault or an exception, or, for
-- all that its two loops were run, not at all.
pub data Displayed : Type 0 where
  displayed : Menu → List MenuPacket → Displayed
  faulty : Displayed
  endless : Displayed

sent_as : Menu → Outcome → Displayed
sent_as m (ShowMenu.sent packets) = displayed m packets
sent_as m ShowMenu.threw = faulty
sent_as m ShowMenu.out_of_fuel = endless

sent_to : (edict gmsg_show_menu rounds time : ℕ) → Shown → Displayed
unfolding sent_as key_bits
sent_to edict gmsg_show_menu rounds time (shown m) =
    sent_as m (show_menu edict (key_bits 32 m.keys) time (whole m.text) gmsg_show_menu rounds)
sent_to edict gmsg_show_menu rounds time undefined = faulty
sent_to edict gmsg_show_menu rounds time out_of_fuel = endless

-- `rounds` is the fuel of the loop of ShowMenu.
unfoldable pub display_menu :
    (edict gmsg_show_menu rounds : ℕ) → Menu → Answers → (fuel page time : ℕ) → Displayed
unfolding sent_to
display_menu edict gmsg_show_menu rounds m answers fuel page time =
    sent_to edict gmsg_show_menu rounds time (display m answers fuel page time)

abbrev pub text_of : Shown → Bytes
text_of (shown m) = m.text
text_of undefined = []
text_of out_of_fuel = []

module _ (edict gmsg_show_menu : ℕ) where
  sent_ends :
      (m : Menu) (time : ℕ)
      → length m.text ≤ max_menu_length
      → sent_to edict gmsg_show_menu 3 time (shown m) ≢ endless
  unfolding sent_to show_menu
  sent_ends m time fits e = elim (Bool-cases (gmsg_show_menu == 0)) [
    | inl unsupported ↦
        let quiet : displayed m [] ≡ endless =
          sym (ap (sent_as m) (if_true _ _ _ unsupported)) ∙ e in
        absurd cc
    | inr supported ↦
        let known : gmsg_show_menu ≢ 0 =
          λ z. absurd (both ((==_iff gmsg_show_menu 0).1 z) supported) in
        let sent =
          show_menu-pieces edict (key_bits 32 m.keys) time (whole m.text) gmsg_show_menu known
            fits in
        let some_packets = sym (ap (sent_as m) sent) ∙ e in absurd cc
  ]
    where
      both : {b : spmod.Common.Bool} → b ≡ spmod.Common.true → b ≡ spmod.Common.false → ⊥
      both x y = cc

  -- The display of a menu for whose player no static item is hidden ends, with more fuel than the menu
  -- has items and slots on a page and with three rounds of ShowMenu, if the text that it draws is not
  -- longer than 512 bytes, whatever the page and the other items answer.
  pub display_menu_ends :
      (m : Menu) (answers : Answers) (fuel page time : ℕ)
      → NoHiddenStatic m answers
      → length m.items + m.items_per_page < fuel
      → length (text_of (display m answers fuel page time)) ≤ max_menu_length
      → display_menu edict gmsg_show_menu 3 m answers fuel page time ≢ endless
  unfolding display_menu
  display_menu_ends m answers fuel page time never enough =
      by_shown (display m answers fuel page time)
        (display_ends m answers fuel page time never enough)
    where
      by_shown :
          (s : Shown)
          → s ≢ out_of_fuel
          → length (text_of s) ≤ max_menu_length
          → sent_to edict gmsg_show_menu 3 time s ≢ endless
      by_shown (shown m') ends fits = sent_ends m' time fits
      by_shown undefined ends fits = λ e. cc
      by_shown out_of_fuel ends fits = absurd (ends refl)
