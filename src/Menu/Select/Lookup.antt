-- ===== src/Menu/Select/Lookup.antt =====
-- The menus behind the pointers, when one changes or is destroyed.
use spmod.Common.{
  ℕ, zero, suc, ◌≡◌, ◌≢◌, inl, inr, refl, sym, ◌∙◌, true, List, [], ◌∷◌, Option, none, some, map,
  ◌==◌, ==_iff, ==_false, if_true, if_false, Bool-cases, find_first, erase_first, length, All,
}
use spmod.Menu.{Menu, Style, item_style, text_style}
use spmod.Menu.Select.{
  World, HandlerCall, Handlers, PlayerMenu, menu_at, find_menu, replaced, update_menu, player_at,
  set_player, set_menu, close_open, close_all, has_open, destroy_menu,
}

pub find_menu-address : (a : ℕ) (m : Menu) (w : World) → find_menu a w ≡ some m → m.address ≡ a
find_menu-address a m w e = in_list w.menus e
  where
    in_list : (ms : List Menu) → find_first (menu_at a) ms ≡ some m → m.address ≡ a
    in_list [] h = absurd cc
    in_list (x ∷ ms) h = elim (Bool-cases (menu_at a x)) [
      | inl here ↦
          let same : some x ≡ some m = sym (if_true _ _ _ here) ∙ h in
          let own = (==_iff x.address a).0 here in cc
      | inr other ↦ in_list ms (sym (if_false _ _ _ other) ∙ h)
    ]

pub find_menu-update_menu :
    (a : ℕ) (m m' : Menu) (w : World)
    → find_menu a w ≡ some m
    → m'.address ≡ a
    → find_menu a (update_menu m' w) ≡ some m'
find_menu-update_menu a m m' w e is = in_list w.menus e
  where
    in_list :
        (ms : List Menu)
        → find_first (menu_at a) ms ≡ some m
        → find_first (menu_at a) (map (replaced m') ms) ≡ some m'
    in_list [] h = absurd cc
    in_list (x ∷ ms) h = elim (Bool-cases (x.address == a)) [
      | inl here ↦
          let changed : replaced m' x ≡ m' = rw is (if_true _ _ _ here) in
          let found : menu_at a m' ≡ true = (==_iff m'.address a).1 is in
          rw changed (if_true _ _ _ found)
      | inr other ↦
          let kept : replaced m' x ≡ x = rw is (if_false _ _ _ other) in
          rw kept (if_false _ _ _ other ∙ in_list ms (sym (if_false _ _ _ other) ∙ h))
    ]

-- No two menus are at the same address.
abbrev pub AreApart : List Menu → Type 0
AreApart [] = Unit
AreApart (m ∷ ms) = All (λ x. x.address ≢ m.address) ms × AreApart ms

find_first-none :
    (a : ℕ) (ms : List Menu) → All (λ x. x.address ≢ a) ms → find_first (menu_at a) ms ≡ none
find_first-none a [] h = refl
find_first-none a (x ∷ ms) (h, hs) =
    if_false _ _ _ (==_false x.address a h) ∙ find_first-none a ms hs

find_first-erase_first :
    (a : ℕ) (ms : List Menu)
    → AreApart ms
    → find_first (menu_at a) (erase_first (menu_at a) ms) ≡ none
find_first-erase_first a [] h = refl
find_first-erase_first a (x ∷ ms) (h, hs) = elim (Bool-cases (menu_at a x)) [
  | inl here ↦
      let own = (==_iff x.address a).0 here in rw here (find_first-none a ms (rw (← own) h))
  | inr other ↦ rw other (if_false _ _ _ other ∙ find_first-erase_first a ms hs)
]

module _ (run : Handlers) where
  -- Handlers that create and destroy no menu, and change none.
  abbrev pub AreQuiet : Type 0
  AreQuiet = (c : HandlerCall) (w : World) → (run c w).menus ≡ w.menus

  set_player-menus :
      (i : ℕ) (f : PlayerMenu → PlayerMenu) (w : World) → (set_player i f w).menus ≡ w.menus
  unfolding set_player
  set_player-menus i f w = by_player (player_at i w) refl
    where
      by_player : (o : Option PlayerMenu) → player_at i w ≡ o → (set_player i f w).menus ≡ w.menus
      by_player none e = rw (e, set_player) refl
      by_player (some p) e = rw (e, set_player) refl

  close_open-menus :
      (i a : ℕ) (o : Option Menu) (w : World) → AreQuiet → (close_open run i a o w).menus ≡ w.menus
  unfolding close_open
  close_open-menus i a none w q = set_player-menus i (set_menu none) w
  close_open-menus i a (some m) w q = by_style m.style refl
    where
      by_style : (st : Style) → m.style ≡ st → (close_open run i a (some m) w).menus ≡ w.menus
      by_style item_style e = rw e (set_player-menus i (set_menu none) _ ∙ q _ w)
      by_style text_style e = rw e (set_player-menus i (set_menu none) w)

  close_all-menus : (a n i : ℕ) (w : World) → AreQuiet → (close_all run a n i w).menus ≡ w.menus
  unfolding close_all
  close_all-menus a zero i w q = refl
  close_all-menus a (suc n) i w q =
      close_all-menus a n (suc i) _ q ∙ (elim (Bool-cases (has_open run a (player_at i w))) [
        | inl is ↦ rw is (close_open-menus i a (find_menu a w) w q)
        | inr no_one ↦ rw no_one refl
      ])

  -- Behind the call, no menu is at the address.
  pub find_menu-destroy_menu :
      (a : ℕ) (w : World) → AreQuiet → AreApart w.menus → find_menu a (destroy_menu run a w) ≡ none
  unfolding destroy_menu
  find_menu-destroy_menu a w q apart =
      rw (close_all-menus a (length w.players) 1 w q) (find_first-erase_first a w.menus apart)
