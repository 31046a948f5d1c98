-- ===== src/Natives/Menus/Refused.antt =====
-- What the natives of the menus refuse.
use spmod.Common.{
  ℕ, ◌≡◌, ◌≢◌, ◌⊎◌, inl, inr, refl, ◌∙◌, true, false, Bool-cases, Option, none, some, if_true,
  if_false,
}
use spmod.Handles.{get}
use spmod.Menu.{Menu, Style, item_style, text_style, Answers}
use spmod.Menu.Select.{Handlers, find_menu}
use spmod.Natives.Packed.{is_negative}
use spmod.Natives.Menus.{
  State, Result, reported, at_menu, at_pointer, with_menu, for_style, styled_menu, menu_set_title,
  menu_add_item, menu_add_static_item, menu_insert_item, menu_remove_item, menu_remove_all_items,
  menu_set_prop, menu_display, menu_destroy, menu_items_get, menu_items_per_page_set,
  menu_items_per_page_get, menu_set_text, menu_set_keys,
}
use spmod.Natives.Menus.Call.{
  Operation, set_title, set_text, add_item, add_static_item, insert_item, remove_item,
  remove_all_items, set_prop, display, destroy, items_get, items_per_page_set, items_per_page_get,
  set_keys, style_of, operate,
}

-- A number below 0, or of no menu.
abbrev pub IsUnknown : ℕ → State → Type 0
IsUnknown id s = (is_negative id ≡ true) ⊎ (get id s.handlers ≡ none)

-- The number of a menu of another style.
abbrev pub IsOther : Style → ℕ → State → Type 0
IsOther style id s =
    (is_negative id ≡ false)
    × (a : ℕ) × (get id s.handlers ≡ some a)
    × (m : Menu) × (find_menu a s.world ≡ some m)
    × (m.style ≢ style)

abbrev pub IsOtherThan : Option Style → ℕ → State → Type 0
IsOtherThan none id s = ⊥
IsOtherThan (some style) id s = IsOther style id s

abbrev pub IsRefused : Operation → ℕ → State → Type 0
IsRefused o id s = IsUnknown id s ⊎ IsOtherThan (style_of o) id s

with_menu-unknown :
    (id : ℕ) (f : Menu → Result) (s : State) → IsUnknown id s → with_menu id f s ≡ reported s
unfolding with_menu at_pointer
with_menu-unknown id f s (inl below) = if_true _ _ _ below
with_menu-unknown id f s (inr none_there) = elim (Bool-cases (is_negative id)) [
  | inl below ↦ if_true _ _ _ below
  | inr ok ↦ if_false _ _ _ ok ∙ rw none_there refl
]

pub with_menu-found :
    (id a : ℕ) (m : Menu) (f : Menu → Result) (s : State)
    → is_negative id ≡ false
    → get id s.handlers ≡ some a
    → find_menu a s.world ≡ some m
    → with_menu id f s ≡ f m
unfolding with_menu at_pointer at_menu
with_menu-found id a m f s ok its there = if_false _ _ _ ok ∙ rw (its, there) refl

for_style-other :
    (style other : Style) (r : Result) (s : State)
    → other ≢ style
    → for_style style other r s ≡ reported s
unfolding for_style
for_style-other item_style item_style r s h = absurd (h refl)
for_style-other item_style text_style r s h = refl
for_style-other text_style item_style r s h = refl
for_style-other text_style text_style r s h = absurd (h refl)

pub for_style_self : (style : Style) (r : Result) (s : State) → for_style style style r s ≡ r
unfolding for_style
for_style_self item_style r s = refl
for_style_self text_style r s = refl

styled_menu-refused :
    (style : Style) (id : ℕ) (f : Menu → Result) (s : State)
    → IsUnknown id s ⊎ IsOther style id s
    → styled_menu style id f s ≡ reported s
unfolding styled_menu
styled_menu-refused style id f s (inl unknown) = with_menu-unknown id _ s unknown
styled_menu-refused style id f s (inr (ok, a, its, m, there, other)) =
    with_menu-found id a m _ s ok its there ∙ for_style-other style m.style (f m) s other

-- A native that is called with a number below 0, with the number of no menu, or with the number of a
-- menu of a style that it does not serve, reports it and changes nothing, whatever its other
-- arguments are.
pub operate-refused :
    (run : Handlers) (answers : ℕ → Answers) (fuel id : ℕ) (o : Operation) (s : State)
    → IsRefused o id s
    → operate run answers fuel id o s ≡ reported s
unfolding operate style_of menu_set_title menu_add_item menu_add_static_item menu_insert_item
    menu_remove_item menu_remove_all_items menu_set_prop menu_display menu_destroy menu_items_get
    menu_items_per_page_set menu_items_per_page_get menu_set_text menu_set_keys
operate-refused run answers fuel id (set_title _) s h = styled_menu-refused item_style id _ s h
operate-refused run answers fuel id (set_text _) s h = styled_menu-refused text_style id _ s h
operate-refused run answers fuel id (add_item _ _ _ _) s h = styled_menu-refused item_style id _ s h
operate-refused run answers fuel id (add_static_item _ _ _ _ _) s h =
    styled_menu-refused item_style id _ s h
operate-refused run answers fuel id (insert_item _ _ _ _ _) s h =
    styled_menu-refused item_style id _ s h
operate-refused run answers fuel id (remove_item _) s h = styled_menu-refused item_style id _ s h
operate-refused run answers fuel id remove_all_items s h = styled_menu-refused item_style id _ s h
operate-refused run answers fuel id (set_prop _ _) s h = styled_menu-refused item_style id _ s h
operate-refused run answers fuel id (display _ _ _) s (inl unknown) =
    with_menu-unknown id _ s unknown
operate-refused run answers fuel id (display _ _ _) s (inr never) = absurd never
operate-refused run answers fuel id destroy s h = styled_menu-refused item_style id _ s h
operate-refused run answers fuel id items_get s h = styled_menu-refused item_style id _ s h
operate-refused run answers fuel id (items_per_page_set _) s h =
    styled_menu-refused item_style id _ s h
operate-refused run answers fuel id items_per_page_get s h = styled_menu-refused item_style id _ s h
operate-refused run answers fuel id (set_keys _) s h = styled_menu-refused text_style id _ s h
