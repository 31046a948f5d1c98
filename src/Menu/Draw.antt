-- ===== src/Menu/Draw.antt =====
-- The pieces of Menu::display of src/MenuSystem.cpp: what is drawn into a slot.
use spmod.Common.{
  ℕ, suc, Bool, true, false, Bytes, codes, to_decimal, List, [], ◌∷◌, ◌++◌, Option, none, some, ◌+◌,
  ◌==◌, leb, ◌||◌, if◌then◌else◌, get_elem?, set, length,
}
use spmod.Utils.Replace.{str_replaced}
use spmod.Menu.{
  Menu, Item, Status, enabled, disabled, hide, Keys, Answers, exec_callback, pointer_of,
}

-- The local variables of `display` and the slots that it writes. `overrun` is set by a write that
-- is out of the bounds of the array of slots, after which nothing is known.
pub record Page : Type 0 where
  pub slot : ℕ
  pub i : ℕ
  pub keys : Keys
  pub text : Bytes
  pub slots : List (Option Item)
  pub overrun : Bool

abbrev pub set_bit : ℕ → Keys → Keys
set_bit s keys k = if k == s then true else keys k

abbrev pub new_line : Bytes
new_line = 10 ∷ []

-- The lambda `addItem`: the number, then " \w" or " \d" before the name.
unfoldable pub add_item : Menu → Status → ℕ → Bytes → Page → Page
add_item m enabled s n p = record p {
  text =
      p.text
      ++ (str_replaced m.number_format (codes "#num")
            (to_decimal (if (s + 1) == 10 then 0 else s + 1))
          ++ ((32 ∷ 92 ∷ 119 ∷ []) ++ (n ++ new_line)));
  keys = set_bit s p.keys;
}
add_item m disabled s n p = record p {
  text =
      p.text
      ++ (str_replaced m.number_format (codes "#num")
            (to_decimal (if (s + 1) == 10 then 0 else s + 1))
          ++ ((32 ∷ 92 ∷ 100 ∷ []) ++ (n ++ new_line)));
}
add_item m hide s n p = record p {
  text =
      p.text
      ++ (str_replaced m.number_format (codes "#num")
            (to_decimal (if (s + 1) == 10 then 0 else s + 1))
          ++ ((32 ∷ 92 ∷ 100 ∷ []) ++ (n ++ new_line)));
}

-- `m_slots[slot] = item`
abbrev pub write_slot : Item → Page → Page
write_slot item p = record p {
  slots = set p.slots p.slot (some item);
  overrun = p.overrun || leb (length p.slots) p.slot;
}

unfoldable pub place : Menu → Status → Item → Page → Page
unfolding add_item
place m r item p = write_slot item (add_item m r p.slot item.name p)

abbrev pub next_slot : Page → Page
next_slot p = record p { slot = suc p.slot }

abbrev pub skip_line : Page → Page
skip_line p = record p { text = p.text ++ new_line }

-- `m_staticItems[slot]`; its bounds are those of the pages, ten slots.
abbrev pub static_at : Menu → ℕ → Option Item
static_at m s = pointer_of (get_elem? m.static_items s)

-- A round of the first loop, for the static item of the slot, and for the item at `i`. A hidden
-- static item leaves all as it is.
unfoldable pub static_round : Menu → Status → Item → Page → Page
static_round m hide item p = p
static_round m enabled item p = next_slot (place m enabled item p)
static_round m disabled item p = next_slot (place m disabled item p)

unfoldable pub item_round : Menu → Status → Item → Page → Page
item_round m hide item p = record p { i = suc p.i }
item_round m enabled item p = next_slot (record (place m enabled item p) { i = suc p.i })
item_round m disabled item p = next_slot (record (place m disabled item p) { i = suc p.i })

unfoldable pub round : Menu → Answers → Option Item → Item → Page → Page
unfolding static_round item_round
round m answers none item p = item_round m (exec_callback answers item) item p
round m answers (some static) item p = static_round m (exec_callback answers static) static p

-- A round of the second loop, which goes up to the seventh slot.
unfoldable pub filled : Menu → Status → Item → Page → Page
filled m hide item p = p
filled m enabled item p = place m enabled item p
filled m disabled item p = place m disabled item p

unfoldable pub fill_round : Menu → Answers → Option Item → Page → Page
unfolding filled
fill_round m answers none p = next_slot (skip_line p)
fill_round m answers (some static) p = next_slot (filled m (exec_callback answers static) static p)

-- A navigation item, or an empty line in its place.
unfoldable pub navigate : Menu → Bool → Item → Page → Page
navigate m true item p = next_slot (place m enabled item p)
navigate m false item p = skip_line (next_slot p)
