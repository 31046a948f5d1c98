-- ===== src/Menu/Changes.antt =====
-- Menu::getItem of src/MenuSystem.cpp behind changes of the items.
use spmod.Common.{
  ℕ, ◌+◌, ◌-◌, ◌≡◌, inl, inr, refl, ap, sym, ◌∙◌, Bytes, false, ◌&&◌, ltb, leb, List, [], ◌∷◌, ◌++◌,
  Option, none, some, map, ==_self, if_true, if_false, get_elem?, length, Bool-cases, length-map,
  get_elem?-map, get_elem?-append_length, arith, length-append,
}
use spmod.Menu.{
  Menu, Item, no_navigation, get_item, pointer_of, max_static_items, changed_at, changed_pointer,
  change_item, append_item,
}

changed_at_self : (f : Item → Item) (item : Item) → changed_at item.address f item ≡ f item
changed_at_self f item = if_true _ _ _ (==_self item.address)

pointer_of-map :
    (a : ℕ) (f : Item → Item) (o : List (Option Item)) (i : ℕ) (item : Item)
    → pointer_of (get_elem? o i) ≡ some item
    → pointer_of (get_elem? (map (changed_pointer a f) o) i) ≡ some (changed_at a f item)
pointer_of-map a f o i item e = by_place (get_elem? o i) refl e
  where
    by_place :
        (p : Option (Option Item))
        → get_elem? o i ≡ p
        → pointer_of p ≡ some item
        → pointer_of (get_elem? (map (changed_pointer a f) o) i) ≡ some (changed_at a f item)
    by_place none h x = absurd cc
    by_place (some none) h x = absurd cc
    by_place (some (some other)) h x =
        rw (get_elem?-map (changed_pointer a f) o i (some other) h) (ap (changed_pointer a f) x)

-- Every item that can be got changes if it has the address, and stays otherwise.
get_item-changed_at :
    (a : ℕ) (f : Item → Item) (i : ℕ) (item : Item) (m : Menu)
    → get_item i m ≡ some item
    → get_item i (change_item a f m) ≡ some (changed_at a f item)
unfolding get_item change_item
get_item-changed_at a f i item m e =
    rw (length-map (changed_at a f) m.items)
      (elim (Bool-cases (leb (length m.items) i && ltb i (length m.items + max_static_items))) [
        | inl static ↦
            if_true _ _ _ static
            ∙ pointer_of-map a f m.static_items (i - length m.items) item
                (sym (if_true _ _ _ static) ∙ e)
        | inr own ↦
            if_false _ _ _ own
            ∙ get_elem?-map (changed_at a f) m.items i item (sym (if_false _ _ _ own) ∙ e)
      ])

-- The item of an index, once it has been changed.
pub get_item-change_item :
    (f : Item → Item) (i : ℕ) (item : Item) (m : Menu)
    → get_item i m ≡ some item
    → get_item i (change_item item.address f m) ≡ some (f item)
get_item-change_item f i item m e =
    get_item-changed_at item.address f i item m e ∙ ap some (changed_at_self f item)

-- The new item has the index that was the number of items.
pub get_item-append_item :
    (address : ℕ) (name : Bytes) (callback content : Option ℕ) (m : Menu)
    → let (pointer, m') = append_item address name callback content m in
      get_item (length m.items) m' ≡ pointer
unfolding get_item
get_item-append_item address name callback content m =
    let item : Item = record {
      address = address;
      name = name;
      callback = callback;
      content = content;
      nav_type = no_navigation;
    } in
    let more : length (m.items ++ (item ∷ [])) ≡ length m.items + 1 =
      length-append m.items (item ∷ []) in
    let below : (leb (length m.items + 1) (length m.items)
          && ltb (length m.items) (length m.items + 1 + max_static_items))
        ≡ false =
      ground arith in
    rw more (if_false _ _ _ below ∙ get_elem?-append_length m.items item [])
