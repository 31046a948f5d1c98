-- ===== src/Natives/Packed.antt =====
-- subprojects/sourcepawn/ExtMain.hpp: a cell of a plugin, and the item of a menu that is packed into
-- one cell with the number of its menu. Cells are 32-bit patterns, those below 0 from 2 ^ 31 on.
use Prim.Native.Nat.{max, bit_or, digits, bit_or-bitwise}
use native.Mathlib.Numerals.{unary_clauses}
use spmod.Common.{
  ℕ, zero, suc, ◌+◌, ◌-◌, ◌*◌, ◌/◌, ◌%◌, ◌^◌, ◌≤◌, ◌<◌, ◌≡◌, refl, ◌∙◌, Bool, arith, ltb,
  if◌then◌else◌,
}

abbrev pub is_negative : ℕ → Bool
is_negative cell = ltb (2 ^ 31 - 1) cell

-- The conversion of a cell to a `std::size_t`.
unfoldable pub to_size : ℕ → ℕ
to_size cell = if is_negative cell then cell + (2 ^ 64 - 2 ^ 32) else cell

-- `menuPackItem`, of two `std::size_t`, and the cast of its result to a cell.
unfoldable pub menu_pack_item : ℕ → ℕ → ℕ
menu_pack_item menu_id item_id = bit_or (menu_id * 2 ^ 16 % 2 ^ 64) item_id

abbrev pub packed_cell : ℕ → ℕ → ℕ
packed_cell menu_id item_id = menu_pack_item menu_id item_id % 2 ^ 32

-- `menuUnpackItem` of a cell that is not negative; `index & 0xFFFF` is the rest by 2 ^ 16.
unfoldable pub menu_unpack_item : ℕ → ℕ × ℕ
menu_unpack_item index = (index / 2 ^ 16 % 2 ^ 32, index % 2 ^ 16)

or_digits : ℕ → ℕ → ℕ → ℕ
or_digits n a b = digits (λ b. b) max n a b

or_digits-zero : (n a : ℕ) → a ≤ n → or_digits n a 0 ≡ a
unfolding or_digits
or_digits-zero zero zero h = refl
or_digits-zero zero (suc a) h = absurd (omega arith)
or_digits-zero (suc n) zero h = refl
or_digits-zero (suc n) (suc a) h = omega (arith, or_digits-zero n (suc a / 2) (omega arith))

or_digits-apart : (k n a b x : ℕ) → x ≡ a * 2 ^ k → x ≤ n → b < 2 ^ k → or_digits n x b ≡ x + b
unfolding or_digits
or_digits-apart zero n a zero x e h l = or_digits-zero n x h ∙ omega arith
or_digits-apart zero n a (suc b) x e h l = absurd (omega arith)
or_digits-apart (suc k) zero a b zero e h l = omega arith
or_digits-apart (suc k) zero a b (suc x) e h l = absurd (omega arith)
or_digits-apart (suc k) (suc n) a b zero e h l = omega arith
or_digits-apart (suc k) (suc n) a b (suc x) e h l =
    let even : suc x ≡ 2 * (a * 2 ^ k) = e ∙ simp unary_clauses (grind arith) in
    let half : suc x / 2 ≡ a * 2 ^ k = omega arith in
    omega (arith, even, or_digits-apart k n a (b / 2) (suc x / 2) half (omega arith) (omega arith))

menu_pack_item_sum :
    (menu_id item_id : ℕ)
    → menu_id < 2 ^ 48
    → item_id < 2 ^ 16
    → menu_pack_item menu_id item_id ≡ menu_id * 2 ^ 16 + item_id
unfolding menu_pack_item or_digits
menu_pack_item_sum menu_id item_id m i =
    let x = menu_id * 2 ^ 16 % 2 ^ 64 in
    let same : x ≡ menu_id * 2 ^ 16 = omega arith in
    bit_or-bitwise x item_id
    ∙ (or_digits-apart 16 x menu_id item_id x same (omega arith) i ∙ omega arith)

-- An item whose index is below 2 ^ 16, of a menu whose number is below 2 ^ 15, is packed into a cell
-- that is not negative, and unpacked from it as it was.
pub menu_unpack_item-menu_pack_item :
    (menu_id item_id : ℕ)
    → menu_id < 2 ^ 15
    → item_id < 2 ^ 16
    → (packed_cell menu_id item_id < 2 ^ 31)
      × (menu_unpack_item (packed_cell menu_id item_id) ≡ (menu_id, item_id))
unfolding menu_unpack_item
menu_unpack_item-menu_pack_item menu_id item_id m i =
    let sum = menu_pack_item_sum menu_id item_id (omega arith) i in
    let cell : packed_cell menu_id item_id ≡ menu_id * 2 ^ 16 + item_id = omega arith in
    let high : packed_cell menu_id item_id / 2 ^ 16 % 2 ^ 32 ≡ menu_id = omega arith in
    let low : packed_cell menu_id item_id % 2 ^ 16 ≡ item_id = omega arith in
    (omega arith, rw (high, low) refl)
