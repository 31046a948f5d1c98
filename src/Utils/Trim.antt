-- ===== src/Utils/Trim.antt =====
-- Utils::trimMultiByteChar: cuts an incomplete UTF-8 character off the end of a string.
use spmod.Common.{
  take-append_length, ℕ, suc, zero, ◌+◌, ◌-◌, ◌/◌, ◌%◌, ◌≤◌, ◌<◌, ◌≡◌, ◌≢◌, refl, ap, ◌∙◌, Bool,
  true, false, Bytes, [], ◌∷◌, ◌++◌, Option, none, some, arith, ltb, ◌==◌, if◌then◌else◌, length,
  take, get_elem?, All, length-append, ltb→lt, get_elem?-append_length, Bool-cases, inl, inr, ◌||◌,
}

-- `b & 0x80`, `(b & 0xC0) == 0x80` and `(b & 0xF0) >> 4` of a byte.
abbrev has_high_bit : ℕ → Bool
has_high_bit b = b / 128 % 2 == 1

abbrev is_continuation : ℕ → Bool
is_continuation b = b / 64 % 4 == 2

abbrev high_nibble : ℕ → ℕ
high_nibble b = b / 16 % 16

-- The loop that steps back over continuation bytes; `none` is a read outside the string.
find_lead : Bytes → ℕ → Option ℕ
find_lead str zero = elim (get_elem? str 0) [
  | none ↦ none
  | some b ↦ if is_continuation b then none else some 0
]
find_lead str (suc p) = elim (get_elem? str (suc p)) [
  | none ↦ none
  | some b ↦ elim (is_continuation b) [ true ↦ find_lead str p | false ↦ some (suc p) ]
]

-- The `switch`: how many bytes the character that starts with this nibble takes; 0 for no case.
pub char_length : ℕ → ℕ
char_length nibble =
    if nibble == 12 || nibble == 13
    then 2
    else if nibble == 14
    then 3
    else if nibble == 15
    then 4
    else 0

abbrev cut_at : Bytes → ℕ → Option ℕ → Bytes
cut_at str p none = str
cut_at str p (some b) =
    if ltb (length str - p) (char_length (high_nibble b)) then take p str else str

abbrev is_set : ℕ → Bool
is_set masked = ltb 0 masked

-- One byte with its high bit set: `str[0] & 0xF0 || str[0] & 0xE0`.
trim_single : Bytes → ℕ → Bytes
trim_single str b = if is_set (high_nibble b) || is_set (b / 32 % 8) then [] else str

-- A last byte with its high bit set.
trim_last : Bytes → Option Bytes
trim_last str =
    if ltb (length str) 2
    then elim (get_elem? str 0) [ none ↦ none | some b ↦ some (trim_single str b) ]
    else elim (find_lead str (length str - 1)) [
      | none ↦ none
      | some p ↦ some (cut_at str p (get_elem? str p))
    ]

-- `none` is undefined behaviour, a read outside the string; the last byte of an empty one is such.
unfoldable pub trim_multi_byte_char : Bytes → Option Bytes
unfolding trim_last trim_single find_lead char_length
trim_multi_byte_char str = elim (get_elem? str (length str - 1)) [
  | none ↦ none
  | some last ↦ if has_high_bit last then trim_last str else some str
]

abbrev pub IsContinuation : ℕ → Type 0
IsContinuation b = is_continuation b ≡ true

-- The number of bytes of the character that a lead byte starts.
abbrev pub needs : ℕ → ℕ
needs lead = char_length (high_nibble lead)

get_elem?-append_right :
    (xs ys : Bytes) (i : ℕ) → get_elem? (xs ++ ys) (length xs + i) ≡ get_elem? ys i
get_elem?-append_right [] ys i = let e : 0 + i ≡ i = omega arith in rw e refl
get_elem?-append_right (x ∷ xs) ys i =
    let e : suc (length xs) + i ≡ suc (length xs + i) = omega arith in
    rw e (get_elem?-append_right xs ys i)

get_elem?-All :
    (cs : Bytes) (i : ℕ)
    → All IsContinuation cs
    → i < length cs
    → (c : ℕ) × (get_elem? cs i ≡ some c) × IsContinuation c
get_elem?-All [] i h lt = absurd (omega arith)
get_elem?-All (c ∷ cs) zero h lt = (c, refl, h.0)
get_elem?-All (c ∷ cs) (suc i) h lt = get_elem?-All cs i h.1 (omega arith)

find_lead_stop :
    (str : Bytes) (p b : ℕ)
    → get_elem? str p ≡ some b
    → is_continuation b ≡ false
    → find_lead str p ≡ some p
unfolding find_lead
find_lead_stop str zero b e h = ground arith
find_lead_stop str (suc p) b e h = ground arith

find_lead_back :
    (str : Bytes) (p b : ℕ)
    → get_elem? str (suc p) ≡ some b
    → is_continuation b ≡ true
    → find_lead str (suc p) ≡ find_lead str p
unfolding find_lead
find_lead_back str p b e h = ground arith

length-eq_zero : (xs : Bytes) → length xs ≡ 0 → xs ≡ []
length-eq_zero [] h = refl
length-eq_zero (x ∷ xs) h = absurd (omega arith)

-- A lead byte that starts a character of two bytes or more.
lead_bits :
    (lead : ℕ)
    → needs lead ≢ 0
    → (is_continuation lead ≡ false)
      × (has_high_bit lead ≡ true)
      × (1 < needs lead)
      × (0 < high_nibble lead)
unfolding char_length
lead_bits lead h = ground arith

module _ (xs : Bytes) (lead : ℕ) (conts : Bytes) (starts : needs lead ≢ 0)
    (are_conts : All IsContinuation conts) where
  at_lead : get_elem? (xs ++ lead ∷ conts) (length xs) ≡ some lead
  at_lead = get_elem?-append_length xs lead conts

  at_cont :
      (j : ℕ)
      → j < length conts
      → (c : ℕ) × (get_elem? (xs ++ lead ∷ conts) (suc (length xs + j)) ≡ some c) × IsContinuation c
  at_cont j h =
      let (c, e, k) = get_elem?-All conts j are_conts h in
      let shift : suc (length xs + j) ≡ length xs + suc j = omega arith in
      (c, rw (shift, get_elem?-append_right xs (lead ∷ conts) (suc j)) e, k)

  find_lead_at :
      (j : ℕ) → j ≤ length conts → find_lead (xs ++ lead ∷ conts) (length xs + j) ≡ some (length xs)
  find_lead_at zero h =
      let e : length xs + 0 ≡ length xs = omega arith in
      rw e (find_lead_stop _ _ lead at_lead (lead_bits lead starts).0)
  find_lead_at (suc j) h =
      let e : length xs + suc j ≡ suc (length xs + j) = omega arith in
      let (c, at_c, cont) = at_cont j (omega arith) in
      rw e (find_lead_back _ _ c at_c cont ∙ find_lead_at j (omega arith))

  long : length (xs ++ lead ∷ conts) ≡ length xs + suc (length conts)
  long = length-append xs (lead ∷ conts)

  at_last :
      (j : ℕ)
      → length conts ≡ j
      → (b : ℕ) × (get_elem? (xs ++ lead ∷ conts) (length (xs ++ lead ∷ conts) - 1) ≡ some b)
        × (has_high_bit b ≡ true)
  at_last zero e =
      let i : length (xs ++ lead ∷ conts) - 1 ≡ length xs = omega (arith, long) in
      (lead, rw i at_lead, (lead_bits lead starts).1)
  at_last (suc j) e =
      let (c, at_c, cont) = at_cont j (omega arith) in
      let i : length (xs ++ lead ∷ conts) - 1 ≡ suc (length xs + j) = omega (arith, long) in
      (c, rw i at_c, ground (arith, cont))

  trim_single_lem : trim_single (xs ++ lead ∷ conts) lead ≡ []
  unfolding trim_single
  trim_single_lem = ground (arith, lead_bits lead starts)

  trim_last_lem :
      trim_last (xs ++ lead ∷ conts)
      ≡ some (if ltb (suc (length conts)) (needs lead) then xs else xs ++ lead ∷ conts)
  unfolding trim_last
  trim_last_lem = elim (Bool-cases (ltb (length (xs ++ lead ∷ conts)) 2)) [
    | inl short ↦
        let z : length xs ≡ 0 = omega (arith, long, ltb→lt _ _ short) in
        let first : get_elem? (xs ++ lead ∷ conts) 0 ≡ some lead = rw z at at_lead in
        rw (short, first)
          (ground (
            arith,
            trim_single_lem,
            long,
            ltb→lt _ _ short,
            length-eq_zero xs z,
            lead_bits lead starts,
          ))
    | inr large ↦
        let i : length (xs ++ lead ∷ conts) - 1 ≡ length xs + length conts = omega (arith, long) in
        rw (large, i, find_lead_at (length conts) (omega arith))
          (ap some (rw at_lead (ground (arith, long, take-append_length xs (lead ∷ conts)))))
  ]

  -- A string that ends in a lead byte of a character of several bytes and any continuation bytes:
  -- they are all cut off if the character is incomplete, and else the string is unchanged.
  pub trim_multi_byte_char_lem :
      trim_multi_byte_char (xs ++ lead ∷ conts)
      ≡ some (if ltb (suc (length conts)) (needs lead) then xs else xs ++ lead ∷ conts)
  unfolding trim_multi_byte_char
  trim_multi_byte_char_lem =
      let (b, e, high) = at_last (length conts) refl in ground (arith, e, high, trim_last_lem)
