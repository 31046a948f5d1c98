-- ===== src/Utils/Copy.antt =====
-- Utils::strCopy, in the branch for compilers without strncpy_s.
use spmod.Common.{
  ℕ, suc, zero, ◌+◌, ◌-◌, ◌%◌, ◌^◌, ◌≤◌, ◌<◌, ◌≡◌, refl, ap, ◌∙◌, Bytes, [], ◌∷◌, ◌++◌, Option,
  none, some, arith, ltb, leb, ◌&&◌, if◌then◌else◌, length, take, drop, replicate, set,
  length-append, length-set, length-take, length-drop, lt→ltb,
}
use Prim.Native.Nat.{min}
use spmod.Utils.View.{View, c_string, c_str, c_string_all, c_string_zero, HasNoNul}

-- `strncpy`: at most `n` bytes of the C string, then zeros up to `n`.
abbrev strncpy : ℕ → Bytes → Bytes
strncpy n s = take n (s ++ replicate n 0)

-- `size - 1` wraps at 0.
abbrev written_chars : ℕ → Bytes → ℕ
written_chars size text =
    let last = (size + 2 ^ 64 - 1) % 2 ^ 64 in if ltb (length text) last then length text else last

-- The character count, and the buffer; `none` is a write out of the buffer.
unfoldable pub str_copy : Bytes → ℕ → View → Option (ℕ × Bytes)
str_copy buffer size src =
    let filled = strncpy size (c_str src) ++ drop size buffer in
    let written = written_chars size src.text in
    if leb size (length buffer) && ltb written (length buffer)
    then some (written, set filled written 0)
    else none

length-replicate : (n : ℕ) → length (replicate {A = ℕ} n 0) ≡ n
length-replicate zero = refl
length-replicate (suc n) = ap suc (length-replicate n)

length-strncpy : (n : ℕ) (s : Bytes) → length (strncpy n s) ≡ n
length-strncpy n s =
    omega (
      arith,
      length-take n (s ++ replicate n 0),
      length-append s (replicate n 0),
      length-replicate n,
    )

take-prefix :
    (n k : ℕ) (xs ys : Bytes) → k ≤ n → k ≤ length xs → take k (take n (xs ++ ys)) ≡ take k xs
take-prefix n zero xs ys h g = refl
take-prefix zero (suc k) xs ys h g = absurd (omega arith)
take-prefix (suc n) (suc k) [] ys h g = absurd (omega arith)
take-prefix (suc n) (suc k) (x ∷ xs) ys h g =
    ap (◌∷◌ x) (take-prefix n k xs ys (omega arith) (omega arith))

set_split :
    (xs ys : Bytes) (k v : ℕ)
    → k < length xs
    → set (xs ++ ys) k v ≡ take k xs ++ (v ∷ (drop (suc k) xs ++ ys))
set_split [] ys k v h = absurd (omega arith)
set_split (x ∷ xs) ys zero v h = refl
set_split (x ∷ xs) ys (suc k) v h = ap (◌∷◌ x) (set_split xs ys k v (omega arith))

drop-tail : (n : ℕ) (xs ys : Bytes) → length xs ≡ n → drop n (xs ++ ys) ≡ ys
drop-tail zero [] ys h = refl
drop-tail zero (x ∷ xs) ys h = absurd (omega arith)
drop-tail (suc n) [] ys h = absurd (omega arith)
drop-tail (suc n) (x ∷ xs) ys h = drop-tail n xs ys (omega arith)

HasNoNul-take : (n : ℕ) (s : Bytes) → HasNoNul s → HasNoNul (take n s)
HasNoNul-take zero s h = tt
HasNoNul-take (suc n) [] h = tt
HasNoNul-take (suc n) (b ∷ s) h = (h.0, HasNoNul-take n s h.1)

drop-set : (n : ℕ) (xs : Bytes) (k v : ℕ) → k < n → drop n (set xs k v) ≡ drop n xs
drop-set zero xs k v h = absurd (omega arith)
drop-set (suc n) [] k v h = refl
drop-set (suc n) (x ∷ xs) zero v h = refl
drop-set (suc n) (x ∷ xs) (suc k) v h = drop-set n xs k v (omega arith)

HasNoNul-left : (s t : Bytes) → HasNoNul (s ++ t) → HasNoNul s
HasNoNul-left [] t h = tt
HasNoNul-left (b ∷ s) t h = (h.0, HasNoNul-left s t h.1)

take-min : (k : ℕ) (s : Bytes) → take (min k (length s)) s ≡ take k s
take-min zero [] = refl
take-min zero (b ∷ s) = let e : min 0 (suc (length s)) ≡ 0 = omega arith in rw e refl
take-min (suc k) [] = let e : min (suc k) 0 ≡ 0 = omega arith in rw e refl
take-min (suc k) (b ∷ s) =
    let e : min (suc k) (suc (length s)) ≡ suc (min k (length s)) = omega arith in
    rw e (ap (◌∷◌ b) (take-min k s))

written_chars-min :
    (size : ℕ) (text : Bytes)
    → 0 < size
    → size < 2 ^ 64
    → written_chars size text ≡ min (size - 1) (length text)
written_chars-min size text h small =
    let e : (size + 2 ^ 64 - 1) % 2 ^ 64 ≡ size - 1 = omega arith in rw e (ground arith)

take-append_le : (k : ℕ) (xs ys : Bytes) → k ≤ length xs → take k (xs ++ ys) ≡ take k xs
take-append_le zero xs ys h = refl
take-append_le (suc k) [] ys h = absurd (omega arith)
take-append_le (suc k) (x ∷ xs) ys h = ap (◌∷◌ x) (take-append_le k xs ys (omega arith))

-- A terminated prefix, whatever lies behind it.
c_string-set :
    (k : ℕ) (xs ys : Bytes)
    → k < length xs
    → HasNoNul (take k xs)
    → c_string (set (xs ++ ys) k 0) ≡ take k xs
c_string-set k xs ys h clean = rw (set_split xs ys k 0 h) (c_string_zero (take k xs) _ clean)

-- A copy into a buffer of `size` bytes, at least one, of a view whose storage holds no other zero
-- byte, succeeds: it returns min (size - 1) (length of the view), the buffer then reads as that many
-- first bytes of the view, keeps its length, and is unchanged from byte `size` on.
pub str_copy-reads :
    (buffer : Bytes) (size : ℕ) (src : View)
    → 0 < size
    → size < 2 ^ 64
    → size ≤ length buffer
    → HasNoNul (src.text ++ src.after)
    → (buffer' : Bytes) × (str_copy buffer size src
        ≡ some (min (size - 1) (length src.text), buffer'))
      × (c_string buffer' ≡ take (size - 1) src.text)
      × (length buffer' ≡ length buffer)
      × (drop size buffer' ≡ drop size buffer)
unfolding str_copy c_str
str_copy-reads buffer size src pos' small fits clean = (
  set (copied ++ kept) m 0,
  rw (written_chars-min size src.text pos' small) (ground (arith, lt→ltb m (length buffer))),
  c_string-set m copied kept m_lt (rw reads (HasNoNul-take (size - 1) src.text clean_text)) ∙ reads,
  omega (
    arith,
    length-set (copied ++ kept) m 0,
    length-append copied kept,
    length-drop size buffer,
    long,
  ),
  drop-set size (copied ++ kept) m 0 (omega arith) ∙ drop-tail size copied kept long,
)
  where
    m : ℕ
    m = min (size - 1) (length src.text)

    copied : Bytes
    copied = strncpy size (c_string (src.text ++ src.after))

    kept : Bytes
    kept = drop size buffer

    long : length copied ≡ size
    long = length-strncpy size (c_string (src.text ++ src.after))

    m_lt : m < length copied
    m_lt = omega (arith, long)

    clean_text : HasNoNul src.text
    clean_text = HasNoNul-left src.text src.after clean

    reads : take m copied ≡ take (size - 1) src.text
    reads = rw (c_string_all (src.text ++ src.after) clean) (
        take-prefix size m (src.text ++ src.after) (replicate size 0) (omega arith)
          (omega (arith, length-append src.text src.after))
        ∙ take-append_le m src.text src.after (omega arith)
        ∙ take-min (size - 1) src.text)
