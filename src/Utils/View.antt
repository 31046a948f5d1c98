-- ===== src/Utils/View.antt =====
-- `std::string_view` and C strings, as far as `data()` and `substr` of a view are used.
use spmod.Common.{
  ℕ, ◌≡◌, ◌≢◌, refl, Bytes, [], ◌∷◌, ◌++◌, Option, none, some, arith, ◌==◌, leb, if◌then◌else◌,
  length, take, drop, All,
}

-- The bytes in view, and those that follow them in the storage before its terminating zero.
pub record View : Type 0 where
  pub text : Bytes
  pub after : Bytes

abbrev pub whole : Bytes → View
whole s = record { text = s; after = [] }

-- What a reader of a `const char *` sees.
unfoldable pub c_string : Bytes → Bytes
c_string [] = []
c_string (b ∷ bs) = if b == 0 then [] else b ∷ c_string bs

-- `data()` is not cut at the end of the view.
unfoldable pub c_str : View → Bytes
unfolding c_string
c_str v = c_string (v.text ++ v.after)

-- `substr` throws where the position lies past the end.
unfoldable pub substr : View → ℕ → ℕ → Option View
substr v pos n =
    if leb pos (length v.text)
    then some
        (record { text = take n (drop pos v.text); after = drop n (drop pos v.text) ++ v.after })
    else none

abbrev pub HasNoNul : Bytes → Type 0
HasNoNul s = All (λ b. b ≢ 0) s

pub c_string_all : (s : Bytes) → HasNoNul s → c_string s ≡ s
unfolding c_string
c_string_all [] h = refl
c_string_all (b ∷ bs) h = ground (arith, c_string_all bs h.1)

pub c_string_zero : (s t : Bytes) → HasNoNul s → c_string (s ++ 0 ∷ t) ≡ s
unfolding c_string
c_string_zero [] t h = refl
c_string_zero (b ∷ bs) t h = ground (arith, c_string_zero bs t h.1)
