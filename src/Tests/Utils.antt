-- ===== src/Tests/Utils.antt =====
-- The helpers of src/UtilsSystem.cpp on short texts.
use spmod.Common.{
  ℕ, zero, suc, ◌≢◌, ◌≡◌, Bytes, codes, length, drop, replicate, [], ◌∷◌, some, arith,
}
use spmod.Utils.View.{whole, c_string, HasNoNul}
use spmod.Utils.Copy.{str_copy, str_copy-reads}
use spmod.Utils.ShowMenu.{show_menu, out_of_fuel}
use spmod.Utils.ShowMenu.Ends.{show_menu_diverges}

abbrev hi : Bytes
hi = codes "hi"

str_copy-reads_example :
    (buffer' : Bytes) × (str_copy (replicate 4 9) 2 (whole hi) ≡ some (1, buffer'))
    × (c_string buffer' ≡ codes "h")
    × (length buffer' ≡ 4)
    × (drop 2 buffer' ≡ 9 ∷ (9 ∷ []))
str_copy-reads_example =
    str_copy-reads (replicate 4 9) 2 (whole hi) (omega arith) (omega arith) (omega arith)
      ((λ e. cc), ((λ e. cc), tt))

no_nul-replicate : (n b : ℕ) → b ≢ 0 → HasNoNul (replicate n b)
no_nul-replicate zero b h = tt
no_nul-replicate (suc n) b h = (h, no_nul-replicate n b h)

-- The menu of 200 bytes goes out in two messages, and the first holds all of it.
abbrev long_menu : Bytes
long_menu = replicate 200 65

show_menu_diverges_example : show_menu 1 0 10 (whole (replicate 513 65)) 87 1000 ≡ out_of_fuel
show_menu_diverges_example =
    show_menu_diverges 1 0 10 (whole (replicate 513 65)) 87 1000 (λ e. cc) (omega arith)
      (omega arith)
