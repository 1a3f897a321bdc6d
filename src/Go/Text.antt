-- ===== src/Go/Text.antt =====
-- Replacing, case and order of texts, and the sorting of package sort as an insertion sort.
use skylb.Prelude.{
  ℕ, ◌+◌, Bool, true, false, ◌&&◌, ◌==◌, ltb, leb, List, [], ◌∷◌, map, Str, if◌then◌else◌,
}

-- strings.Replace of the first byte `c`, and of all of them.
unfoldable pub replace_first : ℕ → ℕ → Str → Str
replace_first c d [] = []
replace_first c d (x ∷ xs) = let rest = replace_first c d xs in if x == c then d ∷ xs else x ∷ rest

abbrev pub replace_byte : ℕ → ℕ → ℕ → ℕ
replace_byte c d x = if x == c then d else x

-- strings.ToLower, on ASCII text.
abbrev pub to_lower_byte : ℕ → ℕ
to_lower_byte x = if leb b'A' x && leb x b'Z' then x + 32 else x

abbrev pub to_lower : Str → Str
to_lower s = map to_lower_byte s

-- a < b on texts.
unfoldable pub str_ltb : Str → Str → Bool
str_ltb [] [] = false
str_ltb [] (y ∷ ys) = true
str_ltb (x ∷ xs) [] = false
str_ltb (x ∷ xs) (y ∷ ys) = let rest = str_ltb xs ys in if ltb x y then true else x == y && rest

module _ {A : Type 0} (less : A → A → Bool) where
  pub insert_sorted : A → List A → List A
  insert_sorted x [] = x ∷ []
  insert_sorted x (y ∷ ys) =
      let rest = insert_sorted x ys in if less x y then x ∷ y ∷ ys else y ∷ rest

  unfoldable pub sort : List A → List A
  unfolding insert_sorted
  sort [] = []
  sort (x ∷ xs) = insert_sorted x (sort xs)
