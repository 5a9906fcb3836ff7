-- ===== src/Sort.antt =====
-- Stable sorting by a Boolean order (`sort.Strings`, `sort.SliceStable`), and Go's order of texts.
pub mod Laws
use rune_admin.Prelude.{
  ℕ, String, codes, Bool, true, false, List, [], ◌∷◌, ltb, ◌==ℕ◌, if◌then◌else◌,
}

module _ {ℓ} {A : Type ℓ} (le : A → A → Bool) where
  -- Before the first element that it may stand before.
  unfoldable pub insert : A → List A → List A
  insert x [] = x ∷ []
  insert x (y ∷ ys) = let rest = insert x ys in if le x y then x ∷ y ∷ ys else y ∷ rest

  unfoldable pub sort : List A → List A
  unfolding insert
  sort [] = []
  sort (x ∷ xs) = insert x (sort xs)

-- The order of Go's strings: that of their code points, as UTF-8 keeps it.
unfoldable pub codes_le : List ℕ → List ℕ → Bool
codes_le [] ys = true
codes_le (x ∷ xs) [] = false
codes_le (x ∷ xs) (y ∷ ys) = let rest = codes_le xs ys in if x ==ℕ y then rest else ltb x y

unfoldable pub text_le : String → String → Bool
unfolding codes_le
text_le s t = codes_le (codes s) (codes t)

-- sort.Strings
unfoldable pub sort_strings : List String → List String
unfolding sort text_le
sort_strings = sort text_le
