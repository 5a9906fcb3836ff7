-- ===== src/Dict/Assoc.antt =====
-- Association lists with text keys, where the first entry of a key counts.
use rune_admin.Prelude.{
  String, ◌≡◌, refl, Bool, true, false, ◌||◌, Option, none, some, List, [], ◌∷◌, arith, ◌==◌,
  if◌then◌else◌, eq_iff,
}

abbrev pub Assoc {ℓ} : Type ℓ → Type ℓ
Assoc V = List (String × V)

abbrev pub is_some {ℓ} : {A : Type ℓ} → Option A → Bool
is_some none = false
is_some (some _) = true

unfoldable pub contains : List String → String → Bool
contains [] k = false
contains (j ∷ js) k = j == k || contains js k

-- The texts of a list other than one.
unfoldable pub erase_all : String → List String → List String
erase_all k [] = []
erase_all k (j ∷ js) = let rest = erase_all k js in if k == j then rest else j ∷ rest

-- No text stands twice.
abbrev pub Distinct : List String → Type 0
Distinct [] = Unit
Distinct (j ∷ js) = (contains js j ≡ false) × Distinct js

pub contains-erase_all :
    (k j : String) (js : List String)
    → contains (erase_all k js) j ≡ (if k == j then false else contains js j)
unfolding contains erase_all
contains-erase_all k j [] = ground arith
contains-erase_all k j (i ∷ js) =
    ground (arith, eq_iff k j, eq_iff i j, eq_iff k i, contains-erase_all k j js)

Distinct-erase_all : (k : String) (js : List String) → Distinct js → Distinct (erase_all k js)
unfolding erase_all
Distinct-erase_all k [] h = tt
Distinct-erase_all k (j ∷ js) h =
    ground (arith, contains-erase_all k j js, Distinct-erase_all k js h.1)

module _ {ℓ} {V : Type ℓ} where
  unfoldable pub lookup : String → Assoc V → Option V
  lookup k [] = none
  lookup k ((j, v) ∷ m) = if j == k then some v else lookup k m

  unfoldable pub without : String → Assoc V → Assoc V
  without k [] = []
  without k ((j, v) ∷ m) = let rest = without k m in if k == j then rest else (j, v) ∷ rest

  unfoldable pub domain : Assoc V → List String
  unfolding erase_all
  domain [] = []
  domain ((j, v) ∷ m) = j ∷ erase_all j (domain m)

  pub lookup-without :
      (k j : String) (m : Assoc V) → lookup j (without k m) ≡ (if k == j then none else lookup j m)
  unfolding lookup without
  lookup-without k j [] = ground arith
  lookup-without k j ((i, v) ∷ m) =
      ground (arith, eq_iff k j, eq_iff i j, eq_iff k i, lookup-without k j m)

  pub contains-domain : (m : Assoc V) (k : String) → contains (domain m) k ≡ is_some (lookup k m)
  unfolding contains domain lookup
  contains-domain [] k = refl
  contains-domain ((j, v) ∷ m) k =
      ground (arith, eq_iff j k, contains-domain m k, contains-erase_all j k (domain m))

  pub Distinct-domain : (m : Assoc V) → Distinct (domain m)
  unfolding domain
  Distinct-domain [] = tt
  Distinct-domain ((j, v) ∷ m) = (
    ground (arith, eq_iff j j, contains-erase_all j j (domain m)),
    Distinct-erase_all j (domain m) (Distinct-domain m),
  )
