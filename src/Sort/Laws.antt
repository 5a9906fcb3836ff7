-- ===== src/Sort/Laws.antt =====
-- The sort orders its input and only rearranges it.
use rune_admin.Prelude.{
  ℕ, String, codes, ◌≡◌, refl, Bool, true, false, ◌||◌, inl, inr, List, [], ◌∷◌, arith, All, ◌==◌,
  eq_iff, if◌then◌else◌, Bool-cases, length, suc, ap, ◌∙◌,
}
use mathlib.Core.List.{Perm}
use mathlib.Core.List.Perm
use rune_admin.Dict.Assoc.{contains, Distinct}
use rune_admin.Sort.{insert, sort, codes_le, text_le, sort_strings}

-- Each element may stand before all that follow it.
abbrev pub IsSorted {ℓ} : {A : Type ℓ} → (A → A → Bool) → List A → Type 0
IsSorted le [] = Unit
IsSorted le (x ∷ xs) = All (λ y. le x y ≡ true) xs × IsSorted le xs

module _ {ℓ} {A : Type ℓ} (le : A → A → Bool) where
  pub insert-perm : (x : A) (l : List A) → Perm (insert le x l) (x ∷ l)
  unfolding insert
  insert-perm x [] = Perm.refl (x ∷ [])
  insert-perm x (y ∷ ys) = elim (Bool-cases (le x y)) [
    | inl e ↦ rw (e, if◌then◌else◌) (Perm.refl (x ∷ y ∷ ys))
    | inr e ↦ rw (e, if◌then◌else◌) (Perm.trans (Perm.cons y (insert-perm x ys)) (Perm.swap x y ys))
  ]

  pub sort-perm : (l : List A) → Perm (sort le l) l
  unfolding sort
  sort-perm [] = Perm.refl []
  sort-perm (x ∷ xs) = Perm.trans (insert-perm x (sort le xs)) (Perm.cons x (sort-perm xs))

  pub length-insert : (x : A) (l : List A) → length (insert le x l) ≡ suc (length l)
  unfolding insert
  length-insert x [] = refl
  length-insert x (y ∷ ys) = ground (arith, length-insert x ys)

  pub length-sort : (l : List A) → length (sort le l) ≡ length l
  unfolding sort
  length-sort [] = refl
  length-sort (x ∷ xs) = length-insert x (sort le xs) ∙ ap suc (length-sort xs)

  All-insert {κ} : (P : A → Type κ) (x : A) (l : List A) → P x → All P l → All P (insert le x l)
  unfolding insert
  All-insert P x [] px h = (px, tt)
  All-insert P x (y ∷ ys) px h = elim (Bool-cases (le x y)) [
    | inl e ↦ rw (e, if◌then◌else◌) (px, h)
    | inr e ↦ rw (e, if◌then◌else◌) (h.0, All-insert P x ys px h.1)
  ]

  pub All-sort {κ} : (P : A → Type κ) (l : List A) → All P l → All P (sort le l)
  unfolding sort
  All-sort P [] h = tt
  All-sort P (x ∷ xs) h = All-insert P x (sort le xs) h.0 (All-sort P xs h.1)

  module _ (total : (x y : A) → le x y ≡ false → le y x ≡ true)
      (transitive : (x y z : A) → le x y ≡ true → le y z ≡ true → le x z ≡ true) where
    All-below :
        (x y : A) (l : List A)
        → le x y ≡ true
        → All (λ z. le y z ≡ true) l
        → All (λ z. le x z ≡ true) l
    All-below x y [] e h = tt
    All-below x y (z ∷ l) e h = (transitive x y z e h.0, All-below x y l e h.1)

    insert-IsSorted : (x : A) (l : List A) → IsSorted le l → IsSorted le (insert le x l)
    unfolding insert
    insert-IsSorted x [] s = (tt, tt)
    insert-IsSorted x (y ∷ ys) s = elim (Bool-cases (le x y)) [
      | inl e ↦ rw (e, if◌then◌else◌) ((e, All-below x y ys e s.0), s)
      | inr e ↦
          rw (e, if◌then◌else◌)
            (All-insert (λ z. le y z ≡ true) x ys (total x y e) s.0, insert-IsSorted x ys s.1)
    ]

    pub sort-IsSorted : (l : List A) → IsSorted le (sort le l)
    unfolding sort
    sort-IsSorted [] = tt
    sort-IsSorted (x ∷ xs) = insert-IsSorted x (sort le xs) (sort-IsSorted xs)

codes_le-total : (xs ys : List ℕ) → codes_le xs ys ≡ false → codes_le ys xs ≡ true
unfolding codes_le
codes_le-total [] ys h = cc
codes_le-total (x ∷ xs) [] h = refl
codes_le-total (x ∷ xs) (y ∷ ys) h = ground (arith, codes_le-total xs ys)

codes_le_trans :
    (xs ys zs : List ℕ) → codes_le xs ys ≡ true → codes_le ys zs ≡ true → codes_le xs zs ≡ true
unfolding codes_le
codes_le_trans [] ys zs h k = refl
codes_le_trans (x ∷ xs) [] zs h k = cc
codes_le_trans (x ∷ xs) (y ∷ ys) [] h k = cc
codes_le_trans (x ∷ xs) (y ∷ ys) (z ∷ zs) h k = ground (arith, codes_le_trans xs ys zs)

pub sort_strings-IsSorted : (l : List String) → IsSorted text_le (sort_strings l)
unfolding sort_strings text_le
sort_strings-IsSorted l =
    sort-IsSorted text_le (λ s t. codes_le-total (codes s) (codes t))
      (λ s t u. codes_le_trans (codes s) (codes t) (codes u)) l

contains-insert :
    (x k : String) (l : List String) → contains (insert text_le x l) k ≡ ((x == k) || contains l k)
unfolding insert contains
contains-insert x k [] = refl
contains-insert x k (y ∷ ys) = ground (arith, eq_iff x k, eq_iff y k, contains-insert x k ys)

pub contains-sort_strings :
    (l : List String) (k : String) → contains (sort_strings l) k ≡ contains l k
unfolding sort_strings sort contains
contains-sort_strings [] k = refl
contains-sort_strings (x ∷ xs) k =
    ground (arith, contains-insert x k (sort_strings xs), contains-sort_strings xs k)

Distinct-insert :
    (x : String) (l : List String)
    → contains l x ≡ false
    → Distinct l
    → Distinct (insert text_le x l)
unfolding insert contains
Distinct-insert x [] h d = (refl, tt)
Distinct-insert x (y ∷ ys) h d = elim (Bool-cases (text_le x y)) [
  | inl e ↦ rw (insert, e) (h, d)
  | inr e ↦
      rw (insert, e)
        (
          ground (arith, contains-insert x y ys, eq_iff x y, eq_iff y x),
          Distinct-insert x ys (ground arith) d.1,
        )
]

pub Distinct-sort_strings : (l : List String) → Distinct l → Distinct (sort_strings l)
unfolding sort_strings sort
Distinct-sort_strings [] d = tt
Distinct-sort_strings (x ∷ xs) d =
    Distinct-insert x (sort_strings xs) (rw (contains-sort_strings xs x) d.0)
      (Distinct-sort_strings xs d.1)
