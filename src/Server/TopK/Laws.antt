-- ===== src/Server/TopK/Laws.antt =====
-- The entries that `topK_FromShards` returns are the best ones.
use rune_admin.Prelude.{
  ℕ, zero, suc, ◌+◌, ◌≤◌, ◌≡◌, refl, ◌∙◌, ap, Bool, true, false, some, List, [], ◌∷◌, ◌++◌, ℤ, pos,
  arith, length, take, drop, get_elem?, ◌<◌, All, if◌then◌else◌, ltb, length-append,
}
use Prim.Native.Nat.{min}
use mathlib.Core.List.{Perm}
use rune_admin.Sort.{sort}
use rune_admin.Sort.Laws.{IsSorted, sort-IsSorted, sort-perm, length-sort}
use rune_admin.Server.TopK.{
  ScoreEntry, shard_of, row_items, copy_from, all_items, not_below, top_k_from_shards,
}

take-append-drop {ℓ} : {A : Type ℓ} (n : ℕ) (xs : List A) → take n xs ++ drop n xs ≡ xs
take-append-drop zero xs = refl
take-append-drop (suc n) [] = refl
take-append-drop (suc n) (x ∷ xs) = ap (◌∷◌ x) (take-append-drop n xs)

length-take-le {ℓ} : {A : Type ℓ} (n : ℕ) (xs : List A) → n ≤ length xs → length (take n xs) ≡ n
length-take-le zero xs h = refl
length-take-le (suc n) [] h = absurd (omega arith)
length-take-le (suc n) (x ∷ xs) h = ap suc (length-take-le n xs (omega arith))

get_elem?-drop {ℓ} :
    {A : Type ℓ} (i : ℕ) (xs : List A)
    → i < length xs
    → (x : A) × (get_elem? xs i ≡ some x) × (drop i xs ≡ x ∷ drop (suc i) xs)
get_elem?-drop i [] h = absurd (omega arith)
get_elem?-drop zero (x ∷ xs) h = (x, refl, refl)
get_elem?-drop (suc i) (x ∷ xs) h = get_elem?-drop i xs (omega arith)

-- The copy stays within its range, and is a part of the list.
pub copy_from-drop {ℓ} :
    {A : Type ℓ} (i n : ℕ) (xs : List A)
    → i + n ≤ length xs
    → copy_from i n xs ≡ some (take n (drop i xs))
unfolding copy_from
copy_from-drop i zero xs h = refl
copy_from-drop i (suc n) xs h =
    let (x, found, rest) = get_elem?-drop i xs (omega arith) in
    rw (copy_from, found, rest, copy_from-drop (suc i) n xs (omega arith)) refl

module _ {ℓ} {A : Type ℓ} (le : A → A → Bool) where
  All-take {κ} : (P : A → Type κ) (n : ℕ) (xs : List A) → All P xs → All P (take n xs)
  All-take P zero xs h = tt
  All-take P (suc n) [] h = tt
  All-take P (suc n) (x ∷ xs) h = (h.0, All-take P n xs h.1)

  All-drop {κ} : (P : A → Type κ) (n : ℕ) (xs : List A) → All P xs → All P (drop n xs)
  All-drop P zero xs h = h
  All-drop P (suc n) [] h = tt
  All-drop P (suc n) (x ∷ xs) h = All-drop P n xs h.1

  IsSorted-take : (n : ℕ) (xs : List A) → IsSorted le xs → IsSorted le (take n xs)
  IsSorted-take zero xs s = tt
  IsSorted-take (suc n) [] s = tt
  IsSorted-take (suc n) (x ∷ xs) s =
      (All-take (λ y. le x y ≡ true) n xs s.0, IsSorted-take n xs s.1)

  -- Each element of a sorted list's front may stand before all of the rest.
  All-take-drop :
      (n : ℕ) (xs : List A)
      → IsSorted le xs
      → All (λ x. All (λ y. le x y ≡ true) (drop n xs)) (take n xs)
  All-take-drop zero xs s = tt
  All-take-drop (suc n) [] s = tt
  All-take-drop (suc n) (x ∷ xs) s =
      (All-drop (λ y. le x y ≡ true) n xs s.0, All-take-drop n xs s.1)

length-row_items {ℓ} :
    {Score : Type ℓ} (shard : ℤ) (j : ℕ) (row : List Score)
    → length (row_items shard j row) ≡ length row
unfolding row_items
length-row_items shard j [] = refl
length-row_items shard j (v ∷ vs) = ap suc (length-row_items shard (suc j) vs)

-- How many scores there are.
abbrev pub total {ℓ} : {Score : Type ℓ} → List (List Score) → ℕ
total [] = 0
total (row ∷ rows) = length row + total rows

length-all_items {ℓ} :
    {Score : Type ℓ} (shard_idx : List ℤ) (i : ℕ) (rows : List (List Score))
    → length (all_items shard_idx i rows) ≡ total rows
unfolding all_items
length-all_items shard_idx i [] = refl
length-all_items shard_idx i (row ∷ rows) = omega (
  arith,
  length-append (row_items (shard_of shard_idx i) 0 row) (all_items shard_idx (suc i) rows),
  length-row_items (shard_of shard_idx i) 0 row,
  length-all_items shard_idx (suc i) rows,
)

module _ {ℓ} {Score : Type ℓ} (gt : Score → Score → Bool)
    (asymmetric : (x y : Score) → gt x y ≡ true → gt y x ≡ false)
    (co_transitive : (x y z : Score) → gt x z ≡ true → gt y z ≡ false → gt x y ≡ true) where
  not_below-total : (a b : ScoreEntry Score) → not_below gt a b ≡ false → not_below gt b a ≡ true
  not_below-total a b h = ground (arith, asymmetric b.score a.score)

  not_below_trans :
      (a b c : ScoreEntry Score)
      → not_below gt a b ≡ true
      → not_below gt b c ≡ true
      → not_below gt a c ≡ true
  not_below_trans a b c h k = ground (arith, co_transitive c.score b.score a.score)

  -- For k that is not negative, and scores that `>` orders as it orders numbers: the result has k
  -- entries, or all entries if there are fewer. With the entries left out it is a rearrangement of all
  -- entries. It is in descending order, and no entry left out has a greater score than one returned.
  pub top_k_from_shards_lem :
      (scores : List (List Score)) (shard_idx : List ℤ) (k : ℕ)
      → (best : List (ScoreEntry Score)) × (rest : List (ScoreEntry Score)) × (top_k_from_shards gt
            scores shard_idx
            (pos k)
          ≡ some best)
        × (length best ≡ min k (total scores))
        × Perm (best ++ rest) (all_items shard_idx 0 scores)
        × IsSorted (not_below gt) best
        × All (λ b. All (λ r. not_below gt b r ≡ true) rest) best
  unfolding top_k_from_shards
  top_k_from_shards_lem scores shard_idx k =
      let items = all_items shard_idx 0 scores in
      let all = sort (not_below gt) items in
      let n = if ltb (length all) k then length all else k in
      let sorted = sort-IsSorted (not_below gt) not_below-total not_below_trans items in
      let count = length-sort (not_below gt) items ∙ length-all_items shard_idx 0 scores in
      (
        take n all,
        drop n all,
        copy_from-drop 0 n all (ground arith),
        length-take-le n all (ground arith) ∙ ground (arith, count),
        rw take-append-drop (sort-perm (not_below gt) items),
        IsSorted-take (not_below gt) n all sorted,
        All-take-drop (not_below gt) n all sorted,
      )
