-- ===== src/Server/TopK.antt =====
-- `topK_FromShards` of vault/internal/server/grpc.go. A score is a `float64`; its type and the test
-- `>` are parameters.
pub mod Laws
use rune_admin.Prelude.{
  ℕ, zero, suc, Bool, not, Option, none, some, List, [], ◌∷◌, ◌++◌, ℤ, pos, negsuc, get_elem?,
  length, if◌then◌else◌, ltb,
}
use rune_admin.Machine.{wrap32}
use rune_admin.Sort.{sort}

-- pb.ScoreEntry, and the function's own `item`.
pub record ScoreEntry {ℓ} (Score : Type ℓ) : Type ℓ where
  pub shard_idx : ℤ
  pub row_idx : ℤ
  pub score : Score

-- shardIdx[i], or i itself for a row without one.
unfoldable pub shard_of : List ℤ → ℕ → ℤ
shard_of shard_idx i = elim (get_elem? shard_idx i) [ none ↦ wrap32 i | some shard ↦ shard ]

module _ {ℓ} {Score : Type ℓ} where
  -- The inner loop, from the row index `j`.
  unfoldable pub row_items : ℤ → ℕ → List Score → List (ScoreEntry Score)
  row_items shard j [] = []
  row_items shard j (v ∷ vs) =
      record { shard_idx = shard; row_idx = wrap32 j; score = v } ∷ row_items shard (suc j) vs

  -- The outer loop, from the row `i`.
  unfoldable pub all_items : List ℤ → ℕ → List (List Score) → List (ScoreEntry Score)
  unfolding row_items shard_of
  all_items shard_idx i [] = []
  all_items shard_idx i (row ∷ rows) =
      row_items (shard_of shard_idx i) 0 row ++ all_items shard_idx (suc i) rows

-- The loop that copies `n` entries from the index `i` on. `none` is the panic of an index out of range.
unfoldable pub copy_from {ℓ} : {A : Type ℓ} → ℕ → ℕ → List A → Option (List A)
copy_from i zero all = some []
copy_from i (suc n) all = elim (get_elem? all i) [
  | none ↦ none
  | some x ↦ elim (copy_from (suc i) n all) [ none ↦ none | some rest ↦ some (x ∷ rest) ]
]

module _ {ℓ} {Score : Type ℓ} (gt : Score → Score → Bool) where
  -- `a` may stay ahead of a later `b` unless b.score > a.score.
  abbrev pub not_below : ScoreEntry Score → ScoreEntry Score → Bool
  not_below a b = not (gt b.score a.score)

  -- `none` is a panic: that of `make` with a negative length, or that of an index.
  unfoldable pub top_k_from_shards :
      List (List Score) → List ℤ → ℤ → Option (List (ScoreEntry Score))
  unfolding all_items sort copy_from
  top_k_from_shards scores shard_idx (negsuc _) = none
  top_k_from_shards scores shard_idx (pos k) =
      let all = sort not_below (all_items shard_idx 0 scores) in
      copy_from 0 (if ltb (length all) k then length all else k) all
