-- ===== src/Server/Grpc/Scores.antt =====
-- What `DecryptScores` returns, and that a valid request cannot make it panic.
use rune_admin.Prelude.{
  ℕ, ℤ, pos, ◌≤ℤ◌, String, ◌≡◌, ◌≢◌, Bool, true, false, Option, some, List, arith, inl, inr, ltb_ℤ,
  Bool-cases, Option-cases, length, ltb, if◌then◌else◌,
}
use rune_admin.Dict.{get}
use rune_admin.Crypto.Metadata.{Primitives}
use rune_admin.Tokens.Role.{Role, has_scope}
use rune_admin.Tokens.Token.{Token, Dates, is_expired_at}
use rune_admin.Tokens.Store.Access.{Clocks}
use rune_admin.Server.TopK.{ScoreEntry, all_items, not_below, top_k_from_shards}
use rune_admin.Server.TopK.Laws.{copy_from-drop}
use rune_admin.Sort.{sort}
use rune_admin.Server.Grpc.{success, panicked, Vault, Decryptor, scores_body, decrypt_scores}
use rune_admin.Server.Grpc.Guard.{guarded_sound, guarded-no_panic}

module _ {ℓ} {Score : Type ℓ} (gt : Score → Score → Bool) (prim : Primitives) (dates : Dates) where
  scores_body_success :
      (keys : Option (Decryptor Score)) (top_k : ℤ) (blob : String) (role : Role)
      {entries : List (ScoreEntry Score)} {n : ℕ}
      → scores_body prim dates gt keys top_k blob role ≡ success entries n
      → (ltb_ℤ role.top_k top_k ≡ false)
        × (n ≡ length entries)
        × ((bytes : List ℕ) × (decrypt : Decryptor Score) × (scores : List (List Score))
            × (shard_idx : List ℤ) × (prim.decode64 blob ≡ some bytes)
            × (keys ≡ some decrypt)
            × ((decrypt bytes).1 ≡ some (scores, shard_idx))
            × (top_k_from_shards gt scores shard_idx top_k ≡ some entries))
  unfolding scores_body
  scores_body_success keys top_k blob role {entries} {n} h =
      elim (Bool-cases (ltb_ℤ role.top_k top_k)) [
        | inl e ↦ absurd (ground arith)
        | inr within ↦ elim (Option-cases (prim.decode64 blob)) [
          | inl e ↦ absurd (ground arith)
          | inr (bytes, decoded) ↦ elim (Option-cases keys) [
            | inl e ↦ absurd (ground arith)
            | inr (decrypt, loaded) ↦ elim (Option-cases ((decrypt bytes).1)) [
              | inl e ↦ absurd (ground arith)
              | inr ((scores, shard_idx), opened) ↦
                  elim (Option-cases (top_k_from_shards gt scores shard_idx top_k)) [
                    | inl e ↦ absurd (ground arith)
                    | inr (best, e) ↦ (
                      within,
                      ground arith,
                      (bytes, decrypt, scores, shard_idx, decoded, loaded, opened, ground arith),
                    )
                  ]
            ]
          ]
        ]
      ]

  -- `DecryptScores` returns entries only for a stored token that has not expired, of a role that has the
  -- scope and allows so many results. They are the top entries of the scores that the key decrypts
  -- from the blob, and the audit count is their number.
  pub decrypt_scores_sound :
      (clocks : Clocks) (keys : Option (Decryptor Score)) (v : Vault) (token blob : String)
      (top_k : ℤ) {entries : List (ScoreEntry Score)} {n : ℕ}
      → (decrypt_scores prim dates gt clocks keys v token blob top_k).1 ≡ success entries n
      → (tok : Token) × (role : Role) × (get v.store.tokens token ≡ some tok)
        × (is_expired_at dates tok clocks.store_now ≡ false)
        × (get v.store.roles tok.role ≡ some role)
        × (has_scope role.scopes "decrypt_scores" ≡ true)
        × (top_k ≤ℤ role.top_k)
        × (n ≡ length entries)
        × ((bytes : List ℕ) × (decrypt : Decryptor Score) × (scores : List (List Score))
            × (shard_idx : List ℤ) × (prim.decode64 blob ≡ some bytes)
            × (keys ≡ some decrypt)
            × ((decrypt bytes).1 ≡ some (scores, shard_idx))
            × (top_k_from_shards gt scores shard_idx top_k ≡ some entries))
  unfolding decrypt_scores
  decrypt_scores_sound clocks keys v token blob top_k h =
      let (tok, role, held, live, found, scoped, done) =
        guarded_sound dates clocks "decrypt_scores" "decrypt_scores" (some top_k) v token
          (scores_body prim dates gt keys top_k blob) h in
      let (within, count, source) = scores_body_success keys top_k blob role done in
      (tok, role, held, live, found, scoped, ground arith, count, source)

  -- The number of copied entries is cut to what there is.
  top_k_from_shards-no_panic :
      (scores : List (List Score)) (shard_idx : List ℤ) (k : ℕ)
      → (best : List (ScoreEntry Score)) × (top_k_from_shards gt scores shard_idx (pos k)
          ≡ some best)
  unfolding top_k_from_shards
  top_k_from_shards-no_panic scores shard_idx k =
      let all = sort (not_below gt) (all_items shard_idx 0 scores) in
      (_, copy_from-drop 0 (if ltb (length all) k then length all else k) all (ground arith))

  scores_body-no_panic :
      (keys : Option (Decryptor Score)) (k : ℕ) (blob : String) (role : Role)
      → scores_body prim dates gt keys (pos k) blob role ≢ panicked
  unfolding scores_body
  scores_body-no_panic keys k blob role h = elim (Bool-cases (ltb_ℤ role.top_k (pos k))) [
    | inl e ↦ ground arith
    | inr within ↦ elim (Option-cases (prim.decode64 blob)) [
      | inl e ↦ ground arith
      | inr (bytes, decoded) ↦ elim (Option-cases keys) [
        | inl e ↦ ground arith
        | inr (decrypt, loaded) ↦ elim (Option-cases ((decrypt bytes).1)) [
          | inl e ↦ ground arith
          | inr ((scores, shard_idx), opened) ↦
              let (best, e) = top_k_from_shards-no_panic scores shard_idx k in ground arith
        ]
      ]
    ]
  ]

  -- With a number of results that is not negative, as request validation demands, `DecryptScores` does not panic,
  -- whatever the state, the token and the blob.
  pub decrypt_scores-no_panic :
      (clocks : Clocks) (keys : Option (Decryptor Score)) (v : Vault) (token blob : String) (k : ℕ)
      → (decrypt_scores prim dates gt clocks keys v token blob (pos k)).1 ≢ panicked
  unfolding decrypt_scores
  decrypt_scores-no_panic clocks keys v token blob k =
      guarded-no_panic dates clocks "decrypt_scores" "decrypt_scores" (some (pos k)) v token
        (scores_body prim dates gt keys (pos k) blob) (scores_body-no_panic keys k blob)
