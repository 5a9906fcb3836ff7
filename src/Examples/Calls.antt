-- ===== src/Examples/Calls.antt =====
-- Calls of the handlers and the request checks.
use rune_admin.Server.Interceptor.{Request, is_control, check_token_safety, intercept, handled}
use rune_admin.Server.Interceptor.Laws.{
  VaultCall, IsSafe, FirstNotSpace, check_token_safety_iff, new_token_string-is_safe, intercept_iff,
}
use rune_admin.Prelude.{
  ℕ, ◌<◌, ℤ, pos, ltb, String, codes, ◌≡◌, ◌≢◌, ◌↔◌, refl, Bool, true, false, Option, none, some,
  List, [], ◌∷◌, ◌++◌, arith, All, length, ◌≤ℤ◌,
}
use mathlib.Core.List.{Perm, reverse}
use rune_admin.Dict.{get}
use rune_admin.Sort.Laws.{IsSorted}
use rune_admin.Tokens.Errors.{ok}
use rune_admin.Tokens.Role.{Role, has_scope}
use rune_admin.Tokens.Token.{Token, is_expired_at, new_token_string}
use rune_admin.Crypto.Metadata as Crypto
use rune_admin.Crypto.Metadata.{AreBytes, encrypt_metadata, decrypt_metadata}
use rune_admin.Crypto.Metadata.RoundTrip.{decrypt_metadata-encrypt_metadata}
use rune_admin.Server.TopK.{ScoreEntry, not_below, all_items, top_k_from_shards}
use rune_admin.Server.TopK.Laws.{top_k_from_shards_lem}
use rune_admin.Server.Grpc.{
  Reply, success, panicked, Vault, guarded, finish, in_scope, Decryptor, decrypt_scores,
  score_reply, scores_body, decrypt_each,
}
use rune_admin.Server.Grpc.Guard.{guarded_sound}
use rune_admin.Server.Grpc.Scores.{decrypt_scores_sound, decrypt_scores-no_panic}
use rune_admin.Server.Grpc.Metadata.{Item, IsSealed, decrypt_each-sealed}
use rune_admin.Examples.Data.{dates, clocks, primitives, bytes_of, zeros, bob_text, bob_store}
use rune_admin.Examples.Access.{validate-bob}

abbrev pub gt : ℕ → ℕ → Bool
gt a b = ltb b a

asymmetric : (x y : ℕ) → gt x y ≡ true → gt y x ≡ false
asymmetric x y h = ground arith

co_transitive : (x y z : ℕ) → gt x z ≡ true → gt y z ≡ false → gt x y ≡ true
co_transitive x y z h k = ground arith

abbrev scores : List (List ℕ)
scores = (5 ∷ 9 ∷ []) ∷ (7 ∷ []) ∷ []

abbrev shards : List ℤ
shards = pos 4 ∷ []

top_k_from_shards_lem_example :
    (best : List (ScoreEntry ℕ)) × (rest : List (ScoreEntry ℕ)) × (top_k_from_shards gt scores
        shards
        (pos 2)
      ≡ some best)
    × (length best ≡ 2)
    × Perm (best ++ rest) (all_items shards 0 scores)
    × IsSorted (not_below gt) best
    × All (λ b. All (λ r. not_below gt b r ≡ true) rest) best
top_k_from_shards_lem_example = top_k_from_shards_lem gt asymmetric co_transitive scores shards 2

abbrev pub vault : Vault
vault = record {
  store = bob_store;
  team_secret = "secret";
  index_name = "";
  endpoint = "";
  api_key = "";
  audit_on = true;
  log = [];
}

abbrev one : Role → Reply ℕ
one role = success 1 1

answered : (guarded dates clocks "m" "decrypt_scores" none vault bob_text one).1 ≡ success 1 1
unfolding guarded finish in_scope has_scope
answered = rw (guarded, validate-bob) refl

guarded_sound_example :
    (tok : Token) × (role : Role) × (get bob_store.tokens bob_text ≡ some tok)
    × (is_expired_at dates tok 5 ≡ false)
    × (get bob_store.roles tok.role ≡ some role)
    × (has_scope role.scopes "decrypt_scores" ≡ true)
    × (one role ≡ success 1 1)
guarded_sound_example =
    guarded_sound dates clocks "m" "decrypt_scores" none vault bob_text one answered

-- A key that decrypts every blob to the same two rows.
abbrev key : Decryptor ℕ
key _ = ("", some (scores, shards))

abbrev blob : String
blob = primitives.encode64 []

two_best : (best : List (ScoreEntry ℕ)) × (top_k_from_shards gt scores shards (pos 2) ≡ some best)
two_best =
    let (best, _, found, _, _, _, _) =
      top_k_from_shards_lem gt asymmetric co_transitive scores shards 2 in
    (best, found)

decrypted :
    (decrypt_scores primitives dates gt clocks (some key) vault bob_text blob (pos 2)).1
    ≡ success two_best.0 (length two_best.0)
unfolding decrypt_scores guarded finish in_scope has_scope scores_body score_reply
decrypted =
    rw
      (
        decrypt_scores,
        guarded,
        validate-bob,
        scores_body,
        primitives.decode64-encode64 [] tt,
        score_reply,
        two_best.1,
      )
      refl

decrypt_scores_sound_example :
    (tok : Token) × (role : Role) × (get bob_store.tokens bob_text ≡ some tok)
    × (is_expired_at dates tok 5 ≡ false)
    × (get bob_store.roles tok.role ≡ some role)
    × (has_scope role.scopes "decrypt_scores" ≡ true)
    × (pos 2 ≤ℤ role.top_k)
    × (length two_best.0 ≡ length two_best.0)
    × ((bytes : List ℕ) × (decrypt : Decryptor ℕ) × (scores : List (List ℕ)) × (shard_idx : List ℤ)
        × (primitives.decode64 blob ≡ some bytes)
        × (some key ≡ some decrypt)
        × ((decrypt bytes).1 ≡ some (scores, shard_idx))
        × (top_k_from_shards gt scores shard_idx (pos 2) ≡ some two_best.0))
decrypt_scores_sound_example =
    decrypt_scores_sound gt primitives dates clocks (some key) vault bob_text blob (pos 2) decrypted

decrypt_scores-no_panic_example :
    (decrypt_scores primitives dates gt clocks (some key) vault bob_text "" (pos 2)).1 ≢ panicked
decrypt_scores-no_panic_example =
    decrypt_scores-no_panic gt primitives dates clocks (some key) vault bob_text "" 2

abbrev iv : List ℕ
iv = bytes_of 7

decrypt_metadata-encrypt_metadata_example :
    (text : String) × (encrypt_metadata primitives (some iv) (72 ∷ 105 ∷ []) zeros ≡ Crypto.ok text)
    × (decrypt_metadata primitives text zeros ≡ Crypto.ok (72 ∷ 105 ∷ []))
decrypt_metadata-encrypt_metadata_example =
    decrypt_metadata-encrypt_metadata primitives iv (72 ∷ 105 ∷ []) zeros refl refl (omega arith)
      (omega arith)

sealed :
    (text : String) × (encrypt_metadata primitives
        (some iv)
        (72 ∷ 105 ∷ [])
        (primitives.hkdf "secret" "agent")
      ≡ Crypto.ok text)
    × (decrypt_metadata primitives text (primitives.hkdf "secret" "agent")
        ≡ Crypto.ok (72 ∷ 105 ∷ []))
sealed =
    decrypt_metadata-encrypt_metadata primitives iv (72 ∷ 105 ∷ [])
      (primitives.hkdf "secret" "agent") (primitives.hkdf-length "secret" "agent") refl
      (omega arith) (omega arith)

-- An item in an envelope that is its own cipher text.
abbrev cipher : String
cipher = sealed.0

abbrev item : Item
item = record {
  agent = "agent";
  iv = iv;
  plaintext = 72 ∷ 105 ∷ [];
  cipher = cipher;
  envelope = cipher;
}

abbrev parse : String → Option (String × String)
parse text = some ("agent", text)

item-IsSealed : IsSealed primitives dates parse "secret" item
item-IsSealed = record {
  long_iv = refl;
  iv_bytes = omega arith;
  bytes = omega arith;
  encrypted = sealed.1;
  parsed = refl;
}

decrypt_each-sealed_example :
    decrypt_each primitives dates parse "secret" (cipher ∷ []) [] ≡ success ((72 ∷ 105 ∷ []) ∷ []) 1
decrypt_each-sealed_example =
    decrypt_each-sealed primitives dates parse "secret" (item ∷ []) (λ e. cc) (item-IsSealed, tt)

sixteen : All (λ b. b < 256) (bytes_of 0)
sixteen = omega arith

made : new_token_string (some (bytes_of 0)) ≡ ok bob_text
unfolding new_token_string
made = refl

new_token_string-is_safe_example : check_token_safety (codes bob_text) ≡ none
new_token_string-is_safe_example = new_token_string-is_safe (bytes_of 0) refl sixteen made

check_token_safety_iff_example : (check_token_safety (codes " a") ≡ none) ↔ (
    All (λ r. is_control r ≡ false) (codes " a")
    × FirstNotSpace (codes " a")
    × FirstNotSpace (reverse (codes " a")))
check_token_safety_iff_example = check_token_safety_iff (codes " a")

abbrev passes : Request → Option String
passes _ = none

abbrev seven : Request → ℕ
seven _ = 7

intercept_iff_example :
    (intercept passes "/rune.vault.v1.VaultService/DecryptScores"
        (Request.decrypt_scores " a" "" (pos 1))
        seven
      ≡ handled 7)
    ↔ ((passes (Request.decrypt_scores " a" "" (pos 1)) ≡ none)
        × IsSafe " a"
        × (seven (Request.decrypt_scores " a" "" (pos 1)) ≡ 7))
intercept_iff_example = intercept_iff passes (VaultCall.scores_call " a" "" (pos 1)) seven 7
