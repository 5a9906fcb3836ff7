-- ===== src/Server/Grpc.antt =====
-- The three handlers of vault/internal/server/grpc.go. An error's text is the value that it is printed
-- from. The time stamp, the source address and the latency of an audit entry are not modelled.
pub mod Guard
pub mod Scores
pub mod Metadata
use rune_admin.Prelude.{
  ℕ, ℤ, pos, String, Bool, true, false, Option, none, some, List, [], ◌∷◌, ◌++◌, ◌==◌,
  if◌then◌else◌, ltb_ℤ, length,
}
use rune_admin.Crypto.Metadata as Crypto
use rune_admin.Crypto.Metadata.{
  Primitives, CryptoError, derive_agent_key, agent_id_from_token, decrypt_metadata,
}
use rune_admin.Tokens.Errors.{
  Error, token_not_found, token_expired, rate_limit, top_k_exceeded, scope, ok, err,
}
use rune_admin.Tokens.Role.{Role, check_scope}
use rune_admin.Tokens.Token.{Dates}
use rune_admin.Tokens.Store.{Store}
use rune_admin.Tokens.Store.Access.{Clocks, get_username, validate}
use rune_admin.Server.TopK.{ScoreEntry, top_k_from_shards}

pub data Code : Type 0 where
  unauthenticated : Code
  permission_denied : Code
  invalid_argument : Code
  resource_exhausted : Code
  internal : Code

-- What an error message is made of.
pub data Detail : Type 0 where
  of_token : Error → Detail
  bad_blob : Detail
  key_not_loaded : Detail
  decrypt_failed : String → Detail
  no_enc_key : Detail
  no_team_secret : Detail
  bad_envelope : Detail
  of_crypto : CryptoError → Detail

-- How a handler ends: its result and the number of results, or the audit status, the code and the
-- message of its error, or a panic.
pub data Reply {ℓ} (A : Type ℓ) : Type ℓ where
  success : A → ℕ → Reply A
  failure : String → Code → Detail → Reply A
  panicked : Reply A

pub record AuditEntry : Type 0 where
  pub user_id : String
  pub method : String
  pub top_k : Option ℤ
  pub result_count : ℕ
  pub status : String
  pub error : Option Detail

-- The parts of the Vault and of its configuration that the handlers use. `audit_on` is `Enabled()` of the audit
-- logger; `log` holds the entries given to it.
pub record Vault : Type 0 where
  pub store : Store
  pub team_secret : String
  pub index_name : String
  pub endpoint : String
  pub api_key : String
  pub audit_on : Bool
  pub log : List AuditEntry

unfoldable pub map_token_error : Error → Code
map_token_error token_not_found = unauthenticated
map_token_error (token_expired _) = unauthenticated
map_token_error (rate_limit _) = resource_exhausted
map_token_error (scope _ _) = permission_denied
map_token_error (top_k_exceeded _ _ _) = invalid_argument
map_token_error _ = unauthenticated

unfoldable pub err_status : Error → String
err_status token_not_found = "denied"
err_status (token_expired _) = "denied"
err_status (rate_limit _) = "denied"
err_status (scope _ _) = "denied"
err_status (top_k_exceeded _ _ _) = "denied"
err_status _ = "error"

unfoldable pub or_unknown : String → String
or_unknown user = if user == "" then "unknown" else user

-- The audit entry of a reply. The deferred call also runs in a panic, with the values set so far.
unfoldable pub entry_of {ℓ} : {A : Type ℓ} → String → String → Option ℤ → Reply A → AuditEntry
entry_of method user top_k (success _ n) = record {
  user_id = user;
  method = method;
  top_k = top_k;
  result_count = n;
  status = "success";
  error = none;
}
entry_of method user top_k (failure status _ detail) = record {
  user_id = user;
  method = method;
  top_k = top_k;
  result_count = 0;
  status = status;
  error = some detail;
}
entry_of method user top_k panicked = record {
  user_id = user;
  method = method;
  top_k = top_k;
  result_count = 0;
  status = "success";
  error = none;
}

unfoldable pub emit : AuditEntry → Vault → Vault
emit entry v = if v.audit_on then record v { log = v.log ++ entry ∷ [] } else v

-- The end of a handler, where the deferred `emit` runs.
unfoldable pub finish {ℓ} :
    {A : Type ℓ} → String → String → Option ℤ → Vault → Reply A → Vault × Reply A
unfolding emit entry_of
finish method user top_k v reply = (emit (entry_of method user top_k reply) v, reply)

-- `role.CheckScope(method)`, before the handler's own part.
unfoldable pub in_scope {ℓ} : {A : Type ℓ} → Role → String → Reply A → Reply A
unfolding check_scope
in_scope role method body = elim (check_scope role method) [
  | some e ↦ failure "denied" permission_denied (of_token e)
  | none ↦ body
]

-- The beginning that the three handlers share: the user for the log, `Validate` and `CheckScope`.
unfoldable pub guarded {ℓ} :
    {A : Type ℓ}
    → Dates
    → Clocks
    → String
    → String
    → Option ℤ
    → Vault
    → String
    → (Role → Reply A)
    → Vault × Reply A
guarded dates clocks method needed top_k v token body =
    let user = or_unknown (get_username v.store token) in
    let (store', result) = validate dates clocks v.store token in
    let v' = record v { store = store' } in
    elim result [
      | err e ↦
          finish method user top_k v' (failure (err_status e) (map_token_error e) (of_token e))
      | ok (username, role) ↦ finish method username top_k v' (in_scope role needed (body role))
    ]

-- The manifest's fields; `index_name` is left out where it is empty.
pub record Manifest : Type 0 where
  pub enc_key : String
  pub key_id : String
  pub index_name : Option String
  pub agent_id : String
  pub agent_dek : String
  pub endpoint : String
  pub api_key : String

-- The FHE key decrypts a blob to scores and shard indices, or fails with a message.
abbrev pub Decryptor {ℓ} : Type ℓ → Type ℓ
Decryptor Score = List ℕ → String × Option (List (List Score) × List ℤ)

module _ (prim : Primitives) (dates : Dates) where
  -- What `ReadEncKey` reads from disk is an argument.
  unfoldable pub build_bundle : Option String → Vault → String → Reply Manifest
  build_bundle none v token = failure "error" internal no_enc_key
  build_bundle (some enc_key) v token =
      let agent_id = agent_id_from_token prim token in
      elim (derive_agent_key prim v.team_secret agent_id) [
        | Crypto.err e ↦ failure "error" internal (of_crypto e)
        | Crypto.ok dek ↦
            success
              (record {
                enc_key = enc_key;
                key_id = "vault-key";
                index_name = if v.index_name == "" then none else some v.index_name;
                agent_id = agent_id;
                agent_dek = prim.encode64 dek;
                endpoint = v.endpoint;
                api_key = v.api_key;
              })
              1
      ]

  unfoldable pub get_agent_manifest :
      Clocks → Option String → Vault → String → Vault × Reply Manifest
  get_agent_manifest clocks enc_key v token =
      guarded dates clocks "get_agent_manifest" "get_public_key" none v token
        λ role. build_bundle enc_key v token

  -- The loop over the envelopes `{"a": agent, "c": cipher}`, which `parse` reads: `json.Unmarshal`
  -- into the struct `envelope`.
  unfoldable pub decrypt_each :
      (String → Option (String × String))
      → String
      → List String
      → List (List ℕ)
      → Reply (List (List ℕ))
  decrypt_each parse secret [] out = success out (length out)
  decrypt_each parse secret (blob ∷ blobs) out = elim (parse blob) [
    | none ↦ failure "error" invalid_argument bad_envelope
    | some (agent, cipher) ↦ elim (derive_agent_key prim secret agent) [
      | Crypto.err e ↦ failure "error" internal (of_crypto e)
      | Crypto.ok dek ↦ elim (decrypt_metadata prim cipher dek) [
        | Crypto.err e ↦ failure "error" internal (of_crypto e)
        | Crypto.ok pt ↦ decrypt_each parse secret blobs (out ++ pt ∷ [])
      ]
    ]
  ]

  unfoldable pub decrypt_metadata_rpc :
      Clocks
      → (String → Option (String × String))
      → Vault
      → String
      → List String
      → Vault × Reply (List (List ℕ))
  decrypt_metadata_rpc clocks parse v token blobs =
      guarded dates clocks "decrypt_metadata" "decrypt_metadata" none v token λ role.
        if v.team_secret == ""
        then failure "error" internal no_team_secret
        else decrypt_each parse v.team_secret blobs []

  module _ {ℓ} {Score : Type ℓ} (gt : Score → Score → Bool) where
    unfoldable pub score_reply :
        ℤ → Option (List (List Score) × List ℤ) → String → Reply (List (ScoreEntry Score))
    score_reply top_k none message = failure "error" internal (decrypt_failed message)
    score_reply top_k (some (scores, shard_idx)) message =
        elim (top_k_from_shards gt scores shard_idx top_k) [
          | none ↦ panicked
          | some entries ↦ success entries (length entries)
        ]

    unfoldable pub scores_body :
        Option (Decryptor Score) → ℤ → String → Role → Reply (List (ScoreEntry Score))
    unfolding score_reply
    scores_body keys top_k blob role =
        if ltb_ℤ role.top_k top_k
        then failure "denied" invalid_argument
            (of_token (top_k_exceeded top_k role.top_k role.name))
        else elim (prim.decode64 blob) [
          | none ↦ failure "error" invalid_argument bad_blob
          | some bytes ↦ elim keys [
            | none ↦ failure "error" internal key_not_loaded
            | some decrypt ↦
                let (message, scores) = decrypt bytes in score_reply top_k scores message
          ]
        ]

    unfoldable pub decrypt_scores :
        Clocks
        → Option (Decryptor Score)
        → Vault
        → String
        → String
        → ℤ
        → Vault × Reply (List (ScoreEntry Score))
    decrypt_scores clocks keys v token blob top_k =
        guarded dates clocks "decrypt_scores" "decrypt_scores" (some top_k) v token
          (scores_body keys top_k blob)
