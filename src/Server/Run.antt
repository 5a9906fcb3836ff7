-- ===== src/Server/Run.antt =====
-- The server as it runs: gRPC calls of vault/internal/server/grpc.go behind the interceptor of interceptors.go,
-- and requests of admin.go, in any order, on the
-- one Vault that they share.
use rune_admin.Prelude.{
  ℕ, suc, ◌+◌, String, ◌≡◌, Bool, true, false, Option, List, length, if◌then◌else◌,
}
use rune_admin.Crypto.Metadata.{Primitives}
use rune_admin.Tokens.Role.{Role}
use rune_admin.Tokens.Token.{Dates}
use rune_admin.Tokens.Store.Access.{Clocks}
use rune_admin.Tokens.Store.Invariant.{IsConsistent}
use rune_admin.Server.Interceptor.{Request, Intercepted, invalid, unsafe, handled, intercept}
use rune_admin.Server.Interceptor.Laws.{VaultCall}
use rune_admin.Server.TopK.{ScoreEntry}
use rune_admin.Server.Grpc.{Manifest}
use rune_admin.Server.Admin.{AdminRequest, serve_admin}
use rune_admin.Server.Admin.Steps.{IsFreshFor}
use rune_admin.Server.Grpc.{
  Reply, Vault, get_agent_manifest, decrypt_metadata_rpc, decrypt_scores, Decryptor,
}

-- What the calls use of the outside: the two decoders, the declared constraints, and what is random or external.
pub record Service : Type 1 where
  pub prim : Primitives
  pub dates : Dates
  pub Score : Type 0
  pub gt : Score → Score → Bool
  pub parse : String → Option (String × String)
  pub validate_request : Request → Option String

-- What one call finds: the clocks, the file of the public key and the FHE key.
pub record Found (Score : Type 0) : Type 0 where
  pub clocks : Clocks
  pub enc_key : Option String
  pub keys : Option (Decryptor Score)

pub data Answered (Score : Type 0) : Type 0 where
  of_manifest : Reply Manifest → Answered Score
  of_scores : Reply (List (ScoreEntry Score)) → Answered Score
  of_metadata : Reply (List (List ℕ)) → Answered Score
  of_other : Answered Score

module _ (service : Service) where
  -- The Vault service's methods; the other services do not have the Vault.
  unfoldable pub handle : Found service.Score → Vault → Request → Vault × Answered service.Score
  handle found v (Request.get_agent_manifest token) =
      let (v', reply) =
        get_agent_manifest service.prim service.dates found.clocks found.enc_key v token in
      (v', of_manifest reply)
  handle found v (Request.decrypt_scores token blob top_k) =
      let (v', reply) =
        decrypt_scores service.prim service.dates service.gt found.clocks found.keys v token blob
          top_k in
      (v', of_scores reply)
  handle found v (Request.decrypt_metadata token blobs) =
      let (v', reply) =
        decrypt_metadata_rpc service.prim service.dates found.clocks service.parse v token blobs in
      (v', of_metadata reply)
  handle found v Request.other = (v, of_other)

  -- The interceptor stands before every call. One that it refuses does not reach the Vault.
  unfoldable pub serve_call :
      Found service.Score → Vault → String → Request → Vault × Intercepted (Answered service.Score)
  unfolding handle
  serve_call found v full_method req =
      elim (intercept service.validate_request full_method req (handle found v)) [
        | invalid e ↦ (v, invalid e)
        | unsafe e ↦ (v, unsafe e)
        | handled (v', reply) ↦ (v', handled reply)
      ]

abbrev pub is_handled {ℓ} : {A : Type ℓ} → Intercepted A → Bool
is_handled (handled _) = true
is_handled _ = false

-- A run of the server, with the number of its calls that the interceptor let through.
pub data Run (service : Service) (v : Vault) : ℕ → Vault → Type 1 where
  started : Run service v 0 v
  call :
      {n : ℕ} {w : Vault} {full_method token : String} {req : Request}
      → Run service v n w
      → (found : Found service.Score) → VaultCall full_method req token
      → Run service v
          (if is_handled (serve_call service found w full_method req).1 then suc n else n)
          (serve_call service found w full_method req).0
  admin :
      {n : ℕ} {w : Vault}
      → Run service v n w
      → (now : ℕ → ℕ) (entropy : ℕ → Option (List ℕ)) (r : AdminRequest)
      → Run service v n (record w { store = (serve_admin service.dates now entropy r w.store).0 })

-- The texts that the run makes for new tokens are not in use.
abbrev pub IsAlwaysFresh : {service : Service} {v w : Vault} {n : ℕ} → Run service v n w → Type 0
IsAlwaysFresh started = Unit
IsAlwaysFresh (call run _ _) = IsAlwaysFresh run
IsAlwaysFresh {service = service} (admin {w = w} run now entropy r) =
    IsFreshFor service.dates now entropy r w.store × IsAlwaysFresh run

-- What holds after `n` calls that were let through, from `v` on.
pub record HasServed (v : Vault) (n : ℕ) (w : Vault) : Type 0 where
  pub consistent : IsConsistent w.store
  pub same_switch : w.audit_on ≡ v.audit_on
  pub logged : length w.log ≡ length v.log + (if v.audit_on then n else 0)
