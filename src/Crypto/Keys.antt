-- ===== src/Crypto/Keys.antt =====
-- vault/internal/crypto/keys.go: the FHE key handle. The SDK is a parameter: whether a bundle is there, how a
-- generation and an opening go, and what an open handle decrypts.
use rune_admin.Prelude.{ℕ, ℤ, String, Bool, true, false, if◌then◌else◌, Option, none, some, List}

pub record KeysParams : Type 0 where
  pub root : String
  pub key_id : String
  pub dim : ℤ

-- How envector.GenerateKeys ends.
pub data Generated : Type 0 where
  made : Generated
  already_exist : Generated
  not_made : Generated

pub record Sdk (H : Type 0) : Type 0 where
  -- filepath.Join
  pub join_path : String → String → String
  pub keys_exist : String → KeysParams → Bool
  -- os.MkdirAll of the key directory
  pub make_dir : String → Bool
  pub generate : String → KeysParams → Generated
  pub open_sec : String → KeysParams → Option H
  -- os.ReadFile
  pub read_file : String → Option String

pub data KeysError : Type 0 where
  mkdir_failed : KeysError
  generate_failed : KeysError
  open_failed : KeysError
  read_failed : KeysError

module _ {H : Type 0} (sdk : Sdk H) (p : KeysParams) where
  unfoldable pub key_dir : String
  key_dir = sdk.join_path p.root p.key_id

  -- The error, and whether a generation was asked for.
  unfoldable pub ensure_keys : Option KeysError × Bool
  unfolding key_dir
  ensure_keys =
      if sdk.keys_exist key_dir p
      then (none, false)
      else if sdk.make_dir key_dir
      then elim (sdk.generate key_dir p) [
        | made ↦ (none, true)
        | already_exist ↦ (none, true)
        | not_made ↦ (some generate_failed, true)
      ]
      else (some mkdir_failed, false)

  unfoldable pub read_enc_key : Option String
  unfolding key_dir
  read_enc_key = sdk.read_file (sdk.join_path key_dir "EncKey.json")

  -- OpenSecretKey: the handle with its pointer to the SDK's keys.
  unfoldable pub open_secret_key : Option (Option H)
  unfolding key_dir
  open_secret_key = elim (sdk.open_sec key_dir p) [ none ↦ none | some k ↦ some (some k) ]

-- A handle whose pointer `Close` has set to nil is `none`. The call of the SDK, if there is one, is returned.
unfoldable pub close : {H : Type 0} → Option H → Option H × Option H
close none = (none, none)
close (some k) = (none, some k)

unfoldable pub decrypt {ℓ} :
    {H : Type 0} → {A : Type ℓ} → (H → List ℕ → Option A) → Option H → List ℕ → Option A
decrypt sdk_decrypt none blob = none
decrypt sdk_decrypt (some k) blob = sdk_decrypt k blob
