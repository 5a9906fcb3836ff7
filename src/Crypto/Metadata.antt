-- ===== src/Crypto/Metadata.antt =====
-- vault/internal/crypto/metadata.go. Bytes are numbers below 256. What the file takes from the
-- standard library and from golang.org/x/crypto is a parameter.
pub mod RoundTrip
use rune_admin.Prelude.{
  ℕ, zero, suc, ◌+◌, ◌<◌, String, ◌≡◌, Bool, not, Option, none, some, List, [], ◌∷◌, ◌++◌, length,
  take, drop, All, ◌==◌, ◌==ℕ◌, ltb, if◌then◌else◌,
}
use Prim.Native.Nat.{bit_xor}
use Prim.Native.String.{slice}

abbrev pub AreBytes : List ℕ → Type 0
AreBytes = All (λ b. b < 256)

-- `hkdf` is 32 bytes of HKDF-SHA256 with the secret and the info, `sha256` the hexadecimal digest,
-- `keystream` the i-th byte of AES-CTR's key stream for a key and an initial counter, and the other two
-- are base64.StdEncoding.
pub record Primitives : Type 0 where
  pub hkdf : String → String → List ℕ
  pub sha256_hex : String → String
  pub keystream : List ℕ → List ℕ → ℕ → ℕ
  pub encode64 : List ℕ → String
  pub decode64 : String → Option (List ℕ)
  pub hkdf-length : (secret info : String) → length (hkdf secret info) ≡ 32
  pub keystream-lt : (key iv : List ℕ) (i : ℕ) → keystream key iv i < 256
  pub decode64-encode64 : (bs : List ℕ) → AreBytes bs → decode64 (encode64 bs) ≡ some bs

pub data CryptoError : Type 0 where
  empty_secret : CryptoError
  no_iv : CryptoError
  invalid_key : CryptoError
  invalid_ciphertext : CryptoError
  bad_base64 : CryptoError

pub data Outcome {ℓ} (A : Type ℓ) : Type ℓ where
  ok : A → Outcome A
  err : CryptoError → Outcome A

abbrev pub dek_len : ℕ
dek_len = 32

abbrev pub iv_len : ℕ
iv_len = 16

-- cipher.NewCTR(block, iv).XORKeyStream, from the i-th byte of the stream.
unfoldable pub xor_key_stream : (ℕ → ℕ) → ℕ → List ℕ → List ℕ
xor_key_stream stream i [] = []
xor_key_stream stream i (b ∷ bs) = bit_xor b (stream i) ∷ xor_key_stream stream (suc i) bs

module _ (prim : Primitives) where
  open prim use {hkdf, sha256_hex, keystream, encode64, decode64}

  unfoldable pub derive_agent_key : String → String → Outcome (List ℕ)
  derive_agent_key team_secret agent_id =
      if team_secret == "" then err empty_secret else ok (hkdf team_secret agent_id)

  -- The first 32 characters of the digest.
  unfoldable pub agent_id_from_token : String → String
  agent_id_from_token token = slice (sha256_hex token) 0 32

  -- The random counter is an argument. `aes.NewCipher` takes every key of 32 bytes.
  unfoldable pub encrypt_metadata : Option (List ℕ) → List ℕ → List ℕ → Outcome String
  unfolding xor_key_stream
  encrypt_metadata iv plaintext key =
      if not (length key ==ℕ dek_len) then err invalid_key else elim iv [
        | none ↦ err no_iv
        | some iv ↦ ok (encode64 (iv ++ xor_key_stream (keystream key iv) 0 plaintext))
      ]

  unfoldable pub decrypt_metadata : String → List ℕ → Outcome (List ℕ)
  unfolding xor_key_stream
  decrypt_metadata ct64 key =
      if not (length key ==ℕ dek_len) then err invalid_key else elim (decode64 ct64) [
        | none ↦ err bad_base64
        | some raw ↦
            if ltb (length raw) iv_len
            then err invalid_ciphertext
            else ok (xor_key_stream (keystream key (take iv_len raw)) 0 (drop iv_len raw))
      ]
