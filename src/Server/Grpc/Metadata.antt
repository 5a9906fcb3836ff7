-- ===== src/Server/Grpc/Metadata.antt =====
-- `DecryptMetadata` decrypts the whole list or returns an error.
use rune_admin.Prelude.{
  ℕ, String, ◌≡◌, ◌≢◌, sym, ◌∙◌, Option, some, List, [], ◌∷◌, ◌++◌, arith, All, length, eq_iff,
}
use mathlib.Core.List.{append-nil, append_assoc}
use rune_admin.Crypto.Metadata as Crypto
use rune_admin.Crypto.Metadata.{
  Primitives, AreBytes, derive_agent_key, encrypt_metadata, decrypt_metadata,
}
use rune_admin.Crypto.Metadata.RoundTrip.{decrypt_metadata-encrypt_metadata}
use rune_admin.Tokens.Token.{Dates}
use rune_admin.Server.Grpc.{success, decrypt_each}

-- One item that an agent has encrypted under its own key, in its envelope.
pub record Item : Type 0 where
  pub agent : String
  pub iv : List ℕ
  pub plaintext : List ℕ
  pub cipher : String
  pub envelope : String

module _ (prim : Primitives) (dates : Dates) (parse : String → Option (String × String))
    (secret : String) where
  -- The item is well formed: its cipher text is the encryption, and its envelope is read back.
  pub record IsSealed (x : Item) : Type 0 where
    pub long_iv : length x.iv ≡ 16
    pub iv_bytes : AreBytes x.iv
    pub bytes : AreBytes x.plaintext
    pub encrypted :
        encrypt_metadata prim (some x.iv) x.plaintext (prim.hkdf secret x.agent)
        ≡ Crypto.ok x.cipher
    pub parsed : parse x.envelope ≡ some (x.agent, x.cipher)

  abbrev pub envelopes : List Item → List String
  envelopes [] = []
  envelopes (x ∷ xs) = x.envelope ∷ envelopes xs

  abbrev pub plaintexts : List Item → List (List ℕ)
  plaintexts [] = []
  plaintexts (x ∷ xs) = x.plaintext ∷ plaintexts xs

  decrypt_item :
      (x : Item)
      → IsSealed x
      → decrypt_metadata prim x.cipher (prim.hkdf secret x.agent) ≡ Crypto.ok x.plaintext
  decrypt_item x s =
      let (text, made, back) =
        decrypt_metadata-encrypt_metadata prim x.iv x.plaintext (prim.hkdf secret x.agent)
          (prim.hkdf-length secret x.agent) s.long_iv s.iv_bytes s.bytes in
      let same : Crypto.ok text ≡ Crypto.ok x.cipher = sym made ∙ s.encrypted in
      let same_text : text ≡ x.cipher = ground arith in rw (← same_text) back

  decrypt_each-from :
      (xs : List Item) (out : List (List ℕ))
      → secret ≢ ""
      → All IsSealed xs
      → decrypt_each prim dates parse secret (envelopes xs) out
        ≡ success (out ++ plaintexts xs) (length (out ++ plaintexts xs))
  unfolding decrypt_each derive_agent_key
  decrypt_each-from [] out given h = rw append-nil
  decrypt_each-from (x ∷ xs) out given h =
      let rest = decrypt_each-from xs (out ++ x.plaintext ∷ []) given h.1 in
      ground (
        arith,
        h.0.parsed,
        decrypt_item x h.0,
        eq_iff secret "",
        given,
        rest,
        append_assoc out (x.plaintext ∷ []) (plaintexts xs),
      )

  -- With a team secret, the envelopes of items that were encrypted under their agents' keys are all decrypted, in order.
  pub decrypt_each-sealed :
      (xs : List Item)
      → secret ≢ ""
      → All IsSealed xs
      → decrypt_each prim dates parse secret (envelopes xs) []
        ≡ success (plaintexts xs) (length (plaintexts xs))
  decrypt_each-sealed xs given h = decrypt_each-from xs [] given h
