-- ===== src/Crypto/Metadata/RoundTrip.antt =====
-- Decryption undoes encryption.
use Prim.Native.Nat.{bit_xor}
use rune_admin.Prelude.{
  ℕ, zero, suc, ◌<◌, String, ◌≡◌, refl, ap, Bool, true, ◌&&◌, some, List, [], ◌∷◌, ◌++◌, length,
  take, drop, arith, All-append, ◌==ℕ◌, length-append, ltb,
}
use rune_admin.Crypto.Metadata.{
  AreBytes, Primitives, ok, err, invalid_ciphertext, xor_key_stream, encrypt_metadata,
  decrypt_metadata,
}

-- A test of all numbers below a bound.
all_below : ℕ → (ℕ → Bool) → Bool
all_below zero p = true
all_below (suc n) p = p n && all_below n p

all_below-holds : (n : ℕ) (p : ℕ → Bool) (x : ℕ) → all_below n p ≡ true → x < n → p x ≡ true
unfolding all_below
all_below-holds zero p x h lt = absurd (omega arith)
all_below-holds (suc n) p x h lt = ground (arith, all_below-holds n p x)

twice_xor_row : ℕ → Bool
unfolding all_below
twice_xor_row x = all_below 256 (λ k. (bit_xor (bit_xor x k) k ==ℕ x) && ltb (bit_xor x k) 256)

twice_xor_table : all_below 256 twice_xor_row ≡ true
unfolding all_below twice_xor_row
twice_xor_table = refl

bit_xor_twice : (x k : ℕ) → x < 256 → k < 256 → (bit_xor (bit_xor x k) k ≡ x) × (bit_xor x k < 256)
bit_xor_twice x k hx hk =
    let row = all_below-holds 256 twice_xor_row x twice_xor_table hx in
    let cell =
      all_below-holds 256 (λ k. (bit_xor (bit_xor x k) k ==ℕ x) && ltb (bit_xor x k) 256) k
        (unfold twice_xor_row in row) hk in
    ground arith

module _ (stream : ℕ → ℕ) (small : (i : ℕ) → stream i < 256) where
  xor_key_stream-twice :
      (i : ℕ) (bs : List ℕ)
      → AreBytes bs
      → (xor_key_stream stream i (xor_key_stream stream i bs) ≡ bs)
        × AreBytes (xor_key_stream stream i bs)
  unfolding xor_key_stream
  xor_key_stream-twice i [] h = (refl, tt)
  xor_key_stream-twice i (b ∷ bs) h =
      let (same, byte) = bit_xor_twice b (stream i) h.0 (small i) in
      let (rest, bytes) = xor_key_stream-twice (suc i) bs h.1 in (cc (same, rest), (byte, bytes))

take-append {ℓ} : {A : Type ℓ} (n : ℕ) (xs ys : List A) → length xs ≡ n → take n (xs ++ ys) ≡ xs
take-append zero [] ys h = refl
take-append zero (x ∷ xs) ys h = absurd (omega arith)
take-append (suc n) [] ys h = absurd (omega arith)
take-append (suc n) (x ∷ xs) ys h = ap (◌∷◌ x) (take-append n xs ys (omega arith))

drop-append {ℓ} : {A : Type ℓ} (n : ℕ) (xs ys : List A) → length xs ≡ n → drop n (xs ++ ys) ≡ ys
drop-append zero [] ys h = refl
drop-append zero (x ∷ xs) ys h = absurd (omega arith)
drop-append (suc n) [] ys h = absurd (omega arith)
drop-append (suc n) (x ∷ xs) ys h = drop-append n xs ys (omega arith)

-- With a key of 32 bytes and a random counter of 16 bytes, every plaintext is encrypted, and the
-- decryption of the result under the same key is the plaintext.
pub decrypt_metadata-encrypt_metadata :
    (prim : Primitives) (iv plaintext key : List ℕ)
    → length key ≡ 32
    → length iv ≡ 16
    → AreBytes iv
    → AreBytes plaintext
    → (text : String) × (encrypt_metadata prim (some iv) plaintext key ≡ ok text)
      × (decrypt_metadata prim text key ≡ ok plaintext)
unfolding encrypt_metadata decrypt_metadata
decrypt_metadata-encrypt_metadata prim iv plaintext key long_key long_iv iv_bytes bytes =
    let stream = prim.keystream key iv in
    let (back, cipher_bytes) =
      xor_key_stream-twice stream (prim.keystream-lt key iv) 0 plaintext bytes in
    let cipher = xor_key_stream stream 0 plaintext in
    let decoded =
      prim.decode64-encode64 (iv ++ cipher)
        (All-append (λ b. b < 256) iv cipher iv_bytes cipher_bytes) in
    (
      prim.encode64 (iv ++ cipher),
      ground arith,
      ground (
        arith,
        decoded,
        back,
        length-append iv cipher,
        take-append 16 iv cipher long_iv,
        drop-append 16 iv cipher long_iv,
      ),
    )

-- A text whose decoding has fewer than 16 bytes is refused.
pub decrypt_metadata-short :
    (prim : Primitives) (text : String) (key : List ℕ) {raw : List ℕ}
    → length key ≡ 32
    → prim.decode64 text ≡ some raw
    → length raw < 16
    → decrypt_metadata prim text key ≡ err invalid_ciphertext
unfolding decrypt_metadata
decrypt_metadata-short prim text key long_key decoded short = ground arith
