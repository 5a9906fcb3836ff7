-- ===== src/Tokens/Token/Fresh.antt =====
-- The shape of a new token's text.
use Prim.Native.String.{◌++◌ as concat, count}
use text.Mathlib.TextLemmas.{length-append, nil-append, cons-append}
use rune_admin.Prelude.{
  ℕ, ◌*◌, ◌/◌, ◌%◌, ◌<◌, ◌≤◌, String, ◌≡◌, refl, ap, some, List, [], ◌∷◌, ◌++◌, arith, All, length,
  codes, All-get_or, All-append, code,
}
use rune_admin.Tokens.Errors.{ok}
use rune_admin.Tokens.Token.{hex_digits, hex_digit, hex_encode, new_token_string}

-- A printable ASCII character other than the space.
abbrev pub IsVisible : ℕ → Type 0
IsVisible c = (33 ≤ c) × (c ≤ 126)

abbrev IsDigitText : String → Type 0
IsDigitText s = (count s ≡ 1) × All IsVisible (codes s)

hex_digits-IsDigitText : All IsDigitText hex_digits
hex_digits-IsDigitText = omega arith

hex_digit-IsDigitText : (n : ℕ) → n < 16 → IsDigitText (hex_digit n)
unfolding hex_digit
hex_digit-IsDigitText n h = All-get_or IsDigitText hex_digits n "" hex_digits-IsDigitText h

pub codes-concat : (s t : String) → codes (concat s t) ≡ codes s ++ codes t
codes-concat String.[] t = rw nil-append
codes-concat (String.◌∷◌ c s) t = rw cons-append (ap (◌∷◌ (code c)) (codes-concat s t))

-- Two characters for each byte.
hex_encode-shape :
    (bytes : List ℕ)
    → All (λ b. b < 256) bytes
    → (count (hex_encode bytes) ≡ 2 * length bytes) × All IsVisible (codes (hex_encode bytes))
unfolding hex_encode
hex_encode-shape [] h = (refl, tt)
hex_encode-shape (b ∷ bytes) h =
    let high = hex_digit-IsDigitText (b / 16) (omega arith) in
    let low = hex_digit-IsDigitText (b % 16) (omega arith) in
    let rest = hex_encode-shape bytes h.1 in
    let tail = concat (hex_digit (b % 16)) (hex_encode bytes) in
    (
      omega (
        arith,
        high.0,
        low.0,
        rest.0,
        length-append (hex_digit (b / 16)) tail,
        length-append (hex_digit (b % 16)) (hex_encode bytes),
      ),
      rw (codes-concat, codes-concat)
          (All-append IsVisible _ _ high.1 (All-append IsVisible _ _ low.1 rest.1)),
    )

-- From 16 bytes, a new token has the 36 characters that the request validation asks for, all of
-- them printable and none of them a space.
pub new_token_string-shape :
    (bytes : List ℕ) {t : String}
    → length bytes ≡ 16
    → All (λ b. b < 256) bytes
    → new_token_string (some bytes) ≡ ok t
    → (count t ≡ 36) × All IsVisible (codes t)
unfolding new_token_string
new_token_string-shape bytes {t} len small made =
    let body = hex_encode-shape bytes small in
    let same : concat "evt_" (hex_encode bytes) ≡ t = cc in
    rw (← same) (
      omega (arith, body.0, length-append "evt_" (hex_encode bytes)),
      rw codes-concat (All-append IsVisible (codes "evt_") _ (omega arith) body.1),
    )
