-- ===== src/Tokens/Token.antt =====
-- vault/internal/tokens/token.go, and the making of token texts and dates in store.go.
pub mod Fresh
use rune_admin.Prelude.{
  ℕ, ◌+◌, ◌*◌, ◌/◌, ◌%◌, ◌<◌, String, ◌≡◌, ◌≢◌, Bool, true, false, Option, none, some, List, [],
  ◌∷◌, get_or, ◌==◌, if◌then◌else◌, ltb, ℤ, pos, ◌+ℤ◌,
}
use Prim.Native.String.{◌++◌ as concat}
use rune_admin.Tokens.Errors.{Result, ok, err, no_entropy}

pub record Token : Type 0 where
  pub user : String
  pub token : String
  pub role : String
  pub issued_at : String
  pub expires : String

-- `time.Parse` and `Format` at "2006-01-02". A day is counted from 0000-01-01, and a time is in
-- nanoseconds from the start of that day, in UTC. Parsed years are those of four digits.
pub record Dates : Type 0 where
  pub parse_date : String → Option ℕ
  pub format_date : ℤ → String
  pub format_date-ne-empty : (d : ℤ) → format_date d ≢ ""
  pub parse_date-format_date : (d : ℕ) → d < 3652425 → parse_date (format_date (pos d)) ≡ some d

-- The day of a time.
abbrev pub day_of : ℕ → ℕ
day_of now = now / 86400000000000

unfoldable pub is_expired_at : Dates → Token → ℕ → Bool
is_expired_at dates tok now =
    if tok.expires == ""
    then false
    else elim (dates.parse_date tok.expires) [ none ↦ false | some exp ↦ ltb exp (day_of now) ]

-- `nil` days give no expiry date.
unfoldable pub expiry_date : Dates → ℕ → Option ℤ → String
expiry_date dates now none = ""
expiry_date dates now (some days) = dates.format_date (pos (day_of now) +ℤ days)

abbrev pub hex_digits : List String
hex_digits =
    "0" ∷ "1" ∷ "2" ∷ "3" ∷ "4" ∷ "5" ∷ "6" ∷ "7" ∷ "8" ∷ "9" ∷ "a" ∷ "b" ∷ "c" ∷ "d" ∷ "e" ∷ "f"
    ∷ []

unfoldable pub hex_digit : ℕ → String
hex_digit n = get_or hex_digits n ""

-- hex.EncodeToString
unfoldable pub hex_encode : List ℕ → String
unfolding hex_digit
hex_encode [] = ""
hex_encode (b ∷ bs) = concat (hex_digit (b / 16)) (concat (hex_digit (b % 16)) (hex_encode bs))

-- The 16 bytes that `rand.Read` gave, or its failure, which the source passes on although the Go of go.mod has none.
unfoldable pub new_token_string : Option (List ℕ) → Result String
unfolding hex_encode
new_token_string none = err no_entropy
new_token_string (some bytes) = ok (concat "evt_" (hex_encode bytes))
