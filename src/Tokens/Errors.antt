-- ===== src/Tokens/Errors.antt =====
-- vault/internal/tokens/errors.go, and the other errors that the package makes by `fmt.Errorf`.
-- An error is the value that its text is printed from; the text itself is not modelled.
use rune_admin.Prelude.{String, ℤ}

pub data Error : Type 0 where
  token_not_found : Error
  token_expired : String → Error
  rate_limit : ℤ → Error
  top_k_exceeded : ℤ → ℤ → String → Error
  scope : String → String → Error
  bad_rate_limit : String → Error
  role_missing : String → Error
  role_exists : String → Error
  token_exists : String → Error
  no_token : String → Error
  default_role : String → Error
  role_in_use : String → String → Error
  no_entropy : Error

-- Go's `(T, error)` where one of the two is nil.
pub data Result {ℓ} (A : Type ℓ) : Type ℓ where
  ok : A → Result A
  err : Error → Result A
