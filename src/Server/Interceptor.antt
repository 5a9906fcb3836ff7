-- ===== src/Server/Interceptor.antt =====
-- vault/internal/server/interceptors.go. A text is its code points. The checks that protovalidate
-- makes from the annotations of the .proto file are a parameter.
pub mod Laws
use rune_admin.Prelude.{
  ℕ, String, codes, Bool, true, false, not, ◌&&◌, ◌||◌, Option, none, some, List, [], ◌∷◌, ◌==◌,
  ◌==ℕ◌, ltb, leb, if◌then◌else◌, ℤ,
}
use mathlib.Core.List.{reverse}

pub data TokenFault : Type 0 where
  control_character : TokenFault
  surrounding_space : TokenFault

-- `r < 0x20 || r == 0x7f`, then `unicode.IsControl(r)`.
unfoldable pub is_control : ℕ → Bool
is_control r = ltb r 32 || r ==ℕ 127 || ltb r 32 || (leb 127 r && leb r 159)

-- unicode.IsSpace
unfoldable pub is_space : ℕ → Bool
is_space r =
    (leb 9 r && leb r 13)
    || r ==ℕ 32
    || r ==ℕ 133
    || r ==ℕ 160
    || r ==ℕ 5760
    || (leb 8192 r && leb r 8202)
    || r ==ℕ 8232
    || r ==ℕ 8233
    || r ==ℕ 8239
    || r ==ℕ 8287
    || r ==ℕ 12288

-- The loop over the runes.
unfoldable pub has_control : List ℕ → Bool
unfolding is_control
has_control [] = false
has_control (r ∷ rs) = is_control r || has_control rs

unfoldable pub trim_left : List ℕ → List ℕ
unfolding is_space
trim_left [] = []
trim_left (r ∷ rs) = let rest = trim_left rs in if is_space r then rest else r ∷ rs

-- strings.TrimSpace
unfoldable pub trim_space : List ℕ → List ℕ
unfolding trim_left
trim_space rs = reverse (trim_left (reverse (trim_left rs)))

unfoldable pub same_codes : List ℕ → List ℕ → Bool
same_codes [] [] = true
same_codes (x ∷ xs) (y ∷ ys) = x ==ℕ y && same_codes xs ys
same_codes _ _ = false

unfoldable pub check_token_safety : List ℕ → Option TokenFault
check_token_safety rs =
    if has_control rs
    then some control_character
    else if not (same_codes rs (trim_space rs))
    then some surrounding_space
    else none

-- The requests of the server: those of the Vault service, and those of others.
pub data Request : Type 0 where
  get_agent_manifest : String → Request
  decrypt_scores : String → String → ℤ → Request
  decrypt_metadata : String → List String → Request
  other : Request

unfoldable pub runtime_check_token : Request → Option TokenFault
unfolding check_token_safety
runtime_check_token (get_agent_manifest token) = check_token_safety (codes token)
runtime_check_token (decrypt_scores token _ _) = check_token_safety (codes token)
runtime_check_token (decrypt_metadata token _) = check_token_safety (codes token)
runtime_check_token other = none

unfoldable pub is_vault_method : String → Bool
is_vault_method m =
    m == "/rune.vault.v1.VaultService/GetAgentManifest"
    || m == "/rune.vault.v1.VaultService/DecryptScores"
    || m == "/rune.vault.v1.VaultService/DecryptMetadata"

-- The two refusals are InvalidArgument errors; `handled` is what the handler returns.
pub data Intercepted {ℓ} (A : Type ℓ) : Type ℓ where
  invalid : String → Intercepted A
  unsafe : TokenFault → Intercepted A
  handled : A → Intercepted A

unfoldable pub intercept {ℓ} :
    {A : Type ℓ} → (Request → Option String) → String → Request → (Request → A) → Intercepted A
intercept validate full_method req handler = elim (validate req) [
  | some e ↦ invalid e
  | none ↦ elim (if is_vault_method full_method then runtime_check_token req else none) [
    | some e ↦ unsafe e
    | none ↦ handled (handler req)
  ]
]
