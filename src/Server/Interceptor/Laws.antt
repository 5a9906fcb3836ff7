-- ===== src/Server/Interceptor/Laws.antt =====
-- Which tokens pass the request checks.
use rune_admin.Prelude.{
  ℕ, ◌≤◌, String, codes, ◌≡◌, refl, sym, ap, true, false, Option, none, some, List, [], ◌∷◌, arith,
  All, length, ◌+◌, ◌<◌, Bool-cases, inl, inr, ◌↔◌, if◌then◌else◌, ℤ,
}
use mathlib.Core.List.{reverse, reverse_aux, reverse-reverse}
use rune_admin.Tokens.Errors.{ok}
use rune_admin.Tokens.Token.{new_token_string}
use rune_admin.Tokens.Token.Fresh.{IsVisible, new_token_string-shape}
use mathlib.Core.Path.{subst}
use rune_admin.Server.Interceptor.{
  is_control, is_space, has_control, trim_left, trim_space, same_codes, check_token_safety, Request,
  runtime_check_token, is_vault_method, handled, intercept, get_agent_manifest, decrypt_scores,
  decrypt_metadata, TokenFault,
}

-- The first code point, if there is one, is no space.
abbrev pub FirstNotSpace : List ℕ → Type 0
FirstNotSpace [] = Unit
FirstNotSpace (r ∷ rs) = is_space r ≡ false

same_codes_refl : (xs : List ℕ) → same_codes xs xs ≡ true
unfolding same_codes
same_codes_refl [] = refl
same_codes_refl (x ∷ xs) = ground (arith, same_codes_refl xs)

same_codes-eq : (xs ys : List ℕ) → same_codes xs ys ≡ true → xs ≡ ys
unfolding same_codes
same_codes-eq [] [] h = refl
same_codes-eq [] (y ∷ ys) h = cc
same_codes-eq (x ∷ xs) [] h = cc
same_codes-eq (x ∷ xs) (y ∷ ys) h = ground (arith, same_codes-eq xs ys)

trim_left-keeps : (rs : List ℕ) → FirstNotSpace rs → trim_left rs ≡ rs
unfolding trim_left
trim_left-keeps [] h = refl
trim_left-keeps (r ∷ rs) h = ground arith

trim_left-first : (rs : List ℕ) → FirstNotSpace (trim_left rs)
unfolding trim_left
trim_left-first [] = tt
trim_left-first (r ∷ rs) = elim (Bool-cases (is_space r)) [
  | inl e ↦ rw (e, if◌then◌else◌) (trim_left-first rs)
  | inr e ↦ rw (e, if◌then◌else◌) e
]

no_control : (rs : List ℕ) → (has_control rs ≡ false) ↔ All (λ r. is_control r ≡ false) rs
unfolding has_control
no_control [] = ((λ _. tt), (λ _. refl))
no_control (r ∷ rs) = ground (arith, no_control rs)

length-reverse_aux : (xs ys : List ℕ) → length (reverse_aux xs ys) ≡ length xs + length ys
length-reverse_aux [] ys = omega arith
length-reverse_aux (x ∷ xs) ys = omega (arith, length-reverse_aux xs (x ∷ ys))

length-reverse : (xs : List ℕ) → length (reverse xs) ≡ length xs
length-reverse xs = omega (arith, length-reverse_aux xs [])

length-trim_left : (rs : List ℕ) → length (trim_left rs) ≤ length rs
unfolding trim_left
length-trim_left [] = omega arith
length-trim_left (r ∷ rs) = ground (arith, length-trim_left rs)

-- With a space at the front, the trimmed text is shorter.
trim_space-shorter :
    (r : ℕ) (rs : List ℕ) → is_space r ≡ true → length (trim_space (r ∷ rs)) < length (r ∷ rs)
unfolding trim_space trim_left
trim_space-shorter r rs e =
    rw (e, if◌then◌else◌) omega
      (
        arith,
        length-trim_left rs,
        length-reverse (trim_left rs),
        length-trim_left (reverse (trim_left rs)),
        length-reverse (trim_left (reverse (trim_left rs))),
      )

trim_space-same_first : (rs : List ℕ) → rs ≡ trim_space rs → FirstNotSpace rs
trim_space-same_first [] h = tt
trim_space-same_first (r ∷ rs) h = elim (Bool-cases (is_space r)) [
  | inl e ↦ absurd (omega (arith, trim_space-shorter r rs e, ap length h))
  | inr e ↦ e
]

trim_space-last : (rs : List ℕ) → FirstNotSpace (reverse (trim_space rs))
unfolding trim_space
trim_space-last rs = rw reverse-reverse (trim_left-first (reverse (trim_left rs)))

trim_space-keeps :
    (rs : List ℕ) → FirstNotSpace rs → FirstNotSpace (reverse rs) → trim_space rs ≡ rs
unfolding trim_space
trim_space-keeps rs first last =
    rw (trim_left-keeps rs first, trim_left-keeps (reverse rs) last) (reverse-reverse rs)

-- The token check passes exactly a text with no control character whose first and last characters,
-- if there are any, are no spaces.
pub check_token_safety_iff :
    (rs : List ℕ)
    → (check_token_safety rs ≡ none)
      ↔ (All (λ r. is_control r ≡ false) rs × FirstNotSpace rs × FirstNotSpace (reverse rs))
unfolding check_token_safety
check_token_safety_iff rs = elim (Bool-cases (has_control rs)) [
  | inl c ↦ ((λ h. absurd cc), (λ h. let n = (no_control rs).1 h.0 in absurd cc))
  | inr c ↦ elim (Bool-cases (same_codes rs (trim_space rs))) [
    | inl s ↦
        let same = same_codes-eq rs (trim_space rs) s in
        (
          (λ _. (
            (no_control rs).0 c,
            trim_space-same_first rs same,
            subst (λ t. FirstNotSpace (reverse t)) (sym same) (trim_space-last rs),
          )),
          (λ _. rw (c, s) refl),
        )
    | inr s ↦ (
      (λ h. absurd (ground arith)),
      (λ h. let kept = trim_space-keeps rs h.1 h.2 in let e = same_codes_refl rs in absurd cc),
    )
  ]
]

All-reverse_aux :
    (P : ℕ → Type 0) (xs ys : List ℕ) → All P xs → All P ys → All P (reverse_aux xs ys)
All-reverse_aux P [] ys hx hy = hy
All-reverse_aux P (x ∷ xs) ys hx hy = All-reverse_aux P xs (x ∷ ys) hx.1 (hx.0, hy)

IsVisible-first : (rs : List ℕ) → All IsVisible rs → FirstNotSpace rs
unfolding is_space
IsVisible-first [] h = tt
IsVisible-first (r ∷ rs) h = ground arith

IsVisible-no_control : (rs : List ℕ) → All IsVisible rs → All (λ r. is_control r ≡ false) rs
unfolding is_control
IsVisible-no_control [] h = tt
IsVisible-no_control (r ∷ rs) h = (ground arith, IsVisible-no_control rs h.1)

check_token_safety-visible : (rs : List ℕ) → All IsVisible rs → check_token_safety rs ≡ none
check_token_safety-visible rs h = (check_token_safety_iff rs).1 (
  IsVisible-no_control rs h,
  IsVisible-first rs h,
  IsVisible-first (reverse rs) (All-reverse_aux IsVisible rs [] h tt),
)

-- The token text made from 16 bytes passes the token check of the requests.
pub new_token_string-is_safe :
    (bytes : List ℕ) {t : String}
    → length bytes ≡ 16
    → All (λ b. b < 256) bytes
    → new_token_string (some bytes) ≡ ok t
    → check_token_safety (codes t) ≡ none
new_token_string-is_safe bytes len small made =
    check_token_safety-visible _ (new_token_string-shape bytes len small made).1

-- The calls of the Vault service of vault.proto, each with its method's full name and its token.
pub data VaultCall : String → Request → String → Type 0 where
  manifest_call :
      (token : String)
      → VaultCall "/rune.vault.v1.VaultService/GetAgentManifest" (get_agent_manifest token) token
  scores_call :
      (token blob : String) (top_k : ℤ)
      → VaultCall "/rune.vault.v1.VaultService/DecryptScores"
          (decrypt_scores token blob top_k)
          token
  metadata_call :
      (token : String) (blobs : List String)
      → VaultCall "/rune.vault.v1.VaultService/DecryptMetadata" (decrypt_metadata token blobs) token

-- A text without control characters, which neither begins nor ends with a space.
abbrev pub IsSafe : String → Type 0
IsSafe token =
    All (λ r. is_control r ≡ false) (codes token)
    × FirstNotSpace (codes token)
    × FirstNotSpace (reverse (codes token))

checked_call :
    (full_method token : String) (req : Request)
    → VaultCall full_method req token
    → (is_vault_method full_method ≡ true)
      × (runtime_check_token req ≡ check_token_safety (codes token))
unfolding is_vault_method runtime_check_token
checked_call _ _ _ (manifest_call token) = (refl, refl)
checked_call _ _ _ (scores_call token blob top_k) = (refl, refl)
checked_call _ _ _ (metadata_call token blobs) = (refl, refl)

passed {ℓ} :
    {A : Type ℓ} (validate : Request → Option String) (full_method : String) (req : Request)
    (handler : Request → A) (a : A) {fault : Option TokenFault}
    → is_vault_method full_method ≡ true
    → runtime_check_token req ≡ fault
    → (intercept validate full_method req handler ≡ handled a)
      ↔ ((validate req ≡ none) × (fault ≡ none) × (handler req ≡ a))
unfolding intercept
passed validate full_method req handler a vault check = ground arith

-- A call of any method of the Vault service reaches its handler exactly if the declared constraints hold and its
-- token is a text without control characters that neither begins nor ends with a space; the answer is then the
-- handler's.
pub intercept_iff {ℓ} :
    {A : Type ℓ} (validate : Request → Option String) {full_method token : String} {req : Request}
    (call : VaultCall full_method req token) (handler : Request → A) (a : A)
    → (intercept validate full_method req handler ≡ handled a)
      ↔ ((validate req ≡ none) × IsSafe token × (handler req ≡ a))
intercept_iff validate {full_method} {token} {req} call handler a =
    let (vault, check) = checked_call full_method token req call in
    let (there, back) = passed validate full_method req handler a vault check in
    let (safe, unsafe_not) = check_token_safety_iff (codes token) in
    (
      (λ h. let (valid, clean, same) = there h in (valid, safe clean, same)),
      (λ (valid, clean, same). back (valid, unsafe_not clean, same)),
    )
