-- ===== src/Tokens/Role.antt =====
-- vault/internal/tokens/role.go: roles, their scope, and the format of a rate limit.
pub mod Format
use rune_admin.Prelude.{
  ℕ, String, codes, ◌≡◌, Bool, true, false, not, ◌&&◌, ◌||◌, Option, none, some, List, [], ◌∷◌, ◌*◌,
  ◌==◌, ◌==ℕ◌, if◌then◌else◌, ℤ, pos,
}
use rune_admin.Machine.{wrap64}
use rune_admin.Digits.{leading, trailing, is_empty, atoi}
use rune_admin.Dict
use rune_admin.Dict.{Dict}
use rune_admin.Tokens.Errors.{Error, scope, bad_rate_limit, Result, ok, err}

pub record Role : Type 0 where
  pub name : String
  pub scopes : List String
  pub top_k : ℤ
  pub rate_limit : String

-- The end of the expression: `(\d+)s$`.
match_window : List ℕ → List ℕ → List ℕ → Option (List ℕ × List ℕ)
match_window m w (c ∷ []) = if (c ==ℕ b's') && not (is_empty w) then some (m, w) else none
match_window m w _ = none

match_slash : List ℕ → List ℕ → Option (List ℕ × List ℕ)
unfolding match_window
match_slash m (c ∷ cs) =
    if (c ==ℕ b'/') && not (is_empty m) then match_window m (leading cs) (trailing cs) else none
match_slash m [] = none

-- rateLimitRE = `^(\d+)/(\d+)s$`: the two groups.
unfoldable pub rate_limit_re : List ℕ → Option (List ℕ × List ℕ)
unfolding match_slash
rate_limit_re cs = match_slash (leading cs) (trailing cs)

-- The number of requests, and the window in nanoseconds: `time.Duration(winSec) * time.Second`.
unfoldable pub rate_limit_parsed : Role → Result (ℤ × ℤ)
unfolding rate_limit_re
rate_limit_parsed r = elim (rate_limit_re (codes r.rate_limit)) [
  | none ↦ err (bad_rate_limit r.rate_limit)
  | some (m, w) ↦ ok (pos (atoi m), wrap64 (pos (atoi w * 1000000000)))
]

unfoldable pub validate_rate_limit : String → Option Error
unfolding rate_limit_re
validate_rate_limit s = elim (rate_limit_re (codes s)) [
  | none ↦ some (bad_rate_limit s)
  | some _ ↦ none
]

-- The loop of `CheckScope`.
unfoldable pub has_scope : List String → String → Bool
has_scope [] m = false
has_scope (s ∷ ss) m = s == m || has_scope ss m

unfoldable pub check_scope : Role → String → Option Error
unfolding has_scope
check_scope r m = if has_scope r.scopes m then none else some (scope m r.name)

abbrev pub demo_token : String
demo_token = "evt_0000000000000000000000000000demo"

abbrev pub admin_role : Role
admin_role = record {
  name = "admin";
  scopes = "get_public_key" ∷ "decrypt_scores" ∷ "decrypt_metadata" ∷ "manage_tokens" ∷ [];
  top_k = pos 50;
  rate_limit = "150/60s";
}

abbrev pub member_role : Role
member_role = record {
  name = "member";
  scopes = "get_public_key" ∷ "decrypt_scores" ∷ "decrypt_metadata" ∷ [];
  top_k = pos 10;
  rate_limit = "30/60s";
}

-- DefaultRoles(), as the list of the map's entries.
abbrev pub default_roles : List (String × Role)
default_roles = ("admin", admin_role) ∷ ("member", member_role) ∷ []

unfoldable pub is_default_role_name : String → Bool
is_default_role_name name = name == "admin" || name == "member"
