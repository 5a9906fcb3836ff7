-- ===== src/Tokens/Store/Listing.antt =====
-- `ListTokens` and `ListRoles`.
pub mod Laws
use rune_admin.Prelude.{String, Option, none, some, List, [], ◌∷◌, ◌==◌, if◌then◌else◌, ℤ}
use rune_admin.Dict.{Dict, get, keys}
use rune_admin.Sort.{sort_strings}
use rune_admin.Tokens.Role.{Role}
use rune_admin.Tokens.Token.{Token}
use rune_admin.Tokens.Store.{Store}

-- `TopK any` and `RateLimit any`: the role's value, or "?" for a role that is not there.
pub record TokenInfo : Type 0 where
  pub user : String
  pub role : String
  pub top_k : Option ℤ
  pub rate_limit : Option String
  pub expires : String

pub record RoleInfo : Type 0 where
  pub name : String
  pub scopes : List String
  pub top_k : ℤ
  pub rate_limit : String

unfoldable pub token_info : Dict Role → Token → TokenInfo
token_info roles tok = record {
  user = tok.user;
  role = tok.role;
  top_k = elim (get roles tok.role) [ none ↦ none | some r ↦ some r.top_k ];
  rate_limit = elim (get roles tok.role) [ none ↦ none | some r ↦ some r.rate_limit ];
  expires = if tok.expires == "" then "never" else tok.expires;
}

unfoldable pub list_users : Store → List String → List TokenInfo
unfolding token_info
list_users s [] = []
list_users s (u ∷ us) = elim (get s.tokens_by_user u) [
  | none ↦ list_users s us
  | some tok ↦ token_info s.roles tok ∷ list_users s us
]

unfoldable pub list_tokens : Store → List TokenInfo
unfolding list_users sort_strings
list_tokens s = list_users s (sort_strings (keys s.tokens_by_user))

unfoldable pub role_info : Role → RoleInfo
role_info r = record {
  name = r.name;
  scopes = r.scopes;
  top_k = r.top_k;
  rate_limit = r.rate_limit;
}

unfoldable pub list_names : Store → List String → List RoleInfo
unfolding role_info
list_names s [] = []
list_names s (n ∷ ns) = elim (get s.roles n) [
  | none ↦ list_names s ns
  | some r ↦ role_info r ∷ list_names s ns
]

unfoldable pub list_roles : Store → List RoleInfo
unfolding list_names sort_strings
list_roles s = list_names s (sort_strings (keys s.roles))
