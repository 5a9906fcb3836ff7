-- ===== src/Tokens/Store.antt =====
-- The state of vault/internal/tokens/store.go, and what its operations share. The two token maps of
-- the source share their `*Token`, which nothing writes to after it is made; a value serves for each.
-- A method is one step: it holds `mu` while it reads and writes the maps.
pub mod Access
pub mod Issue
pub mod Roles
pub mod Listing
pub mod Consistent
pub mod Invariant
pub mod History
pub mod Refinement
use rune_admin.Prelude.{String, ℕ, Bool, ◌||◌, ◌==◌, if◌then◌else◌, List, [], ◌∷◌}
use rune_admin.Dict.{Dict, empty, put}
use rune_admin.Tokens.Role.{Role, demo_token, default_roles}
use rune_admin.Tokens.Token.{Token, Dates, day_of}
use rune_admin.Tokens.RateLimiter.{RateLimiter}
use rune_admin.Tokens.Persister.{Persister, new_persister, schedule}
use rune_admin.Prelude.{pos}

pub record Store : Type 0 where
  pub tokens : Dict Token
  pub tokens_by_user : Dict Token
  pub roles : Dict Role
  pub rate_limiters : Dict RateLimiter
  pub roles_path : String
  pub tokens_path : String
  pub persister : Persister

abbrev pub new_store : Store
new_store = record {
  tokens = empty;
  tokens_by_user = empty;
  roles = empty;
  rate_limiters = empty;
  roles_path = "";
  tokens_path = "";
  persister = new_persister;
}

unfoldable pub schedule_persist : Store → Store
unfolding schedule
schedule_persist s =
    if s.roles_path == "" || s.tokens_path == ""
    then s
    else record s { persister = schedule s.persister }

-- `for name, role := range roles { s.roles[name] = role }`
unfoldable pub put_roles : List (String × Role) → Dict Role → Dict Role
put_roles [] roles = roles
put_roles ((name, role) ∷ rest) roles = put_roles rest (put roles name role)

unfoldable pub load_defaults_with_demo_token : Dates → ℕ → Store → Store
unfolding put_roles
load_defaults_with_demo_token dates now s =
    let tok : Token = record {
      user = "demo";
      token = demo_token;
      role = "admin";
      issued_at = dates.format_date (pos (day_of now));
      expires = "";
    } in
    record s {
      roles = put_roles default_roles s.roles;
      tokens = put s.tokens tok.token tok;
      tokens_by_user = put s.tokens_by_user tok.user tok;
    }
