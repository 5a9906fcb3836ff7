-- ===== src/Commands/Daemon.antt =====
-- The commands against the daemon: the table of subcommands of token.go and role.go, and the admin
-- socket's server of admin.go at the other end of their requests.
pub mod Requests
pub mod Effects
pub mod Issue
use Prim.Native.String.{◌++◌}
use rune_admin.Prelude.{
  ℕ, ℤ, String, codes, ◌≡◌, ◌≢◌, Bool, true, false, not, ◌||◌, ◌&&◌, leb, ◌==ℕ◌, ◌==◌,
  if◌then◌else◌, Option, none, some, List, [], ◌∷◌, All, refl, concat,
}
use rune_admin.Tokens.Token.{Dates}
use rune_admin.Tokens.Store.{Store}
use rune_admin.Server.Admin.{TokenBody, RoleBody, RoleChange, Field, absent, given, token_json}
use rune_admin.Server.Admin.Mux.{AdminJson, Body, serve_http}
use rune_admin.Commands.Client.{Result, Request, Sent, bad_url, answered}
use rune_admin.Commands.Token.{
  TokenJson, TokenResult, issue_fields, run_token_issue, run_token_revoke, run_token_rotate,
  run_token_list,
}
use rune_admin.Commands.Role.{
  RoleJson, create_fields, update_fields, split_csv, run_role_list, run_role_create,
  run_role_update, run_role_delete,
}

pub data Command : Type 0 where
  token_issue : String → String → String → Command
  token_revoke : String → Command
  token_rotate : String → Bool → Command
  token_list : Command
  role_list : Command
  role_create : String → String → ℤ → String → Command
  role_update : String → String → Option ℤ → String → Command
  role_delete : String → Command

unfoldable pub run_command :
    TokenJson
    → RoleJson
    → {S : Type 0} → (String → Request → S → S × Sent)
    → Result String
    → Command
    → S
    → S × Result (List String)
run_command tj rj send client (token_issue user role expires) =
    run_token_issue tj send client user role expires
run_command tj rj send client (token_revoke user) = run_token_revoke tj send client user
run_command tj rj send client (token_rotate user all) = run_token_rotate tj send client user all
run_command tj rj send client token_list = run_token_list tj send client
run_command tj rj send client role_list = run_role_list rj send client
run_command tj rj send client (role_create name scope top_k limit) =
    run_role_create rj send client name scope top_k limit
run_command tj rj send client (role_update name scope top_k limit) =
    run_role_update rj send client name scope top_k limit
run_command tj rj send client (role_delete name) = run_role_delete rj send client name

-- Letters, digits, "-" and "_", which a URL's path takes as they are.
abbrev pub is_unreserved : ℕ → Bool
is_unreserved c =
    (leb b'a' c && leb c b'z')
    || (leb b'A' c && leb c b'Z')
    || (leb b'0' c && leb c b'9')
    || c ==ℕ b'-'
    || c ==ℕ b'_'

abbrev pub all_unreserved : List ℕ → Bool
all_unreserved [] = true
all_unreserved (c ∷ cs) = is_unreserved c && all_unreserved cs

pub record IsPlain (s : String) : Type 0 where
  pub filled : (s == "") ≡ false
  pub unreserved : all_unreserved (codes s) ≡ true

abbrev pub path_of : List String → String
path_of [] = ""
path_of (a ∷ as_) = "/" ++ (a ++ path_of as_)

-- A field that an update sends only where its flag is set.
abbrev pub field_of {ℓ} : {A : Type ℓ} → Bool → A → Field A
field_of true a = given a
field_of false a = absent

abbrev pub field_of_option {ℓ} : {A : Type ℓ} → Option A → Field A
field_of_option none = absent
field_of_option (some a) = given a

-- What the two ends agree on. net/url and the router split a path of plain segments at its slashes, and
-- encoding/json decodes what it encoded. A text of JSON is never empty.
pub record Wire : Type 0 where
  pub segments : String → Option (List String)
  pub server : AdminJson
  pub tokens : TokenJson
  pub roles : RoleJson
  pub segments_plain : (as_ : List String) → All IsPlain as_ → segments (path_of as_) ≡ some as_
  pub token_filled : (fs : List _) → (tokens.encode fs == "") ≡ false
  pub role_filled : (fs : List _) → (roles.encode fs == "") ≡ false
  pub token_body :
      (user role : String) (days : Option ℤ)
      → server.decode_token (tokens.encode (issue_fields user role days))
        ≡ some (record { user = user; role = role; expires_days = days })
  pub role_body :
      (name scope : String) (top_k : ℤ) (limit : String)
      → server.decode_role (roles.encode (create_fields roles name scope top_k limit))
        ≡ some (record {
          name = name;
          scopes = split_csv roles scope;
          top_k = some top_k;
          rate_limit = limit;
        })
  pub change_body :
      (scope : String) (top_k : Option ℤ) (limit : String)
      → server.decode_change (roles.encode (update_fields roles scope top_k limit))
        ≡ some (record {
          scopes = field_of (not (scope == "")) (split_csv roles scope);
          top_k = field_of_option top_k;
          rate_limit = field_of (not (limit == "")) limit;
        })
  pub token_answer :
      (user token role issued_at expires : String)
      → (text : String) × (server.marshal (token_json user token role issued_at expires)
          ≡ some text)
        × ((text == "") ≡ false)
        × (tokens.decode_result text
            ≡ some (record {
              user = user;
              token = token;
              role = role;
              issued_at = issued_at;
              expires = expires;
            }))

abbrev body_of : Option String → Body
body_of none = record { text = ""; is_declared = true }
body_of (some text) = record { text = text; is_declared = true }

-- A daemon that runs: every request is answered.
unfoldable pub send :
    Wire → Dates → (ℕ → ℕ) → (ℕ → Option (List ℕ)) → String → Request → Store → Store × Sent
unfolding serve_http
send wire dates now entropy socket request s = elim (wire.segments request.path) [
  | none ↦ (s, bad_url)
  | some segs ↦
      let (s', status, text) =
        serve_http wire.server dates now entropy request.method segs (body_of request.body) s in
      (s', answered status text)
]
