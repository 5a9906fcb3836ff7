-- ===== src/Server/Admin/Mux.antt =====
-- vault/internal/server/admin.go: the table of routes, from a request's method and path, and the text
-- of an answer. A path is the list of its decoded segments, as the router of net/http splits it.
pub mod Table
use rune_admin.Prelude.{
  Bool, ℕ, String, not, ◌&&◌, ◌||◌, ◌==◌, if◌then◌else◌, Option, none, some, List, [], ◌∷◌,
}
use rune_admin.Tokens.Token.{Dates}
use rune_admin.Tokens.Store.{Store}
use rune_admin.Server.Admin.{
  AdminRequest, health, tokens, roles, issue, rotate, rotate_all, revoke, create_role, change_role,
  drop_role, no_route, TokenBody, RoleBody, RoleChange, absent, Answer, Response, serve_admin,
}

-- encoding/json at the bodies and the answers: what the decoder makes of a text, or its refusal, and
-- the text of an answer. The decoder refuses unknown fields.
pub record AdminJson : Type 0 where
  pub decode_token : String → Option TokenBody
  pub decode_role : String → Option RoleBody
  pub decode_change : String → Option RoleChange
  pub marshal : Answer → Option String

-- The body of a request, and whether its length is declared: that of a chunked body is not.
pub record Body : Type 0 where
  pub text : String
  pub is_declared : Bool

-- A body of length 0 leaves the destination as it is.
unfoldable pub read_json {ℓ} : {A : Type ℓ} → (String → Option A) → A → Body → Option A
read_json decode dst body =
    if body.is_declared && (body.text == "") then some dst else decode body.text

module _ (json : AdminJson) (body : Body) where
  unfoldable pub read_token : Option TokenBody
  unfolding read_json
  read_token =
      read_json json.decode_token (record { user = ""; role = ""; expires_days = none }) body

  unfoldable pub read_role : Option RoleBody
  unfolding read_json
  read_role =
      read_json json.decode_role (record { name = ""; scopes = []; top_k = none; rate_limit = "" })
        body

  unfoldable pub read_change : Option RoleChange
  unfolding read_json
  read_change =
      read_json json.decode_change (record { scopes = absent; top_k = absent; rate_limit = absent })
        body

  -- The pattern of the table that a request matches. A pattern for GET also takes HEAD, and a
  -- wildcard takes a segment that is not empty.
  unfoldable pub route : String → List String → AdminRequest
  unfolding read_token read_role read_change
  route method (x ∷ []) =
      let reads = method == "GET" || method == "HEAD" in
      if reads && x == "health"
      then health
      else if reads && x == "tokens"
      then tokens
      else if reads && x == "roles"
      then roles
      else if method == "POST" && x == "tokens"
      then issue read_token
      else if method == "POST" && x == "roles"
      then create_role read_role
      else no_route
  route method (x ∷ y ∷ []) =
      if method == "POST" && x == "tokens" && y == "_rotate_all"
      then rotate_all
      else if y == ""
      then no_route
      else if method == "DELETE" && x == "tokens"
      then revoke y
      else if method == "PUT" && x == "roles"
      then change_role y read_change
      else if method == "DELETE" && x == "roles"
      then drop_role y
      else no_route
  route method (x ∷ y ∷ z ∷ []) =
      if method == "POST" && x == "tokens" && not (y == "") && z == "rotate"
      then rotate y
      else no_route
  route method _ = no_route

-- `writeJSON`: the status and the text, or the encoder's error with status 500.
unfoldable pub write_json : AdminJson → Response → ℕ × String
write_json json r = elim (json.marshal r.answer) [ none ↦ (500, "") | some text ↦ (r.status, text) ]

-- A request that the server answers. The clock and the random source are those of `serve_admin`.
unfoldable pub serve_http :
    AdminJson
    → Dates
    → (ℕ → ℕ)
    → (ℕ → Option (List ℕ))
    → String
    → List String
    → Body
    → Store
    → Store × ℕ × String
unfolding route write_json
serve_http json dates now entropy method segments body s =
    let (s', response) = serve_admin dates now entropy (route json body method segments) s in
    let (status, text) = write_json json response in (s', status, text)
