-- ===== src/Server/Admin.antt =====
-- vault/internal/server/admin.go: the routes of the admin socket, as functions of the store and the
-- decoded request. `none` is a body that the JSON decoder refuses; a body that is not there has
-- empty fields. The clock, the random source and the decoder are arguments.
pub mod Laws
pub mod Mux
pub mod Steps
pub mod States
use rune_admin.Prelude.{
  ℕ, ℤ, String, Bool, true, false, ◌&&◌, ◌||◌, ◌==◌, if◌then◌else◌, Option, none, some, List, [],
  ◌∷◌, length,
}
use rune_admin.Tokens.Errors.{Error, Result, ok, err}
use rune_admin.Tokens.Role.{Role}
use rune_admin.Tokens.Token.{Token, Dates}
use rune_admin.Tokens.Store.{Store}
use rune_admin.Tokens.Store.Issue.{add_token, revoke_token, rotate_token, rotate_all_tokens}
use rune_admin.Tokens.Store.Roles.{UpdateRoleOpts, add_role, update_role, delete_role}
use rune_admin.Tokens.Store.Listing.{TokenInfo, RoleInfo, list_tokens, list_roles}

pub record TokenBody : Type 0 where
  pub user : String
  pub role : String
  pub expires_days : Option ℤ

pub record RoleBody : Type 0 where
  pub name : String
  pub scopes : List String
  pub top_k : Option ℤ
  pub rate_limit : String

-- A key of the raw object: not there, of another JSON type, or decoded.
pub data Field {ℓ} (A : Type ℓ) : Type ℓ where
  absent : Field A
  malformed : Field A
  given : A → Field A

pub record RoleChange : Type 0 where
  pub scopes : Field (List String)
  pub top_k : Field ℤ
  pub rate_limit : Field String

pub data AdminRequest : Type 0 where
  health : AdminRequest
  tokens : AdminRequest
  roles : AdminRequest
  issue : Option TokenBody → AdminRequest
  rotate : String → AdminRequest
  rotate_all : AdminRequest
  revoke : String → AdminRequest
  create_role : Option RoleBody → AdminRequest
  change_role : String → Option RoleChange → AdminRequest
  drop_role : String → AdminRequest
  no_route : AdminRequest

-- What the JSON of an answer is made from. A message of the store is the error that it is printed from.
pub data Answer : Type 0 where
  healthy : Answer
  listed_tokens : List TokenInfo → Answer
  listed_roles : List RoleInfo → Answer
  token_json : String → String → String → String → String → Answer
  role_json : Role → Answer
  rotated : ℕ → List Token → Answer
  revoked : String → Answer
  deleted : String → Answer
  message : String → Answer
  failed : Error → Answer

pub record Response : Type 0 where
  pub status : ℕ
  pub answer : Answer

abbrev pub bad_request : String → Response
bad_request text = record { status = 400; answer = message text }

unfoldable pub token_response : ℕ → Token → Response
token_response status t = record {
  status = status;
  answer =
      token_json t.user t.token t.role t.issued_at (if t.expires == "" then "never" else t.expires);
}

unfoldable pub is_nil : List String → Bool
is_nil [] = true
is_nil (_ ∷ _) = false

module _ (dates : Dates) (now : ℕ) (entropy : Option (List ℕ)) where
  unfoldable pub post_tokens : Option TokenBody → Store → Store × Response
  unfolding token_response
  post_tokens none s = (s, bad_request "body")
  post_tokens (some body) s =
      if body.user == "" || body.role == ""
      then (s, bad_request "Missing required fields: user, role")
      else (let (s', result) =
            add_token dates now entropy s body.user body.role body.expires_days in
          elim result [
            | err e ↦ (s', record { status = 400; answer = failed e })
            | ok tok ↦ (s', token_response 201 tok)
          ])

  unfoldable pub post_rotate : String → Store → Store × Response
  unfolding token_response
  post_rotate user s =
      let (s', result) = rotate_token dates now entropy s user in
      elim result [
        | err e ↦ (s', record { status = 400; answer = failed e })
        | ok tok ↦ (s', token_response 200 tok)
      ]

unfoldable pub post_rotate_all : Dates → (ℕ → ℕ) → (ℕ → Option (List ℕ)) → Store → Store × Response
post_rotate_all dates now entropy s =
    let (s', made, stopped) = rotate_all_tokens dates now entropy s in
    elim stopped [
      | some e ↦ (s', record { status = 500; answer = failed e })
      | none ↦ (s', record { status = 200; answer = rotated (length made) made })
    ]

unfoldable pub delete_token : String → Store → Store × Response
delete_token user s =
    let (s', found) = revoke_token s user in
    if found
    then (s', record { status = 200; answer = revoked user })
    else (s', record { status = 404; answer = message user })

unfoldable pub role_response : ℕ → Store × Result Role → Store × Response
role_response status (s, err e) = (s, record { status = 400; answer = failed e })
role_response status (s, ok role) = (s, record { status = status; answer = role_json role })

unfoldable pub post_roles : Option RoleBody → Store → Store × Response
unfolding role_response is_nil
post_roles none s = (s, bad_request "body")
post_roles (some body) s = elim body.top_k [
  | none ↦ (s, bad_request "Missing required fields: name, scope, top_k, rate_limit")
  | some top_k ↦
      if body.name == "" || is_nil body.scopes || body.rate_limit == ""
      then (s, bad_request "Missing required fields: name, scope, top_k, rate_limit")
      else role_response 201 (add_role s body.name body.scopes top_k body.rate_limit)
]

-- The option that a field sets, or the refusal of its type.
unfoldable pub opt_of {ℓ} : {A : Type ℓ} → Field A → Option (Option A)
opt_of absent = some none
opt_of malformed = none
opt_of (given a) = some (some a)

unfoldable pub is_unset : UpdateRoleOpts → Bool
is_unset opts = elim opts.opt_scopes [
  | some _ ↦ false
  | none ↦ elim opts.opt_top_k [
    | some _ ↦ false
    | none ↦ elim opts.opt_rate_limit [ some _ ↦ false | none ↦ true ]
  ]
]

unfoldable pub put_role : String → Option RoleChange → Store → Store × Response
unfolding role_response opt_of is_unset
put_role name none s = (s, bad_request "body")
put_role name (some change) s = elim (opt_of change.scopes) [
  | none ↦ (s, bad_request "scope must be a string array")
  | some scopes ↦ elim (opt_of change.top_k) [
    | none ↦ (s, bad_request "top_k must be an integer")
    | some top_k ↦ elim (opt_of change.rate_limit) [
      | none ↦ (s, bad_request "rate_limit must be a string")
      | some limit ↦
          let opts : UpdateRoleOpts = record {
            opt_scopes = scopes;
            opt_top_k = top_k;
            opt_rate_limit = limit;
          } in
          if is_unset opts
          then (s, bad_request "No fields to update")
          else role_response 200 (update_role s name opts)
    ]
  ]
]

unfoldable pub delete_role_route : String → Store → Store × Response
delete_role_route name s =
    let (s', fault) = delete_role s name in
    elim fault [
      | some e ↦ (s', record { status = 400; answer = failed e })
      | none ↦ (s', record { status = 200; answer = deleted name })
    ]

-- buildAdminMux: the route of a request. The i-th rotation of a request reads the clock and the
-- random source as `now i` and `entropy i`; every other operation reads them as the first.
unfoldable pub serve_admin :
    Dates → (ℕ → ℕ) → (ℕ → Option (List ℕ)) → AdminRequest → Store → Store × Response
serve_admin dates now entropy health s = (s, record { status = 200; answer = healthy })
serve_admin dates now entropy tokens s =
    (s, record { status = 200; answer = listed_tokens (list_tokens s) })
serve_admin dates now entropy roles s =
    (s, record { status = 200; answer = listed_roles (list_roles s) })
serve_admin dates now entropy (issue body) s = post_tokens dates (now 0) (entropy 0) body s
serve_admin dates now entropy (rotate user) s = post_rotate dates (now 0) (entropy 0) user s
serve_admin dates now entropy rotate_all s = post_rotate_all dates now entropy s
serve_admin dates now entropy (revoke user) s = delete_token user s
serve_admin dates now entropy (create_role body) s = post_roles body s
serve_admin dates now entropy (change_role name change) s = put_role name change s
serve_admin dates now entropy (drop_role name) s = delete_role_route name s
serve_admin dates now entropy no_route s = (s, record { status = 404; answer = message "No route" })
