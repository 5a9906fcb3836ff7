-- ===== src/Server/Admin/Laws.antt =====
-- A refused request changes nothing.
use rune_admin.Prelude.{
  ℕ, ℤ, ◌≤◌, String, ◌≡◌, refl, Bool, true, false, ◌||◌, ◌==◌, Option, none, some, List, arith, ◌⊎◌,
  inl, inr, Bool-cases, Option-cases, if◌then◌else◌,
}
use rune_admin.Tokens.Errors.{Error, Result, ok, err}
use rune_admin.Tokens.Role.{Role}
use rune_admin.Tokens.Token.{Dates}
use rune_admin.Tokens.Store.{Store}
use rune_admin.Tokens.Store.Issue.{revoke_token}
use rune_admin.Tokens.Store.Issue.Outcomes.{add_token_cases}
use rune_admin.Tokens.Store.Roles.{UpdateRoleOpts, add_role, update_role}
use rune_admin.Tokens.Store.Roles.Outcomes.{add_role_cases, update_role_cases, delete_role_cases}
use rune_admin.Dict.{get}
use rune_admin.Server.Admin.{
  AdminRequest, health, tokens, roles, issue, rotate, rotate_all, revoke, create_role, change_role,
  drop_role, no_route, TokenBody, RoleBody, RoleChange, Response, token_response, post_tokens,
  delete_token, role_response, post_roles, is_nil, opt_of, is_unset, put_role, delete_role_route,
  serve_admin,
}

-- An answer with a success status, or the same store.
abbrev Keeps : Store → Store × Response → Type 0
Keeps s (s', response) = (response.status ≤ 399) ⊎ (s' ≡ s)

post_tokens-Keeps :
    (dates : Dates) (now : ℕ) (entropy : Option (List ℕ)) (body : Option TokenBody) (s : Store)
    → Keeps s (post_tokens dates now entropy body s)
unfolding post_tokens token_response
post_tokens-Keeps dates now entropy none s = inr refl
post_tokens-Keeps dates now entropy (some body) s =
    elim (Bool-cases (body.user == "" || body.role == "")) [
      | inl e ↦ rw (e, if◌then◌else◌) (inr refl)
      | inr e ↦ elim (add_token_cases dates now entropy s body.user body.role body.expires_days) [
        | inl (x, f) ↦ rw (e, if◌then◌else◌, f) (inr cc)
        | inr (_, _, _, _, f) ↦ rw (e, if◌then◌else◌, f) (inl (omega arith))
      ]
    ]

delete_token-Keeps : (user : String) (s : Store) → Keeps s (delete_token user s)
unfolding delete_token revoke_token
delete_token-Keeps user s = elim (Option-cases (get s.tokens_by_user user)) [
  | inl e ↦ rw (delete_token, revoke_token, e) (inr refl)
  | inr (tok, e) ↦ rw (delete_token, revoke_token, e) (inl (omega arith))
]

role_response-Keeps :
    (status : ℕ) (s : Store) (r : Store × Result Role)
    → status ≤ 399
    → ((e : Error) × (r ≡ (s, err e))) ⊎ ((s' : Store) × (role : Role) × (r ≡ (s', ok role)))
    → Keeps s (role_response status r)
unfolding role_response
role_response-Keeps status s r h (inl (e, f)) = rw f (inr refl)
role_response-Keeps status s r h (inr (s', role, f)) = rw f (inl h)

add_role_done :
    (s : Store) (name : String) (scopes : List String) (top_k : ℤ) (limit : String)
    → let r = add_role s name scopes top_k limit in
      ((e : Error) × (r ≡ (s, err e))) ⊎ ((s' : Store) × (role : Role) × (r ≡ (s', ok role)))
add_role_done s name scopes top_k limit = elim (add_role_cases s name scopes top_k limit) [
  | inl x ↦ inl x
  | inr (_, _, f) ↦ inr (_, _, f)
]

update_role_done :
    (s : Store) (name : String) (opts : UpdateRoleOpts)
    → let r = update_role s name opts in
      ((e : Error) × (r ≡ (s, err e))) ⊎ ((s' : Store) × (role : Role) × (r ≡ (s', ok role)))
update_role_done s name opts = elim (update_role_cases s name opts) [
  | inl x ↦ inl x
  | inr (_, _, _, f) ↦ inr (_, _, f)
]

post_roles-Keeps : (body : Option RoleBody) (s : Store) → Keeps s (post_roles body s)
unfolding post_roles
post_roles-Keeps none s = inr refl
post_roles-Keeps (some body) s = elim (Option-cases body.top_k) [
  | inl e ↦ rw e (inr refl)
  | inr (top_k, e) ↦
      elim (Bool-cases (body.name == "" || is_nil body.scopes || body.rate_limit == "")) [
        | inl f ↦ rw (e, f, if◌then◌else◌) (inr refl)
        | inr f ↦
            rw (e, f, if◌then◌else◌)
              (role_response-Keeps 201 s _ (omega arith)
                (add_role_done s body.name body.scopes top_k body.rate_limit))
      ]
]

put_role-Keeps :
    (name : String) (change : Option RoleChange) (s : Store) → Keeps s (put_role name change s)
unfolding put_role
put_role-Keeps name none s = inr refl
put_role-Keeps name (some change) s = elim (Option-cases (opt_of change.scopes)) [
  | inl e ↦ rw (put_role, e) (inr refl)
  | inr (scopes, e) ↦ elim (Option-cases (opt_of change.top_k)) [
    | inl f ↦ rw (put_role, e, f) (inr refl)
    | inr (top_k, f) ↦ elim (Option-cases (opt_of change.rate_limit)) [
      | inl g ↦ rw (put_role, e, f, g) (inr refl)
      | inr (limit, g) ↦
          let opts : UpdateRoleOpts = record {
            opt_scopes = scopes;
            opt_top_k = top_k;
            opt_rate_limit = limit;
          } in
          elim (Bool-cases (is_unset opts)) [
            | inl u ↦ rw (put_role, e, f, g, u, if◌then◌else◌) (inr refl)
            | inr u ↦
                rw (put_role, e, f, g, u, if◌then◌else◌)
                  (role_response-Keeps 200 s _ (omega arith) (update_role_done s name opts))
          ]
    ]
  ]
]

delete_role_route-Keeps : (name : String) (s : Store) → Keeps s (delete_role_route name s)
unfolding delete_role_route
delete_role_route-Keeps name s = elim (delete_role_cases s name) [
  | inl (e, f) ↦ rw (delete_role_route, f) (inr cc)
  | inr (_, _, _, f) ↦ rw (delete_role_route, f) (inl (omega arith))
]

abbrev pub is_rotation : AdminRequest → Bool
is_rotation (rotate _) = true
is_rotation rotate_all = true
is_rotation _ = false

kept : (s : Store) (r : Store × Response) → Keeps s r → 400 ≤ r.1.status → r.0 ≡ s
kept s r (inl h) k = absurd (omega arith)
kept s r (inr h) k = h

-- A request of the admin socket that is answered with an error status leaves the store as it was,
-- unless it asks for a rotation.
pub serve_admin_refused :
    (dates : Dates) (now : ℕ → ℕ) (entropy : ℕ → Option (List ℕ)) (r : AdminRequest) (s : Store)
    → is_rotation r ≡ false
    → let (s', response) = serve_admin dates now entropy r s in 400 ≤ response.status → s' ≡ s
unfolding serve_admin
serve_admin_refused dates now entropy health s h = λ k. refl
serve_admin_refused dates now entropy tokens s h = λ k. refl
serve_admin_refused dates now entropy roles s h = λ k. refl
serve_admin_refused dates now entropy (issue body) s h =
    kept s (post_tokens dates (now 0) (entropy 0) body s)
      (post_tokens-Keeps dates (now 0) (entropy 0) body s)
serve_admin_refused dates now entropy (rotate user) s h = absurd cc
serve_admin_refused dates now entropy rotate_all s h = absurd cc
serve_admin_refused dates now entropy (revoke user) s h =
    kept s (delete_token user s) (delete_token-Keeps user s)
serve_admin_refused dates now entropy (create_role body) s h =
    kept s (post_roles body s) (post_roles-Keeps body s)
serve_admin_refused dates now entropy (change_role name change) s h =
    kept s (put_role name change s) (put_role-Keeps name change s)
serve_admin_refused dates now entropy (drop_role name) s h =
    kept s (delete_role_route name s) (delete_role_route-Keeps name s)
serve_admin_refused dates now entropy no_route s h = λ k. refl
