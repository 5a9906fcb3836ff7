-- ===== src/Server/Admin/Steps.antt =====
-- A request of the admin socket as steps of the store.
use rune_admin.Prelude.{
  ℕ, String, ◌≡◌, refl, ◌||◌, ◌==◌, if◌then◌else◌, Option, none, some, List, [], inl, inr,
  Bool-cases, Option-cases, sym,
}
use mathlib.Core.Path.{subst}
use rune_admin.Dict.{keys}
use rune_admin.Sort.{sort_strings}
use rune_admin.Tokens.Token.{Dates}
use rune_admin.Tokens.Store.{Store}
use rune_admin.Tokens.Store.Issue.{rotate_all_tokens}
use rune_admin.Tokens.Store.Issue.Rounds.{AreFresh, rotate_each-Reach}
use rune_admin.Tokens.Store.Roles.{UpdateRoleOpts}
use rune_admin.Tokens.Store.Invariant.{IsConsistent, IsFresh}
use rune_admin.Tokens.Store.History.{Step, Reach, Reach-IsConsistent}
use rune_admin.Server.Admin.{
  AdminRequest, health, tokens, roles, issue, rotate, rotate_all, revoke, create_role, change_role,
  drop_role, no_route, TokenBody, RoleBody, RoleChange, post_tokens, is_nil, opt_of, is_unset,
  post_roles, put_role, serve_admin,
}
use rune_admin.Server.Admin.States.{
  post_tokens-state, post_rotate-state, post_rotate_all-state, delete_token-state,
  delete_role_route-state, role_response-state,
}

module _ (dates : Dates) (now : ℕ → ℕ) (entropy : ℕ → Option (List ℕ)) where
  -- The texts that a request may take for new tokens are not in use.
  abbrev pub IsFreshFor : AdminRequest → Store → Type 0
  IsFreshFor (issue _) s = IsFresh s (entropy 0)
  IsFreshFor (rotate _) s = IsFresh s (entropy 0)
  IsFreshFor rotate_all s = AreFresh dates now entropy 0 (sort_strings (keys s.tokens_by_user)) s
  IsFreshFor _ s = Unit

  one : {s t u : Store} → Step dates s t → u ≡ t → Reach dates s u
  one {s} step e = subst (λ (x : Store). Reach dates s x) (sym e) (Reach.then_step Reach.here step)

  none_made : {s u : Store} → u ≡ s → Reach dates s u
  none_made {s} e = subst (λ (x : Store). Reach dates s x) (sym e) Reach.here

  post_tokens-Reach :
      (body : Option TokenBody) (s : Store)
      → IsFresh s (entropy 0)
      → Reach dates s (post_tokens dates (now 0) (entropy 0) body s).0
  unfolding post_tokens
  post_tokens-Reach none s fresh = Reach.here
  post_tokens-Reach (some body) s fresh = elim (Bool-cases (body.user == "" || body.role == "")) [
    | inl e ↦ none_made (rw (post_tokens, e) refl)
    | inr e ↦
        one (Step.issue (now 0) (entropy 0) body.user body.role body.expires_days fresh)
          (post_tokens-state dates now entropy body.user body.role body.expires_days s e)
  ]

  post_roles-Reach : (body : Option RoleBody) (s : Store) → Reach dates s (post_roles body s).0
  unfolding post_roles
  post_roles-Reach none s = Reach.here
  post_roles-Reach (some body) s = elim (Option-cases body.top_k) [
    | inl e ↦ none_made (rw (post_roles, e) refl)
    | inr (top_k, e) ↦
        elim (Bool-cases (body.name == "" || is_nil body.scopes || body.rate_limit == "")) [
          | inl f ↦ none_made (rw (post_roles, e, f) refl)
          | inr f ↦
              one (Step.create_role body.name body.scopes top_k body.rate_limit)
                (rw (post_roles, e, f) (role_response-state 201 _))
        ]
  ]

  put_role-Reach :
      (name : String) (change : Option RoleChange) (s : Store)
      → Reach dates s (put_role name change s).0
  unfolding put_role
  put_role-Reach name none s = Reach.here
  put_role-Reach name (some change) s = elim (Option-cases (opt_of change.scopes)) [
    | inl e ↦ none_made (rw (put_role, e) refl)
    | inr (scopes, e) ↦ elim (Option-cases (opt_of change.top_k)) [
      | inl f ↦ none_made (rw (put_role, e, f) refl)
      | inr (top_k, f) ↦ elim (Option-cases (opt_of change.rate_limit)) [
        | inl g ↦ none_made (rw (put_role, e, f, g) refl)
        | inr (limit, g) ↦
            let opts : UpdateRoleOpts = record {
              opt_scopes = scopes;
              opt_top_k = top_k;
              opt_rate_limit = limit;
            } in
            elim (Bool-cases (is_unset opts)) [
              | inl u ↦ none_made (rw (put_role, e, f, g, u, if◌then◌else◌) refl)
              | inr u ↦
                  one (Step.change name opts)
                    (rw (put_role, e, f, g, u, if◌then◌else◌) (role_response-state 200 _))
            ]
      ]
    ]
  ]

  -- A request of the admin socket makes only steps of the store.
  pub serve_admin-Reach :
      (r : AdminRequest) (s : Store)
      → IsFreshFor r s
      → Reach dates s (serve_admin dates now entropy r s).0
  unfolding serve_admin rotate_all_tokens
  serve_admin-Reach health s fresh = Reach.here
  serve_admin-Reach tokens s fresh = Reach.here
  serve_admin-Reach roles s fresh = Reach.here
  serve_admin-Reach (issue body) s fresh = post_tokens-Reach body s fresh
  serve_admin-Reach (rotate user) s fresh =
      one (Step.rotate (now 0) (entropy 0) user fresh) (post_rotate-state dates now entropy user s)
  serve_admin-Reach rotate_all s fresh =
      subst (λ (x : Store). Reach dates s x) (sym (post_rotate_all-state dates now entropy s))
        (rotate_each-Reach dates now entropy 0 (sort_strings (keys s.tokens_by_user)) s [] fresh
          Reach.here)
  serve_admin-Reach (revoke user) s fresh = one (Step.revoke user) (delete_token-state user s)
  serve_admin-Reach (create_role body) s fresh = post_roles-Reach body s
  serve_admin-Reach (change_role name change) s fresh = put_role-Reach name change s
  serve_admin-Reach (drop_role name) s fresh =
      one (Step.drop_role name) (delete_role_route-state name s)
  serve_admin-Reach no_route s fresh = Reach.here

  -- Any request of the admin socket keeps the store consistent, whatever it answers, if the texts that it
  -- takes for new tokens are not in use.
  pub serve_admin-IsConsistent :
      (r : AdminRequest) (s : Store)
      → IsConsistent s
      → IsFreshFor r s
      → IsConsistent (serve_admin dates now entropy r s).0
  serve_admin-IsConsistent r s c fresh = Reach-IsConsistent dates c (serve_admin-Reach r s fresh)
