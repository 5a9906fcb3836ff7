-- ===== src/Tokens/Store/Roles/Outcomes.antt =====
-- The possible outcomes of the operations on roles, with what decides between them.
use rune_admin.Prelude.{
  ℤ, String, ◌≡◌, ◌≢◌, true, false, none, some, List, [], ◌∷◌, arith, ◌⊎◌, inl, inr, Bool-cases,
  Option-cases, eq_iff,
}
use rune_admin.Dict.{Dict, get, keys, put, remove, contains-keys}
use rune_admin.Dict.Assoc.{is_some, contains}
use rune_admin.Tokens.Errors.{Error, default_role, role_missing, role_in_use, role_exists, ok, err}
use rune_admin.Tokens.Role.{Role, validate_rate_limit, is_default_role_name}
use rune_admin.Tokens.Token.{Token}
use rune_admin.Tokens.Store.{Store, schedule_persist}
use rune_admin.Tokens.Store.Roles.{
  UpdateRoleOpts, has_role, change_role, limiters_after, check_opts, add_role, update_role,
  find_user, delete_role,
}

-- `find_user` finds nobody only if nobody among the users has the role.
find_user-none :
    (by_user : Dict Token) (name : String) (us : List String)
    → find_user by_user name us ≡ none
    → (u : String) → contains us u ≡ true
    → has_role by_user name u ≡ false
unfolding find_user contains
find_user-none by_user name [] h u held = cc
find_user-none by_user name (v ∷ us) h u held = ground (
  arith,
  eq_iff v u,
  find_user-none by_user name us,
  find_user-none by_user name us (ground arith) u,
)

-- And it finds only users that have it.
pub find_user-some :
    (by_user : Dict Token) (name : String) (us : List String) {u : String}
    → find_user by_user name us ≡ some u
    → has_role by_user name u ≡ true
unfolding find_user
find_user-some by_user name [] h = cc
find_user-some by_user name (v ∷ us) {u} h = elim (Bool-cases (has_role by_user name v)) [
  | inl e ↦ ground arith
  | inr e ↦ find_user-some by_user name us (ground arith)
]

-- Nobody has the role, if `find_user` finds nobody over the whole map.
pub no_user_has_role :
    (by_user : Dict Token) (name : String)
    → find_user by_user name (keys by_user) ≡ none
    → (u : String) (tok : Token) → get by_user u ≡ some tok
    → tok.role ≢ name
unfolding has_role
no_user_has_role by_user name h u tok held same = ground (
  arith,
  contains-keys by_user u,
  find_user-none by_user name (keys by_user) h u,
  eq_iff tok.role name,
)

module _ (s : Store) (name : String) where
  pub add_role_cases :
      (scopes : List String) (top_k : ℤ) (limit : String)
      → (let role : Role = record {
        name = name;
        scopes = scopes;
        top_k = top_k;
        rate_limit = limit;
      } in
          ((e : Error) × (add_role s name scopes top_k limit ≡ (s, err e)))
          ⊎ ((validate_rate_limit limit ≡ none)
              × (get s.roles name ≡ none)
              × (add_role s name scopes top_k limit
                  ≡ (schedule_persist (record s { roles = put s.roles name role }), ok role))))
  unfolding add_role
  add_role_cases scopes top_k limit = elim (Option-cases (validate_rate_limit limit)) [
    | inr (e, bad) ↦ inl (e, ground arith)
    | inl good ↦ elim (Option-cases (get s.roles name)) [
      | inr (r, e) ↦ inl (role_exists name, ground arith)
      | inl e ↦ inr (good, e, ground arith)
    ]
  ]

  pub update_role_cases :
      (opts : UpdateRoleOpts)
      → ((e : Error) × (update_role s name opts ≡ (s, err e)))
        ⊎ ((role : Role) × (check_opts opts.opt_rate_limit ≡ none)
            × (get s.roles name ≡ some role)
            × (update_role s name opts ≡ (
              schedule_persist (record s {
                roles = put s.roles name (change_role s name opts role);
                rate_limiters = limiters_after s name opts.opt_rate_limit;
              }),
              ok (change_role s name opts role),
            )))
  unfolding update_role
  update_role_cases opts = elim (Option-cases (check_opts opts.opt_rate_limit)) [
    | inr (e, bad) ↦ inl (e, ground arith)
    | inl good ↦ elim (Option-cases (get s.roles name)) [
      | inl e ↦ inl (role_missing name, ground arith)
      | inr (role, e) ↦ inr (role, good, e, ground arith)
    ]
  ]

  pub delete_role_cases :
      ((e : Error) × (delete_role s name ≡ (s, some e)))
      ⊎ ((is_default_role_name name ≡ false)
          × (is_some (get s.roles name) ≡ true)
          × (find_user s.tokens_by_user name (keys s.tokens_by_user) ≡ none)
          × (delete_role s name
              ≡ (schedule_persist (record s { roles = remove s.roles name }), none)))
  unfolding delete_role
  delete_role_cases = elim (Bool-cases (is_default_role_name name)) [
    | inl e ↦ inl (default_role name, ground arith)
    | inr own ↦ elim (Bool-cases (is_some (get s.roles name))) [
      | inr e ↦ inl (role_missing name, ground arith)
      | inl there ↦ elim (Option-cases (find_user s.tokens_by_user name (keys s.tokens_by_user))) [
        | inr (u, e) ↦ inl (role_in_use name u, ground arith)
        | inl free ↦ inr (own, there, free, ground arith)
      ]
    ]
  ]
