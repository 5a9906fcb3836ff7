-- ===== src/Tokens/Store/Invariant/OfRoles.antt =====
-- The operations on roles, and the checking of a token, keep the invariant of the store.
use rune_admin.Prelude.{
  ℤ, String, ◌≡◌, refl, true, Option, none, some, List, [], ◌∷◌, arith, eq_iff, if◌then◌else◌,
  Bool-cases, ◌⊎◌, inl, inr,
}
use rune_admin.Dict.{Dict, get, put, remove, keys, get-put, get-remove, get-empty, empty}
use rune_admin.Dict.Assoc.{is_some}
use rune_admin.Digits.{leading, trailing}
use rune_admin.Tokens.Role.{
  Role, admin_role, member_role, validate_rate_limit, is_default_role_name,
}
use rune_admin.Tokens.Token.{Token}
use rune_admin.Tokens.Store.{Store, new_store}
use rune_admin.Tokens.RateLimiter.{RateLimiter}
use rune_admin.Tokens.Store.Consistent.{empty-IsIndexed}
use rune_admin.Tokens.Store.Invariant.{IsConsistent, schedule_persist-IsConsistent}
use rune_admin.Tokens.Store.Roles.{
  UpdateRoleOpts, has_role, drop_limiters, change_role, limiters_after, check_opts, add_role,
  update_role, delete_role,
}
use rune_admin.Tokens.Store.Roles.Outcomes.{
  add_role_cases, update_role_cases, delete_role_cases, no_user_has_role,
}

-- What the change of a role leaves to show.
change_role-well_formed :
    (s : Store) (name : String) (opts : UpdateRoleOpts) (role : Role)
    → check_opts opts.opt_rate_limit ≡ none
    → (role.name ≡ name) × (validate_rate_limit role.rate_limit ≡ none)
    → ((change_role s name opts role).name ≡ name)
      × (validate_rate_limit (change_role s name opts role).rate_limit ≡ none)
unfolding change_role check_opts
change_role-well_formed s name opts role good old = ground (arith, old)

module _ (s : Store) (c : IsConsistent s) (name : String) where
  put_role-IsConsistent :
      (role : Role)
      → (role.name ≡ name) × (validate_rate_limit role.rate_limit ≡ none)
      → IsConsistent (record s { roles = put s.roles name role })
  put_role-IsConsistent role good = record {
    indexed = c.indexed;
    assigned = λ u tok h. ground (arith, get-put s.roles name tok.role role, c.assigned u tok h);
    well_formed = λ n r h.
        ground (arith, get-put s.roles name n role, eq_iff name n, c.well_formed n r, good);
    has_defaults = λ n h. ground (arith, get-put s.roles name n role, c.has_defaults n h);
    limited = c.limited;
  }

  -- Limiters can be dropped.
  limiters-IsConsistent :
      (limiters : Dict RateLimiter)
      → ((u : String) → is_some (get limiters u) ≡ true → is_some (get s.rate_limiters u) ≡ true)
      → IsConsistent (record s { rate_limiters = limiters })
  limiters-IsConsistent limiters fewer = record {
    indexed = c.indexed;
    assigned = c.assigned;
    well_formed = c.well_formed;
    has_defaults = c.has_defaults;
    limited = λ u h. c.limited u (fewer u h);
  }

  pub add_role-IsConsistent :
      (scopes : List String) (top_k : ℤ) (limit : String)
      → IsConsistent (add_role s name scopes top_k limit).0
  add_role-IsConsistent scopes top_k limit = elim (add_role_cases s name scopes top_k limit) [
    | inl (e, same) ↦ rw same c
    | inr (good, free, same) ↦ rw same (
        schedule_persist-IsConsistent _ (
          put_role-IsConsistent
            (record { name = name; scopes = scopes; top_k = top_k; rate_limit = limit })
            (refl, good)))
  ]

  pub delete_role-IsConsistent : IsConsistent (delete_role s name).0
  delete_role-IsConsistent = elim (delete_role_cases s name) [
    | inl (e, same) ↦ rw same c
    | inr (own, there, free, same) ↦ rw same (
        schedule_persist-IsConsistent _ (record {
          indexed = c.indexed;
          assigned = λ u tok h. ground (
            arith,
            get-remove s.roles name tok.role,
            eq_iff name tok.role,
            c.assigned u tok h,
            no_user_has_role s.tokens_by_user name free u tok h,
          );
          well_formed = λ n r h. ground (arith, get-remove s.roles name n, c.well_formed n r);
          has_defaults = λ n h.
              ground (arith, get-remove s.roles name n, eq_iff name n, c.has_defaults n h, own);
          limited = c.limited;
        }))
  ]

drop_limiters-fewer :
    (by_user : Dict Token) (name : String) (us : List String) (limiters : Dict RateLimiter)
    (u : String)
    → is_some (get (drop_limiters by_user name us limiters) u) ≡ true
    → is_some (get limiters u) ≡ true
unfolding drop_limiters
drop_limiters-fewer by_user name [] limiters u h = h
drop_limiters-fewer by_user name (v ∷ us) limiters u h =
    elim (Bool-cases (has_role by_user name v)) [
      | inr e ↦ drop_limiters-fewer by_user name us limiters u (rw (e, if◌then◌else◌) at h)
      | inl e ↦
          let rest =
            drop_limiters-fewer by_user name us (remove limiters v) u
              (rw (e, if◌then◌else◌) at h) in
          ground (arith, get-remove limiters v u, rest)
    ]

limiters_after-fewer :
    (s : Store) (name : String) (limit : Option String) (u : String)
    → is_some (get (limiters_after s name limit) u) ≡ true
    → is_some (get s.rate_limiters u) ≡ true
unfolding limiters_after
limiters_after-fewer s name none u h = h
limiters_after-fewer s name (some limit) u h =
    drop_limiters-fewer s.tokens_by_user name (keys s.tokens_by_user) s.rate_limiters u h

pub update_role-IsConsistent :
    (s : Store) (c : IsConsistent s) (name : String) (opts : UpdateRoleOpts)
    → IsConsistent (update_role s name opts).0
update_role-IsConsistent s c name opts = elim (update_role_cases s name opts) [
  | inl (e, same) ↦ rw same c
  | inr (role, good, held, same) ↦
      let role' = change_role s name opts role in
      let put_ =
        put_role-IsConsistent s c name role'
          (change_role-well_formed s name opts role good (c.well_formed name role held)) in
      rw same (
        schedule_persist-IsConsistent _ (
          limiters-IsConsistent (record s { roles = put s.roles name role' }) put_ name
            (limiters_after s name opts.opt_rate_limit)
            (limiters_after-fewer s name opts.opt_rate_limit)))
]

-- A store with the default roles alone.
abbrev pub default_store : Store
default_store = record new_store { roles = put (put empty "admin" admin_role) "member" member_role }

pub default_store-roles :
    (n : String) {r : Role}
    → get default_store.roles n ≡ some r
    → ((n ≡ "admin") × (r ≡ admin_role)) ⊎ ((n ≡ "member") × (r ≡ member_role))
default_store-roles n h = ground (
  arith,
  get-put (put empty "admin" admin_role) "member" n member_role,
  get-put empty "admin" n admin_role,
  get-empty {V = Role} n,
  eq_iff "admin" n,
  eq_iff "member" n,
)

default_limits : (validate_rate_limit "150/60s" ≡ none) × (validate_rate_limit "30/60s" ≡ none)
unfolding validate_rate_limit leading trailing
default_limits = (refl, refl)

pub default_store-IsConsistent : IsConsistent default_store
unfolding is_default_role_name
default_store-IsConsistent = record {
  indexed = empty-IsIndexed;
  assigned = λ u tok h. cc (get-empty {V = Token} u);
  well_formed = λ n r h. elim (default_store-roles n h) [
    | inl (e, f) ↦ (rw (f, e), rw f default_limits.0)
    | inr (e, f) ↦ (rw (f, e), rw f default_limits.1)
  ];
  has_defaults = λ n h. ground (
    arith,
    get-put (put empty "admin" admin_role) "member" n member_role,
    get-put empty "admin" n admin_role,
    eq_iff "admin" n,
    eq_iff "member" n,
    eq_iff n "admin",
    eq_iff n "member",
  );
  limited = λ u h. ground (arith, get-empty {V = RateLimiter} u);
}
