-- ===== src/Tokens/Store/Roles.antt =====
-- `AddRole`, `UpdateRole` and `DeleteRole`. A role that `UpdateRole` writes through its pointer is
-- put back into the map.
pub mod Outcomes
pub mod Effects
use rune_admin.Prelude.{
  not, String, Bool, true, false, Option, none, some, List, [], ◌∷◌, ◌==◌, if◌then◌else◌, ℤ,
}
use rune_admin.Dict.{Dict, get, put, remove, keys}
use rune_admin.Dict.Assoc.{is_some}
use rune_admin.Tokens.Errors.{
  Error, role_exists, role_missing, default_role, role_in_use, Result, ok, err,
}
use rune_admin.Tokens.Role.{Role, validate_rate_limit, is_default_role_name}
use rune_admin.Tokens.Token.{Token}
use rune_admin.Tokens.RateLimiter.{RateLimiter}
use rune_admin.Tokens.Store.{Store, schedule_persist}

unfoldable pub add_role : Store → String → List String → ℤ → String → Store × Result Role
unfolding schedule_persist validate_rate_limit
add_role s name scopes top_k limit = elim (validate_rate_limit limit) [
  | some e ↦ (s, err e)
  | none ↦
      if is_some (get s.roles name)
      then (s, err (role_exists name))
      else (let role : Role = record {
        name = name;
        scopes = scopes;
        top_k = top_k;
        rate_limit = limit;
      } in
          (schedule_persist (record s { roles = put s.roles name role }), ok role))
]

pub record UpdateRoleOpts : Type 0 where
  pub opt_scopes : Option (List String)
  pub opt_top_k : Option ℤ
  pub opt_rate_limit : Option String

-- `if field != nil { role.Field = *field }`
abbrev pub override {ℓ} : {A : Type ℓ} → Option A → A → A
override none old = old
override (some new) old = new

-- Whether the token of a user has a role.
unfoldable pub has_role : Dict Token → String → String → Bool
has_role by_user name user = elim (get by_user user) [ none ↦ false | some tok ↦ tok.role == name ]

-- The loop that drops the limiters of the users with a changed role.
unfoldable pub drop_limiters :
    Dict Token → String → List String → Dict RateLimiter → Dict RateLimiter
unfolding has_role
drop_limiters by_user name [] limiters = limiters
drop_limiters by_user name (u ∷ us) limiters =
    drop_limiters by_user name us (if has_role by_user name u then remove limiters u else limiters)

unfoldable pub change_role : Store → String → UpdateRoleOpts → Role → Role
change_role s name opts role = record {
  name = role.name;
  scopes = override opts.opt_scopes role.scopes;
  top_k = override opts.opt_top_k role.top_k;
  rate_limit = override opts.opt_rate_limit role.rate_limit;
}

unfoldable pub limiters_after : Store → String → Option String → Dict RateLimiter
unfolding drop_limiters
limiters_after s name none = s.rate_limiters
limiters_after s name (some _) =
    drop_limiters s.tokens_by_user name (keys s.tokens_by_user) s.rate_limiters

-- The test of `opts.RateLimit` at the top.
unfoldable pub check_opts : Option String → Option Error
unfolding validate_rate_limit
check_opts none = none
check_opts (some limit) = validate_rate_limit limit

unfoldable pub update_role : Store → String → UpdateRoleOpts → Store × Result Role
unfolding schedule_persist change_role limiters_after check_opts
update_role s name opts = elim (check_opts opts.opt_rate_limit) [
  | some e ↦ (s, err e)
  | none ↦ elim (get s.roles name) [
    | none ↦ (s, err (role_missing name))
    | some role ↦
        let role' = change_role s name opts role in
        (
          schedule_persist (record s {
            roles = put s.roles name role';
            rate_limiters = limiters_after s name opts.opt_rate_limit;
          }),
          ok role',
        )
  ]
]

-- The first user, in the order of the range, whose token has the role.
unfoldable pub find_user : Dict Token → String → List String → Option String
unfolding has_role
find_user by_user name [] = none
find_user by_user name (u ∷ us) =
    let rest = find_user by_user name us in if has_role by_user name u then some u else rest

unfoldable pub delete_role : Store → String → Store × Option Error
unfolding schedule_persist is_default_role_name find_user
delete_role s name =
    if is_default_role_name name
    then (s, some (default_role name))
    else if not (is_some (get s.roles name))
    then (s, some (role_missing name))
    else elim (find_user s.tokens_by_user name (keys s.tokens_by_user)) [
      | some user ↦ (s, some (role_in_use name user))
      | none ↦ (schedule_persist (record s { roles = remove s.roles name }), none)
    ]
