-- ===== src/Tokens/Store/Roles/Effects.antt =====
-- What a change of a role does to the limiters of its users, and which roles can be deleted.
use rune_admin.Prelude.{
  String, ◌≡◌, ◌≢◌, refl, ◌∙◌, true, false, ◌&&◌, ap, Option, none, some, List, [], ◌∷◌, arith,
  eq_iff, eq_refl, if◌then◌else◌, Option-cases, inl, inr, ◌↔◌, ◌==◌, ◌⊎◌,
}
use rune_admin.Dict.{Dict, get, put, remove, keys, get-remove, get-put, contains-keys}
use rune_admin.Dict.Assoc.{is_some, contains}
use rune_admin.Tokens.Errors.{Error, ok}
use rune_admin.Tokens.Role.{Role, is_default_role_name}
use rune_admin.Tokens.RateLimiter.{RateLimiter}
use rune_admin.Tokens.Token.{Token}
use rune_admin.Tokens.Store.{Store, schedule_persist}
use rune_admin.Tokens.Store.Invariant.{
  rate_limiters-schedule_persist, roles-schedule_persist, tokens-schedule_persist,
  tokens_by_user-schedule_persist,
}
use rune_admin.Tokens.Store.Roles.{
  UpdateRoleOpts, override, has_role, drop_limiters, change_role, limiters_after, update_role,
  find_user, delete_role,
}
use rune_admin.Tokens.Store.Roles.Outcomes.{
  update_role_cases, delete_role_cases, no_user_has_role, find_user-some,
}

get-drop_limiters :
    (by_user : Dict Token) (name : String) (us : List String) (limiters : Dict RateLimiter)
    (u : String)
    → get (drop_limiters by_user name us limiters) u
      ≡ (if contains us u && has_role by_user name u then none else get limiters u)
unfolding drop_limiters contains
get-drop_limiters by_user name [] limiters u = refl
get-drop_limiters by_user name (v ∷ us) limiters u =
    get-drop_limiters by_user name us
      (if has_role by_user name v then remove limiters v else limiters) u
    ∙ ground (arith, get-remove limiters v u, eq_iff v u)

has_role-known :
    (by_user : Dict Token) (name u : String)
    → has_role by_user name u ≡ true
    → is_some (get by_user u) ≡ true
unfolding has_role
has_role-known by_user name u h = ground arith

pub get-limiters_after :
    (s : Store) (name : String) (limit : Option String) (u : String)
    → get (limiters_after s name limit) u
      ≡ (if is_some limit && has_role s.tokens_by_user name u then none else get s.rate_limiters u)
unfolding limiters_after
get-limiters_after s name none u = refl
get-limiters_after s name (some limit) u = ground (
  arith,
  get-drop_limiters s.tokens_by_user name (keys s.tokens_by_user) s.rate_limiters u,
  contains-keys s.tokens_by_user u,
  has_role-known s.tokens_by_user name u,
)

pub has_role-held :
    (by_user : Dict Token) (name u : String)
    → has_role by_user name u ≡ true
    → (tok : Token) × (get by_user u ≡ some tok) × (tok.role ≡ name)
unfolding has_role
has_role-held by_user name u h = elim (Option-cases (get by_user u)) [
  | inl e ↦ absurd (ground arith)
  | inr (tok, e) ↦ (tok, e, ground (arith, eq_iff tok.role name))
]

-- A successful update gives the role the new fields and keeps the others. If it sets the rate limit,
-- exactly the users with a token of the role lose their limiters, so that the new limit applies to
-- them at their next call; otherwise no limiter is touched.
pub update_role_effects :
    (s : Store) (name : String) (opts : UpdateRoleOpts) {s' : Store} {role' : Role}
    → update_role s name opts ≡ (s', ok role')
    → (role : Role) × (get s.roles name ≡ some role)
      × (get s'.roles name ≡ some role')
      × (role'.scopes ≡ override opts.opt_scopes role.scopes)
      × (role'.top_k ≡ override opts.opt_top_k role.top_k)
      × (role'.rate_limit ≡ override opts.opt_rate_limit role.rate_limit)
      × ((u : String)
          → get s'.rate_limiters u ≡ (
              if is_some opts.opt_rate_limit && has_role s.tokens_by_user name u
              then none
              else get s.rate_limiters u))
update_role_effects s name opts {s'} {role'} h = elim (update_role_cases s name opts) [
  | inl (e, same) ↦ absurd (ground arith)
  | inr (role, good, held, same) ↦
      let new_role = change_role s name opts role in
      let is_role : new_role ≡ role' = ground arith in
      let is_store : schedule_persist (record s {
        roles = put s.roles name new_role;
        rate_limiters = limiters_after s name opts.opt_rate_limit;
      })
          ≡ s' =
        ground arith in
      rw (← is_role, ← is_store)
        (
          role,
          held,
          rw roles-schedule_persist
              (ground (arith, get-put s.roles name name new_role, eq_refl name)),
          unfold change_role in refl,
          unfold change_role in refl,
          unfold change_role in refl,
          λ u. rw rate_limiters-schedule_persist (get-limiters_after s name opts.opt_rate_limit u),
        )
]

delete_unused :
    (s : Store) (name : String)
    → is_default_role_name name ≡ false
    → is_some (get s.roles name) ≡ true
    → ((u : String) (tok : Token) → get s.tokens_by_user u ≡ some tok → tok.role ≢ name)
    → (delete_role s name).1 ≡ none
unfolding delete_role
delete_unused s name own there unused =
    elim (Option-cases (find_user s.tokens_by_user name (keys s.tokens_by_user))) [
      | inl free ↦ ground arith
      | inr (u, e) ↦
          let (tok, held, same) =
            has_role-held s.tokens_by_user name u
              (find_user-some s.tokens_by_user name (keys s.tokens_by_user) e) in
          absurd (unused u tok held same)
    ]

deleted_cases :
    (s : Store) (name : String)
    → (((delete_role s name).1 ≢ none) × ((delete_role s name).0 ≡ s))
      ⊎ (((delete_role s name).1 ≡ none)
          × ((delete_role s name).0 ≡ schedule_persist (record s { roles = remove s.roles name }))
          × (is_default_role_name name ≡ false)
          × (is_some (get s.roles name) ≡ true)
          × ((u : String) (tok : Token) → get s.tokens_by_user u ≡ some tok → tok.role ≢ name))
deleted_cases s name = elim (delete_role_cases s name) [
  | inl (e, same) ↦ inl (rw same ((λ h. cc), refl))
  | inr (own, there, free, same) ↦ inr (
    ap (λ (r : Store × Option Error). r.1) same,
    ap (λ (r : Store × Option Error). r.0) same,
    own,
    there,
    λ u tok held. no_user_has_role s.tokens_by_user name free u tok held,
  )
]

-- A role is deleted exactly when it exists, is not a default role, and no user's token has it. A deletion takes this
-- role from the roles and leaves the others, the tokens and the limiters; one that is refused changes nothing.
pub delete_role_iff :
    (s : Store) (name : String)
    → (((delete_role s name).1 ≡ none) ↔ (
        (is_default_role_name name ≡ false)
        × (is_some (get s.roles name) ≡ true)
        × ((u : String) (tok : Token) → get s.tokens_by_user u ≡ some tok → tok.role ≢ name)))
      × ((delete_role s name).1 ≡ none
          → (let s' = (delete_role s name).0 in
              ((q : String) → get s'.roles q ≡ (if name == q then none else get s.roles q))
              × (s'.tokens ≡ s.tokens)
              × (s'.tokens_by_user ≡ s.tokens_by_user)
              × (s'.rate_limiters ≡ s.rate_limiters)))
      × ((delete_role s name).1 ≢ none → (delete_role s name).0 ≡ s)
delete_role_iff s name = elim (deleted_cases s name) [
  | inl (refused, same) ↦ (
    ((λ h. absurd (refused h)), (λ (own, there, unused). delete_unused s name own there unused)),
    (λ h. absurd (refused h)),
    (λ _. same),
  )
  | inr (done, same, own, there, unused) ↦ (
    ((λ _. (own, there, unused)), (λ _. done)),
    (λ _. rw same (
      (λ q. rw roles-schedule_persist (get-remove s.roles name q)),
      tokens-schedule_persist _,
      tokens_by_user-schedule_persist _,
      rate_limiters-schedule_persist _,
    )),
    (λ h. absurd (h done)),
  )
]
