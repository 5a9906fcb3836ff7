-- ===== src/Tokens/Store/Invariant.antt =====
-- What holds of the store between two operations, and that each operation keeps it.
pub mod OfRoles
use rune_admin.Prelude.{
  ℕ, ℤ, String, ◌≡◌, ◌≢◌, refl, sym, Bool, true, false, not, Option, none, some, List, [], ◌∷◌,
  arith, ◌==◌, eq_iff, eq_refl, if◌then◌else◌, Bool-cases, Option-cases, ◌⊎◌, inl, inr,
}
use rune_admin.Dict.{
  Dict, get, put, remove, keys, get-put, get-remove, empty, get-empty, contains-keys,
}
use rune_admin.Dict.Assoc.{is_some, contains}
use rune_admin.Tokens.Errors.{Error, Result, ok, err}
use rune_admin.Tokens.Role.{Role, validate_rate_limit, is_default_role_name}
use rune_admin.Tokens.Token.{Token, Dates, new_token_string}
use rune_admin.Tokens.Store.{Store, schedule_persist}
use rune_admin.Tokens.Store.Consistent.{IsIndexed, put-IsIndexed, remove-IsIndexed}
use rune_admin.Tokens.Store.Issue.{
  store_token, drop_token, made_token, add_token, revoke_token, rotate_token, lifetime,
}
use rune_admin.Tokens.Store.Issue.Outcomes.{add_token_cases, rotate_token_cases}
use rune_admin.Tokens.Store.Roles.{
  UpdateRoleOpts, override, has_role, drop_limiters, change_role, limiters_after, check_opts,
  add_role, update_role, find_user, delete_role,
}

pub record IsConsistent (s : Store) : Type 0 where
  pub indexed : IsIndexed s.tokens s.tokens_by_user
  pub assigned :
      (u : String) (tok : Token)
      → get s.tokens_by_user u ≡ some tok
      → is_some (get s.roles tok.role) ≡ true
  pub well_formed :
      (n : String) (r : Role)
      → get s.roles n ≡ some r
      → (r.name ≡ n) × (validate_rate_limit r.rate_limit ≡ none)
  pub has_defaults : (n : String) → is_default_role_name n ≡ true → is_some (get s.roles n) ≡ true
  pub limited :
      (u : String)
      → is_some (get s.rate_limiters u) ≡ true
      → is_some (get s.tokens_by_user u) ≡ true

-- Scheduling a write touches the timer alone.
module _ (s : Store) where
  pub tokens-schedule_persist : (schedule_persist s).tokens ≡ s.tokens
  unfolding schedule_persist
  tokens-schedule_persist = ground arith

  pub tokens_by_user-schedule_persist : (schedule_persist s).tokens_by_user ≡ s.tokens_by_user
  unfolding schedule_persist
  tokens_by_user-schedule_persist = ground arith

  pub roles-schedule_persist : (schedule_persist s).roles ≡ s.roles
  unfolding schedule_persist
  roles-schedule_persist = ground arith

  pub rate_limiters-schedule_persist : (schedule_persist s).rate_limiters ≡ s.rate_limiters
  unfolding schedule_persist
  rate_limiters-schedule_persist = ground arith

  schedule_persist-IsConsistent : IsConsistent s → IsConsistent (schedule_persist s)
  schedule_persist-IsConsistent c = record {
    indexed = rw (tokens-schedule_persist, tokens_by_user-schedule_persist) c.indexed;
    assigned = rw (tokens_by_user-schedule_persist, roles-schedule_persist) c.assigned;
    well_formed = rw roles-schedule_persist c.well_formed;
    has_defaults = rw roles-schedule_persist c.has_defaults;
    limited = rw (tokens_by_user-schedule_persist, rate_limiters-schedule_persist) c.limited;
  }

pub ruleset scheduled = (
  tokens-schedule_persist, tokens_by_user-schedule_persist, roles-schedule_persist,
  rate_limiters-schedule_persist,
)

module _ (s : Store) (c : IsConsistent s) where
  store_token-IsConsistent :
      (tok : Token)
      → get s.tokens tok.token ≡ none
      → get s.tokens_by_user tok.user ≡ none
      → is_some (get s.roles tok.role) ≡ true
      → IsConsistent (store_token s tok)
  store_token-IsConsistent tok text name role = record {
    indexed = put-IsIndexed s.tokens s.tokens_by_user tok c.indexed text name;
    assigned =
        λ u other h. ground (arith, get-put s.tokens_by_user tok.user u tok, c.assigned u other);
    well_formed = c.well_formed;
    has_defaults = c.has_defaults;
    limited = λ u h. ground (arith, get-put s.tokens_by_user tok.user u tok, c.limited u h);
  }

  drop_token-IsConsistent :
      (user : String) (tok : Token)
      → get s.tokens_by_user user ≡ some tok
      → IsConsistent (drop_token s tok user)
  drop_token-IsConsistent user tok held = record {
    indexed = remove-IsIndexed s.tokens s.tokens_by_user user tok c.indexed held;
    assigned = λ u other h. ground (arith, get-remove s.tokens_by_user user u, c.assigned u other);
    well_formed = c.well_formed;
    has_defaults = c.has_defaults;
    limited = λ u h.
        ground (
          arith,
          get-remove s.tokens_by_user user u,
          get-remove s.rate_limiters user u,
          c.limited u,
        );
  }

  pub revoke_token-IsConsistent : (user : String) → IsConsistent (revoke_token s user).0
  unfolding revoke_token
  revoke_token-IsConsistent user = elim (Option-cases (get s.tokens_by_user user)) [
    | inl e ↦ rw (e, revoke_token) c
    | inr (tok, e) ↦
        rw (e, revoke_token)
          (schedule_persist-IsConsistent (drop_token s tok user)
            (drop_token-IsConsistent user tok e))
  ]

-- The text that `new_token_string` makes of some bytes is not in use.
abbrev pub IsFresh : Store → Option (List ℕ) → Type 0
IsFresh s entropy = (text : String) → new_token_string entropy ≡ ok text → get s.tokens text ≡ none

module _ (dates : Dates) (now : ℕ) (entropy : Option (List ℕ)) (s : Store) (c : IsConsistent s)
    (fresh : IsFresh s entropy) where
  pub add_token-IsConsistent :
      (user role : String) (days : Option ℤ)
      → IsConsistent (add_token dates now entropy s user role days).0
  add_token-IsConsistent user role days =
      elim (add_token_cases dates now entropy s user role days) [
        | inl (e, same) ↦ rw same c
        | inr (text, made, known, free, same) ↦
            let tok = made_token dates now user text role days in
            rw same (
              schedule_persist-IsConsistent (store_token s tok)
                (store_token-IsConsistent s c tok (fresh text made) free known))
      ]

  -- A failed rotation keeps the invariant too: it leaves the store without the token.
  pub rotate_token-IsConsistent :
      (user : String) → IsConsistent (rotate_token dates now entropy s user).0
  rotate_token-IsConsistent user = elim (rotate_token_cases dates now entropy s user) [
    | inl (_, same) ↦ rw same c
    | inr (old, held, inl (_, same)) ↦ rw same (drop_token-IsConsistent s c user old held)
    | inr (old, held, inr (text, made, same)) ↦
        let dropped = drop_token s old user in
        let tok = made_token dates now user text old.role (lifetime dates old) in
        rw same (
          schedule_persist-IsConsistent (store_token dropped tok) (
            store_token-IsConsistent dropped (drop_token-IsConsistent s c user old held) tok
              (ground (arith, get-remove s.tokens old.token text, fresh text made))
              (ground (arith, get-remove s.tokens_by_user user user, eq_refl user))
              (c.assigned user old held)))
  ]
