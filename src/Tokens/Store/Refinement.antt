-- ===== src/Tokens/Store/Refinement.antt =====
-- The store seen from outside: who holds which token, what the roles are, and each user's limiter.
-- The map by token text, the order of the maps, the paths and the timer are forgotten.
use rune_admin.Prelude.{
  ℕ, String, ◌≡◌, ◌≢◌, refl, ap, ◌∙◌, true, false, Option, none, some, List, arith, ◌⊎◌, inl, inr,
  ◌==◌, if◌then◌else◌, Bool-cases, Option-cases,
}
use mathlib.Core.Path.{fun_ext}
use rune_admin.Dict.{Dict, get, put, remove, get-put, get-remove}
use rune_admin.Dict.Assoc.{is_some}
use rune_admin.Tokens.Role.{Role, validate_rate_limit, is_default_role_name}
use rune_admin.Tokens.RateLimiter.{RateLimiter}
use rune_admin.Tokens.Token.{Token, Dates}
use rune_admin.Tokens.Store.{Store, schedule_persist}
use rune_admin.Tokens.Store.Access.{Clocks, validate}
use rune_admin.Tokens.Store.Access.Outcomes.{validate-SameButLimiters}
use rune_admin.Tokens.Store.Issue.{
  store_token, drop_token, made_token, add_token, revoke_token, rotate_token, lifetime,
}
use rune_admin.Tokens.Store.Issue.Outcomes.{add_token_cases, rotate_token_cases}
use rune_admin.Tokens.Store.Roles.{
  UpdateRoleOpts, has_role, change_role, limiters_after, update_role, delete_role, add_role,
}
use rune_admin.Tokens.Store.Roles.Outcomes.{
  add_role_cases, update_role_cases, delete_role_cases, no_user_has_role,
}
use rune_admin.Tokens.Store.Roles.Effects.{get-limiters_after, has_role-held}
use rune_admin.Tokens.Store.Invariant.{
  IsConsistent, IsFresh, tokens_by_user-schedule_persist, roles-schedule_persist,
  rate_limiters-schedule_persist,
}
use rune_admin.Tokens.Store.History.{
  Step, check, issue, revoke, rotate, create_role, change, drop_role, Reach, here, then_step,
  Reach-IsConsistent,
}

pub record View : Type 0 where
  pub holder : String → Option Token
  pub role_of : String → Option Role
  pub limiter_of : String → Option RateLimiter

abbrev pub view : Store → View
view s = record {
  holder = get s.tokens_by_user;
  role_of = get s.roles;
  limiter_of = get s.rate_limiters;
}

-- A function with another value at one place.
abbrev pub set {ℓ} : {V : Type ℓ} → (String → V) → String → V → String → V
set f k v j = if k == j then v else f j

-- The moves of the abstract store.
pub data Move (v w : View) : Type 0 where
  stay : w ≡ v → Move v w
  -- A call of a holder of a token with a known role is counted.
  charge :
      (tok : Token) (role : Role)
      → v.holder tok.user ≡ some tok
      → v.role_of tok.role ≡ some role
      → w.holder ≡ v.holder
      → w.role_of ≡ v.role_of
      → ((u : String) → (tok.user == u) ≡ false → w.limiter_of u ≡ v.limiter_of u)
      → Move v w
  give :
      (tok : Token)
      → v.holder tok.user ≡ none
      → is_some (v.role_of tok.role) ≡ true
      → w ≡ record v { holder = set v.holder tok.user (some tok) }
      → Move v w
  take :
      (user : String) (tok : Token)
      → v.holder user ≡ some tok
      → w ≡ record v { holder = set v.holder user none; limiter_of = set v.limiter_of user none }
      → Move v w
  -- The new token has another text and the old one's user and role.
  renew :
      (old tok : Token)
      → v.holder tok.user ≡ some old
      → old.user ≡ tok.user
      → tok.role ≡ old.role
      → old.token ≢ tok.token
      → w ≡ record v {
        holder = set v.holder tok.user (some tok);
        limiter_of = set v.limiter_of tok.user none;
      }
      → Move v w
  define :
      (role : Role)
      → v.role_of role.name ≡ none
      → validate_rate_limit role.rate_limit ≡ none
      → w ≡ record v { role_of = set v.role_of role.name (some role) }
      → Move v w
  -- Limiters are dropped only of holders of tokens with the role.
  redefine :
      (name : String) (role role' : Role)
      → v.role_of name ≡ some role
      → role'.name ≡ role.name
      → w.holder ≡ v.holder
      → w.role_of ≡ set v.role_of name (some role')
      → ((u : String)
          → (w.limiter_of u ≡ v.limiter_of u)
            ⊎ ((w.limiter_of u ≡ none)
                × (tok : Token) × (v.holder u ≡ some tok)
                × (tok.role ≡ name)))
      → Move v w
  undefine :
      (name : String)
      → is_default_role_name name ≡ false
      → is_some (v.role_of name) ≡ true
      → ((u : String) (tok : Token) → v.holder u ≡ some tok → tok.role ≢ name)
      → w ≡ record v { role_of = set v.role_of name none }
      → Move v w

pub data Moves (v : View) : View → Type 0 where
  done : Moves v v
  and_then : {w x : View} → Moves v w → Move w x → Moves v x

get-put-set {ℓ} :
    {V : Type ℓ} (d : Dict V) (k : String) (x : V) → get (put d k x) ≡ set (get d) k (some x)
get-put-set d k x = fun_ext λ j. get-put d k j x

get-remove-set {ℓ} : {V : Type ℓ} (d : Dict V) (k : String) → get (remove d k) ≡ set (get d) k none
get-remove-set d k = fun_ext λ j. get-remove d k j

set_twice {ℓ} :
    {A : Type ℓ} (f : String → Option A) (k : String) (x : A)
    → set (set f k none) k (some x) ≡ set f k (some x)
set_twice f k x = fun_ext λ j. elim (Bool-cases (k == j)) [ inl e ↦ rw e refl | inr e ↦ rw e refl ]

view-schedule_persist : (s : Store) → view (schedule_persist s) ≡ view s
view-schedule_persist s =
    rw
      (
        tokens_by_user-schedule_persist s,
        roles-schedule_persist s,
        rate_limiters-schedule_persist s,
      )
      refl

module _ (dates : Dates) (s : Store) (c : IsConsistent s) where
  check-Move :
      (clocks : Clocks) (text : String) → Move (view s) (view (validate dates clocks s text).0)
  check-Move clocks text = elim (validate-SameButLimiters dates clocks s text) [
    | inl e ↦ stay (ap view e)
    | inr (tok, held, same) ↦
        let (_, at_user) = c.indexed.by_text text tok held in
        elim (Option-cases (get s.roles tok.role)) [
          | inl e ↦ absurd (let known = c.assigned tok.user tok at_user in ground arith)
          | inr (role, e) ↦
              charge tok role at_user e (ap (λ (d : Dict Token). get d) same.same_users)
                (ap (λ (d : Dict Role). get d) same.same_roles) same.same_limiters
        ]
  ]

  issue-Move :
      (now : ℕ) (entropy : Option (List ℕ)) (user role : String) (days : Option _)
      → Move (view s) (view (add_token dates now entropy s user role days).0)
  issue-Move now entropy user role days =
      elim (add_token_cases dates now entropy s user role days) [
        | inl (_, e) ↦ rw e (stay refl)
        | inr (text, _, known, free, e) ↦
            let tok = made_token dates now user text role days in
            rw e (
              give tok free known (
                view-schedule_persist (store_token s tok)
                ∙ rw (get-put-set s.tokens_by_user user tok) refl))
      ]

  dropped-view :
      (old : Token) (user : String)
      → view (drop_token s old user) ≡ record (view s) {
        holder = set (get s.tokens_by_user) user none;
        limiter_of = set (get s.rate_limiters) user none;
      }
  dropped-view old user =
      rw (get-remove-set s.tokens_by_user user, get-remove-set s.rate_limiters user) refl

  revoke-Move : (user : String) → Move (view s) (view (revoke_token s user).0)
  unfolding revoke_token
  revoke-Move user = elim (Option-cases (get s.tokens_by_user user)) [
    | inl e ↦ rw (revoke_token, e) (stay refl)
    | inr (tok, e) ↦
        rw (revoke_token, e)
          (take user tok e (view-schedule_persist (drop_token s tok user) ∙ dropped-view tok user))
  ]

  rotate-Move :
      (now : ℕ) (entropy : Option (List ℕ)) (user : String)
      → IsFresh s entropy
      → Move (view s) (view (rotate_token dates now entropy s user).0)
  rotate-Move now entropy user fresh = elim (rotate_token_cases dates now entropy s user) [
    | inl (_, e) ↦ rw e (stay refl)
    | inr (old, held, inl (_, e)) ↦ rw e (take user old held (dropped-view old user))
    | inr (old, held, inr (text, made, e)) ↦
        let tok = made_token dates now user text old.role (lifetime dates old) in
        let (same_user, stored) = c.indexed.by_name user old held in
        rw e (
          renew old tok held same_user refl (λ same. absurd (let unused = fresh text made in cc))
            (view-schedule_persist (store_token (drop_token s old user) tok)
              ∙ rw
                  (
                    get-put-set (remove s.tokens_by_user user) user tok,
                    get-remove-set s.tokens_by_user user,
                    get-remove-set s.rate_limiters user,
                    set_twice (get s.tokens_by_user) user tok,
                  )
                  refl))
  ]

  define-Move :
      (name : String) (scopes : List String) (top_k : _) (limit : String)
      → Move (view s) (view (add_role s name scopes top_k limit).0)
  define-Move name scopes top_k limit = elim (add_role_cases s name scopes top_k limit) [
    | inl (_, e) ↦ rw e (stay refl)
    | inr (valid, free, e) ↦
        let role : Role = record {
          name = name;
          scopes = scopes;
          top_k = top_k;
          rate_limit = limit;
        } in
        rw e (
          define role free valid (
            view-schedule_persist (record s { roles = put s.roles name role })
            ∙ rw (get-put-set s.roles name role) refl))
  ]

  redefined_limiters :
      (name : String) (opts : UpdateRoleOpts) (u : String)
      → (get (limiters_after s name opts.opt_rate_limit) u ≡ get s.rate_limiters u)
        ⊎ ((get (limiters_after s name opts.opt_rate_limit) u ≡ none)
            × (tok : Token) × (get s.tokens_by_user u ≡ some tok)
            × (tok.role ≡ name))
  redefined_limiters name opts u =
      let after = get-limiters_after s name opts.opt_rate_limit u in
      elim (Bool-cases (has_role s.tokens_by_user name u)) [
        | inr e ↦ inl (ground arith)
        | inl e ↦ elim (Option-cases opts.opt_rate_limit) [
          | inl same ↦ inl (ground arith)
          | inr (limit, new) ↦
              let (tok, held, same) = has_role-held s.tokens_by_user name u e in
              inr (ground arith, tok, held, same)
        ]
      ]

  redefine-Move :
      (name : String) (opts : UpdateRoleOpts) → Move (view s) (view (update_role s name opts).0)
  redefine-Move name opts = elim (update_role_cases s name opts) [
    | inl (_, e) ↦ rw e (stay refl)
    | inr (role, valid, there, e) ↦
        let role' = change_role s name opts role in
        let s' = record s {
          roles = put s.roles name role';
          rate_limiters = limiters_after s name opts.opt_rate_limit;
        } in
        rw (e, view-schedule_persist s')
          (redefine name role role' there (unfold change_role in refl) refl
            (get-put-set s.roles name role') (redefined_limiters name opts))
  ]

  undefine-Move : (name : String) → Move (view s) (view (delete_role s name).0)
  undefine-Move name = elim (delete_role_cases s name) [
    | inl (_, e) ↦ rw e (stay refl)
    | inr (own, there, free, e) ↦ rw e (
        undefine name own there (no_user_has_role s.tokens_by_user name free) (
          view-schedule_persist (record s { roles = remove s.roles name })
          ∙ rw (get-remove-set s.roles name) refl))
  ]

-- Each operation on a consistent store is a move of the abstract one.
Step-Move : (dates : Dates) {s t : Store} → IsConsistent s → Step dates s t → Move (view s) (view t)
Step-Move dates {s} c (check clocks text) = check-Move dates s c clocks text
Step-Move dates {s} c (issue now entropy user role days fresh) =
    issue-Move dates s c now entropy user role days
Step-Move dates {s} c (revoke user) = revoke-Move dates s c user
Step-Move dates {s} c (rotate now entropy user fresh) = rotate-Move dates s c now entropy user fresh
Step-Move dates {s} c (create_role name scopes top_k limit) =
    define-Move dates s c name scopes top_k limit
Step-Move dates {s} c (change name opts) = redefine-Move dates s c name opts
Step-Move dates {s} c (drop_role name) = undefine-Move dates s c name

-- The operations on a consistent store, in any order and with new token texts that are not in use,
-- are moves of the abstract store: a holder has one token and each move changes what it says alone.
pub Reach-Moves :
    (dates : Dates) {s t : Store} → IsConsistent s → Reach dates s t → Moves (view s) (view t)
Reach-Moves dates c here = done
Reach-Moves dates c (then_step r st) =
    and_then (Reach-Moves dates c r) (Step-Move dates (Reach-IsConsistent dates c r) st)
