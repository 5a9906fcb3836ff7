-- ===== src/Tokens/Store/Access/Outcomes.antt =====
-- The possible outcomes of `Validate`, with what decides between them.
use rune_admin.Prelude.{
  String, ◌≡◌, refl, true, false, none, some, arith, ◌∙◌, ◌⊎◌, inl, inr, Bool-cases, Option-cases,
  pos, ◌==◌,
}
use rune_admin.Dict.{get, put, get-put}
use rune_admin.Tokens.Errors.{Error, token_not_found, token_expired, rate_limit, Result, ok, err}
use rune_admin.Tokens.Role.{Role, rate_limit_parsed}
use rune_admin.Tokens.RateLimiter.{RateLimiter, new_rate_limiter, is_allowed, retry_after}
use rune_admin.Tokens.Token.{Token, Dates, is_expired_at}
use rune_admin.Tokens.Store.{Store}
use rune_admin.Tokens.Store.Access.{Clocks, get_or_create_limiter, charge, validate}
use rune_admin.Tokens.Store.Issue.Outcomes.{Result-cases}

pub data Outcome (dates : Dates) (clocks : Clocks) (s : Store) (text : String)
    (r : Store × Result (String × Role)) : Type 0 where
  unknown : get s.tokens text ≡ none → r ≡ (s, err token_not_found) → Outcome dates clocks s text r
  expired :
      (tok : Token)
      → get s.tokens text ≡ some tok
      → is_expired_at dates tok clocks.store_now ≡ true
      → r ≡ (s, err (token_expired tok.user))
      → Outcome dates clocks s text r
  roleless :
      (tok : Token)
      → get s.tokens text ≡ some tok
      → is_expired_at dates tok clocks.store_now ≡ false
      → get s.roles tok.role ≡ none
      → r ≡ (s, err token_not_found)
      → Outcome dates clocks s text r
  unparsed :
      (tok : Token) (role : Role) (e : Error)
      → get s.tokens text ≡ some tok
      → is_expired_at dates tok clocks.store_now ≡ false
      → get s.roles tok.role ≡ some role
      → rate_limit_parsed role ≡ err e
      → r ≡ (s, err e)
      → Outcome dates clocks s text r
  charged :
      (tok : Token) (role : Role) (s' : Store) (l : RateLimiter)
      → get s.tokens text ≡ some tok
      → is_expired_at dates tok clocks.store_now ≡ false
      → get s.roles tok.role ≡ some role
      → get_or_create_limiter s tok.user role ≡ ok (s', l)
      → r ≡ charge clocks tok.user role s' l
      → Outcome dates clocks s text r

get_or_create_limiter-err :
    (s : Store) (user : String) (role : Role) {e : Error}
    → get_or_create_limiter s user role ≡ err e
    → rate_limit_parsed role ≡ err e
unfolding get_or_create_limiter
get_or_create_limiter-err s user role h = elim (Option-cases (get s.rate_limiters user)) [
  | inr (l, e) ↦ ground arith
  | inl e ↦ elim (Result-cases (rate_limit_parsed role)) [
    | inl (x, f) ↦ ground arith
    | inr (p, f) ↦ ground arith
  ]
]

pub validate-Outcome :
    (dates : Dates) (clocks : Clocks) (s : Store) (text : String)
    → Outcome dates clocks s text (validate dates clocks s text)
unfolding validate
validate-Outcome dates clocks s text = elim (Option-cases (get s.tokens text)) [
  | inl e ↦ unknown e (ground arith)
  | inr (tok, e) ↦ elim (Bool-cases (is_expired_at dates tok clocks.store_now)) [
    | inl old ↦ expired tok e old (ground arith)
    | inr live ↦ elim (Option-cases (get s.roles tok.role)) [
      | inl f ↦ roleless tok e live f (ground arith)
      | inr (role, f) ↦ elim (Result-cases (get_or_create_limiter s tok.user role)) [
        | inl (x, g) ↦
            unparsed tok role x e live f (get_or_create_limiter-err s tok.user role g)
              (ground arith)
        | inr ((s', l), g) ↦ charged tok role s' l e live f g (ground arith)
      ]
    ]
  ]
]

-- Only the limiters differ, and a new one is the user's.
pub record SameButLimiters (s t : Store) (user : String) : Type 0 where
  pub same_tokens : t.tokens ≡ s.tokens
  pub same_users : t.tokens_by_user ≡ s.tokens_by_user
  pub same_roles : t.roles ≡ s.roles
  pub same_roles_path : t.roles_path ≡ s.roles_path
  pub same_tokens_path : t.tokens_path ≡ s.tokens_path
  pub same_persister : t.persister ≡ s.persister
  pub same_limiters :
      (u : String) → (user == u) ≡ false → get t.rate_limiters u ≡ get s.rate_limiters u

pub get_or_create_limiter-SameButLimiters :
    (s : Store) (user : String) (role : Role) {s' : Store} {l : RateLimiter}
    → get_or_create_limiter s user role ≡ ok (s', l)
    → SameButLimiters s s' user
unfolding get_or_create_limiter
get_or_create_limiter-SameButLimiters s user role {s'} {l} h =
    elim (Option-cases (get s.rate_limiters user)) [
      | inr (l₀, e) ↦ ground arith
      | inl e ↦ elim (Result-cases (rate_limit_parsed role)) [
        | inl (x, f) ↦ ground arith
        | inr ((m, w), f) ↦
            let same : record s { rate_limiters = put s.rate_limiters user (new_rate_limiter m w) }
                ≡ s' =
              ground arith in
            rw (← same) (record {
              same_tokens = refl;
              same_users = refl;
              same_roles = refl;
              same_roles_path = refl;
              same_tokens_path = refl;
              same_persister = refl;
              same_limiters =
                  λ u h. ground (arith, get-put s.rate_limiters user u (new_rate_limiter m w));
            })
      ]
    ]

module _ (clocks : Clocks) (user : String) (role : Role) (s : Store) (l : RateLimiter) where
  pub store-charge : (charge clocks user role s l).0 ≡ record s {
    rate_limiters = put s.rate_limiters user (is_allowed clocks.limiter_now user l).0;
  }
  unfolding charge
  store-charge = ground arith

  -- A charge ends in the user and the role exactly when the limiter lets it through.
  pub charge_result :
      (((is_allowed clocks.limiter_now user l).1 ≡ true)
        × ((charge clocks user role s l).1 ≡ ok (user, role)))
      ⊎ (((is_allowed clocks.limiter_now user l).1 ≡ false)
          × (let l' = (is_allowed clocks.limiter_now user l).0 in
              (charge clocks user role s l).1
              ≡ err (rate_limit (pos (retry_after clocks.retry_now user l')))))
  unfolding charge
  charge_result = ground arith

  charge-SameButLimiters : SameButLimiters s (charge clocks user role s l).0 user
  charge-SameButLimiters = rw store-charge (record {
    same_tokens = refl;
    same_users = refl;
    same_roles = refl;
    same_roles_path = refl;
    same_tokens_path = refl;
    same_persister = refl;
    same_limiters = λ u h.
        ground (arith, get-put s.rate_limiters user u (is_allowed clocks.limiter_now user l).0);
  })

SameButLimiters-trans :
    {s t u : Store} (user : String)
    → SameButLimiters s t user
    → SameButLimiters t u user
    → SameButLimiters s u user
SameButLimiters-trans user a b = record {
  same_tokens = b.same_tokens ∙ a.same_tokens;
  same_users = b.same_users ∙ a.same_users;
  same_roles = b.same_roles ∙ a.same_roles;
  same_roles_path = b.same_roles_path ∙ a.same_roles_path;
  same_tokens_path = b.same_tokens_path ∙ a.same_tokens_path;
  same_persister = b.same_persister ∙ a.same_persister;
  same_limiters = λ v h. b.same_limiters v h ∙ a.same_limiters v h;
}

-- A check changes nothing, or the limiter of the token's user alone.
pub validate-SameButLimiters :
    (dates : Dates) (clocks : Clocks) (s : Store) (text : String)
    → ((validate dates clocks s text).0 ≡ s)
      ⊎ ((tok : Token) × (get s.tokens text ≡ some tok)
          × SameButLimiters s (validate dates clocks s text).0 tok.user)
validate-SameButLimiters dates clocks s text = elim (validate-Outcome dates clocks s text) [
  | unknown _ e ↦ inl (rw e)
  | expired _ _ _ e ↦ inl (rw e)
  | roleless _ _ _ _ e ↦ inl (rw e)
  | unparsed _ _ _ _ _ _ _ e ↦ inl (rw e)
  | charged tok role s' l held _ _ made e ↦ inr (
    tok,
    held,
    rw e (
        SameButLimiters-trans tok.user (get_or_create_limiter-SameButLimiters s tok.user role made)
          (charge-SameButLimiters clocks tok.user role s' l)),
  )
]
