-- ===== src/Tokens/Store/Access/Admission.antt =====
-- What `Validate` says of a token, and what it leaves alone.
use rune_admin.Prelude.{
  String, ◌≡◌, ap, true, false, some, arith, inl, inr, Bool-cases, Option-cases, eq_iff, ◌==◌,
}
use rune_admin.Dict.{get}
use rune_admin.Tokens.Errors.{Result, ok}
use rune_admin.Tokens.Role.{Role, rate_limit_parsed}
use rune_admin.Tokens.RateLimiter.{RateLimiter, is_allowed}
use rune_admin.Tokens.Token.{Token, Dates, is_expired_at}
use rune_admin.Tokens.Store.{Store}
use rune_admin.Tokens.Store.Access.{Clocks, get_or_create_limiter, charge, validate}
use rune_admin.Tokens.Store.Access.Outcomes.{
  unknown, expired, roleless, unparsed, charged, validate-Outcome, validate-SameButLimiters,
  charge_result,
}
use rune_admin.Tokens.Store.Issue.Outcomes.{Result-cases}
use rune_admin.Tokens.Store.Invariant.{IsConsistent}

pub validate-IsConsistent :
    (dates : Dates) (clocks : Clocks) (s : Store) (text : String)
    → IsConsistent s
    → IsConsistent (validate dates clocks s text).0
validate-IsConsistent dates clocks s text c = elim (validate-SameButLimiters dates clocks s text) [
  | inl e ↦ rw e c
  | inr (tok, held, same) ↦ record {
    indexed = rw (same.same_tokens, same.same_users) c.indexed;
    assigned = rw (same.same_users, same.same_roles) c.assigned;
    well_formed = rw same.same_roles c.well_formed;
    has_defaults = rw same.same_roles c.has_defaults;
    limited = λ u h. elim (Bool-cases (tok.user == u)) [
      | inl mine ↦
          ground (arith, eq_iff tok.user u, c.indexed.by_text text tok held, same.same_users)
      | inr other ↦ rw same.same_users (c.limited u (rw (same.same_limiters u other) at h))
    ];
  }
]

answer : Store × Result (String × Role) → Result (String × Role)
answer r = r.1

-- A token is let in only if it is stored, has not expired, has a role, and its user's limiter lets
-- the call through. The user and the role are the token's.
pub validate_sound :
    (dates : Dates) (clocks : Clocks) (s : Store) (text : String) {user : String} {role : Role}
    → (validate dates clocks s text).1 ≡ ok (user, role)
    → (tok : Token) × (get s.tokens text ≡ some tok)
      × (tok.user ≡ user)
      × (is_expired_at dates tok clocks.store_now ≡ false)
      × (get s.roles tok.role ≡ some role)
      × ((l : RateLimiter) × (s' : Store) × (get_or_create_limiter s user role ≡ ok (s', l))
          × ((is_allowed clocks.limiter_now user l).1 ≡ true))
unfolding answer
validate_sound dates clocks s text {user} {role} h = elim (validate-Outcome dates clocks s text) [
  | unknown _ e ↦ absurd (cc (ap answer e))
  | expired _ _ _ e ↦ absurd (cc (ap answer e))
  | roleless _ _ _ _ e ↦ absurd (cc (ap answer e))
  | unparsed _ _ _ _ _ _ _ e ↦ absurd (cc (ap answer e))
  | charged tok role' s' l held live found made e ↦
      elim (charge_result clocks tok.user role' s' l) [
        | inl (allowed, result) ↦
            let same : ◌≡◌ {A = Result (String × Role)} (ok (tok.user, role')) (ok (user, role)) =
              cc in
            let same_user : tok.user ≡ user = ground arith in
            let same_role : role' ≡ role = ground arith in
            (
              tok,
              held,
              same_user,
              live,
              rw (← same_role) found,
              (l, s', rw (← same_user, ← same_role) made, rw (← same_user) allowed),
            )
        | inr (refused, result) ↦ absurd (cc)
      ]
]

-- The answer depends on the token, its role and the limiter of its user alone.
pub same_verdict :
    (dates : Dates) (clocks : Clocks) (s t : Store) (text : String)
    → get t.tokens text ≡ get s.tokens text
    → t.roles ≡ s.roles
    → ((tok : Token)
        → get s.tokens text ≡ some tok
        → get t.rate_limiters tok.user ≡ get s.rate_limiters tok.user)
    → (validate dates clocks t text).1 ≡ (validate dates clocks s text).1
unfolding validate get_or_create_limiter charge
same_verdict dates clocks s t text same_token same_roles same_limiter =
    elim (Option-cases (get s.tokens text)) [
      | inl e ↦ ground arith
      | inr (tok, e) ↦ elim (Bool-cases (is_expired_at dates tok clocks.store_now)) [
        | inl old ↦ ground arith
        | inr live ↦ elim (Option-cases (get s.roles tok.role)) [
          | inl f ↦ ground arith
          | inr (role, f) ↦ elim (Option-cases (get s.rate_limiters tok.user)) [
            | inr (l, g) ↦ ground (arith, same_limiter tok e)
            | inl g ↦ elim (Result-cases (rate_limit_parsed role)) [
              | inl (x, p) ↦ ground (arith, same_limiter tok e)
              | inr ((m, w), p) ↦ ground (arith, same_limiter tok e)
            ]
          ]
        ]
      ]
    ]
