-- ===== src/Tokens/Store/Access/AfterIssue.antt =====
-- `Validate` after a token was issued, revoked or rotated.
use rune_admin.Prelude.{
  ℕ, suc, ℤ, String, ◌≡◌, ◌≢◌, ◌∙◌, ap, true, false, Option, none, some, List, arith, pos, eq_iff,
  eq_refl,
}
use rune_admin.Dict.{get, remove, get-put, get-remove, get-empty}
use rune_admin.Tokens.Errors.{token_not_found, Result, ok, err}
use rune_admin.Tokens.Role.{Role, rate_limit_parsed}
use rune_admin.Tokens.RateLimiter.{is_allowed}
use rune_admin.Tokens.Token.{Token, Dates, is_expired_at}
use rune_admin.Tokens.Store.{Store, schedule_persist}
use rune_admin.Tokens.Store.Access.{Clocks, get_or_create_limiter, charge, validate}
use rune_admin.Tokens.Store.Access.Admission.{same_verdict}
use rune_admin.Tokens.Store.Invariant.{
  IsConsistent, IsFresh, tokens-schedule_persist, roles-schedule_persist,
  rate_limiters-schedule_persist,
}
use rune_admin.Tokens.Store.Issue.{store_token, drop_token, add_token, revoke_token, rotate_token}
use rune_admin.Tokens.Store.Issue.Outcomes.{add_token-ok, rotate_token-ok}

unknown_text :
    (dates : Dates) (clocks : Clocks) (s : Store) (text : String)
    → get s.tokens text ≡ none
    → validate dates clocks s text ≡ (s, err token_not_found)
unfolding validate
unknown_text dates clocks s text e = ground arith

revoke_token-held :
    (s : Store) (user : String) {tok : Token}
    → get s.tokens_by_user user ≡ some tok
    → revoke_token s user ≡ (schedule_persist (drop_token s tok user), true)
unfolding revoke_token
revoke_token-held s user e = ground arith

module _ (dates : Dates) (clocks : Clocks) (s : Store) (c : IsConsistent s) (user : String)
    {tok : Token} (held : get s.tokens_by_user user ≡ some tok) where
  -- A revoked token is refused as unknown, and the check changes nothing. Every other text gets the
  -- answer that it got before the revocation.
  pub validate-revoke_token :
      let s' = (revoke_token s user).0 in
      (validate dates clocks s' tok.token ≡ (s', err token_not_found))
      × ((text : String)
          → tok.token ≢ text
          → (validate dates clocks s' text).1 ≡ (validate dates clocks s text).1)
  validate-revoke_token = rw (revoke_token-held s user held) (
    unknown_text dates clocks (schedule_persist (drop_token s tok user)) tok.token (
        rw tokens-schedule_persist
          (ground (arith, get-remove s.tokens tok.token tok.token, eq_refl tok.token))),
    λ text other.
        same_verdict dates clocks s (schedule_persist (drop_token s tok user)) text
          (rw tokens-schedule_persist
            (ground (arith, get-remove s.tokens tok.token text, eq_iff tok.token text)))
          (rw roles-schedule_persist)
          (λ tok' found. rw rate_limiters-schedule_persist (
            ground (
              arith,
              get-remove s.rate_limiters user tok'.user,
              eq_iff user tok'.user,
              c.indexed.by_text text tok' found,
            ))),
  )

-- Without a limiter yet, a live token of a role with a limit of at least one request is let in.
first_call :
    (dates : Dates) (clocks : Clocks) (s : Store) (tok : Token) {role : Role} {m : ℕ} {window : ℤ}
    → get s.tokens tok.token ≡ some tok
    → is_expired_at dates tok clocks.store_now ≡ false
    → get s.roles tok.role ≡ some role
    → get s.rate_limiters tok.user ≡ none
    → rate_limit_parsed role ≡ ok (pos (suc m), window)
    → (validate dates clocks s tok.token).1 ≡ ok (tok.user, role)
unfolding validate charge get_or_create_limiter is_allowed
first_call dates clocks s tok held live found none_yet parsed =
    ground (arith, get-empty {V = List ℕ} tok.user)

unlimited_user :
    (s : Store) (c : IsConsistent s) (user : String)
    → get s.tokens_by_user user ≡ none
    → get s.rate_limiters user ≡ none
unlimited_user s c user e = ground (arith, c.limited user)

module _ (dates : Dates) (now : ℕ) (clocks : Clocks) (entropy : Option (List ℕ)) (s : Store)
    (c : IsConsistent s) (user : String) where
  -- A new token is let in at once, as its user with the role that was asked for, as long as it has
  -- not expired and the role allows at least one request.
  pub validate-add_token :
      (role_name : String) (days : Option ℤ) {role : Role} {m : ℕ} {window : ℤ} {tok : Token}
      {s' : Store}
      → add_token dates now entropy s user role_name days ≡ (s', ok tok)
      → get s.roles role_name ≡ some role
      → rate_limit_parsed role ≡ ok (pos (suc m), window)
      → is_expired_at dates tok clocks.store_now ≡ false
      → (validate dates clocks s' tok.token).1 ≡ ok (user, role)
  validate-add_token role_name days {tok} issued found parsed live =
      let (text, made, known, free, is_tok, is_s') =
        add_token-ok dates now entropy s user role_name days issued in
      rw is_s' (
        first_call dates clocks (schedule_persist (store_token s tok)) tok
          (rw tokens-schedule_persist
            (ground (arith, get-put s.tokens tok.token tok.token tok, eq_refl tok.token)))
          live (rw roles-schedule_persist (ground arith))
          (rw rate_limiters-schedule_persist (ground (arith, unlimited_user s c user free))) parsed
        ∙ ground arith)

  -- After a rotation with unused bytes the old text is refused as unknown. The new one is let in, as
  -- the same user with the same role, as long as it has not expired and the role allows at least one
  -- request.
  pub validate-rotate_token :
      {old tok : Token} {role : Role} {m : ℕ} {window : ℤ} {s' : Store}
      → IsFresh s entropy
      → get s.tokens_by_user user ≡ some old
      → rotate_token dates now entropy s user ≡ (s', ok tok)
      → get s.roles old.role ≡ some role
      → rate_limit_parsed role ≡ ok (pos (suc m), window)
      → is_expired_at dates tok clocks.store_now ≡ false
      → ((validate dates clocks s' old.token).1 ≡ err token_not_found)
        × ((validate dates clocks s' tok.token).1 ≡ ok (user, role))
  validate-rotate_token {old} {tok} fresh held rotated found parsed live =
      let (old', text, held', made, is_tok, is_s') =
        rotate_token-ok dates now entropy s user rotated in
      let same_old : old' ≡ old = ground arith in
      let text_free = fresh text made in
      let dropped = drop_token s old user in
      rw (is_s', same_old)
        (
          ap (λ (r : Store × Result (String × Role)). r.1)
              (unknown_text dates clocks (schedule_persist (store_token dropped tok)) old.token (
                rw tokens-schedule_persist (
                  ground (
                    arith,
                    get-put (remove s.tokens old.token) tok.token old.token tok,
                    get-remove s.tokens old.token old.token,
                    eq_refl old.token,
                    eq_iff tok.token old.token,
                    c.indexed.by_name user old held,
                  )))),
          first_call dates clocks (schedule_persist (store_token dropped tok)) tok
                (rw tokens-schedule_persist (
                  ground (
                    arith,
                    get-put (remove s.tokens old.token) tok.token tok.token tok,
                    eq_refl tok.token,
                  )))
                live (rw roles-schedule_persist (ground arith))
                (rw rate_limiters-schedule_persist
                  (ground (arith, get-remove s.rate_limiters user tok.user, eq_iff user tok.user)))
                parsed
              ∙ ground arith,
        )
