-- ===== src/Tokens/Store/Access.antt =====
-- `Validate`, `GetUsername` and `getOrCreateLimiterLocked`. The three readings of a clock that
-- `Validate` makes are arguments: the store's, and the limiter's in `IsAllowed` and `RetryAfter`.
pub mod Outcomes
pub mod Admission
pub mod AfterIssue
use rune_admin.Prelude.{ℕ, String, Bool, Option, none, some, if◌then◌else◌, pos, ℤ}
use rune_admin.Dict.{Dict, get, put}
use rune_admin.Tokens.Errors.{Error, token_not_found, token_expired, rate_limit, Result, ok, err}
use rune_admin.Tokens.Role.{Role, rate_limit_parsed}
use rune_admin.Tokens.RateLimiter.{RateLimiter, new_rate_limiter, is_allowed, retry_after}
use rune_admin.Tokens.Token.{Token, Dates, is_expired_at}
use rune_admin.Tokens.Store.{Store}

pub record Clocks : Type 0 where
  pub store_now : ℕ
  pub limiter_now : ℕ
  pub retry_now : ℕ

unfoldable pub get_username : Store → String → String
get_username s tok = elim (get s.tokens tok) [ none ↦ "" | some t ↦ t.user ]

-- An existing limiter is kept, whatever the role says now.
unfoldable pub get_or_create_limiter : Store → String → Role → Result (Store × RateLimiter)
unfolding rate_limit_parsed new_rate_limiter
get_or_create_limiter s user role = elim (get s.rate_limiters user) [
  | some l ↦ ok (s, l)
  | none ↦ elim (rate_limit_parsed role) [
    | err e ↦ err e
    | ok (max_req, window) ↦
        let l = new_rate_limiter max_req window in
        ok (record s { rate_limiters = put s.rate_limiters user l }, l)
  ]
]

-- The limiter's own mutex guards this part. The limiter is shared, so its change shows in the map.
unfoldable pub charge :
    Clocks → String → Role → Store → RateLimiter → Store × Result (String × Role)
charge clocks user role s limiter =
    let (limiter', allowed) = is_allowed clocks.limiter_now user limiter in
    let s' = record s { rate_limiters = put s.rate_limiters user limiter' } in
    if allowed
    then (s', ok (user, role))
    else (s', err (rate_limit (pos (retry_after clocks.retry_now user limiter'))))

admit : Clocks → Store → Token → Option Role → Store × Result (String × Role)
unfolding charge get_or_create_limiter
admit clocks s tok none = (s, err token_not_found)
admit clocks s tok (some role) = elim (get_or_create_limiter s tok.user role) [
  | err e ↦ (s, err e)
  | ok (s', limiter) ↦ charge clocks tok.user role s' limiter
]

check_token : Dates → Clocks → Store → Option Token → Store × Result (String × Role)
unfolding admit
check_token dates clocks s none = (s, err token_not_found)
check_token dates clocks s (some tok) =
    if is_expired_at dates tok clocks.store_now
    then (s, err (token_expired tok.user))
    else admit clocks s tok (get s.roles tok.role)

unfoldable pub validate : Dates → Clocks → Store → String → Store × Result (String × Role)
unfolding check_token
validate dates clocks s tok = check_token dates clocks s (get s.tokens tok)
