-- ===== src/Tokens/RateLimiter.antt =====
-- vault/internal/tokens/ratelimit.go. A time is a number of nanoseconds. The limiter's clock is an
-- argument, and so is read once for each call. The mutex makes each method one step.
pub mod Window
pub mod Retry
pub mod Reference
use rune_admin.Prelude.{
  ℕ, suc, ◌+◌, ◌/◌, String, Bool, true, false, not, Option, none, some, List, [], ◌∷◌, ◌++◌, length,
  if◌then◌else◌, ltb, leb, ltb_ℤ, zero, ◌*◌, ◌-◌, ◌%◌, ◌^◌, ◌==ℕ◌, ℤ, pos, negsuc, ◌-ℤ◌,
}
use rune_admin.Machine.{wrap64, max_int64}
use rune_admin.Dict.{Dict, empty, get, put, remove}

pub record RateLimiter : Type 0 where
  pub max_requests : ℤ
  pub window : ℤ
  pub requests : Dict (List ℕ)

unfoldable pub new_rate_limiter : ℤ → ℤ → RateLimiter
new_rate_limiter m w = record { max_requests = m; window = w; requests = empty }

-- rl.requests[clientID], which is nil for an unknown client.
unfoldable pub requests_of : RateLimiter → String → List ℕ
requests_of rl client = elim (get rl.requests client) [ none ↦ [] | some ts ↦ ts ]

-- The times after the cutoff.
unfoldable pub kept_after : ℤ → List ℕ → List ℕ
kept_after cutoff [] = []
kept_after cutoff (t ∷ ts) =
    let rest = kept_after cutoff ts in if ltb_ℤ cutoff (pos t) then t ∷ rest else rest

-- `now.Add(-window)`: the least int64 is its own negation.
abbrev pub cutoff_of : ℕ → ℤ → ℤ
cutoff_of now (pos w) = pos now -ℤ pos w
cutoff_of now (negsuc n) = if n ==ℕ max_int64 then pos now -ℤ pos (suc n) else pos now -ℤ negsuc n

unfoldable pub is_allowed : ℕ → String → RateLimiter → RateLimiter × Bool
unfolding requests_of kept_after ◌-ℤ◌
is_allowed now client rl =
    let kept = kept_after (cutoff_of now rl.window) (requests_of rl client) in
    if not (ltb_ℤ (pos (length kept)) rl.max_requests)
    then (record rl { requests = put rl.requests client kept }, false)
    else (record rl { requests = put rl.requests client (kept ++ now ∷ []) }, true)

-- The loop that finds the earliest time.
unfoldable pub oldest_from : ℕ → List ℕ → ℕ
oldest_from oldest [] = oldest
oldest_from oldest (t ∷ ts) = oldest_from (if ltb t oldest then t else oldest) ts

-- The greatest power of two that is at most `s`, among those up to 2^k; 1 for 0.
unfoldable pub leading_power : ℕ → ℕ → ℕ
leading_power zero s = 1
leading_power (suc k) s =
    let rest = leading_power k s in if leb (2 ^ suc k) s then 2 ^ suc k else rest

-- int(remaining.Seconds()): whole seconds, and 0 below zero. `Seconds` adds the seconds and the fraction as a float64 with
-- 53 binary digits, which is the next second if that is nearer than half of the last digit. An int64 of nanoseconds
-- has less than 2^34 seconds.
unfoldable pub whole_seconds : ℤ → ℕ
unfolding leading_power
whole_seconds (pos n) =
    let sec = n / 1000000000 in
    if ltb ((1000000000 - n % 1000000000) * 2 ^ 53) (1000000000 * leading_power 33 sec)
    then suc sec
    else sec
whole_seconds (negsuc _) = 0

retry_from : ℕ → ℤ → List ℕ → ℕ
unfolding oldest_from whole_seconds ◌-ℤ◌ wrap64
retry_from now window [] = 0
retry_from now window (t ∷ ts) =
    whole_seconds (wrap64 (window -ℤ (pos now -ℤ pos (oldest_from t ts))))

unfoldable pub retry_after : ℕ → String → RateLimiter → ℕ
unfolding requests_of retry_from
retry_after now client rl = retry_from now rl.window (requests_of rl client)

-- Remove(clientID)
unfoldable pub forget : String → RateLimiter → RateLimiter
forget client rl = record rl { requests = remove rl.requests client }
