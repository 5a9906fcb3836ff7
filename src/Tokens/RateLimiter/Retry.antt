-- ===== src/Tokens/RateLimiter/Retry.antt =====
-- What a refused client is told: `RetryAfter` rounds the remaining time down to whole seconds.
use rune_admin.Prelude.{
  ℕ, ◌+◌, ◌*◌, ◌≤◌, ◌<◌, String, ◌≡◌, true, List, [], ◌∷◌, length, arith, All, ltb, if◌then◌else◌,
  pos, ◌-ℤ◌, inl, inr, Bool-cases, ◌/◌, ◌%◌, ◌^◌, ◌-◌, leb, ℤ,
}
use rune_admin.Machine.{max_int64, wrap64}
use rune_admin.Tokens.RateLimiter.{
  RateLimiter, requests_of, kept_after, is_allowed, oldest_from, whole_seconds, retry_from,
  retry_after, leading_power,
}
use rune_admin.Tokens.RateLimiter.Window.{is_allowed_iff}

-- The queued times are in the past, and no more than an int64 of nanoseconds ago.
abbrev pub IsRecent : ℕ → List ℕ → Type 0
IsRecent now = All (λ t. (t ≤ now) × (now ≤ t + max_int64))

length-kept_after-le : (t w : ℕ) (q : List ℕ) → length (kept_after (pos t -ℤ pos w) q) ≤ length q
unfolding kept_after ◌-ℤ◌
length-kept_after-le t w [] = omega arith
length-kept_after-le t w (x ∷ q) = ground (arith, length-kept_after-le t w q)

-- The earliest time is one of the queue.
oldest_from_recent :
    (now x : ℕ) (q : List ℕ)
    → (x ≤ now) × (now ≤ x + max_int64)
    → IsRecent now q
    → (oldest_from x q ≤ now) × (now ≤ oldest_from x q + max_int64)
unfolding oldest_from
oldest_from_recent now x [] hx h = hx
oldest_from_recent now x (y ∷ q) hx h =
    oldest_from_recent now (if ltb y x then y else x) q (ground arith) h.1

oldest_from-le : (x : ℕ) (q : List ℕ) → oldest_from x q ≤ x
unfolding oldest_from
oldest_from-le x [] = omega arith
oldest_from-le x (y ∷ q) = ground (arith, oldest_from-le (if ltb y x then y else x) q)

-- A filter that drops the earliest time makes the queue shorter.
kept_after-shorter :
    (t w x : ℕ) (q : List ℕ)
    → oldest_from x q + w ≤ t
    → length (kept_after (pos t -ℤ pos w) (x ∷ q)) ≤ length q
unfolding kept_after oldest_from ◌-ℤ◌
kept_after-shorter t w x [] h = ground arith
kept_after-shorter t w x (y ∷ q) h = elim (Bool-cases (ltb y x)) [
  | inl earlier ↦ ground (arith, kept_after-shorter t w y q, length-kept_after-le t w q)
  | inr later ↦ ground (arith, kept_after-shorter t w x q, length-kept_after-le t w q)
]

-- Rounding never takes a second away.
whole_seconds-le : (n : ℕ) → n / 1000000000 ≤ whole_seconds (pos n)
unfolding whole_seconds
whole_seconds-le n =
    elim (Bool-cases (
      ltb ((1000000000 - n % 1000000000) * 2 ^ 53)
        (1000000000 * leading_power 33 (n / 1000000000)))) [
          | inl up ↦ rw up (omega arith)
          | inr down ↦ rw down (omega arith)
        ]

seconds_after : (z : ℤ) (n : ℕ) → z ≡ pos n → n < (whole_seconds z + 1) * 1000000000
seconds_after z n e = rw e (omega (arith, whole_seconds-le n))

remaining-lt :
    (now w oldest : ℕ)
    → oldest ≤ now
    → now ≤ oldest + max_int64
    → w ≤ max_int64
    → oldest + w
      < now + (whole_seconds (wrap64 (pos w -ℤ (pos now -ℤ pos oldest))) + 1) * 1000000000
remaining-lt now w oldest a b c = elim (Bool-cases (leb (now - oldest) w)) [
  | inl within ↦ omega (
    arith,
    seconds_after (wrap64 (pos w -ℤ (pos now -ℤ pos oldest))) (w - (now - oldest))
        (unfold wrap64 ◌-ℤ◌ in ground arith),
  )
  | inr over ↦ ground arith
]

-- Once the wait is over, the filter leaves room for a call.
room_after_wait :
    (now t m w : ℕ) (q : List ℕ)
    → 0 < m
    → w ≤ max_int64
    → length q ≤ m
    → IsRecent now q
    → now + (retry_from now (pos w) q + 1) * 1000000000 ≤ t
    → length (kept_after (pos t -ℤ pos w) q) < m
unfolding retry_from
room_after_wait now t m w [] some_ fits short recent waited = unfold kept_after in some_
room_after_wait now t m w (x ∷ q) some_ fits short recent waited =
    let (past, near) = oldest_from_recent now x q recent.0 recent.1 in
    let over = remaining-lt now w (oldest_from x q) past near fits in
    omega (arith, over, kept_after-shorter t w x q (omega (arith, over)))

-- Take a queue of at most `m` times, with 0 < m, all in the past and within an int64 of nanoseconds, and a
-- window of at most an int64. If the client makes no other call, a call is let through from one
-- second after the wait that `RetryAfter` gives.
pub retry_after_suffices :
    (now t m w : ℕ) (client : String) (rl : RateLimiter)
    → rl.max_requests ≡ pos m
    → rl.window ≡ pos w
    → 0 < m
    → w ≤ max_int64
    → length (requests_of rl client) ≤ m
    → IsRecent now (requests_of rl client)
    → now + (retry_after now client rl + 1) * 1000000000 ≤ t
    → (is_allowed t client rl).1 ≡ true
unfolding retry_after
retry_after_suffices now t m w client rl em ew some_ fits short recent waited =
    (is_allowed_iff t m w client rl em ew).1
      (room_after_wait now t m w (requests_of rl client) some_ fits short recent (rw ew at waited))
