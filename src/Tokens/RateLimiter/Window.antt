-- ===== src/Tokens/RateLimiter/Window.antt =====
-- The limiter as a sliding window: over any calls of one client, in the order of their times.
use rune_admin.Prelude.{
  ℕ, suc, ◌+◌, ◌≤◌, ◌<◌, String, ◌≡◌, refl, true, false, ◌&&◌, List, [], ◌∷◌, ◌++◌, length, arith,
  ltb, leb, if◌then◌else◌, pos, ◌⊎◌, ◌∙◌, ◌↔◌, inl, inr, eq_refl, ◌-ℤ◌,
}
use mathlib.Core.List.{append-nil, append_assoc}
use rune_admin.Dict.{get-put}
use rune_admin.Tokens.RateLimiter.{
  RateLimiter, new_rate_limiter, requests_of, kept_after, is_allowed,
}

-- The times at which the calls of one client are let through.
unfoldable pub accepted : RateLimiter → String → List ℕ → List ℕ
accepted rl client [] = []
accepted rl client (t ∷ ts) =
    let (rl', ok) = is_allowed t client rl in
    let rest = accepted rl' client ts in if ok then t ∷ rest else rest

-- How many times lie in (lo, hi].
unfoldable pub count_in : ℕ → ℕ → List ℕ → ℕ
count_in lo hi [] = 0
count_in lo hi (t ∷ ts) =
    let rest = count_in lo hi ts in if ltb lo t && leb t hi then suc rest else rest

-- No time is before `from`, or before one that stands ahead of it.
abbrev pub IsMonotone : ℕ → List ℕ → Type 0
IsMonotone from [] = Unit
IsMonotone from (t ∷ ts) = (from ≤ t) × IsMonotone t ts

count_in-append :
    (lo hi : ℕ) (xs ys : List ℕ) → count_in lo hi (xs ++ ys) ≡ count_in lo hi xs + count_in lo hi ys
unfolding count_in
count_in-append lo hi [] ys = omega arith
count_in-append lo hi (x ∷ xs) ys = ground (arith, count_in-append lo hi xs ys)

count_in-le-length : (lo hi : ℕ) (xs : List ℕ) → count_in lo hi xs ≤ length xs
unfolding count_in
count_in-le-length lo hi [] = omega arith
count_in-le-length lo hi (x ∷ xs) = ground (arith, count_in-le-length lo hi xs)

-- A filter at now - w leaves the counts of the intervals that end at now or later.
count_in-kept_after :
    (now w lo hi : ℕ) (xs : List ℕ)
    → now ≤ lo + w
    → count_in lo hi (kept_after (pos now -ℤ pos w) xs) ≡ count_in lo hi xs
unfolding count_in kept_after ◌-ℤ◌
count_in-kept_after now w lo hi [] h = refl
count_in-kept_after now w lo hi (x ∷ xs) h = ground (arith, count_in-kept_after now w lo hi xs h)

-- The client's queue after a call, and what a call leaves alone.
module _ (t : ℕ) (client : String) (rl : RateLimiter) where
  pub max_requests-is_allowed : (is_allowed t client rl).0.max_requests ≡ rl.max_requests
  unfolding is_allowed
  max_requests-is_allowed = ground arith

  pub window-is_allowed : (is_allowed t client rl).0.window ≡ rl.window
  unfolding is_allowed
  window-is_allowed = ground arith

  pub is_allowed_cases :
      {m w : ℕ}
      → rl.max_requests ≡ pos m
      → rl.window ≡ pos w
      → let kept = kept_after (pos t -ℤ pos w) (requests_of rl client) in
        ((length kept < m)
          × ((is_allowed t client rl).1 ≡ true)
          × (requests_of (is_allowed t client rl).0 client ≡ kept ++ t ∷ []))
        ⊎ ((m ≤ length kept)
            × ((is_allowed t client rl).1 ≡ false)
            × (requests_of (is_allowed t client rl).0 client ≡ kept))
  unfolding is_allowed requests_of
  is_allowed_cases {m} {w} em ew =
      let kept = kept_after (pos t -ℤ pos w) (requests_of rl client) in
      ground (
        arith,
        em,
        ew,
        get-put rl.requests client client kept,
        get-put rl.requests client client (kept ++ t ∷ []),
        eq_refl client,
      )

-- What holds between two calls: `past` are the times that were let through, none after `from`, and
-- `queue` still has those that can matter.
record IsWindow (m w from : ℕ) (queue past : List ℕ) : Type 0 where
  bounded : (lo : ℕ) → count_in lo (lo + w) past ≤ m
  held : (lo : ℕ) → from ≤ lo + w → count_in lo (lo + w) past ≤ count_in lo (lo + w) queue

module _ (m w from t : ℕ) (later : from ≤ t) (queue past : List ℕ)
    (s : IsWindow m w from queue past) where
  IsWindow-refuse : IsWindow m w t (kept_after (pos t -ℤ pos w) queue) past
  IsWindow-refuse = record {
    bounded = s.bounded;
    held =
        λ lo h. omega (arith, s.held lo (omega arith), count_in-kept_after t w lo (lo + w) queue h);
  }

  IsWindow-accept :
      length (kept_after (pos t -ℤ pos w) queue) < m
      → IsWindow m w t (kept_after (pos t -ℤ pos w) queue ++ t ∷ []) (past ++ t ∷ [])
  unfolding count_in
  IsWindow-accept room =
      let kept = kept_after (pos t -ℤ pos w) queue in
      record {
        bounded = λ lo. ground (
          arith,
          s.bounded lo,
          s.held lo,
          count_in-append lo (lo + w) past (t ∷ []),
          count_in-le-length lo (lo + w) kept,
          count_in-kept_after t w lo (lo + w) queue,
        );
        held = λ lo h. ground (
          arith,
          s.held lo,
          count_in-append lo (lo + w) past (t ∷ []),
          count_in-append lo (lo + w) kept (t ∷ []),
          count_in-kept_after t w lo (lo + w) queue,
        );
      }

accepted_from :
    (m w from : ℕ) (client : String) (rl : RateLimiter) (past ts : List ℕ)
    → rl.max_requests ≡ pos m
    → rl.window ≡ pos w
    → IsWindow m w from (requests_of rl client) past
    → IsMonotone from ts
    → (lo : ℕ) → count_in lo (lo + w) (past ++ accepted rl client ts) ≤ m
unfolding accepted
accepted_from m w from client rl past [] em ew s mono lo = rw append-nil (s.bounded lo)
accepted_from m w from client rl past (t ∷ ts) em ew s mono lo =
    let rl' = (is_allowed t client rl).0 in
    let em' = max_requests-is_allowed t client rl ∙ em in
    let ew' = window-is_allowed t client rl ∙ ew in
    elim (is_allowed_cases t client rl em ew) [
      | inl (room, yes_, queue) ↦
          let s' = IsWindow-accept m w from t mono.0 (requests_of rl client) past s room in
          let rest =
            accepted_from m w t client rl' (past ++ t ∷ []) ts em' ew' (rw queue s') mono.1 lo in
          rw (yes_, if◌then◌else◌) (rw append_assoc at rest)
      | inr (full, no_, queue) ↦
          let s' = IsWindow-refuse m w from t mono.0 (requests_of rl client) past s in
          let rest = accepted_from m w t client rl' past ts em' ew' (rw queue s') mono.1 lo in
          rw (no_, if◌then◌else◌) rest
    ]

-- Over any calls of one client at non-decreasing times, a new limiter of `m` requests for each `w`
-- nanoseconds lets through at most `m` of them in any half-open interval (lo, lo + w].
pub accepted_window :
    (m w : ℕ) (client : String) (ts : List ℕ)
    → IsMonotone 0 ts
    → (lo : ℕ) → count_in lo (lo + w) (accepted (new_rate_limiter (pos m) (pos w)) client ts) ≤ m
unfolding new_rate_limiter count_in
accepted_window m w client ts mono lo =
    accepted_from m w 0 client (new_rate_limiter (pos m) (pos w)) [] ts refl refl
      (record { bounded = λ lo. omega arith; held = λ lo h. omega arith }) mono lo

-- A call is let through exactly when fewer than `m` of the queued times are after now - w.
pub is_allowed_iff :
    (t m w : ℕ) (client : String) (rl : RateLimiter)
    → rl.max_requests ≡ pos m
    → rl.window ≡ pos w
    → ((is_allowed t client rl).1 ≡ true)
      ↔ (length (kept_after (pos t -ℤ pos w) (requests_of rl client)) < m)
is_allowed_iff t m w client rl em ew = elim (is_allowed_cases t client rl em ew) [
  | inl (room, y, _) ↦ ((λ _. room), (λ _. y))
  | inr (full, n, _) ↦ ((λ y. cc), (λ room. absurd (omega arith)))
]
