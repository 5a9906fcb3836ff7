-- ===== src/Tokens/RateLimiter/Reference.antt =====
-- The limiter against a log that forgets nothing, over calls of any clients in the order of their times.
use rune_admin.Prelude.{
  ℕ, suc, ◌+◌, ◌≤◌, String, ◌≡◌, refl, ◌∙◌, Bool, false, List, [], ◌∷◌, ◌++◌, length, arith, ltb,
  if◌then◌else◌, pos, ◌-ℤ◌, ◌==◌, eq_iff, eq_refl, Bool-cases, inl, inr,
}
use rune_admin.Dict.{get-put, get-empty}
use rune_admin.Tokens.RateLimiter.{
  RateLimiter, new_rate_limiter, requests_of, kept_after, cutoff_of, is_allowed,
}
use rune_admin.Tokens.RateLimiter.Window.{
  max_requests-is_allowed, window-is_allowed, is_allowed_cases,
}

-- A call: the client and the time.
abbrev pub Call : Type 0
Call = String × ℕ

-- The answers of the limiter.
unfoldable pub decisions : RateLimiter → List Call → List Bool
decisions rl [] = []
decisions rl ((client, t) ∷ calls) =
    let (rl', allowed) = is_allowed t client rl in allowed ∷ decisions rl' calls

-- How many times are less than `w` before `t`.
unfoldable pub recent : ℕ → ℕ → List ℕ → ℕ
recent w t [] = 0
recent w t (x ∷ xs) = let rest = recent w t xs in if ltb t (x + w) then suc rest else rest

-- The log after a call.
abbrev logged : String → ℕ → Bool → (String → List ℕ) → String → List ℕ
logged client t allowed past other =
    if allowed then (if client == other then past other ++ t ∷ [] else past other) else past other

-- What the answers should be: `past` holds, for each client, all the times that were let through. A
-- call is let through if fewer than `m` of its client's are less than `w` old.
unfoldable pub reference : ℕ → ℕ → (String → List ℕ) → List Call → List Bool
reference m w past [] = []
reference m w past ((client, t) ∷ calls) =
    let allowed = ltb (recent w t (past client)) m in
    allowed ∷ reference m w (logged client t allowed past) calls

-- No call is before `from`, or before one that stands ahead of it.
abbrev pub IsOrdered : ℕ → List Call → Type 0
IsOrdered from [] = Unit
IsOrdered from ((_, t) ∷ calls) = (from ≤ t) × IsOrdered t calls

recent-append : (w t : ℕ) (xs ys : List ℕ) → recent w t (xs ++ ys) ≡ recent w t xs + recent w t ys
unfolding recent
recent-append w t [] ys = omega arith
recent-append w t (x ∷ xs) ys = ground (arith, recent-append w t xs ys)

length-kept_after :
    (t w : ℕ) (xs : List ℕ) → length (kept_after (pos t -ℤ pos w) xs) ≡ recent w t xs
unfolding recent kept_after ◌-ℤ◌
length-kept_after t w [] = refl
length-kept_after t w (x ∷ xs) = ground (arith, length-kept_after t w xs)

recent-kept_after :
    (t w now : ℕ) (xs : List ℕ)
    → t ≤ now
    → recent w now (kept_after (pos t -ℤ pos w) xs) ≡ recent w now xs
unfolding recent kept_after ◌-ℤ◌
recent-kept_after t w now [] h = refl
recent-kept_after t w now (x ∷ xs) h = ground (arith, recent-kept_after t w now xs h)

requests_of-other :
    (t : ℕ) (client other : String) (rl : RateLimiter)
    → (client == other) ≡ false
    → requests_of (is_allowed t client rl).0 other ≡ requests_of rl other
unfolding is_allowed requests_of
requests_of-other t client other rl h =
    let kept = kept_after (cutoff_of t rl.window) (requests_of rl client) in
    ground (
      arith,
      get-put rl.requests client other kept,
      get-put rl.requests client other (kept ++ t ∷ []),
    )

-- The limiter's queues count like the log, at the time `from` and later.
record Agrees (m w from : ℕ) (rl : RateLimiter) (past : String → List ℕ) : Type 0 where
  max : rl.max_requests ≡ pos m
  window : rl.window ≡ pos w
  counts :
      (client : String) (now : ℕ)
      → from ≤ now
      → recent w now (requests_of rl client) ≡ recent w now (past client)

module _ (m w from t : ℕ) (later : from ≤ t) (client : String) (rl : RateLimiter)
    (past : String → List ℕ) (a : Agrees m w from rl past) where
  allowed-recent : (is_allowed t client rl).1 ≡ ltb (recent w t (past client)) m
  allowed-recent = elim (is_allowed_cases t client rl a.max a.window) [
    | inl (room, y, _) ↦
        ground (arith, length-kept_after t w (requests_of rl client), a.counts client t later)
    | inr (full, n, _) ↦
        ground (arith, length-kept_after t w (requests_of rl client), a.counts client t later)
  ]

  -- The caller's own queue.
  counts_after_own :
      (now : ℕ)
      → t ≤ now
      → recent w now (requests_of (is_allowed t client rl).0 client)
        ≡ recent w now
            (if ltb (recent w t (past client)) m then past client ++ t ∷ [] else past client)
  counts_after_own now h =
      let queue = requests_of rl client in
      let kept = kept_after (pos t -ℤ pos w) queue in
      elim (is_allowed_cases t client rl a.max a.window) [
        | inl (room, y, q) ↦ rw q (
            ground (
              arith,
              length-kept_after t w queue,
              a.counts client t later,
              a.counts client now (omega arith),
              recent-kept_after t w now queue h,
              recent-append w now kept (t ∷ []),
              recent-append w now (past client) (t ∷ []),
            ))
        | inr (full, n, q) ↦ rw q (
            ground (
              arith,
              length-kept_after t w queue,
              a.counts client t later,
              a.counts client now (omega arith),
              recent-kept_after t w now queue h,
            ))
      ]

  counts_after :
      (other : String) (now : ℕ)
      → t ≤ now
      → recent w now (requests_of (is_allowed t client rl).0 other)
        ≡ recent w now (logged client t (ltb (recent w t (past client)) m) past other)
  counts_after other now h = elim (Bool-cases (client == other)) [
    | inr ne ↦
        ground (arith, requests_of-other t client other rl ne, a.counts other now (omega arith))
    | inl eq ↦
        let same = (eq_iff client other).0 eq in
        rw (← same) (ground (arith, counts_after_own now h, eq_refl client))
  ]

decisions-from :
    (m w from : ℕ) (rl : RateLimiter) (past : String → List ℕ) (calls : List Call)
    → Agrees m w from rl past
    → IsOrdered from calls
    → decisions rl calls ≡ reference m w past calls
unfolding decisions reference
decisions-from m w from rl past [] a o = refl
decisions-from m w from rl past ((client, t) ∷ calls) a o =
    let allowed = ltb (recent w t (past client)) m in
    let rest =
      decisions-from m w t (is_allowed t client rl).0 (logged client t allowed past) calls
        (record {
          max = max_requests-is_allowed t client rl ∙ a.max;
          window = window-is_allowed t client rl ∙ a.window;
          counts = counts_after m w from t o.0 client rl past a;
        })
        o.1 in
    cc (allowed-recent m w from t o.0 client rl past a, rest)

no_requests :
    (m w : ℕ) (client : String) → requests_of (new_rate_limiter (pos m) (pos w)) client ≡ []
unfolding new_rate_limiter requests_of
no_requests m w client = ground (arith, get-empty {V = List ℕ} client)

-- Over calls of any clients in the order of their times, a new limiter of `m` requests for each `w`
-- nanoseconds gives the answers of a log that forgets nothing: a call is let through exactly if fewer
-- than `m` of its client's calls were let through less than `w` ago.
pub decisions-eq-reference :
    (m w : ℕ) (calls : List Call)
    → IsOrdered 0 calls
    → decisions (new_rate_limiter (pos m) (pos w)) calls ≡ reference m w (λ _. []) calls
unfolding new_rate_limiter
decisions-eq-reference m w calls o =
    decisions-from m w 0 (new_rate_limiter (pos m) (pos w)) (λ _. []) calls
      (record { max = refl; window = refl; counts = λ client now _. cc (no_requests m w client) }) o
