-- ===== src/Tokens/Role/Format.antt =====
-- What `rateLimitRE` accepts, and what `RateLimitParsed` makes of it.
use rune_admin.Prelude.{
  ℕ, ◌*◌, ◌≤◌, String, codes, ◌≡◌, ◌≢◌, refl, inl, inr, ◌↔◌, false, none, some, List, [], ◌∷◌, ◌++◌,
  arith, Option-cases, pos, ℤ,
}
use rune_admin.Machine.{max_int64, wrap64, wrap64-pos}
use rune_admin.Digits.{
  leading, trailing, is_digit, is_empty, atoi, AreDigits, leading-append-trailing,
  leading-AreDigits, leading-append, trailing-append,
}
use rune_admin.Tokens.Errors.{ok}
use rune_admin.Tokens.Role.{
  Role, match_window, match_slash, rate_limit_re, rate_limit_parsed, validate_rate_limit,
}

-- The texts "<max>/<window>s", with their two runs of digits.
pub record IsRateLimit (cs m w : List ℕ) : Type 0 where
  pub text : cs ≡ m ++ (b'/' ∷ (w ++ (b's' ∷ [])))
  pub max_digits : AreDigits m
  pub window_digits : AreDigits w
  pub max_given : m ≢ []
  pub window_given : w ≢ []

match_window_sound :
    (m l t : List ℕ) {m' w : List ℕ}
    → match_window m l t ≡ some (m', w)
    → (t ≡ b's' ∷ []) × (m' ≡ m) × (w ≡ l) × (is_empty w ≡ false)
unfolding match_window
match_window_sound m l [] h = cc
match_window_sound m l (c ∷ []) h = ground arith
match_window_sound m l (c ∷ d ∷ t) h = cc

match_slash_sound :
    (l t : List ℕ) {m w : List ℕ}
    → match_slash l t ≡ some (m, w)
    → (cs : List ℕ) × (t ≡ b'/' ∷ cs)
      × (match_window l (leading cs) (trailing cs) ≡ some (m, w))
      × (is_empty l ≡ false)
unfolding match_slash
match_slash_sound l [] h = cc
match_slash_sound l (c ∷ cs) h = (cs, ground arith, ground arith, ground arith)

not-empty : (l : List ℕ) → is_empty l ≡ false → l ≢ []
not-empty l h e = ground arith

pub rate_limit_re_sound :
    (cs : List ℕ) {m w : List ℕ} → rate_limit_re cs ≡ some (m, w) → IsRateLimit cs m w
unfolding rate_limit_re
rate_limit_re_sound cs {m} {w} h =
    let (rest, after, window, given) = match_slash_sound (leading cs) (trailing cs) h in
    let (end, same, run, nonempty) =
      match_window_sound (leading cs) (leading rest) (trailing rest) window in
    record {
      text = cc (leading-append-trailing cs, leading-append-trailing rest);
      max_digits = rw same (leading-AreDigits cs);
      window_digits = rw run (leading-AreDigits rest);
      max_given = rw same (not-empty (leading cs) given);
      window_given = not-empty w nonempty;
    }

-- What the two runs of digits leave for the rest of the expression.
module _ {cs m w : List ℕ} (f : IsRateLimit cs m w) where
  max_run : (leading cs ≡ m) × (trailing cs ≡ b'/' ∷ (w ++ (b's' ∷ [])))
  unfolding is_digit
  max_run = (
    rw f.text (leading-append b'/' (w ++ (b's' ∷ [])) refl m f.max_digits),
    rw f.text (trailing-append b'/' (w ++ (b's' ∷ [])) refl m f.max_digits),
  )

  window_run : (leading (w ++ (b's' ∷ [])) ≡ w) × (trailing (w ++ (b's' ∷ [])) ≡ b's' ∷ [])
  unfolding is_digit
  window_run = (
    leading-append b's' [] refl w f.window_digits,
    trailing-append b's' [] refl w f.window_digits,
  )

  pub rate_limit_re_complete : rate_limit_re cs ≡ some (m, w)
  unfolding rate_limit_re match_slash match_window
  rate_limit_re_complete =
      ground (arith, max_run.0, max_run.1, window_run.0, window_run.1, f.max_given, f.window_given)

-- A rate limit passes validation exactly when it is a run of digits, a slash, a run of digits and
-- the letter s.
pub validate_rate_limit_iff :
    (s : String)
    → (validate_rate_limit s ≡ none) ↔ ((m : List ℕ) × (w : List ℕ) × IsRateLimit (codes s) m w)
unfolding validate_rate_limit
validate_rate_limit_iff s = (
  (λ h. elim (Option-cases (rate_limit_re (codes s))) [
    | inl e ↦ absurd (ground arith)
    | inr ((m, w), e) ↦ (m, w, rate_limit_re_sound (codes s) e)
  ]),
  (λ (m, w, f). ground (arith, rate_limit_re_complete f)),
)

-- The parsed limit is the two decimal numbers, the second in nanoseconds, while those fit an int64.
pub rate_limit_parsed_lem :
    (r : Role) {m w : List ℕ}
    → IsRateLimit (codes r.rate_limit) m w
    → atoi w * 1000000000 ≤ max_int64
    → rate_limit_parsed r ≡ ok (pos (atoi m), pos (atoi w * 1000000000))
unfolding rate_limit_parsed
rate_limit_parsed_lem r {m} {w} f h =
    ground (arith, rate_limit_re_complete f, wrap64-pos (atoi w * 1000000000) h)

-- A rate limit that passed validation always parses.
pub rate_limit_parsed-ok :
    (r : Role)
    → validate_rate_limit r.rate_limit ≡ none
    → (p : ℤ × ℤ) × (rate_limit_parsed r ≡ ok p)
unfolding validate_rate_limit rate_limit_parsed
rate_limit_parsed-ok r h = elim (Option-cases (rate_limit_re (codes r.rate_limit))) [
  | inl e ↦ absurd (ground arith)
  | inr ((m, w), e) ↦ ((pos (atoi m), wrap64 (pos (atoi w * 1000000000))), ground arith)
]
