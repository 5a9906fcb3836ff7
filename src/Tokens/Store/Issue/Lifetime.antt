-- ===== src/Tokens/Store/Issue/Lifetime.antt =====
-- How long an issued token lives, and how long one that replaces it does.
use rune_admin.Prelude.{
  ℕ, ◌+◌, ◌<◌, String, ◌≡◌, ◌≢◌, refl, ap, false, none, some, arith, ◌==◌, eq_iff, pos, ◌+ℤ◌, ltb,
}
use rune_admin.Tokens.Token.{Token, Dates, day_of, is_expired_at, expiry_date}
use rune_admin.Tokens.Store.Issue.{made_token}
use rune_admin.Tokens.Store.{Store}

text_given : (s : String) → s ≢ "" → (s == "") ≡ false
text_given s h = ground (arith, eq_iff s "", h)

module _ (dates : Dates) (now : ℕ) where
  expiry_date-format :
      (d : ℕ) → expiry_date dates now (some (pos d)) ≡ dates.format_date (pos (day_of now + d))
  unfolding expiry_date
  expiry_date-format d = ap dates.format_date (unfold ◌+ℤ◌ in ground arith)

  expiry_date-pos :
      (d : ℕ)
      → day_of now + d < 3652425
      → ((expiry_date dates now (some (pos d)) == "") ≡ false)
        × (dates.parse_date (expiry_date dates now (some (pos d))) ≡ some (day_of now + d))
  expiry_date-pos d h =
      let day = pos (day_of now + d) in
      rw expiry_date-format (
        text_given (dates.format_date day) (dates.format_date-ne-empty day),
        dates.parse_date-format_date (day_of now + d) h,
      )

  -- A token issued for `d` days, up to the end of the year 9999, is good through the day that is `d`
  -- days after its issue, and expired on every later day.
  pub is_expired_at-made_token :
      (user text role : String) (d t : ℕ)
      → day_of now + d < 3652425
      → is_expired_at dates (made_token dates now user text role (some (pos d))) t
        ≡ ltb (day_of now + d) (day_of t)
  unfolding is_expired_at
  is_expired_at-made_token user text role d t h = ground (arith, expiry_date-pos d h)

  -- A token issued without a number of days never expires.
  pub is_expired_at-forever :
      (user text role : String) (t : ℕ)
      → is_expired_at dates (made_token dates now user text role none) t ≡ false
  unfolding is_expired_at expiry_date
  is_expired_at-forever user text role t = refl
