-- ===== src/Examples/Access.antt =====
-- Tokens, their checks and their limits on the store with one token.
use rune_admin.Prelude.{
  ℕ, ◌≤◌, ◌+◌, ◌*◌, ltb, pos, String, ◌≡◌, ◌≢◌, ◌↔◌, refl, true, false, none, some, List, [], ◌∷◌,
  map, arith, codes,
}
use rune_admin.Examples.Data.{
  dates, bytes_of, clocks, fresh_store, fresh_store-IsConsistent, bob_text, bob, bob_store, issued,
  bob_held, member_there, bob_store-IsConsistent,
}
use rune_admin.Digits.{trailing, leading, atoi, is_digit}
use rune_admin.Machine.{wrap64}
use rune_admin.Dict.{get, put, empty, keys}
use rune_admin.Dict.Assoc.{is_some, contains}
use rune_admin.Sort.{sort_strings, text_le}
use rune_admin.Sort.Laws.{IsSorted}
use rune_admin.Tokens.Errors.{token_not_found, ok, err}
use rune_admin.Tokens.Role.{member_role, rate_limit_parsed, validate_rate_limit}
use rune_admin.Tokens.Role.Format.{IsRateLimit, validate_rate_limit_iff}
use rune_admin.Tokens.RateLimiter.{
  RateLimiter, new_rate_limiter, is_allowed, retry_after, requests_of,
}
use rune_admin.Tokens.RateLimiter.Window.{accepted, count_in, accepted_window}
use rune_admin.Tokens.RateLimiter.Reference.{Call, decisions, reference, decisions-eq-reference}
use rune_admin.Tokens.RateLimiter.Retry.{retry_after_suffices}
use rune_admin.Tokens.Token.{Token, is_expired_at, day_of, new_token_string}
use rune_admin.Tokens.Store.{Store}
use rune_admin.Tokens.Store.Access.{validate, get_or_create_limiter}
use rune_admin.Tokens.Store.Access.Admission.{validate_sound}
use rune_admin.Tokens.Store.Access.AfterIssue.{
  validate-revoke_token, validate-add_token, validate-rotate_token,
}
use rune_admin.Tokens.Store.Issue.{add_token, revoke_token, rotate_token, made_token}
use rune_admin.Tokens.Store.Issue.Lifetime.{is_expired_at-made_token}
use rune_admin.Tokens.Store.Invariant.{IsConsistent}
use rune_admin.Tokens.Store.History.{Step, Reach, Reach-IsConsistent}
use rune_admin.Tokens.Store.Refinement.{view, Moves, Reach-Moves}
use rune_admin.Tokens.Store.Invariant.{IsFresh}
use rune_admin.Tokens.Store.Roles.{add_role}
use rune_admin.Tokens.Token.{expiry_date}
use rune_admin.Tokens.Store.Listing.{list_tokens}
use rune_admin.Tokens.Store.Listing.Laws.{info_user, list_tokens_users}

-- Bob's token is checked, a role is made, and the token is revoked.
abbrev checked : Store
checked = (validate dates clocks bob_store bob_text).0

abbrev extended : Store
extended = (add_role checked "guest" ("decrypt_scores" ∷ []) (pos 3) "5/60s").0

history : Reach dates bob_store (revoke_token extended "bob").0
history =
    Reach.then_step
      (Reach.then_step (Reach.then_step Reach.here (Step.check clocks bob_text))
        (Step.create_role "guest" ("decrypt_scores" ∷ []) (pos 3) "5/60s"))
      (Step.revoke "bob")

Reach-IsConsistent_example : IsConsistent (revoke_token extended "bob").0
Reach-IsConsistent_example = Reach-IsConsistent dates bob_store-IsConsistent history

Reach-Moves_example : Moves (view bob_store) (view (revoke_token extended "bob").0)
Reach-Moves_example = Reach-Moves dates bob_store-IsConsistent history

validate-revoke_token_example :
    let s' = (revoke_token bob_store "bob").0 in
    (validate dates clocks s' bob_text ≡ (s', err token_not_found))
    × ((text : String)
        → bob_text ≢ text
        → (validate dates clocks s' text).1 ≡ (validate dates clocks bob_store text).1)
validate-revoke_token_example =
    validate-revoke_token dates clocks bob_store bob_store-IsConsistent "bob" bob_held

member_limit : rate_limit_parsed member_role ≡ ok (pos 30, pos 60000000000)
unfolding rate_limit_parsed trailing leading atoi wrap64
member_limit = refl

bob_lasts : is_expired_at dates bob 5 ≡ false
unfolding is_expired_at
bob_lasts = refl

member_there₀ : get fresh_store.roles "member" ≡ some member_role
unfolding get put empty
member_there₀ = refl

validate-add_token_example : (validate dates clocks bob_store bob_text).1 ≡ ok ("bob", member_role)
validate-add_token_example =
    validate-add_token dates 0 clocks (some (bytes_of 0)) fresh_store fresh_store-IsConsistent "bob"
      "member" none issued member_there₀ member_limit bob_lasts

-- Bob's next token.
abbrev next_text : String
next_text = "evt_010102030405060708090a0b0c0d0e0f"

abbrev rotated : Store
rotated = (rotate_token dates 0 (some (bytes_of 1)) bob_store "bob").0

next_made : new_token_string (some (bytes_of 1)) ≡ ok next_text
unfolding new_token_string
next_made = refl

next_unused : get bob_store.tokens next_text ≡ none
unfolding add_token get put empty
next_unused = refl

pub next-IsFresh : IsFresh bob_store (some (bytes_of 1))
next-IsFresh text h = let same : next_text ≡ text = cc next_made in rw (← same) next_unused

next_rotated :
    rotate_token dates 0 (some (bytes_of 1)) bob_store "bob"
    ≡ (rotated, ok (record bob { token = next_text }))
unfolding add_token rotate_token get put empty expiry_date
next_rotated = refl

next_lasts : is_expired_at dates (record bob { token = next_text }) 5 ≡ false
unfolding is_expired_at
next_lasts = refl

validate-rotate_token_example :
    ((validate dates clocks rotated bob_text).1 ≡ err token_not_found)
    × ((validate dates clocks rotated next_text).1 ≡ ok ("bob", member_role))
validate-rotate_token_example =
    validate-rotate_token dates 0 clocks (some (bytes_of 1)) bob_store bob_store-IsConsistent "bob"
      next-IsFresh bob_held next_rotated member_there member_limit next_lasts

pub validate-bob : (validate dates clocks bob_store bob_text).1 ≡ ok ("bob", member_role)
validate-bob =
    validate-add_token dates 0 clocks (some (bytes_of 0)) fresh_store fresh_store-IsConsistent "bob"
      "member" none issued member_there₀ member_limit bob_lasts

validate_sound_example :
    (tok : Token) × (get bob_store.tokens bob_text ≡ some tok)
    × (tok.user ≡ "bob")
    × (is_expired_at dates tok 5 ≡ false)
    × (get bob_store.roles tok.role ≡ some member_role)
    × ((l : RateLimiter) × (s' : Store) × (get_or_create_limiter bob_store "bob" member_role
          ≡ ok (s', l))
        × ((is_allowed 5 "bob" l).1 ≡ true))
validate_sound_example = validate_sound dates clocks bob_store bob_text validate-bob

-- A token for 7 days, issued on day 2.
abbrev week : Token
week = made_token dates 172800000000000 "carol" bob_text "member" (some (pos 7))

is_expired_at-made_token_example :
    is_expired_at dates week 864000000000000
    ≡ ltb (day_of 172800000000000 + 7) (day_of 864000000000000)
is_expired_at-made_token_example =
    is_expired_at-made_token dates 172800000000000 "carol" bob_text "member" 7 864000000000000
      (omega arith)

abbrev week_store : Store
week_store =
    (add_token dates 172800000000000 (some (bytes_of 0)) fresh_store "carol" "member"
      (some (pos 7))).0

abbrev week_later : Store
week_later = (rotate_token dates 259200000000000 (some (bytes_of 1)) week_store "carol").0

-- Three calls in one second against a limit of two.
accepted_window_example :
    count_in 0 1000000000
      (accepted (new_rate_limiter (pos 2) (pos 1000000000)) "bob" (1 ∷ 2 ∷ 3 ∷ []))
    ≤ 2
accepted_window_example = accepted_window 2 1000000000 "bob" (1 ∷ 2 ∷ 3 ∷ []) (omega arith) 0

abbrev three : List Call
three = ("bob", 1) ∷ ("eve", 2) ∷ ("bob", 3) ∷ []

decisions-eq-reference_example :
    decisions (new_rate_limiter (pos 1) (pos 5)) three ≡ reference 1 5 (λ _. []) three
decisions-eq-reference_example =
    decisions-eq-reference 1 5 three (omega arith, (omega arith, (omega arith, tt)))

abbrev busy : RateLimiter
busy = record {
  max_requests = pos 2;
  window = pos 3000000000;
  requests = put empty "bob" (1 ∷ 2 ∷ []);
}

busy_requests : requests_of busy "bob" ≡ 1 ∷ 2 ∷ []
unfolding requests_of get put empty
busy_requests = refl

busy_wait : 3 + (retry_after 3 "bob" busy + 1) * 1000000000 ≤ 9000000000
unfolding retry_after get put empty
busy_wait = omega arith

retry_after_suffices_example : (is_allowed 9000000000 "bob" busy).1 ≡ true
retry_after_suffices_example =
    retry_after_suffices 3 9000000000 2 3000000000 "bob" busy refl refl (omega arith) (omega arith)
      (rw busy_requests (omega arith)) (rw busy_requests (omega arith)) busy_wait

thirty_a_minute : IsRateLimit (codes "30/60s") (codes "30") (codes "60")
unfolding is_digit
thirty_a_minute = record {
  text = refl;
  max_digits = (refl, (refl, tt));
  window_digits = (refl, (refl, tt));
  max_given = λ e. cc;
  window_given = λ e. cc;
}

validate_rate_limit_iff_example :
    (validate_rate_limit "30/60s" ≡ none)
    ↔ ((m : List ℕ) × (w : List ℕ) × IsRateLimit (codes "30/60s") m w)
validate_rate_limit_iff_example = validate_rate_limit_iff "30/60s"

sixty : atoi (codes "60") ≡ 60
unfolding atoi
sixty = refl

member_limit_valid : validate_rate_limit "30/60s" ≡ none
unfolding validate_rate_limit leading trailing
member_limit_valid = refl

list_tokens_users_example :
    (map info_user (list_tokens bob_store) ≡ sort_strings (keys bob_store.tokens_by_user))
    × IsSorted text_le (map info_user (list_tokens bob_store))
    × ((u : String)
        → (contains (map info_user (list_tokens bob_store)) u ≡ true)
          ↔ (is_some (get bob_store.tokens_by_user u) ≡ true))
list_tokens_users_example = list_tokens_users bob_store bob_store-IsConsistent
