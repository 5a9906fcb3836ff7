-- ===== src/Tokens/Store/Issue.antt =====
-- `AddToken`, `RevokeToken`, `RotateToken` and `RotateAllTokens`. The random bytes are an argument.
pub mod Outcomes
pub mod Lifetime
pub mod Rounds
use rune_admin.Prelude.{
  not, ℕ, suc, ◌≤◌, String, Bool, true, false, Option, none, some, List, [], ◌∷◌, ◌++◌, ltb, ◌==◌,
  if◌then◌else◌, ℤ, pos, negsuc, ◌-ℤ◌, ◌-◌, leb,
}
use rune_admin.Dict.{Dict, get, put, remove, keys}
use rune_admin.Dict.Assoc.{is_some}
use rune_admin.Sort.{sort_strings}
use rune_admin.Tokens.Errors.{Error, role_missing, token_exists, no_token, Result, ok, err}
use rune_admin.Tokens.Token.{Token, Dates, day_of, expiry_date, new_token_string}
use rune_admin.Tokens.Store.{Store, schedule_persist}

-- The two map writes of an issue.
abbrev pub store_token : Store → Token → Store
store_token s tok = record s {
  tokens = put s.tokens tok.token tok;
  tokens_by_user = put s.tokens_by_user tok.user tok;
}

-- The map deletes of a revocation. The dropped limiter's own `Remove` shows nowhere else.
abbrev pub drop_token : Store → Token → String → Store
drop_token s tok user = record s {
  tokens = remove s.tokens tok.token;
  tokens_by_user = remove s.tokens_by_user user;
  rate_limiters = remove s.rate_limiters user;
}

abbrev pub made_token : Dates → ℕ → String → String → String → Option ℤ → Token
made_token dates now user tok role days = record {
  user = user;
  token = tok;
  role = role;
  issued_at = dates.format_date (pos (day_of now));
  expires = expiry_date dates now days;
}

unfoldable pub add_token :
    Dates → ℕ → Option (List ℕ) → Store → String → String → Option ℤ → Store × Result Token
unfolding schedule_persist new_token_string
add_token dates now entropy s user role days =
    if not (is_some (get s.roles role))
    then (s, err (role_missing role))
    else if is_some (get s.tokens_by_user user)
    then (s, err (token_exists user))
    else elim (new_token_string entropy) [
      | err e ↦ (s, err e)
      | ok text ↦
          let tok = made_token dates now user text role days in
          (schedule_persist (store_token s tok), ok tok)
    ]

unfoldable pub revoke_token : Store → String → Store × Bool
unfolding schedule_persist
revoke_token s user = elim (get s.tokens_by_user user) [
  | none ↦ (s, false)
  | some tok ↦ (schedule_persist (drop_token s tok user), true)
]

-- `exp.Sub(issued).Hours() / 24`, as an int: a `Duration` stops at about 292 years, 106751 days.
unfoldable pub days_between : ℕ → ℕ → ℤ
unfolding ◌-ℤ◌
days_between exp issued =
    if leb issued exp
    then (if ltb 106751 (exp - issued) then pos 106751 else pos (exp - issued))
    else (if ltb 106751 (issued - exp) then negsuc 106750 else negsuc (issued - exp - 1))

-- The lifetime that a rotated token keeps.
unfoldable pub lifetime : Dates → Token → Option ℤ
unfolding days_between
lifetime dates old = if old.expires == "" then none else elim (dates.parse_date old.issued_at) [
  | none ↦ none
  | some issued ↦ elim (dates.parse_date old.expires) [
    | none ↦ none
    | some exp ↦ some (days_between exp issued)
  ]
]

-- The old token is dropped before the new one's text is made.
unfoldable pub rotate_token : Dates → ℕ → Option (List ℕ) → Store → String → Store × Result Token
unfolding schedule_persist new_token_string lifetime
rotate_token dates now entropy s user = elim (get s.tokens_by_user user) [
  | none ↦ (s, err (no_token user))
  | some old ↦
      let dropped = drop_token s old user in
      elim (new_token_string entropy) [
        | err e ↦ (dropped, err e)
        | ok text ↦
            let tok = made_token dates now user text old.role (lifetime dates old) in
            (schedule_persist (store_token dropped tok), ok tok)
      ]
]

-- The loop of `RotateAllTokens`: the tokens made so far, and the error that stopped it. The i-th
-- round reads the clock and the random source as `now i` and `entropy i`.
unfoldable pub rotate_each :
    Dates
    → (ℕ → ℕ)
    → (ℕ → Option (List ℕ))
    → ℕ
    → List String
    → Store
    → List Token
    → Store × List Token × Option Error
unfolding rotate_token
rotate_each dates now entropy i [] s made = (s, made, none)
rotate_each dates now entropy i (u ∷ us) s made =
    let (s', result) = rotate_token dates (now i) (entropy i) s u in
    elim result [
      | err e ↦ (s', made, some e)
      | ok tok ↦ rotate_each dates now entropy (suc i) us s' (made ++ tok ∷ [])
    ]

-- With no other operation between two rounds. The source lets go of `mu` there; a rotation with operations in between is
-- a run of single rotations and of those.
unfoldable pub rotate_all_tokens :
    Dates → (ℕ → ℕ) → (ℕ → Option (List ℕ)) → Store → Store × List Token × Option Error
unfolding rotate_each sort_strings
rotate_all_tokens dates now entropy s =
    rotate_each dates now entropy 0 (sort_strings (keys s.tokens_by_user)) s []
