-- ===== src/Tokens/Store/Issue/Outcomes.antt =====
-- The possible outcomes of the operations on tokens, with what decides between them.
use rune_admin.Prelude.{
  ℕ, ℤ, String, ◌≡◌, refl, true, false, Option, none, some, List, arith, ◌⊎◌, inl, inr, Bool-cases,
  Option-cases,
}
use rune_admin.Dict.{get}
use rune_admin.Dict.Assoc.{is_some}
use rune_admin.Tokens.Errors.{Error, role_missing, token_exists, no_token, Result, ok, err}
use rune_admin.Tokens.Token.{Token, Dates, new_token_string}
use rune_admin.Tokens.Store.{Store, schedule_persist}
use rune_admin.Tokens.Store.Issue.{
  store_token, drop_token, made_token, add_token, rotate_token, lifetime,
}

pub Result-cases {ℓ} :
    {A : Type ℓ} (r : Result A) → ((e : Error) × (r ≡ err e)) ⊎ ((a : A) × (r ≡ ok a))
Result-cases (err e) = inl (e, refl)
Result-cases (ok a) = inr (a, refl)

pub is_some-false {ℓ} : {A : Type ℓ} (o : Option A) → is_some o ≡ false → o ≡ none
is_some-false none h = refl
is_some-false (some a) h = cc

module _ (dates : Dates) (now : ℕ) (entropy : Option (List ℕ)) (s : Store) (user : String) where
  pub add_token_cases :
      (role : String) (days : Option ℤ)
      → ((e : Error) × (add_token dates now entropy s user role days ≡ (s, err e)))
        ⊎ ((text : String) × (new_token_string entropy ≡ ok text)
            × (is_some (get s.roles role) ≡ true)
            × (get s.tokens_by_user user ≡ none)
            × (let tok = made_token dates now user text role days in
                add_token dates now entropy s user role days
                ≡ (schedule_persist (store_token s tok), ok tok)))
  unfolding add_token
  add_token_cases role days = elim (Bool-cases (is_some (get s.roles role))) [
    | inr e ↦ inl (role_missing role, ground arith)
    | inl known ↦ elim (Option-cases (get s.tokens_by_user user)) [
      | inr (tok, e) ↦ inl (token_exists user, ground arith)
      | inl free ↦ elim (Result-cases (new_token_string entropy)) [
        | inl (x, e) ↦ inl (x, ground arith)
        | inr (text, e) ↦ inr (text, e, known, free, ground arith)
      ]
    ]
  ]

  pub rotate_token_cases :
      ((get s.tokens_by_user user ≡ none)
        × (rotate_token dates now entropy s user ≡ (s, err (no_token user))))
      ⊎ ((old : Token) × (get s.tokens_by_user user ≡ some old)
          × (((e : Error) × (rotate_token dates now entropy s user
                  ≡ (drop_token s old user, err e)))
              ⊎ ((text : String) × (new_token_string entropy ≡ ok text)
                  × (let tok = made_token dates now user text old.role (lifetime dates old) in
                      rotate_token dates now entropy s user
                      ≡ (schedule_persist (store_token (drop_token s old user) tok), ok tok)))))
  unfolding rotate_token
  rotate_token_cases = elim (Option-cases (get s.tokens_by_user user)) [
    | inl e ↦ inl (e, ground arith)
    | inr (old, e) ↦ elim (Result-cases (new_token_string entropy)) [
      | inl (x, f) ↦ inr (old, e, inl (x, ground arith))
      | inr (text, f) ↦ inr (old, e, inr (text, f, ground arith))
    ]
  ]

module _ (dates : Dates) (now : ℕ) (entropy : Option (List ℕ)) (s : Store) (user : String)
    {s' : Store} {tok : Token} where
  pub add_token-ok :
      (role : String) (days : Option ℤ)
      → add_token dates now entropy s user role days ≡ (s', ok tok)
      → (text : String) × (new_token_string entropy ≡ ok text)
        × (is_some (get s.roles role) ≡ true)
        × (get s.tokens_by_user user ≡ none)
        × (tok ≡ made_token dates now user text role days)
        × (s' ≡ schedule_persist (store_token s tok))
  add_token-ok role days h = elim (add_token_cases dates now entropy s user role days) [
    | inl (e, same) ↦ absurd (ground arith)
    | inr (text, made, known, free, same) ↦ (text, made, known, free, ground arith, ground arith)
  ]

  pub rotate_token-ok :
      rotate_token dates now entropy s user ≡ (s', ok tok)
      → (old : Token) × (text : String) × (get s.tokens_by_user user ≡ some old)
        × (new_token_string entropy ≡ ok text)
        × (tok ≡ made_token dates now user text old.role (lifetime dates old))
        × (s' ≡ schedule_persist (store_token (drop_token s old user) tok))
  rotate_token-ok h = elim (rotate_token_cases dates now entropy s user) [
    | inl (_, same) ↦ absurd (ground arith)
    | inr (old, held, inl (_, same)) ↦ absurd (ground arith)
    | inr (old, held, inr (text, made, same)) ↦ (old, text, held, made, ground arith, ground arith)
  ]
