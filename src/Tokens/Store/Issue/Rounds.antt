-- ===== src/Tokens/Store/Issue/Rounds.antt =====
-- The rotation of all tokens, round by round.
use rune_admin.Prelude.{
  ℕ, suc, String, ◌≡◌, ◌≢◌, refl, sym, ap, true, false, Option, none, some, List, [], ◌∷◌, ◌++◌,
  ◌==◌, arith, inl, inr, Bool-cases, eq_iff, eq_refl, ◌∙◌,
}
use rune_admin.Dict.{get, remove, keys, get-put, get-remove, contains-keys, Distinct-keys}
use rune_admin.Dict.Assoc.{contains, Distinct}
use rune_admin.Sort.{sort_strings}
use rune_admin.Sort.Laws.{contains-sort_strings, Distinct-sort_strings}
use rune_admin.Tokens.Errors.{Error, ok, err}
use rune_admin.Tokens.Token.{Token, Dates}
use rune_admin.Tokens.Store.{Store}
use rune_admin.Tokens.Store.Issue.{
  made_token, lifetime, rotate_token, rotate_each, rotate_all_tokens,
}
use rune_admin.Tokens.Store.Issue.Outcomes.{rotate_token_cases, rotate_token-ok, Result-cases}
use rune_admin.Tokens.Store.Invariant.{
  IsConsistent, IsFresh, rotate_token-IsConsistent, tokens_by_user-schedule_persist,
}
use rune_admin.Tokens.Store.History.{Step, Reach}

-- The text of each round is not in use when the round begins.
abbrev pub AreFresh : Dates → (ℕ → ℕ) → (ℕ → Option (List ℕ)) → ℕ → List String → Store → Type 0
AreFresh dates now entropy i [] s = Unit
AreFresh dates now entropy i (u ∷ us) s =
    IsFresh s (entropy i)
    × AreFresh dates now entropy (suc i) us (rotate_token dates (now i) (entropy i) s u).0

module _ (dates : Dates) (now : ℕ → ℕ) (entropy : ℕ → Option (List ℕ)) where
  -- The store after the rounds, which are steps of the store.
  pub rotate_each-Reach :
      (i : ℕ) (us : List String) {s₀ : Store} (s : Store) (made : List Token)
      → AreFresh dates now entropy i us s
      → Reach dates s₀ s
      → Reach dates s₀ (rotate_each dates now entropy i us s made).0
  unfolding rotate_each
  rotate_each-Reach i [] s made fresh r = r
  rotate_each-Reach i (u ∷ us) s made fresh r =
      let r' = Reach.then_step r (Step.rotate (now i) (entropy i) u fresh.0) in
      elim (Result-cases (rotate_token dates (now i) (entropy i) s u).1) [
        | inl (e, h) ↦ rw (rotate_each, h) r'
        | inr (tok, h) ↦
            rw (rotate_each, h) (rotate_each-Reach (suc i) us _ (made ++ tok ∷ []) fresh.1 r')
      ]

  -- A user who is not rotated keeps the token.
  rotate_token-other :
      (i : ℕ) (s : Store) (u v : String)
      → (u == v) ≡ false
      → get (rotate_token dates (now i) (entropy i) s u).0.tokens_by_user v ≡ get s.tokens_by_user v
  rotate_token-other i s u v ne = elim (rotate_token_cases dates (now i) (entropy i) s u) [
    | inl (_, e) ↦ rw e refl
    | inr (old, _, inl (_, e)) ↦ rw e (rw (get-remove s.tokens_by_user u v, ne) refl)
    | inr (old, _, inr (text, _, e)) ↦
        let tok = made_token dates (now i) u text old.role (lifetime dates old) in
        rw (e, tokens_by_user-schedule_persist)
          (rw (get-put (remove s.tokens_by_user u) u v tok, ne, get-remove s.tokens_by_user u v, ne)
            refl)
  ]

  rotate_each-other :
      (i : ℕ) (us : List String) (s : Store) (made : List Token) (v : String)
      → contains us v ≡ false
      → get (rotate_each dates now entropy i us s made).0.tokens_by_user v ≡ get s.tokens_by_user v
  unfolding rotate_each contains
  rotate_each-other i [] s made v h = refl
  rotate_each-other i (u ∷ us) s made v h =
      let kept = rotate_token-other i s u v (ground arith) in
      elim (Result-cases (rotate_token dates (now i) (entropy i) s u).1) [
        | inl (e, f) ↦ rw (rotate_each, f) kept
        | inr (tok, f) ↦
            rw (rotate_each, f)
              (rotate_each-other (suc i) us _ (made ++ tok ∷ []) v (ground arith) ∙ kept)
      ]

  -- What a completed rotation gives a user in place of a token.
  abbrev pub IsRenewed : Token → Store → String → Type 0
  IsRenewed old s' u =
      (tok : Token) × (get s'.tokens_by_user u ≡ some tok)
      × (tok.user ≡ u)
      × (tok.role ≡ old.role)
      × (tok.token ≢ old.token)

  rotated_first :
      (i : ℕ) (s : Store) (u : String) {old tok : Token} {s' : Store}
      → IsConsistent s
      → IsFresh s (entropy i)
      → get s.tokens_by_user u ≡ some old
      → rotate_token dates (now i) (entropy i) s u ≡ (s', ok tok)
      → IsRenewed old s' u
  rotated_first i s u {old} {tok} c fresh held h =
      let (old', text, held', made, is_tok, is_s') =
        rotate_token-ok dates (now i) (entropy i) s u h in
      let same : old' ≡ old = cc (held, held') in
      let (_, stored) = c.indexed.by_name u old held in
      (
        tok,
        rw (is_s', tokens_by_user-schedule_persist)
            (rw is_tok (rw (get-put (remove s.tokens_by_user u) u u _, eq_refl u) refl)),
        rw is_tok refl,
        rw (is_tok, same) refl,
        (λ e. absurd (
            let unused = fresh text made in let is_text : tok.token ≡ text = rw is_tok refl in cc)),
      )

  pair_of {ℓ κ} : {A : Type ℓ} {B : Type κ} {p : A × B} {b : B} → p.1 ≡ b → p ≡ (p.0, b)
  pair_of {p = p} h = rw (← h) refl

  stopped_round :
      (i : ℕ) (v : String) (us : List String) (s : Store) (made : List Token) {e : Error}
      → (rotate_token dates (now i) (entropy i) s v).1 ≡ err e
      → (rotate_each dates now entropy i (v ∷ us) s made).2 ≡ some e
  unfolding rotate_each
  stopped_round i v us s made f = rw (rotate_each, f) refl

  next_round :
      (i : ℕ) (v : String) (us : List String) (s : Store) (made : List Token) {tok : Token}
      → (rotate_token dates (now i) (entropy i) s v).1 ≡ ok tok
      → rotate_each dates now entropy i (v ∷ us) s made
        ≡ rotate_each dates now entropy
            (suc i)
            us
            (rotate_token dates (now i) (entropy i) s v).0
            (made ++ tok ∷ [])
  unfolding rotate_each
  next_round i v us s made f = rw (rotate_each, f) refl

  rotate_each-renews :
      (i : ℕ) (us : List String) (s : Store) (made : List Token) {s' : Store} {made' : List Token}
      → IsConsistent s
      → AreFresh dates now entropy i us s
      → Distinct us
      → rotate_each dates now entropy i us s made ≡ (s', made', none)
      → (u : String) (old : Token) → contains us u ≡ true
      → get s.tokens_by_user u ≡ some old
      → IsRenewed old s' u
  unfolding rotate_each contains
  rotate_each-renews i [] s made c fresh d h u old there held = absurd cc
  rotate_each-renews i (v ∷ us) s made {s'} {made'} c fresh d h u old there held =
      elim (Result-cases (rotate_token dates (now i) (entropy i) s v).1) [
        | inl (e, f) ↦ absurd (let stop = stopped_round i v us s made f in cc)
        | inr (tok, f) ↦
            let s₁ = (rotate_token dates (now i) (entropy i) s v).0 in
            let rest : rotate_each dates now entropy (suc i) us s₁ (made ++ tok ∷ [])
                ≡ (s', made', none) =
              sym (next_round i v us s made f) ∙ h in
            elim (Bool-cases (v == u)) [
              | inl same ↦
                  let is_u : v ≡ u = (eq_iff v u).0 same in
                  let (tok', now_held, is_user, is_role, is_new) =
                    rotated_first i s v {old = old} c fresh.0 (rw is_u held) (pair_of f) in
                  let kept = rotate_each-other (suc i) us s₁ (made ++ tok ∷ []) v d.0 in
                  (
                    tok',
                    ap (λ (r : Store × List Token × Option Error). get r.0.tokens_by_user u)
                          (sym rest)
                        ∙ rw (← is_u) (kept ∙ now_held),
                    is_user ∙ is_u,
                    is_role,
                    is_new,
                  )
              | inr other ↦
                  rotate_each-renews (suc i) us s₁ (made ++ tok ∷ [])
                    (rotate_token-IsConsistent dates (now i) (entropy i) s c fresh.0 v) fresh.1 d.1
                    rest u old (ground arith) (rotate_token-other i s v u other ∙ held)
            ]
      ]

-- A rotation of all tokens that completes, each round with a text that is not in use: every user who had
-- a token has another one with the same role, and no user has gained or lost one.
pub rotate_all_tokens-renews :
    (dates : Dates) (now : ℕ → ℕ) (entropy : ℕ → Option (List ℕ)) (s : Store)
    → IsConsistent s
    → AreFresh dates now entropy 0 (sort_strings (keys s.tokens_by_user)) s
    → {s' : Store} {made : List Token} → rotate_all_tokens dates now entropy s ≡ (s', made, none)
    → (u : String)
    → ((old : Token) → get s.tokens_by_user u ≡ some old → IsRenewed dates now entropy old s' u)
      × (get s.tokens_by_user u ≡ none → get s'.tokens_by_user u ≡ none)
unfolding rotate_all_tokens
rotate_all_tokens-renews dates now entropy s c fresh {s'} {made} h u =
    let us = sort_strings (keys s.tokens_by_user) in
    let there =
      contains-sort_strings (keys s.tokens_by_user) u ∙ contains-keys s.tokens_by_user u in
    (
      (λ old held.
          rotate_each-renews dates now entropy 0 us s [] c fresh
            (Distinct-sort_strings (keys s.tokens_by_user) (Distinct-keys s.tokens_by_user)) h u old
            (there ∙ rw held refl) held),
      (λ free.
          let kept = rotate_each-other dates now entropy 0 us s [] u (there ∙ rw free refl) in cc),
    )
