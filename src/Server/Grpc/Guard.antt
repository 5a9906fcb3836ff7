-- ===== src/Server/Grpc/Guard.antt =====
-- What holds of every call to the three handlers: who gets an answer, and what the audit log says.
use rune_admin.Prelude.{
  ℕ, ℤ, String, ◌≡◌, ◌≢◌, sym, ap, ◌∙◌, true, false, Option, some, ◌⊎◌, inl, inr, Bool-cases, none,
  arith,
}
use rune_admin.Dict.{get}
use rune_admin.Tokens.Errors.{Error, ok, err}
use rune_admin.Tokens.Role.{Role, has_scope}
use rune_admin.Tokens.Token.{Token, Dates, is_expired_at}
use rune_admin.Tokens.Store.Access.{Clocks, get_username, validate}
use rune_admin.Tokens.Store.Access.Admission.{validate_sound}
use rune_admin.Tokens.Store.Issue.Outcomes.{Result-cases}
use rune_admin.Server.Grpc.{
  of_token, Reply, success, failure, panicked, Vault, map_token_error, err_status, or_unknown,
  finish, in_scope, guarded,
}

module _ {ℓ} {A : Type ℓ} where
  in_scope_success :
      (role : Role) (needed : String) (body : Reply A) {a : A} {n : ℕ}
      → in_scope role needed body ≡ success a n
      → (has_scope role.scopes needed ≡ true) × (body ≡ success a n)
  unfolding in_scope
  in_scope_success role needed body h = elim (Bool-cases (has_scope role.scopes needed)) [
    | inl e ↦ (e, ground arith)
    | inr e ↦ absurd (ground arith)
  ]

  in_scope-no_panic :
      (role : Role) (needed : String) (body : Reply A)
      → body ≢ panicked
      → in_scope role needed body ≢ panicked
  unfolding in_scope
  in_scope-no_panic role needed body calm h = elim (Bool-cases (has_scope role.scopes needed)) [
    | inl e ↦ calm (ground arith)
    | inr e ↦ ground arith
  ]

  module _ (dates : Dates) (clocks : Clocks) (method needed : String) (top_k : Option ℤ) (v : Vault)
      (token : String) (body : Role → Reply A) where
    pub guarded_cases :
        ((e : Error) × ((validate dates clocks v.store token).1 ≡ err e)
          × (guarded dates clocks method needed top_k v token body
              ≡ finish method
                  (or_unknown (get_username v.store token))
                  top_k
                  (record v { store = (validate dates clocks v.store token).0 })
                  (failure (err_status e) (map_token_error e) (of_token e))))
        ⊎ ((user : String) × (role : Role) × ((validate dates clocks v.store token).1
              ≡ ok (user, role))
            × (guarded dates clocks method needed top_k v token body
                ≡ finish method user top_k
                    (record v { store = (validate dates clocks v.store token).0 })
                    (in_scope role needed (body role))))
    unfolding guarded
    guarded_cases = elim (Result-cases ((validate dates clocks v.store token).1)) [
      | inl (e, h) ↦ inl (e, h, ground arith)
      | inr ((user, role), h) ↦ inr (user, role, h, ground arith)
    ]

    -- A handler returns a result only for a stored token that has not expired, whose role exists
    -- and has the scope that the handler needs; the result is that of the handler's own part for this role.
    pub guarded_sound :
        {a : A} {n : ℕ}
        → (guarded dates clocks method needed top_k v token body).1 ≡ success a n
        → (tok : Token) × (role : Role) × (get v.store.tokens token ≡ some tok)
          × (is_expired_at dates tok clocks.store_now ≡ false)
          × (get v.store.roles tok.role ≡ some role)
          × (has_scope role.scopes needed ≡ true)
          × (body role ≡ success a n)
    guarded_sound {a} {n} h = elim guarded_cases [
      | inl (e, refused, same) ↦
          absurd (unfold finish in cc (ap (λ (r : Vault × Reply A). r.1) same))
      | inr (user, role, admitted, same) ↦
          let reply : in_scope role needed (body role) ≡ success a n =
            unfold finish in sym (ap (λ (r : Vault × Reply A). r.1) same) ∙ h in
          let (scoped, done) = in_scope_success role needed (body role) reply in
          let (tok, held, _, live, found, _) = validate_sound dates clocks v.store token admitted in
          (tok, role, held, live, found, scoped, done)
    ]

    pub guarded-no_panic :
        ((role : Role) → body role ≢ panicked)
        → (guarded dates clocks method needed top_k v token body).1 ≢ panicked
    guarded-no_panic calm h = elim guarded_cases [
      | inl (e, refused, same) ↦ unfold finish in cc (ap (λ (r : Vault × Reply A). r.1) same)
      | inr (user, role, admitted, same) ↦
          in_scope-no_panic role needed (body role) (calm role)
            (unfold finish in sym (ap (λ (r : Vault × Reply A). r.1) same) ∙ h)
    ]

    -- The user of the token, or "unknown" where there is no token or no name.
    abbrev pub IsLogged : String → Type 0
    IsLogged user =
        (get v.store.tokens token ≡ none → user ≡ "unknown")
        × ((tok : Token) → get v.store.tokens token ≡ some tok → tok.user ≢ "" → user ≡ tok.user)
