-- ===== src/Commands/Daemon/Issue.antt =====
-- What `token issue` prints.
use rune_admin.Prelude.{
  ℕ, ℤ, String, ◌≡◌, refl, ◌∙◌, sym, true, false, ◌||◌, ◌==◌, if◌then◌else◌, Option, some, List, [],
  ◌∷◌, arith, Bool-cases, Option-cases, inl, inr, eq_refl, leb, concat,
}
use rune_admin.Dict.{get, get-put}
use rune_admin.Tokens.Errors as Errors
use rune_admin.Tokens.Token.{Token, Dates}
use rune_admin.Tokens.Store.{Store}
use rune_admin.Tokens.Store.Issue.{add_token, made_token}
use rune_admin.Tokens.Store.Issue.Outcomes.{add_token_cases}
use rune_admin.Tokens.Store.Invariant.{tokens-schedule_persist, tokens_by_user-schedule_persist}
use rune_admin.Server.Admin.{serve_admin, post_tokens, token_response, failed, Answer, Response}
use rune_admin.Server.Admin.Mux.{route, read_json, serve_http, write_json}
use rune_admin.Commands.Client.{
  Result, ok, err, Request, Sent, answered, refusal, CommandError, do_request, with_client,
}
use rune_admin.Commands.Token.{
  TokenResult, empty_result, print, expires_of, run_token_issue, issue_fields, token_report,
}
use rune_admin.Commands.Daemon.{token_issue, run_command, Wire, send}
use rune_admin.Commands.Daemon.Requests.{IsPlain-tokens}

-- What an answer says of a token.
abbrev pub result_of : Token → TokenResult
result_of tok = record {
  user = tok.user;
  token = tok.token;
  role = tok.role;
  issued_at = tok.issued_at;
  expires = if tok.expires == "" then "never" else tok.expires;
}

issued_report :
    (tok : Token)
    → token_report "issued" (result_of tok) ≡ (
        concat ("\nToken " ∷ "issued" ∷ " for '" ∷ tok.user ∷ "':\n" ∷ [])
        ∷ concat ("  Role:    " ∷ tok.role ∷ "\n" ∷ [])
        ∷ concat ("  Expires: " ∷ (if tok.expires == "" then "never" else tok.expires) ∷ "\n" ∷ [])
        ∷ concat ("\n  Token: " ∷ tok.token ∷ "\n" ∷ [])
        ∷ "\n  WARNING: This token will NOT be shown again. Share it securely.\n"
        ∷ [])
unfolding token_report
issued_report tok = refl

module _ {ℓ} {A : Type ℓ} (send : String → Request → Store → Store × Sent)
    (de : String → Option String) (first : A) (decode : String → Option A) (socket : String)
    (request : Request) (s : Store) where
  do_request-ok :
      {s' : Store} {status : ℕ} {body : String} {a : A}
      → send socket request s ≡ (s', answered status body)
      → leb 400 status ≡ false
      → (body == "") ≡ false
      → decode body ≡ some a
      → do_request send de (some decode) first socket request s ≡ (s', ok a)
  unfolding do_request
  do_request-ok sent low filled decoded = ground arith

  do_request-refused :
      {s' : Store} {status : ℕ} {body : String}
      → send socket request s ≡ (s', answered status body)
      → leb 400 status ≡ true
      → do_request send de (some decode) first socket request s ≡ (s', err (refusal de status body))
  unfolding do_request
  do_request-refused sent high = ground arith

module _ (wire : Wire) (dates : Dates) (now : ℕ → ℕ) (entropy : ℕ → Option (List ℕ))
    (socket : String) where
  abbrev pub run_issue : String → String → String → Store → Store × Result (List String)
  run_issue user role expires =
      run_command wire.tokens wire.roles (send wire dates now entropy) (ok socket)
        (token_issue user role expires)

  module _ (user role : String) (days : Option ℤ) (s : Store)
      (given : (user == "" || role == "") ≡ false) where
    -- The request that the command sends, as the daemon answers it.
    served :
        serve_admin dates now entropy
          (route wire.server
            (record { text = wire.tokens.encode (issue_fields user role days); is_declared = true })
            "POST"
            ("tokens" ∷ []))
          s
        ≡ post_tokens dates
            (now 0)
            (entropy 0)
            (some (record { user = user; role = role; expires_days = days }))
            s
    unfolding serve_admin route
    served =
        rw
          (
            read_json,
            wire.token_filled (issue_fields user role days),
            wire.token_body user role days,
          )
          refl

    accepted :
        {tok : Token} {s' : Store}
        → add_token dates (now 0) (entropy 0) s user role days ≡ (s', Errors.ok tok)
        → post_tokens dates
            (now 0)
            (entropy 0)
            (some (record { user = user; role = role; expires_days = days }))
            s
          ≡ (s', token_response 201 tok)
    unfolding post_tokens
    accepted made = ground arith

    refused :
        {e : Errors.Error}
        → add_token dates (now 0) (entropy 0) s user role days ≡ (s, Errors.err e)
        → post_tokens dates
            (now 0)
            (entropy 0)
            (some (record { user = user; role = role; expires_days = days }))
            s
          ≡ (s, record { status = 400; answer = failed e })
    unfolding post_tokens
    refused made = ground arith

    sent :
        {r : Response} {s' : Store}
        → post_tokens dates
            (now 0)
            (entropy 0)
            (some (record { user = user; role = role; expires_days = days }))
            s
          ≡ (s', r)
        → send wire dates now entropy socket
            (record {
              method = "POST";
              path = "/tokens";
              body = some (wire.tokens.encode (issue_fields user role days));
            })
            s
          ≡ (let (status, text) = write_json wire.server r in (s', answered status text))
    unfolding send serve_http
    sent h =
        rw (send, wire.segments_plain ("tokens" ∷ []) (IsPlain-tokens, tt), serve_http, served, h)
          refl

  pub run_issue-issued :
      (user role expires : String) (days : Option ℤ) (s : Store) {tok : Token} {s' : Store}
      → (user == "" || role == "") ≡ false
      → expires_of expires ≡ some days
      → add_token dates (now 0) (entropy 0) s user role days ≡ (s', Errors.ok tok)
      → run_issue user role expires s ≡ (s', ok (token_report "issued" (result_of tok)))
  unfolding run_command run_token_issue with_client print write_json token_response
  run_issue-issued user role expires days s {tok} {s'} given days_given made =
      let (text, marshalled, filled, decoded) =
        wire.token_answer tok.user tok.token tok.role tok.issued_at
          (if tok.expires == "" then "never" else tok.expires) in
      let reply : send wire dates now entropy socket
            (record {
              method = "POST";
              path = "/tokens";
              body = some (wire.tokens.encode (issue_fields user role days));
            })
            s
          ≡ (s', answered 201 text) =
        sent user role days s given (accepted user role days s given made)
        ∙ rw (write_json, token_response, marshalled) refl in
      rw
        (
          run_token_issue,
          given,
          days_given,
          with_client,
          do_request-ok (send wire dates now entropy) wire.tokens.decode_error empty_result
              wire.tokens.decode_result socket _ s reply refl filled decoded,
        )
        refl

  -- An answer that refuses keeps an error status, whether or not it can be encoded.
  refused_status :
      (a : Answer) → leb 400 (write_json wire.server (record { status = 400; answer = a })).0 ≡ true
  unfolding write_json
  refused_status a = elim (Option-cases (wire.server.marshal a)) [
    | inl e ↦ rw (write_json, e) refl
    | inr (text, e) ↦ rw (write_json, e) refl
  ]

  run_issue-refused :
      (user role expires : String) (days : Option ℤ) (s : Store) {e : Errors.Error}
      → (user == "" || role == "") ≡ false
      → expires_of expires ≡ some days
      → add_token dates (now 0) (entropy 0) s user role days ≡ (s, Errors.err e)
      → (x : CommandError) × ((run_issue user role expires s).1 ≡ err x)
  unfolding run_command run_token_issue with_client print
  run_issue-refused user role expires days s {e} given days_given made =
      let (status, text) = write_json wire.server (record { status = 400; answer = failed e }) in
      (
        refusal wire.tokens.decode_error status text,
        rw
            (
              run_token_issue,
              given,
              days_given,
              with_client,
              do_request-refused (send wire dates now entropy) wire.tokens.decode_error empty_result
                  wire.tokens.decode_result socket _ s
                  (sent user role days s given (refused user role days s given made))
                  (refused_status (failed e)),
            )
            refl,
      )

  -- If `token issue` prints a report, then the daemon's store holds a token of the user, under the user and under its
  -- text, with the role of the flag. The report names the user, the role, the token's expiry date or "never", and its
  -- text.
  pub run_issue-held :
      (user role expires : String) (s : Store) {report : List String}
      → (run_issue user role expires s).1 ≡ ok report
      → (tok : Token) × (get (run_issue user role expires s).0.tokens_by_user user ≡ some tok)
        × (get (run_issue user role expires s).0.tokens tok.token ≡ some tok)
        × (tok.user ≡ user)
        × (tok.role ≡ role)
        × (report ≡ (
            concat ("\nToken " ∷ "issued" ∷ " for '" ∷ user ∷ "':\n" ∷ [])
            ∷ concat ("  Role:    " ∷ role ∷ "\n" ∷ [])
            ∷ concat
                ("  Expires: " ∷ (if tok.expires == "" then "never" else tok.expires) ∷ "\n" ∷ [])
            ∷ concat ("\n  Token: " ∷ tok.token ∷ "\n" ∷ [])
            ∷ "\n  WARNING: This token will NOT be shown again. Share it securely.\n"
            ∷ []))
  unfolding run_command run_token_issue
  run_issue-held user role expires s {report} h = elim (Bool-cases (user == "" || role == "")) [
    | inl e ↦ absurd (ground arith)
    | inr e ↦ elim (Option-cases (expires_of expires)) [
      | inl f ↦ absurd (ground arith)
      | inr (days, f) ↦ elim (add_token_cases dates (now 0) (entropy 0) s user role days) [
        | inl (x, made) ↦
            let (y, failed_) = run_issue-refused user role expires days s e f made in absurd (cc)
        | inr (text, _, _, _, made) ↦
            let tok = made_token dates (now 0) user text role days in
            let done = run_issue-issued user role expires days s e f made in
            (
              tok,
              rw (done, tokens_by_user-schedule_persist)
                  (rw (get-put s.tokens_by_user user user tok, eq_refl user) refl),
              rw (done, tokens-schedule_persist)
                  (rw (get-put s.tokens text text tok, eq_refl text) refl),
              refl,
              refl,
              sym (cc (done, h)) ∙ issued_report tok,
            )
      ]
    ]
  ]
