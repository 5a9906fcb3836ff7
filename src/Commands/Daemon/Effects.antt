-- ===== src/Commands/Daemon/Effects.antt =====
-- What a command does to the store of the daemon that it reaches.
use rune_admin.Prelude.{
  ℕ, ℤ, String, ◌≡◌, refl, ◌∙◌, Bool, true, false, not, ◌||◌, ◌==◌, if◌then◌else◌, Option, none,
  some, List, [], ◌∷◌, concat, arith, Bool-cases, Option-cases, inl, inr,
}
use rune_admin.Tokens.Token.{Dates}
use rune_admin.Tokens.Store.{Store}
use rune_admin.Tokens.Store.Issue.{add_token, revoke_token, rotate_token, rotate_all_tokens}
use rune_admin.Tokens.Store.Roles.{add_role, update_role, delete_role}
use rune_admin.Server.Admin.{is_nil, is_unset, post_roles, serve_admin}
use rune_admin.Server.Admin.States.{
  post_tokens-state, post_rotate-state, post_rotate_all-state, delete_token-state,
  delete_role_route-state, role_response-state,
}
use rune_admin.Server.Admin.Mux.{route, read_json}
use rune_admin.Commands.Client.{Result, ok, with_client}
use rune_admin.Commands.Token.{
  expires_of, run_token_issue, run_token_revoke, run_token_rotate, run_token_list, issue_fields,
}
use rune_admin.Commands.Role.{
  split_csv, run_role_list, run_role_create, run_role_update, run_role_delete, send_only,
  create_fields,
}
use rune_admin.Commands.Daemon.Requests.{
  IsPlain-tokens, IsPlain-roles, IsPlain-rotate_all, opts_of, print-state, do_request-state,
  send-state, update_fields_cases, put_role-state, path_two, path_rotate,
}
use rune_admin.Commands.Daemon.{
  Command, token_issue, token_revoke, token_rotate, token_list, role_list, role_create, role_update,
  role_delete, run_command, IsPlain, Wire, send,
}

module _ (wire : Wire) (dates : Dates) (now : ℕ → ℕ) (entropy : ℕ → Option (List ℕ)) where
  -- The operations of the store that a command stands for.
  abbrev pub intended : Command → Store → Store
  intended (token_issue user role expires) s =
      if user == "" || role == "" then s else elim (expires_of expires) [
        | none ↦ s
        | some days ↦ (add_token dates (now 0) (entropy 0) s user role days).0
      ]
  intended (token_revoke user) s = (revoke_token s user).0
  intended (token_rotate user all) s =
      if (if user == "" then not all else all)
      then s
      else if all
      then (rotate_all_tokens dates now entropy s).0
      else (rotate_token dates (now 0) (entropy 0) s user).0
  intended token_list s = s
  intended role_list s = s
  intended (role_create name scope top_k limit) s =
      if name == "" || is_nil (split_csv wire.roles scope) || limit == ""
      then s
      else (add_role s name (split_csv wire.roles scope) top_k limit).0
  intended (role_update name scope top_k limit) s =
      let opts = opts_of wire scope top_k limit in
      if is_unset opts then s else (update_role s name opts).0
  intended (role_delete name) s = (delete_role s name).0

  -- The names that a command puts into a path.
  abbrev pub HasPlainNames : Command → Type 0
  HasPlainNames (token_revoke user) = IsPlain user
  HasPlainNames (token_rotate user all) = (all ≡ false) → IsPlain user
  HasPlainNames (role_update name _ _ _) = IsPlain name
  HasPlainNames (role_delete name) = IsPlain name
  HasPlainNames _ = Unit

  module _ (socket : String) where
    abbrev run : Command → Store → Store × Result (List String)
    run = run_command wire.tokens wire.roles (send wire dates now entropy) (ok socket)

    run-issue :
        (user role expires : String) (s : Store)
        → (run (token_issue user role expires) s).0 ≡ intended (token_issue user role expires) s
    unfolding run_command run_token_issue with_client route read_json serve_admin
    run-issue user role expires s = elim (Bool-cases (user == "" || role == "")) [
      | inl e ↦ ground arith
      | inr e ↦ elim (Option-cases (expires_of expires)) [
        | inl f ↦ ground arith
        | inr (days, f) ↦
            rw (run_token_issue, with_client, e, f, print-state, do_request-state)
              (send-state wire dates now entropy socket "POST" "/tokens" _ ("tokens" ∷ []) s
                  (wire.segments_plain ("tokens" ∷ []) (IsPlain-tokens, tt))
                ∙ rw
                    (
                      read_json,
                      wire.token_filled (issue_fields user role days),
                      wire.token_body user role days,
                    )
                    (post_tokens-state dates now entropy user role days s e))
      ]
    ]

    run-revoke :
        (user : String) (s : Store)
        → IsPlain user
        → (run (token_revoke user) s).0 ≡ intended (token_revoke user) s
    unfolding run_command run_token_revoke with_client route serve_admin
    run-revoke user s plain =
        rw (run_token_revoke, with_client, print-state, do_request-state)
          (send-state wire dates now entropy socket "DELETE" (concat ("/tokens/" ∷ user ∷ [])) none
              ("tokens" ∷ user ∷ []) s
              (path_two wire "tokens" "/tokens/" refl user IsPlain-tokens plain)
            ∙ rw plain.filled (delete_token-state user s))

    run-rotate :
        (user : String) (all : Bool) (s : Store)
        → ((all ≡ false) → IsPlain user)
        → (run (token_rotate user all) s).0 ≡ intended (token_rotate user all) s
    unfolding run_command run_token_rotate with_client route serve_admin
    run-rotate user true s plain = elim (Bool-cases (user == "")) [
      | inr e ↦ rw (run_token_rotate, e) refl
      | inl e ↦
          rw (run_token_rotate, with_client, e, print-state, do_request-state)
            (send-state wire dates now entropy socket "POST" "/tokens/_rotate_all" _
                ("tokens" ∷ "_rotate_all" ∷ []) s
                (wire.segments_plain ("tokens" ∷ "_rotate_all" ∷ [])
                  (IsPlain-tokens, (IsPlain-rotate_all, tt)))
              ∙ post_rotate_all-state dates now entropy s)
    ]
    run-rotate user false s plain =
        rw (run_token_rotate, with_client, (plain refl).filled, print-state, do_request-state)
          (send-state wire dates now entropy socket "POST"
              (concat ("/tokens/" ∷ user ∷ "/rotate" ∷ [])) _ ("tokens" ∷ user ∷ "rotate" ∷ []) s
              (path_rotate wire user (plain refl))
            ∙ rw (plain refl).filled (post_rotate-state dates now entropy user s))

    run-token_list : (s : Store) → (run token_list s).0 ≡ s
    unfolding run_command run_token_list with_client route serve_admin
    run-token_list s =
        rw (run_token_list, with_client, print-state, do_request-state)
          (send-state wire dates now entropy socket "GET" "/tokens" none ("tokens" ∷ []) s
            (wire.segments_plain ("tokens" ∷ []) (IsPlain-tokens, tt)))

    run-role_list : (s : Store) → (run role_list s).0 ≡ s
    unfolding run_command run_role_list with_client route serve_admin
    run-role_list s =
        rw (run_role_list, with_client, print-state, do_request-state)
          (send-state wire dates now entropy socket "GET" "/roles" none ("roles" ∷ []) s
            (wire.segments_plain ("roles" ∷ []) (IsPlain-roles, tt)))

    run-create :
        (name scope : String) (top_k : ℤ) (limit : String) (s : Store)
        → (run (role_create name scope top_k limit) s).0
          ≡ intended (role_create name scope top_k limit) s
    unfolding run_command run_role_create send_only with_client route serve_admin post_roles
    run-create name scope top_k limit s =
        rw (run_role_create, send_only, with_client, print-state, do_request-state)
          (send-state wire dates now entropy socket "POST" "/roles" _ ("roles" ∷ []) s
              (wire.segments_plain ("roles" ∷ []) (IsPlain-roles, tt))
            ∙ rw
                (
                  read_json,
                  wire.role_filled (create_fields wire.roles name scope top_k limit),
                  wire.role_body name scope top_k limit,
                )
                (elim (Bool-cases
                  (name == "" || is_nil (split_csv wire.roles scope) || limit == "")) [
                    | inl e ↦ rw (e, if◌then◌else◌) refl
                    | inr e ↦ rw (e, if◌then◌else◌) (role_response-state 201 _)
                  ]))

    run-update :
        (name scope : String) (top_k : Option ℤ) (limit : String) (s : Store)
        → IsPlain name
        → (run (role_update name scope top_k limit) s).0
          ≡ intended (role_update name scope top_k limit) s
    unfolding run_command run_role_update send_only with_client route serve_admin
    run-update name scope top_k limit s plain = elim (update_fields_cases wire scope top_k limit) [
      | inl (e, f) ↦ rw (run_role_update, e, f) refl
      | inr (f, fs, e, g) ↦
          rw (run_role_update, e, g, send_only, with_client, print-state, do_request-state)
            (send-state wire dates now entropy socket "PUT" (concat ("/roles/" ∷ name ∷ []))
                (some (wire.roles.encode (f ∷ fs))) ("roles" ∷ name ∷ []) s
                (path_two wire "roles" "/roles/" refl name IsPlain-roles plain)
              ∙ rw
                  (
                    plain.filled,
                    read_json,
                    wire.role_filled (f ∷ fs),
                    ← e,
                    wire.change_body scope top_k limit,
                  )
                  (put_role-state wire name scope top_k limit s g))
    ]

    run-delete :
        (name : String) (s : Store)
        → IsPlain name
        → (run (role_delete name) s).0 ≡ intended (role_delete name) s
    unfolding run_command run_role_delete send_only with_client route serve_admin
    run-delete name s plain =
        rw (run_role_delete, send_only, with_client, print-state, do_request-state)
          (send-state wire dates now entropy socket "DELETE" (concat ("/roles/" ∷ name ∷ [])) none
              ("roles" ∷ name ∷ []) s
              (path_two wire "roles" "/roles/" refl name IsPlain-roles plain)
            ∙ rw plain.filled (delete_role_route-state name s))

    -- A command with plain names that reaches a daemon does to the daemon's store what it stands for: one
    -- operation of the store, or nothing if its flags are refused or it only reads.
    pub run_command-store : (c : Command) (s : Store) → HasPlainNames c → (run c s).0 ≡ intended c s
    run_command-store (token_issue user role expires) s h = run-issue user role expires s
    run_command-store (token_revoke user) s h = run-revoke user s h
    run_command-store (token_rotate user all) s h = run-rotate user all s h
    run_command-store token_list s h = run-token_list s
    run_command-store role_list s h = run-role_list s
    run_command-store (role_create name scope top_k limit) s h = run-create name scope top_k limit s
    run_command-store (role_update name scope top_k limit) s h =
        run-update name scope top_k limit s h
    run_command-store (role_delete name) s h = run-delete name s h
