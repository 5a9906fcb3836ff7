-- ===== src/Commands/Role.antt =====
-- vault/internal/commands/role.go: the commands on roles.
use rune_admin.Prelude.{
  ℤ, String, true, ◌==◌, if◌then◌else◌, Option, none, some, List, [], ◌∷◌, ◌++◌, concat, join,
}
use rune_admin.Commands.Client.{
  text, number, texts, Fields, Sent, Result, err, no_fields, Request, do_request, with_client,
}
use rune_admin.Commands.Token.{print, pad_left, pad_right}

-- roleResult
pub record RoleResult : Type 0 where
  pub name : String
  pub scope : List String
  pub top_k : ℤ
  pub rate_limit : String

-- encoding/json at what the commands send and read, `%d`, and the text functions of Go's library.
pub record RoleJson : Type 0 where
  pub encode : Fields → String
  pub decode_error : String → Option String
  pub decode_roles : String → Option (List RoleResult)
  pub show : ℤ → String
  -- strings.Split at ",", and strings.TrimSpace
  pub split_comma : String → List String
  pub trim : String → String

-- The loop of splitCSV over the parts.
unfoldable pub keep_trimmed : (String → String) → List String → List String
keep_trimmed trim [] = []
keep_trimmed trim (p ∷ ps) =
    let rest = keep_trimmed trim ps in if trim p == "" then rest else trim p ∷ rest

unfoldable pub split_csv : RoleJson → String → List String
unfolding keep_trimmed
split_csv json s = keep_trimmed json.trim (json.split_comma s)

-- formatScope, of token.go.
unfoldable pub format_scope : List String → String
unfolding join
format_scope scope = join "," scope

unfoldable pub role_line : String → String → String → String → String
unfolding pad_left pad_right
role_line name scope top_k rate_limit = concat (
    pad_right 12 name
    ∷ " "
    ∷ pad_right 50 scope
    ∷ " "
    ∷ pad_left 6 top_k
    ∷ " "
    ∷ pad_left 10 rate_limit
    ∷ "\n"
    ∷ [])

unfoldable pub role_lines : (ℤ → String) → List RoleResult → List String
unfolding role_line format_scope
role_lines show [] = []
role_lines show (r ∷ rs) =
    role_line r.name (format_scope r.scope) (show r.top_k) r.rate_limit ∷ role_lines show rs

unfoldable pub roles_report : (ℤ → String) → List RoleResult → List String
unfolding role_line role_lines
roles_report show [] = "No roles defined.\n" ∷ []
roles_report show (r ∷ rs) = role_line "ROLE" "SCOPE" "TOP_K" "RATE" ∷ role_lines show (r ∷ rs)

-- The fields of `role update` that its flags set; `top_k` is set if the flag was given.
unfoldable pub update_fields : RoleJson → String → Option ℤ → String → Fields
unfolding split_csv
update_fields json scope top_k rate_limit =
    (if scope == "" then [] else ("scope", texts (split_csv json scope)) ∷ [])
    ++ (elim top_k [ none ↦ [] | some n ↦ ("top_k", number n) ∷ [] ])
    ++ (if rate_limit == "" then [] else ("rate_limit", text rate_limit) ∷ [])

unfoldable pub create_fields : RoleJson → String → String → ℤ → String → Fields
unfolding split_csv
create_fields json name scope top_k rate_limit =
    ("name", text name)
    ∷ ("scope", texts (split_csv json scope))
    ∷ ("top_k", number top_k)
    ∷ ("rate_limit", text rate_limit)
    ∷ []

module _ (json : RoleJson) {S : Type 0} (send : String → Request → S → S × Sent)
    (client : Result String) where
  unfoldable pub run_role_list : S → S × Result (List String)
  unfolding roles_report print with_client do_request
  run_role_list s =
      with_client client
        (λ socket s. print (roles_report json.show) (
          do_request send json.decode_error (some json.decode_roles) [] socket
            (record { method = "GET"; path = "/roles"; body = none }) s))
        s

  -- A request whose answer is dropped.
  unfoldable pub send_only : List String → Request → S → S × Result (List String)
  unfolding print with_client do_request
  send_only report request s =
      with_client client
        (λ socket s.
          print (λ _. report) (do_request send json.decode_error none true socket request s))
        s

  unfoldable pub run_role_create : String → String → ℤ → String → S → S × Result (List String)
  unfolding create_fields send_only
  run_role_create name scope top_k rate_limit s =
      send_only (concat ("Role '" ∷ name ∷ "' created.\n" ∷ []) ∷ [])
        (record {
          method = "POST";
          path = "/roles";
          body = some (json.encode (create_fields json name scope top_k rate_limit));
        })
        s

  unfoldable pub run_role_update :
      String → String → Option ℤ → String → S → S × Result (List String)
  unfolding update_fields send_only
  run_role_update name scope top_k rate_limit s = elim (update_fields json scope top_k rate_limit) [
    | [] ↦ (s, err no_fields)
    | f ∷ fs ↦
        send_only
          (concat (
              "Role '" ∷ name
              ∷ "' updated. Changes take effect immediately for all tokens with this role.\n" ∷ [])
            ∷ [])
          (record {
            method = "PUT";
            path = concat ("/roles/" ∷ name ∷ []);
            body = some (json.encode (f ∷ fs));
          })
          s
  ]

  unfoldable pub run_role_delete : String → S → S × Result (List String)
  unfolding send_only
  run_role_delete name s =
      send_only (concat ("Role '" ∷ name ∷ "' deleted.\n" ∷ []) ∷ [])
        (record { method = "DELETE"; path = concat ("/roles/" ∷ name ∷ []); body = none }) s
