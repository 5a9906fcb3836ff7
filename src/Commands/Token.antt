-- ===== src/Commands/Token.antt =====
-- vault/internal/commands/token.go: the commands on tokens. The flags that must be given may be empty. The
-- output is the list of its pieces of text.
use rune_admin.Prelude.{
  ℕ, ◌-◌, zero, suc, ℤ, pos, String, codes, length, Bool, not, ◌||◌, ◌==◌, if◌then◌else◌, Option,
  none, some, List, [], ◌∷◌, ◌++◌, concat,
}
use rune_admin.Duration.{parse_duration}
use rune_admin.Commands.Client.{
  text, number, Fields, Sent, Result, ok, err, flags_missing, bad_duration, one_of_two, Request,
  do_request, with_client,
}

-- tokenResult
pub record TokenResult : Type 0 where
  pub user : String
  pub token : String
  pub role : String
  pub issued_at : String
  pub expires : String

-- A row of the list of tokens; `top_k` and `rate_limit` are as `%v` prints them.
pub record TokenRow : Type 0 where
  pub user : String
  pub role : String
  pub top_k : String
  pub rate_limit : String
  pub expires : String

-- encoding/json at what the commands send and read, and `%d`.
pub record TokenJson : Type 0 where
  pub encode : Fields → String
  pub decode_error : String → Option String
  pub decode_result : String → Option TokenResult
  pub decode_message : String → Option String
  pub decode_rotated : String → Option (ℤ × List TokenResult)
  pub decode_rows : String → Option (List TokenRow)
  pub show : ℤ → String

abbrev pub empty_result : TokenResult
empty_result = record { user = ""; token = ""; role = ""; issued_at = ""; expires = "" }

-- The expiry flag: nothing, the days, or its refusal.
unfoldable pub expires_of : String → Option (Option ℤ)
unfolding parse_duration
expires_of expires =
    if expires == ""
    then some none
    else elim (parse_duration expires) [ none ↦ none | some days ↦ some (some days) ]

unfoldable pub issue_fields : String → String → Option ℤ → Fields
issue_fields user role none = ("user", text user) ∷ ("role", text role) ∷ []
issue_fields user role (some days) =
    ("user", text user) ∷ ("role", text role) ∷ ("expires_days", number days) ∷ []

unfoldable pub token_report : String → TokenResult → List String
token_report verb r =
    concat ("\nToken " ∷ verb ∷ " for '" ∷ r.user ∷ "':\n" ∷ [])
    ∷ concat ("  Role:    " ∷ r.role ∷ "\n" ∷ [])
    ∷ concat ("  Expires: " ∷ r.expires ∷ "\n" ∷ [])
    ∷ concat ("\n  Token: " ∷ r.token ∷ "\n" ∷ [])
    ∷ "\n  WARNING: This token will NOT be shown again. Share it securely.\n"
    ∷ []

-- `%-16s` and `%6s`, for their widths.
spaces : ℕ → String
spaces zero = ""
spaces (suc n) = concat (" " ∷ spaces n ∷ [])

unfoldable pub pad_right : ℕ → String → String
unfolding spaces
pad_right n s = concat (s ∷ spaces (n - length (codes s)) ∷ [])

unfoldable pub pad_left : ℕ → String → String
unfolding spaces
pad_left n s = concat (spaces (n - length (codes s)) ∷ s ∷ [])

unfoldable pub row_line : TokenRow → String
unfolding pad_right pad_left
row_line t = concat (
    pad_right 16 t.user
    ∷ " "
    ∷ pad_right 10 t.role
    ∷ " "
    ∷ pad_left 6 t.top_k
    ∷ " "
    ∷ pad_left 10 t.rate_limit
    ∷ "  "
    ∷ pad_right 12 t.expires
    ∷ "\n"
    ∷ [])

unfoldable pub row_lines : List TokenRow → List String
unfolding row_line
row_lines [] = []
row_lines (t ∷ ts) = row_line t ∷ row_lines ts

unfoldable pub rotated_lines : List TokenResult → List String
rotated_lines [] = []
rotated_lines (t ∷ ts) = concat ("  " ∷ t.user ∷ ": " ∷ t.token ∷ "\n" ∷ []) ∷ rotated_lines ts

-- The report of a rotation of all tokens, with the number that was answered.
unfoldable pub rotated_report : (ℤ → String) → ℤ × List TokenResult → List String
unfolding rotated_lines
rotated_report show (pos zero, ts) = "No tokens to rotate.\n" ∷ []
rotated_report show (n, ts) =
    (concat ("Rotated " ∷ show n ∷ " token(s):\n\n" ∷ []) ∷ rotated_lines ts)
    ++ "\n  WARNING: These tokens will NOT be shown again. Share them securely.\n" ∷ []

unfoldable pub list_report : List TokenRow → List String
unfolding row_line row_lines
list_report [] = "No tokens issued.\n" ∷ []
list_report (t ∷ ts) =
    row_line (record {
      user = "USER";
      role = "ROLE";
      top_k = "TOP_K";
      rate_limit = "RATE";
      expires = "EXPIRES";
    })
    ∷ row_lines (t ∷ ts)

-- What a command does with the value that it read.
unfoldable pub print {ℓ} :
    {A : Type ℓ} → {S : Type 0} → (A → List String) → S × Result A → S × Result (List String)
print report (s, err e) = (s, err e)
print report (s, ok a) = (s, ok (report a))

-- `client` is what `resolveAdminClient` returns.
module _ (json : TokenJson) {S : Type 0} (send : String → Request → S → S × Sent)
    (client : Result String) where
  unfoldable pub run_token_issue : String → String → String → S → S × Result (List String)
  unfolding expires_of issue_fields token_report print with_client do_request
  run_token_issue user role expires s =
      if user == "" || role == "" then (s, err flags_missing) else elim (expires_of expires) [
        | none ↦ (s, err bad_duration)
        | some days ↦
            with_client client
              (λ socket s. print (token_report "issued") (
                do_request send json.decode_error (some json.decode_result) empty_result socket
                  (record {
                    method = "POST";
                    path = "/tokens";
                    body = some (json.encode (issue_fields user role days));
                  })
                  s))
              s
      ]

  unfoldable pub run_token_revoke : String → S → S × Result (List String)
  unfolding print with_client do_request
  run_token_revoke user s =
      with_client client
        (λ socket s.
          print (λ message. concat (message ∷ "\n" ∷ []) ∷ [])
            (do_request send json.decode_error (some json.decode_message) "" socket
              (record { method = "DELETE"; path = concat ("/tokens/" ∷ user ∷ []); body = none })
              s))
        s

  unfoldable pub run_token_rotate : String → Bool → S → S × Result (List String)
  unfolding token_report rotated_report print with_client do_request
  run_token_rotate user rotate_all s =
      if (if user == "" then not rotate_all else rotate_all)
      then (s, err one_of_two)
      else with_client client
          (λ socket s.
            if rotate_all
            then print (rotated_report json.show) (
                do_request send json.decode_error (some json.decode_rotated) (pos 0, []) socket
                  (record {
                    method = "POST";
                    path = "/tokens/_rotate_all";
                    body = some (json.encode []);
                  })
                  s)
            else print (token_report "rotated") (
                do_request send json.decode_error (some json.decode_result) empty_result socket
                  (record {
                    method = "POST";
                    path = concat ("/tokens/" ∷ user ∷ "/rotate" ∷ []);
                    body = some (json.encode []);
                  })
                  s))
          s

  unfoldable pub run_token_list : S → S × Result (List String)
  unfolding list_report print with_client do_request
  run_token_list s =
      with_client client
        (λ socket s. print list_report (
          do_request send json.decode_error (some json.decode_rows) [] socket
            (record { method = "GET"; path = "/tokens"; body = none }) s))
        s
