-- ===== src/Examples/Process.antt =====
-- The daemon and its commands: a start that ends by a signal, the audit log, and commands on the wire.
use rune_admin.Prelude.{
  concat, ◌==◌, length, ◌≤◌, ℕ, ◌+◌, ◌*◌, ◌-◌, ◌/◌, String, ◌≡◌, refl, ap, true, false, ◌&&◌,
  if◌then◌else◌, Option, none, some, List, [], ◌∷◌,
}
use rune_admin.Dict.{get, put, empty, keys}
use rune_admin.Sort.{sort_strings}
use rune_admin.Tokens.Token.{Token, expiry_date}
use rune_admin.Tokens.Store.{Store}
use rune_admin.Tokens.Store.Issue.{rotate_token, rotate_all_tokens, revoke_token, add_token}
use rune_admin.Tokens.Store.Issue.Rounds.{AreFresh, IsRenewed, rotate_all_tokens-renews}
use rune_admin.Server.Admin.{revoke}
use rune_admin.Server.Admin.Mux.{route, Body}
use rune_admin.Server.Admin.Mux.Table.{matching, table, first_of, route-matching}
use rune_admin.Server.Grpc.{Vault}
use rune_admin.Server.Run.{Service, Found, Run}
use rune_admin.Examples.Calls.{vault, gt}
use rune_admin.Server.Interceptor.Laws.{VaultCall}
use rune_admin.Server.Config.{AuditConfig}
use rune_admin.Server.Audit.{
  parse_audit_mode, Sink, to_stdout, to_file, AuditLogger, audit_path, new_audit_logger, Floats,
  LogEntry,
}
use rune_admin.Server.Audit.Trail.{
  Action, logs, closes, received, closings, has_sink, run, due, is_closed, audit_trail,
}
use rune_admin.Server.Serve.{signalled}
use rune_admin.Crypto.Keys.{made}
use rune_admin.Commands.Client.{Result, ok, Globals}
use rune_admin.Commands.Token.{token_report, expires_of}
use rune_admin.Commands.Daemon.{token_revoke, run_command, IsPlain, send}
use rune_admin.Commands.Daemon.Effects.{run_command-store}
use rune_admin.Commands.Daemon.Issue.{run_issue, result_of, run_issue-issued, run_issue-held}
use rune_admin.Commands.Start.{Machine}
use rune_admin.Examples.Data.{
  dates, bytes_of, fresh_store, bob_store, bob_text, primitives, clocks, bob_store-IsConsistent,
  bob, issued, yaml,
}
use rune_admin.Examples.Access.{next-IsFresh}
use rune_admin.Examples.Settings.{fs, decode}
use rune_admin.Examples.Wire.{wire}

abbrev now : ℕ → ℕ
now _ = 0

abbrev next_bytes : ℕ → Option (List ℕ)
next_bytes _ = some (bytes_of 1)

abbrev service : Service
service = record {
  prim = primitives;
  dates = dates;
  Score = ℕ;
  gt = gt;
  parse = λ _. none;
  validate_request = λ _. none;
}

abbrev found : Found ℕ
found = record { clocks = clocks; enc_key = some "key"; keys = none }

-- A call with a token of the store, one that is refused for its token's space, and a revocation.
abbrev served : (n : ℕ) × (w : Vault) × Run service vault n w
served = (
  _,
  _,
  Run.admin
      (Run.call (Run.call Run.started found (VaultCall.manifest_call bob_text)) found
        (VaultCall.metadata_call " bob" []))
      now next_bytes (revoke "bob"),
)

only_bob : sort_strings (keys bob_store.tokens_by_user) ≡ "bob" ∷ []
unfolding sort_strings keys add_token put empty get
only_bob = refl

rounds-AreFresh :
    AreFresh dates now next_bytes 0 (sort_strings (keys bob_store.tokens_by_user)) bob_store
rounds-AreFresh = rw only_bob (next-IsFresh, tt)

abbrev all_rotated : Store
all_rotated = (rotate_all_tokens dates now next_bytes bob_store).0

abbrev all_made : List Token
all_made = (rotate_all_tokens dates now next_bytes bob_store).1

completed : rotate_all_tokens dates now next_bytes bob_store ≡ (all_rotated, all_made, none)
unfolding rotate_all_tokens rotate_token add_token get put empty expiry_date keys
completed = refl

rotate_all_tokens-renews_example :
    ((old : Token)
      → get bob_store.tokens_by_user "bob" ≡ some old
      → IsRenewed dates now next_bytes old all_rotated "bob")
    × (get bob_store.tokens_by_user "bob" ≡ none → get all_rotated.tokens_by_user "bob" ≡ none)
rotate_all_tokens-renews_example =
    rotate_all_tokens-renews dates now next_bytes bob_store bob_store-IsConsistent rounds-AreFresh
      completed "bob"

-- Latencies in whole milliseconds, and a line that is the user's name.
abbrev whole : Floats
whole = record {
  Float = ℕ;
  one = 1;
  ten = 10;
  half = 0;
  times = λ x y. x * y;
  plus = λ x y. x + y;
  minus = λ x y. x - y;
  divided = λ x y. x / y;
  is_negative = λ x. false;
  to_int = λ x. x;
}

abbrev marshal : LogEntry whole → Option String
marshal e = some e.user_id

abbrev both : AuditConfig
both = record { mode = "file+stdout"; path = "audit.log" }

abbrev logger : AuditLogger
logger = record {
  writers = to_file "audit.log" ∷ to_stdout ∷ [];
  closers = to_file "audit.log" ∷ [];
}

logger_made : new_audit_logger (λ _. true) both ≡ some logger
unfolding new_audit_logger
logger_made = refl

abbrev entry : String → LogEntry whole
entry user = record {
  timestamp = "now";
  user_id = user;
  method = "m";
  top_k = none;
  result_count = 0;
  status = "success";
  source_ip = "unknown";
  latency_ms = 3;
  error = none;
}

abbrev life : List (Action whole)
life = logs (entry "bob") ∷ closes ∷ logs (entry "eve") ∷ []

audit_trail_example :
    ((sink : Sink)
      → received sink (run whole marshal (λ _. none) (some logger) life)
        ≡ (if has_sink both sink then due whole marshal (λ _. none) life else []))
    × (closings (run whole marshal (λ _. none) (some logger) life) ≡ (
        if is_closed whole marshal (λ _. none) life && (parse_audit_mode both.mode).file
        then to_file (audit_path both) ∷ []
        else []))
audit_trail_example = audit_trail whole marshal (λ _. none) (λ _. true) both logger_made life

abbrev machine : Machine ℕ
machine = record {
  fs = fs;
  decode = decode;
  yaml = yaml;
  disk = empty;
  sdk = record {
    join_path = λ a b. b;
    keys_exist = λ _ _. false;
    make_dir = λ _. true;
    generate = λ _ _. made;
    open_sec = λ _ _. some 7;
    read_file = λ _. none;
  };
  make_log_dir = λ _. true;
  calls = record {
    cloud = record { dials = true; opens_keys = true; activates_keys = true; has_index = true };
    listens = λ _ _. true;
    pair = λ _ _. true;
    has_interceptor = true;
    admin = record { makes_dir = true; removes = true; listens = true; chmods = true };
    ending = signalled;
    drain = some 9;
  };
}

abbrev flags : Globals
flags = record { config_path = "runevault.conf"; admin_socket = "" }

IsPlain-bob : IsPlain "bob"
IsPlain-bob = record { filled = refl; unreserved = refl }

run_command-store_example :
    (run_command wire.tokens wire.roles
      (send wire dates now next_bytes)
      (ok "admin.sock")
      (token_revoke "bob")
      bob_store).0
    ≡ (revoke_token bob_store "bob").0
run_command-store_example =
    run_command-store wire dates now next_bytes "admin.sock" (token_revoke "bob") bob_store
      IsPlain-bob

abbrev no_body : Body
no_body = record { text = ""; is_declared = true }

route-matching_example :
    let made_of = matching (table wire.server no_body) "DELETE" ("tokens" ∷ "bob" ∷ []) in
    (route wire.server no_body "DELETE" ("tokens" ∷ "bob" ∷ []) ≡ first_of made_of)
    × (length made_of ≤ 1)
route-matching_example = route-matching wire.server no_body "DELETE" ("tokens" ∷ "bob" ∷ [])

abbrev first_bytes : ℕ → Option (List ℕ)
first_bytes _ = some (bytes_of 0)

abbrev issues : Store → Store × Result (List String)
issues = run_issue wire dates now first_bytes "admin.sock" "bob" "member" ""

no_expiry : expires_of "" ≡ some none
unfolding expires_of
no_expiry = refl

printed : (issues fresh_store).1 ≡ ok (token_report "issued" (result_of bob))
printed =
    ap (λ (r : Store × Result (List String)). r.1)
      (run_issue-issued wire dates now first_bytes "admin.sock" "bob" "member" "" none fresh_store
        refl no_expiry issued)

run_issue-held_example :
    (tok : Token) × (get (issues fresh_store).0.tokens_by_user "bob" ≡ some tok)
    × (get (issues fresh_store).0.tokens tok.token ≡ some tok)
    × (tok.user ≡ "bob")
    × (tok.role ≡ "member")
    × (token_report "issued" (result_of bob) ≡ (
        concat ("\nToken " ∷ "issued" ∷ " for '" ∷ "bob" ∷ "':\n" ∷ [])
        ∷ concat ("  Role:    " ∷ "member" ∷ "\n" ∷ [])
        ∷ concat ("  Expires: " ∷ (if tok.expires == "" then "never" else tok.expires) ∷ "\n" ∷ [])
        ∷ concat ("\n  Token: " ∷ tok.token ∷ "\n" ∷ [])
        ∷ "\n  WARNING: This token will NOT be shown again. Share it securely.\n"
        ∷ []))
run_issue-held_example =
    run_issue-held wire dates now first_bytes "admin.sock" "bob" "member" "" fresh_store printed
