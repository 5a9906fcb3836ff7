-- ===== src/Server/Audit.antt =====
-- vault/internal/server/audit.go: the audit log. A file is written through the lumberjack package,
-- which takes each line; whether a write succeeds is not looked at. The JSON encoder, the directories
-- and the arithmetic of `float64` are parameters.
pub mod Trail
use rune_admin.Prelude.{
  ℕ, zero, suc, ℤ, ◌+◌, String, codes, Bool, true, false, ◌&&◌, ◌||◌, not, Option, none, some, List,
  [], ◌∷◌, ◌++◌, map, ◌==◌, ◌==ℕ◌, leb, if◌then◌else◌, concat,
}
use rune_admin.Server.Config.{AuditConfig}
use rune_admin.Server.Interceptor.{trim_space, same_codes}

pub record AuditMode : Type 0 where
  pub file : Bool
  pub stdout : Bool

-- strings.Split at a separator of one character.
unfoldable pub split_at : ℕ → List ℕ → List (List ℕ)
split_at sep [] = [] ∷ []
split_at sep (c ∷ cs) = elim (split_at sep cs) [
  | [] ↦ (c ∷ []) ∷ []
  | w ∷ ws ↦ if c ==ℕ sep then [] ∷ w ∷ ws else (c ∷ w) ∷ ws
]

-- strings.ToLower, as far as it gives ASCII letters: U+0130 and the sign U+212A become `i` and `k`.
unfoldable pub to_lower : ℕ → ℕ
to_lower c =
    if leb b'A' c && leb c b'Z'
    then c + 32
    else if c ==ℕ 304
    then b'i'
    else if c ==ℕ 8490
    then b'k'
    else c

unfoldable pub is_word : String → List ℕ → Bool
unfolding to_lower trim_space same_codes
is_word name part = same_codes (trim_space (map to_lower part)) (codes name)

-- The loop over the parts.
unfoldable pub set_modes : AuditMode → List (List ℕ) → AuditMode
unfolding is_word
set_modes out [] = out
set_modes out (p ∷ ps) =
    set_modes
      (if is_word "file" p
        then record out { file = true }
        else if is_word "stdout" p
        then record out { stdout = true }
        else out)
      ps

unfoldable pub parse_audit_mode : String → AuditMode
unfolding set_modes split_at
parse_audit_mode mode =
    let out : AuditMode = record { file = false; stdout = false } in
    if mode == "" then out else set_modes out (split_at b'+' (codes mode))

-- A writer: the process's output, or the file at a path.
pub data Sink : Type 0 where
  to_stdout : Sink
  to_file : String → Sink

pub record AuditLogger : Type 0 where
  pub writers : List Sink
  pub closers : List Sink

unfoldable pub audit_path : AuditConfig → String
audit_path cfg = if cfg.path == "" then "/var/log/runevault/audit.log" else cfg.path

-- `make_dir` tells whether the directory of a path could be made.
unfoldable pub new_audit_logger : (String → Bool) → AuditConfig → Option AuditLogger
unfolding parse_audit_mode audit_path
new_audit_logger make_dir cfg =
    let mode = parse_audit_mode cfg.mode in
    let path = audit_path cfg in
    let outs = if mode.stdout then to_stdout ∷ [] else [] in
    if mode.file
    then (if make_dir path
        then some (record { writers = to_file path ∷ outs; closers = to_file path ∷ [] })
        else none)
    else some (record { writers = outs; closers = [] })

-- A nil logger is `none`.
unfoldable pub enabled : Option AuditLogger → Bool
enabled none = false
enabled (some a) = elim a.writers [ [] ↦ false | _ ∷ _ ↦ true ]

-- float64, as far as `roundTo` uses it; `to_int` is the conversion to int64 and back.
pub record Floats : Type 1 where
  pub Float : Type 0
  pub one : Float
  pub ten : Float
  pub half : Float
  pub times : Float → Float → Float
  pub plus : Float → Float → Float
  pub minus : Float → Float → Float
  pub divided : Float → Float → Float
  pub is_negative : Float → Bool
  pub to_int : Float → Float

-- The powers of ten that the loop multiplies.
unfoldable pub mult_of : (fl : Floats) → ℕ → fl.Float
mult_of fl zero = fl.one
mult_of fl (suc n) = fl.times (mult_of fl n) fl.ten

unfoldable pub round_to : (fl : Floats) → fl.Float → ℕ → fl.Float
unfolding mult_of
round_to fl v decimals =
    let mult = mult_of fl decimals in
    if fl.is_negative v
    then fl.divided (fl.to_int (fl.minus (fl.times v mult) fl.half)) mult
    else fl.divided (fl.to_int (fl.plus (fl.times v mult) fl.half)) mult

pub record LogEntry (fl : Floats) : Type 0 where
  pub timestamp : String
  pub user_id : String
  pub method : String
  pub top_k : Option ℤ
  pub result_count : ℕ
  pub status : String
  pub source_ip : String
  pub latency_ms : fl.Float
  pub error : Option String

-- What happens to the sinks.
pub data Event : Type 0 where
  wrote : Sink → String → Event
  closed : Sink → Event

module _ (fl : Floats) (marshal : LogEntry fl → Option String) where
  -- The line of an entry, if it can be encoded.
  unfoldable pub line_of : LogEntry fl → Option String
  unfolding round_to
  line_of e = elim (marshal (record e { latency_ms = round_to fl e.latency_ms 2 })) [
    | none ↦ none
    | some buf ↦ some (concat (buf ∷ "\n" ∷ []))
  ]

  unfoldable pub log : Option AuditLogger → LogEntry fl → List Event
  unfolding line_of enabled
  log none e = []
  log (some a) e =
      if enabled (some a)
      then elim (line_of e) [ none ↦ [] | some line ↦ map (λ w. wrote w line) a.writers ]
      else []

-- The first error of the closers; every closer is closed.
unfoldable pub first_error : (Sink → Option String) → List Sink → Option String
first_error fault [] = none
first_error fault (c ∷ cs) = elim (fault c) [ some e ↦ some e | none ↦ first_error fault cs ]

unfoldable pub close :
    (Sink → Option String) → Option AuditLogger → Option AuditLogger × List Event × Option String
unfolding first_error
close fault none = (none, [], none)
close fault (some a) = (
  some (record { writers = []; closers = [] }),
  map closed a.closers,
  first_error fault a.closers,
)

-- The address of a peer: `p.Addr` by its type, with its text.
pub data PeerAddr : Type 0 where
  no_addr : PeerAddr
  tcp_addr : Option String → String → PeerAddr
  unix_addr : String → PeerAddr
  other_addr : String → PeerAddr

-- `split_host_port` is `net.SplitHostPort`'s host.
unfoldable pub extract_source_ip : (String → Option String) → PeerAddr → String
extract_source_ip split_host_port no_addr = "unknown"
extract_source_ip split_host_port (tcp_addr none addr) = addr
extract_source_ip split_host_port (tcp_addr (some ip) addr) = ip
extract_source_ip split_host_port (unix_addr name) = concat ("unix:" ∷ name ∷ [])
extract_source_ip split_host_port (other_addr addr) = elim (split_host_port addr) [
  | some h ↦ h
  | none ↦ addr
]
