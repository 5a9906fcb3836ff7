-- ===== src/Server/Audit/Trail.antt =====
-- What the sinks of an audit logger receive over its life.
use rune_admin.Prelude.{
  String, ◌≡◌, refl, Bool, true, false, ◌&&◌, Option, none, some, List, [], ◌∷◌, ◌++◌, map, ◌==◌,
  ap, sym, if◌then◌else◌, arith, Bool-cases, Option-cases, inl, inr,
}
use rune_admin.Server.Config.{AuditConfig}
use rune_admin.Server.Audit.{
  parse_audit_mode, Sink, to_stdout, to_file, AuditLogger, audit_path, new_audit_logger, Floats,
  LogEntry, Event, wrote, closed, line_of, log, close, enabled,
}

pub data Action (fl : Floats) : Type 0 where
  logs : LogEntry fl → Action fl
  closes : Action fl

-- The lines that a sink received, and the sinks that were closed.
abbrev same_sink : Sink → Sink → Bool
same_sink to_stdout to_stdout = true
same_sink (to_file p) (to_file q) = p == q
same_sink _ _ = false

abbrev pub received : Sink → List Event → List String
received sink [] = []
received sink (wrote w line ∷ es) =
    let rest = received sink es in if same_sink w sink then line ∷ rest else rest
received sink (closed _ ∷ es) = received sink es

abbrev pub closings : List Event → List Sink
closings [] = []
closings (wrote _ _ ∷ es) = closings es
closings (closed c ∷ es) = c ∷ closings es

-- Whether a configuration has a sink.
abbrev pub has_sink : AuditConfig → Sink → Bool
has_sink cfg sink = elim sink [
  | to_stdout ↦ (parse_audit_mode cfg.mode).stdout
  | to_file p ↦ (parse_audit_mode cfg.mode).file && audit_path cfg == p
]

received-append :
    (sink : Sink) (es fs : List Event)
    → received sink (es ++ fs) ≡ received sink es ++ received sink fs
received-append sink [] fs = refl
received-append sink (wrote w line ∷ es) fs = ground (arith, received-append sink es fs)
received-append sink (closed c ∷ es) fs = received-append sink es fs

if_same {ℓ} : {A : Type ℓ} (b : Bool) (x : A) → (if b then x else x) ≡ x
if_same true x = refl
if_same false x = refl

append_nil : (ws : List Sink) → ws ++ [] ≡ ws
append_nil [] = refl
append_nil (w ∷ ws) = ap (λ (l : List Sink). w ∷ l) (append_nil ws)

closings-append : (es fs : List Event) → closings (es ++ fs) ≡ closings es ++ closings fs
closings-append [] fs = refl
closings-append (wrote w line ∷ es) fs = closings-append es fs
closings-append (closed c ∷ es) fs = ground (arith, closings-append es fs)

sinks_once :
    (file stdout : Bool) (path : String) (sink : Sink) (line : String)
    → received sink (
        map
          (λ w. wrote w line)
          ((if file then to_file path ∷ [] else []) ++ (if stdout then to_stdout ∷ [] else [])))
      ≡ (if elim sink [ to_stdout ↦ stdout | to_file p ↦ file && path == p ] then line ∷ [] else [])
sinks_once true true path to_stdout line = refl
sinks_once true false path to_stdout line = refl
sinks_once false true path to_stdout line = refl
sinks_once false false path to_stdout line = refl
sinks_once true true path (to_file p) line = refl
sinks_once true false path (to_file p) line = refl
sinks_once false true path (to_file p) line = refl
sinks_once false false path (to_file p) line = refl

and_if {ℓ} :
    {A : Type ℓ} (b c : Bool) (x : A)
    → (if b then (if c then x ∷ [] else []) else []) ≡ (if b && c then x ∷ [] else [])
and_if true c x = refl
and_if false c x = refl

module _ (fl : Floats) (marshal : LogEntry fl → Option String) (fault : Sink → Option String) where
  abbrev pub run : Option AuditLogger → List (Action fl) → List Event
  run a [] = []
  run a (logs e ∷ as_) = log fl marshal a e ++ run a as_
  run a (closes ∷ as_) = let (a', es, _) = close fault a in es ++ run a' as_

  -- The lines of the entries that are logged before the first `Close`.
  abbrev pub due : List (Action fl) → List String
  due [] = []
  due (logs e ∷ as_) =
      let rest = due as_ in elim (line_of fl marshal e) [ none ↦ rest | some line ↦ line ∷ rest ]
  due (closes ∷ as_) = []

  abbrev pub is_closed : List (Action fl) → Bool
  is_closed [] = false
  is_closed (logs _ ∷ as_) = is_closed as_
  is_closed (closes ∷ as_) = true

  abbrev events_of : List Sink → Option String → List Event
  events_of ws none = []
  events_of ws (some line) = map (λ w. wrote w line) ws

  log_guard :
      (ws : List Sink) (o : Option String)
      → (if elim ws [ [] ↦ false | _ ∷ _ ↦ true ] then events_of ws o else []) ≡ events_of ws o
  log_guard [] none = refl
  log_guard [] (some line) = refl
  log_guard (w ∷ ws) o = refl

  -- The guard on `Enabled` changes nothing.
  log_lem :
      (a : AuditLogger) (e : LogEntry fl)
      → log fl marshal (some a) e ≡ events_of a.writers (line_of fl marshal e)
  unfolding log enabled
  log_lem a e = ground (arith, log_guard a.writers (line_of fl marshal e))

  closings-map : (ws : List Sink) (line : String) → closings (map (λ w. wrote w line) ws) ≡ []
  closings-map [] line = refl
  closings-map (w ∷ ws) line = closings-map ws line

  closings-events_of : (ws : List Sink) (o : Option String) → closings (events_of ws o) ≡ []
  closings-events_of ws none = refl
  closings-events_of ws (some line) = closings-map ws line

  quiet : AuditLogger
  quiet = record { writers = []; closers = [] }

  run-quiet :
      (as_ : List (Action fl)) (sink : Sink)
      → (received sink (run (some quiet) as_) ≡ []) × (closings (run (some quiet) as_) ≡ [])
  unfolding log enabled close quiet
  run-quiet [] sink = (refl, refl)
  run-quiet (logs e ∷ as_) sink = run-quiet as_ sink
  run-quiet (closes ∷ as_) sink = run-quiet as_ sink

  received-closed : (ws : List Sink) (sink : Sink) → received sink (map closed ws) ≡ []
  received-closed [] sink = refl
  received-closed (w ∷ ws) sink = received-closed ws sink

  closings-closed : (ws : List Sink) → closings (map closed ws) ≡ ws
  closings-closed [] = refl
  closings-closed (w ∷ ws) = ap (λ (l : List Sink). w ∷ l) (closings-closed ws)

  closes_lem :
      (a : AuditLogger) (as_ : List (Action fl))
      → run (some a) (closes ∷ as_) ≡ map closed a.closers ++ run (some quiet) as_
  unfolding close quiet
  closes_lem a as_ = refl

  received-run :
      (a : AuditLogger) (sink : Sink) (b : Bool) (as_ : List (Action fl))
      → ((line : String)
          → received sink (map (λ w. wrote w line) a.writers) ≡ (if b then line ∷ [] else []))
      → received sink (run (some a) as_) ≡ (if b then due as_ else [])
  received-run a sink b [] h = sym (if_same b [])
  received-run a sink b (logs e ∷ as_) h =
      rw
        (
          log_lem a e,
          received-append sink (events_of a.writers (line_of fl marshal e)) (run (some a) as_),
        )
        (elim (Option-cases (line_of fl marshal e)) [
          | inl n ↦ ground (arith, received-run a sink b as_ h)
          | inr (line, n) ↦ ground (arith, h line, received-run a sink b as_ h)
        ])
  received-run a sink b (closes ∷ as_) h =
      rw
        (
          closes_lem a as_,
          received-append sink (map closed a.closers) (run (some quiet) as_),
          received-closed a.closers sink,
          (run-quiet as_ sink).0,
        )
        (sym (if_same b []))

  closings-run :
      (a : AuditLogger) (as_ : List (Action fl))
      → closings (run (some a) as_) ≡ (if is_closed as_ then a.closers else [])
  closings-run a [] = refl
  closings-run a (logs e ∷ as_) =
      rw
        (
          log_lem a e,
          closings-append (events_of a.writers (line_of fl marshal e)) (run (some a) as_),
          closings-events_of a.writers (line_of fl marshal e),
        )
        (closings-run a as_)
  closings-run a (closes ∷ as_) =
      rw
        (
          closes_lem a as_,
          closings-append (map closed a.closers) (run (some quiet) as_),
          closings-closed a.closers,
          (run-quiet as_ to_stdout).1,
        )
        (append_nil a.closers)

  shape :
      (make_dir : String → Bool) (cfg : AuditConfig) {a : AuditLogger}
      → new_audit_logger make_dir cfg ≡ some a
      → let mode = parse_audit_mode cfg.mode in
        let files = if mode.file then to_file (audit_path cfg) ∷ [] else [] in
        (a.writers ≡ files ++ (if mode.stdout then to_stdout ∷ [] else [])) × (a.closers ≡ files)
  unfolding new_audit_logger
  shape make_dir cfg {a} h = elim (Bool-cases (parse_audit_mode cfg.mode).file) [
    | inr f ↦ (ground arith, ground arith)
    | inl f ↦ elim (Bool-cases (make_dir (audit_path cfg))) [
      | inr d ↦ absurd (ground arith)
      | inl d ↦ (ground arith, ground arith)
    ]
  ]

  writers-once :
      (make_dir : String → Bool) (cfg : AuditConfig) {a : AuditLogger}
      → new_audit_logger make_dir cfg ≡ some a
      → (sink : Sink) (line : String)
      → received sink (map (λ w. wrote w line) a.writers)
        ≡ (if has_sink cfg sink then line ∷ [] else [])
  writers-once make_dir cfg {a} h sink line = rw ((shape make_dir cfg h).0) (
      sinks_once (parse_audit_mode cfg.mode).file (parse_audit_mode cfg.mode).stdout
        (audit_path cfg) sink line)

  -- A new logger with the sinks that its configuration names: each of them receives, once and in their
  -- order, the lines of the entries that are logged before the first `Close`, and no other sink
  -- receives anything. The file is closed at the first `Close`, and only then.
  pub audit_trail :
      (make_dir : String → Bool) (cfg : AuditConfig) {a : AuditLogger}
      → new_audit_logger make_dir cfg ≡ some a
      → (as_ : List (Action fl))
      → ((sink : Sink)
          → received sink (run (some a) as_) ≡ (if has_sink cfg sink then due as_ else []))
        × (closings (run (some a) as_) ≡ (
            if is_closed as_ && (parse_audit_mode cfg.mode).file
            then to_file (audit_path cfg) ∷ []
            else []))
  audit_trail make_dir cfg {a} h as_ = (
    (λ sink. received-run a sink (has_sink cfg sink) as_ (writers-once make_dir cfg h sink)),
    rw (closings-run a as_, (shape make_dir cfg h).1)
        (and_if (is_closed as_) (parse_audit_mode cfg.mode).file (to_file (audit_path cfg))),
  )
