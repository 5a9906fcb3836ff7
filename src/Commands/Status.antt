-- ===== src/Commands/Status.antt =====
-- vault/internal/commands/status.go and logs.go: the report on the daemon and the path of its log. What the two
-- probes meet is given.
use rune_admin.Prelude.{
  ℕ, ℤ, String, Bool, false, not, ◌&&◌, ◌||◌, ◌==◌, ◌==ℕ◌, if◌then◌else◌, Option, none, some, List,
  [], ◌∷◌, concat,
}
use rune_admin.Server.Config.{Config, ConfigError, FileSystem, load_config}
use rune_admin.Server.Config as Config
use rune_admin.Commands.Client.{Globals}

pub record StatusReport : Type 0 where
  pub admin_socket : String
  pub admin_up : Bool
  pub admin_error : String
  pub grpc_bind : String
  pub grpc_probe : String
  pub grpc_serving : Bool
  pub grpc_error : String
  pub config_source : String

-- What the probes meet: the status of GET /health or an error, at a socket; and at an address, with TLS or
-- without, whether the health service says SERVING, or an error.
pub record Probes : Type 0 where
  pub get_health : String → Option ℕ × String
  pub check_health : String → Bool → Option Bool × String
  -- fmt's %d
  pub show : ℤ → String

unfoldable pub probe_admin_uds : Probes → String → Bool × String
probe_admin_uds probes path =
    if path == ""
    then (false, "socket path empty")
    else (let (answer, fault) = probes.get_health path in
        elim answer [ none ↦ (false, fault) | some status ↦ (status ==ℕ 200, "") ])

unfoldable pub probe_grpc_health : Probes → String → Bool → Bool × String
probe_grpc_health probes addr tls_disabled =
    let (answer, fault) = probes.check_health addr tls_disabled in
    elim answer [ none ↦ (false, fault) | some serving ↦ (serving, "") ]

unfoldable pub health_str : Bool → String → String
health_str up message =
    if up then "ok" else if message == "" then "down" else concat ("down — " ∷ message ∷ [])

unfoldable pub probe_host : String → String
probe_host bind_host = if bind_host == "" || bind_host == "0.0.0.0" then "127.0.0.1" else bind_host

unfoldable pub status_report : Probes → Globals → Config → StatusReport
unfolding probe_host probe_admin_uds probe_grpc_health
status_report probes globals cfg =
    let host = cfg.server.grpc.host in
    let port = probes.show cfg.server.grpc.port in
    let socket =
      if globals.admin_socket == "" then cfg.server.admin.socket else globals.admin_socket in
    let probe = concat (probe_host host ∷ ":" ∷ port ∷ []) in
    let (up, admin_fault) = probe_admin_uds probes socket in
    let (serving, grpc_fault) = probe_grpc_health probes probe cfg.server.grpc.tls.disable in
    record {
      admin_socket = socket;
      admin_up = up;
      admin_error = admin_fault;
      grpc_bind = concat (host ∷ ":" ∷ port ∷ []);
      grpc_probe = probe;
      grpc_serving = serving;
      grpc_error = grpc_fault;
      config_source = cfg.source;
    }

-- The end of the command: an error of the configuration, or the output and the exit code.
pub data StatusEnd : Type 0 where
  bad_config : ConfigError → StatusEnd
  exits : List String → ℕ → StatusEnd

unfoldable pub run_status : FileSystem → (String → Option Config) → Probes → Globals → StatusEnd
unfolding status_report health_str load_config
run_status fs decode probes globals = elim (load_config fs decode globals.config_path) [
  | Config.err e ↦ bad_config e
  | Config.ok cfg ↦
      let r = status_report probes globals cfg in
      exits
        (concat ("Config:       " ∷ r.config_source ∷ "\n" ∷ [])
          ∷ concat (
              "Admin socket: "
              ∷ r.admin_socket
              ∷ " ("
              ∷ health_str r.admin_up r.admin_error
              ∷ ")\n"
              ∷ [])
          ∷ concat (
              "gRPC:         "
              ∷ r.grpc_bind
              ∷ " ("
              ∷ health_str r.grpc_serving r.grpc_error
              ∷ ")\n"
              ∷ [])
          ∷ [])
        (if not (r.admin_up && r.grpc_serving) then 2 else 0)
]

-- `dir` is filepath.Dir and `join_path` is filepath.Join.
unfoldable pub daemon_stderr_log_path : (String → String) → (List String → String) → Config → String
daemon_stderr_log_path dir join_path cfg =
    if cfg.source == ""
    then "/opt/runevault/logs/runevault.stderr.log"
    else join_path (dir (dir cfg.source) ∷ "logs" ∷ "runevault.stderr.log" ∷ [])

-- The program that shows the log, with its arguments, or an error of the configuration.
unfoldable pub run_logs :
    Bool
    → FileSystem
    → (String → Option Config)
    → (String → String)
    → (List String → String)
    → Globals
    → Bool
    → Config.Result (List String)
unfolding daemon_stderr_log_path load_config
run_logs on_linux fs decode dir join_path globals follow =
    if on_linux
    then Config.ok
        ("journalctl" ∷ "-u" ∷ "runevault" ∷ "--no-pager" ∷ (if follow then "-f" ∷ [] else []))
    else elim (load_config fs decode globals.config_path) [
      | Config.err e ↦ Config.err e
      | Config.ok cfg ↦
          let path = daemon_stderr_log_path dir join_path cfg in
          Config.ok ("tail" ∷ (if follow then "-f" ∷ path ∷ [] else path ∷ []))
    ]
