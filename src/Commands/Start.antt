-- ===== src/Commands/Start.antt =====
-- vault/internal/commands/daemon.go: the start of the daemon. The deferred calls run last first, also where
-- a later step fails.
pub mod Released
use rune_admin.Prelude.{
  ℕ, String, Bool, true, false, not, ◌==◌, if◌then◌else◌, Option, none, some, List, [], ◌∷◌, ◌++◌,
}
use rune_admin.Tokens.Store.{new_store}
use rune_admin.Tokens.Files.{Yaml, Disk, LoadError, load_from_files}
use rune_admin.Crypto.Keys.{Sdk, KeysParams, KeysError, ensure_keys, open_secret_key}
use rune_admin.Crypto.Keys as Keys
use rune_admin.Server.Config.{Config, ConfigError, FileSystem, Missing, load_config, validate}
use rune_admin.Server.Config as Config
use rune_admin.Server.Audit.{new_audit_logger}
use rune_admin.Server.Serve.{
  Event, opens, closes, token_store, secret_keys, audit_log, Calls, ServeError, Trace, serve,
}
use rune_admin.Commands.Client.{Globals}

pub data DaemonError : Type 0 where
  bad_config : ConfigError → DaemonError
  invalid : List Missing → DaemonError
  load_failed : LoadError → DaemonError
  keys_failed : KeysError → DaemonError
  audit_failed : DaemonError
  serve_failed : ServeError → DaemonError

-- What the process finds: its files, the YAML decoder, the key SDK and the calls of `Serve`.
pub record Machine (H : Type 0) : Type 0 where
  pub fs : FileSystem
  pub decode : String → Option Config
  pub yaml : Yaml
  pub disk : Disk
  pub sdk : Sdk H
  pub make_log_dir : String → Bool
  pub calls : Calls

-- The socket of `--admin-socket`, where it is given.
unfoldable pub with_socket : Globals → Config → Config
with_socket globals cfg = if globals.admin_socket == "" then cfg else record cfg {
  server = record cfg.server { admin = record cfg.server.admin { socket = globals.admin_socket } };
}

unfoldable pub keys_params : Config → KeysParams
keys_params cfg = record {
  root = cfg.keys.path;
  key_id = "vault-key";
  dim = cfg.keys.embedding_dim;
}

-- The event of a `Close` of the key handle, which calls the SDK only once.
unfoldable pub closed_keys : {H : Type 0} → Option H → List Event
closed_keys none = []
closed_keys (some _) = closes secret_keys ∷ []

-- `Vault.Close`, then the deferred closes of the audit log, the keys and the store.
unfoldable pub close_all : {H : Type 0} → Option H → List Event
unfolding Keys.close closed_keys
close_all handle =
    let (handle', first) = Keys.close handle in
    let (_, second) = Keys.close handle' in
    closed_keys first ++ (closes audit_log ∷ (closed_keys second ++ (closes token_store ∷ [])))

unfoldable pub serve_error : Option ServeError → Option DaemonError
serve_error none = none
serve_error (some e) = some (serve_failed e)

module _ {H : Type 0} (m : Machine H) where
  -- From the audit log on, with the keys open.
  unfoldable pub start_open : Option H → Config → List Event × Option DaemonError
  unfolding close_all serve_error
  start_open handle cfg = elim (new_audit_logger m.make_log_dir cfg.audit) [
    | none ↦ (closed_keys (Keys.close handle).1 ++ (closes token_store ∷ []), some audit_failed)
    | some _ ↦
        let (es, e) = serve m.calls true cfg in
        (opens audit_log ∷ (es ++ close_all handle), serve_error e)
  ]

  -- From the keys on, with the store loaded.
  unfoldable pub start_loaded : Config → List Event × Option DaemonError
  unfolding keys_params start_open
  start_loaded cfg = elim (ensure_keys m.sdk (keys_params cfg)).0 [
    | some e ↦ (closes token_store ∷ [], some (keys_failed e))
    | none ↦ elim (open_secret_key m.sdk (keys_params cfg)) [
      | none ↦ (closes token_store ∷ [], some (keys_failed Keys.open_failed))
      | some handle ↦ let (es, e) = start_open handle cfg in (opens secret_keys ∷ es, e)
    ]
  ]

  unfoldable pub run_daemon_start : Globals → List Event × Option DaemonError
  unfolding load_config with_socket validate load_from_files start_loaded
  run_daemon_start globals = elim (load_config m.fs m.decode globals.config_path) [
    | Config.err e ↦ ([], some (bad_config e))
    | Config.ok loaded ↦
        let cfg = with_socket globals loaded in
        elim (validate cfg) [
          | f ∷ fs ↦ ([], some (invalid (f ∷ fs)))
          | [] ↦
              elim (load_from_files m.yaml m.disk cfg.tokens.roles_file cfg.tokens.tokens_file
                new_store).1 [
                  | some e ↦ ([], some (load_failed e))
                  | none ↦ let (es, e) = start_loaded cfg in (opens token_store ∷ es, e)
                ]
        ]
  ]
