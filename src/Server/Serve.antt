-- ===== src/Server/Serve.antt =====
-- vault/internal/server/serve.go and ensure_vault.go, with the start of the admin socket in admin.go: what is
-- opened and closed, in order. What the operating system, TLS, gRPC and the enVector SDK answer is given.
pub mod Held
pub mod Released
use rune_admin.Prelude.{
  ℕ, ℤ, String, Bool, true, false, not, ◌&&◌, ◌||◌, ◌==◌, leb, if◌then◌else◌, Option, none, some,
  List, [], ◌∷◌, ◌++◌,
}
use rune_admin.Server.Config.{Config, TlsConfig}

-- What a part of the program holds until it lets go of it. The process's file mode mask is held while it is
-- changed.
pub data Resource : Type 0 where
  token_store : Resource
  secret_keys : Resource
  audit_log : Resource
  cloud_client : Resource
  eval_keys : Resource
  grpc_listener : Resource
  mask : Resource
  admin_listener : Resource
  admin_socket : Resource
  grpc_server : Resource
  signals : Resource

pub data Event : Type 0 where
  opens : Resource → Event
  closes : Resource → Event
  activates : Event
  creates_index : Event
  marks_unhealthy : Event
  forces_stop : Event

pub data ServeError : Type 0 where
  dial_failed : ServeError
  open_eval_failed : ServeError
  activate_failed : ServeError
  index_failed : ServeError
  listen_failed : ServeError
  tls_incomplete : ServeError
  tls_failed : ServeError
  interceptor_failed : ServeError
  socket_empty : ServeError
  socket_dir_failed : ServeError
  stale_socket : ServeError
  admin_listen_failed : ServeError
  chmod_failed : ServeError
  grpc_failed : ServeError

abbrev pub Trace : Type 0
Trace = List Event × Option ServeError

-- How the SDK's calls go.
pub record Cloud : Type 0 where
  pub dials : Bool
  pub opens_keys : Bool
  pub activates_keys : Bool
  pub has_index : Bool

-- The deferred calls run after the error is made, last first.
unfoldable pub ensure_vault : Cloud → Config → Trace
ensure_vault cloud cfg =
    if cfg.envector.endpoint == "" || cfg.envector.api_key == ""
    then ([], none)
    else if cfg.keys.index_name == ""
    then ([], none)
    else if not cloud.dials
    then ([], some dial_failed)
    else if not cloud.opens_keys
    then (opens cloud_client ∷ closes cloud_client ∷ [], some open_eval_failed)
    else if not cloud.activates_keys
    then (
      opens cloud_client
          ∷ opens eval_keys
          ∷ activates
          ∷ closes eval_keys
          ∷ closes cloud_client
          ∷ [],
      some activate_failed,
    )
    else (
      opens cloud_client
          ∷ opens eval_keys
          ∷ activates
          ∷ creates_index
          ∷ closes eval_keys
          ∷ closes cloud_client
          ∷ [],
      if cloud.has_index then none else some index_failed,
    )

unfoldable pub grpc_host : Config → String
grpc_host cfg = if cfg.server.grpc.host == "" then "0.0.0.0" else cfg.server.grpc.host

-- The error, if there is one, or whether there are credentials.
pub data Credentials : Type 0 where
  refused : ServeError → Credentials
  insecure : Credentials
  tls : Credentials

-- `pair` is whether tls.LoadX509KeyPair succeeds.
unfoldable pub load_tls_credentials : (String → String → Bool) → TlsConfig → Credentials
load_tls_credentials pair t =
    if t.disable
    then insecure
    else if t.cert == "" || t.key == ""
    then refused tls_incomplete
    else if pair t.cert t.key
    then tls
    else refused tls_failed

-- How the calls for the admin socket go. `removes` is also true if there was nothing to remove.
pub record AdminCalls : Type 0 where
  pub makes_dir : Bool
  pub removes : Bool
  pub listens : Bool
  pub chmods : Bool

-- AdminFromConfig, up to the start of the HTTP server.
unfoldable pub admin_from_config : AdminCalls → String → Trace
admin_from_config calls socket =
    if socket == ""
    then ([], some socket_empty)
    else if not calls.makes_dir
    then ([], some socket_dir_failed)
    else if not calls.removes
    then ([], some stale_socket)
    else if not calls.listens
    then (opens mask ∷ closes mask ∷ [], some admin_listen_failed)
    else if not calls.chmods
    then (
      opens mask ∷ opens admin_listener ∷ closes mask ∷ closes admin_listener ∷ [],
      some chmod_failed,
    )
    else (opens mask ∷ opens admin_listener ∷ closes mask ∷ opens admin_socket ∷ [], none)

-- The shutdown that it returns: the server's listener is closed and the socket is unlinked.
abbrev pub admin_shutdown : List Event
admin_shutdown = closes admin_socket ∷ closes admin_listener ∷ []

-- What ends the wait of `Serve`; gRPC may end by itself, with an error or as stopped.
pub data Ending : Type 0 where
  cancelled : Ending
  signalled : Ending
  grpc_stopped : Ending
  grpc_error : Ending

-- The calls of `Serve`. `listens` is net.Listen at a host and a port, and `drain` is how long the graceful stop needs, if it ends by itself.
pub record Calls : Type 0 where
  pub cloud : Cloud
  pub listens : String → ℤ → Bool
  pub pair : String → String → Bool
  pub has_interceptor : Bool
  pub admin : AdminCalls
  pub ending : Ending
  pub drain : Option ℕ

-- `stopGracefullyOrForce` with a grace in seconds.
unfoldable pub stop_gracefully_or_force : Option ℕ → ℕ → List Event
stop_gracefully_or_force (some n) grace =
    if leb n grace then closes grpc_server ∷ [] else forces_stop ∷ closes grpc_server ∷ []
stop_gracefully_or_force none grace = forces_stop ∷ closes grpc_server ∷ []

-- The end of `Serve` once gRPC runs, with the shutdown of the admin socket, if there is one. The graceful stop closes
-- gRPC's listener too; the deferred close of the listener is the one listed. After an error of gRPC nothing stops its
-- server, whose open connections stay.
unfoldable pub wait_and_stop : Calls → List Event → Trace
unfolding stop_gracefully_or_force
wait_and_stop calls shutdown =
    let stop =
      marks_unhealthy ∷ stop_gracefully_or_force calls.drain 5 ++ shutdown ++ closes signals ∷ [] in
    elim calls.ending [
      | cancelled ↦ (stop, none)
      | signalled ↦ (stop, none)
      | grpc_stopped ↦ (stop, none)
      | grpc_error ↦ (closes signals ∷ [], some grpc_failed)
    ]

-- The start of gRPC, after the admin socket's: an admin factory may be nil.
unfoldable pub serve_started : Calls → Bool → Config → Trace
unfolding admin_from_config wait_and_stop
serve_started calls true cfg =
    let (es, fault) = admin_from_config calls.admin cfg.server.admin.socket in
    elim fault [
      | some e ↦ (es, some e)
      | none ↦
          let (rest, e) = wait_and_stop calls admin_shutdown in
          (es ++ (opens grpc_server ∷ opens signals ∷ rest), e)
    ]
serve_started calls false cfg =
    let (rest, e) = wait_and_stop calls [] in (opens grpc_server ∷ opens signals ∷ rest, e)

-- The credentials are checked, then the interceptor is made.
unfoldable pub with_credentials : Credentials → Bool → Trace → Trace
with_credentials (refused e) has_interceptor rest = ([], some e)
with_credentials insecure has_interceptor rest =
    if has_interceptor then rest else ([], some interceptor_failed)
with_credentials tls has_interceptor rest =
    if has_interceptor then rest else ([], some interceptor_failed)

-- `Serve` after the listener is open: the deferred close of the listener is the caller's.
unfoldable pub serve_on : Calls → Bool → Config → Trace
unfolding load_tls_credentials with_credentials serve_started
serve_on calls with_admin cfg =
    with_credentials (load_tls_credentials calls.pair cfg.server.grpc.tls) calls.has_interceptor
      (serve_started calls with_admin cfg)

-- `net.Listen` after some events, and the rest of `Serve` with the deferred close of the listener.
unfoldable pub on_listener : Bool → List Event → Trace → Trace
on_listener false es rest = (es, some listen_failed)
on_listener true es (fs, e) = (es ++ (opens grpc_listener ∷ (fs ++ closes grpc_listener ∷ [])), e)

unfoldable pub serve : Calls → Bool → Config → Trace
unfolding ensure_vault grpc_host on_listener serve_on
serve calls with_admin cfg =
    let (es, fault) = ensure_vault calls.cloud cfg in
    elim fault [
      | some e ↦ (es, some e)
      | none ↦
          on_listener (calls.listens (grpc_host cfg) cfg.server.grpc.port) es
            (serve_on calls with_admin cfg)
    ]
