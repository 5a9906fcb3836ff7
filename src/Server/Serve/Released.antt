-- ===== src/Server/Serve/Released.antt =====
-- What is still held when a start of the server ends.
use rune_admin.Prelude.{
  ℕ, String, ◌≡◌, refl, ◌∙◌, Bool, true, false, ◌||◌, ◌==◌, leb, Option, none, some, List, [], ◌∷◌,
  ◌++◌, Bool-cases, Option-cases, inl, inr, arith,
}
use rune_admin.Server.Serve.Held.{without, held, outer, left, held-append}
use rune_admin.Server.Config.{Config, TlsConfig}
use rune_admin.Server.Serve.{
  Resource, grpc_listener, admin_listener, admin_socket, grpc_server, signals, Event, opens, closes,
  marks_unhealthy, ServeError, grpc_failed, Trace, Cloud, ensure_vault, Calls, AdminCalls,
  admin_from_config, load_tls_credentials, refused, insecure, tls, listen_failed, on_listener,
  with_credentials, serve_started, Credentials, cancelled, signalled, grpc_stopped, grpc_error,
  admin_shutdown, stop_gracefully_or_force, grpc_host, wait_and_stop, serve_on, serve,
}

ensure_vault-held :
    (cloud : Cloud) (cfg : Config) → held outer (ensure_vault cloud cfg).0 ≡ some outer
unfolding ensure_vault
ensure_vault-held cloud cfg =
    elim (Bool-cases (cfg.envector.endpoint == "" || cfg.envector.api_key == "")) [
      | inl e ↦ rw (ensure_vault, e) refl
      | inr e ↦ elim (Bool-cases (cfg.keys.index_name == "")) [
        | inl f ↦ rw (ensure_vault, e, f) refl
        | inr f ↦ elim (Bool-cases cloud.dials) [
          | inr g ↦ rw (ensure_vault, e, f, g) refl
          | inl g ↦ elim (Bool-cases cloud.opens_keys) [
            | inr h ↦ rw (ensure_vault, e, f, g, h) refl
            | inl h ↦ elim (Bool-cases cloud.activates_keys) [
              | inr i ↦ rw (ensure_vault, e, f, g, h, i) refl
              | inl i ↦ rw (ensure_vault, e, f, g, h, i) refl
            ]
          ]
        ]
      ]
    ]

-- While gRPC runs, with the admin socket or without.
abbrev serving : Bool → List Resource
serving true = admin_socket ∷ admin_listener ∷ grpc_listener ∷ outer
serving false = grpc_listener ∷ outer

abbrev shutdown_of : Bool → List Event
shutdown_of true = admin_shutdown
shutdown_of false = []

graceful_end :
    (b : Bool)
    → held (signals ∷ without grpc_server (serving b)) (shutdown_of b ++ closes signals ∷ [])
      ≡ some (grpc_listener ∷ outer)
graceful_end true = refl
graceful_end false = refl

left-none : (b : Bool) → left b none ≡ []
left-none true = refl
left-none false = refl

failed_end :
    (b : Bool)
    → held (signals ∷ grpc_server ∷ serving b) (closes signals ∷ [])
      ≡ some (left b (some grpc_failed) ++ grpc_listener ∷ outer)
failed_end true = refl
failed_end false = refl

-- The stop closes the server, whether or not it has to be forced.
graceful-held :
    (drain : Option ℕ) (grace : ℕ) (b : Bool)
    → held (signals ∷ grpc_server ∷ serving b) (
        marks_unhealthy ∷ stop_gracefully_or_force drain grace
        ++ shutdown_of b
        ++ closes signals ∷ [])
      ≡ some (grpc_listener ∷ outer)
unfolding stop_gracefully_or_force
graceful-held none grace true = refl
graceful-held none grace false = refl
graceful-held (some n) grace b = elim (Bool-cases (leb n grace)) [
  | inl e ↦ rw (stop_gracefully_or_force, e) (graceful_end b)
  | inr e ↦ rw (stop_gracefully_or_force, e) (graceful_end b)
]

wait_and_stop-held :
    (calls : Calls) (b : Bool)
    → let (es, e) = wait_and_stop calls (shutdown_of b) in
      held (signals ∷ grpc_server ∷ serving b) es ≡ some (left b e ++ grpc_listener ∷ outer)
unfolding wait_and_stop
wait_and_stop-held calls b =
    elim calls.ending
      as (λ ending.
        let (es, e) = wait_and_stop (record calls { ending = ending }) (shutdown_of b) in
        held (signals ∷ grpc_server ∷ serving b) es ≡ some (left b e ++ grpc_listener ∷ outer)) [
          | cancelled ↦ rw left-none (graceful-held calls.drain 5 b)
          | signalled ↦ rw left-none (graceful-held calls.drain 5 b)
          | grpc_stopped ↦ rw left-none (graceful-held calls.drain 5 b)
          | grpc_error ↦ failed_end b
        ]

-- The admin socket is either up, or nothing of its start is held.
admin_from_config-held :
    (calls : AdminCalls) (socket : String)
    → let (es, fault) = admin_from_config calls socket in
      held (grpc_listener ∷ outer) es
      ≡ some (elim fault [ none ↦ serving true | some _ ↦ serving false ])
unfolding admin_from_config
admin_from_config-held calls socket = elim (Bool-cases (socket == "")) [
  | inl e ↦ rw (admin_from_config, e) refl
  | inr e ↦ elim (Bool-cases calls.makes_dir) [
    | inr f ↦ rw (admin_from_config, e, f) refl
    | inl f ↦ elim (Bool-cases calls.removes) [
      | inr g ↦ rw (admin_from_config, e, f, g) refl
      | inl g ↦ elim (Bool-cases calls.listens) [
        | inr h ↦ rw (admin_from_config, e, f, g, h) refl
        | inl h ↦ elim (Bool-cases calls.chmods) [
          | inr i ↦ rw (admin_from_config, e, f, g, h, i) refl
          | inl i ↦ rw (admin_from_config, e, f, g, h, i) refl
        ]
      ]
    ]
  ]
]

-- An early error is another one than that of gRPC, so nothing is left.
admin_from_config-left :
    (calls : AdminCalls) (socket : String) (e : ServeError)
    → (admin_from_config calls socket).1 ≡ some e
    → left true (some e) ≡ []
unfolding admin_from_config
admin_from_config-left calls socket e h = ground arith

load_tls_credentials-left :
    (pair : String → String → Bool) (t : TlsConfig) (b : Bool) (e : ServeError)
    → load_tls_credentials pair t ≡ refused e
    → left b (some e) ≡ []
unfolding load_tls_credentials
load_tls_credentials-left pair t b e h = ground arith

-- The server with its credentials, from the start of gRPC on.
started-held :
    (calls : Calls) (b : Bool)
    → let (rest, e) = wait_and_stop calls (shutdown_of b) in
      held (serving b) (opens grpc_server ∷ opens signals ∷ rest)
      ≡ some (left b e ++ grpc_listener ∷ outer)
started-held calls true = wait_and_stop-held calls true
started-held calls false = wait_and_stop-held calls false

-- A part of `Serve` that runs while the listener is open.
abbrev Holds : Bool → Trace → Type 0
Holds b (es, e) = held (grpc_listener ∷ outer) es ≡ some (left b e ++ grpc_listener ∷ outer)

serve_started-Holds :
    (calls : Calls) (b : Bool) (cfg : Config) → Holds b (serve_started calls b cfg)
unfolding serve_started
serve_started-Holds calls false cfg = started-held calls false
serve_started-Holds calls true cfg =
    let socket = cfg.server.admin.socket in
    let up = admin_from_config-held calls.admin socket in
    elim (Option-cases (admin_from_config calls.admin socket).1) [
      | inr (e, f) ↦
          rw (serve_started, f, admin_from_config-left calls.admin socket e f) (up ∙ rw f refl)
      | inl f ↦
          rw (serve_started, f)
            (held-append (grpc_listener ∷ outer) (admin_from_config calls.admin socket).0
                (opens grpc_server ∷ opens signals ∷ (wait_and_stop calls admin_shutdown).0)
                {qs = serving true} (up ∙ rw f refl)
              ∙ started-held calls true)
    ]

with_credentials-Holds :
    (c : Credentials) (has_interceptor b : Bool) (t : Trace)
    → ((e : ServeError) → c ≡ refused e → left b (some e) ≡ [])
    → Holds b t
    → Holds b (with_credentials c has_interceptor t)
unfolding with_credentials
with_credentials-Holds (refused e) i b t early h = rw (early e refl) refl
with_credentials-Holds insecure true b t early h = h
with_credentials-Holds insecure false true t early h = refl
with_credentials-Holds insecure false false t early h = refl
with_credentials-Holds tls true b t early h = h
with_credentials-Holds tls false true t early h = refl
with_credentials-Holds tls false false t early h = refl

serve_on-Holds : (calls : Calls) (b : Bool) (cfg : Config) → Holds b (serve_on calls b cfg)
unfolding serve_on
serve_on-Holds calls b cfg =
    with_credentials-Holds (load_tls_credentials calls.pair cfg.server.grpc.tls)
      calls.has_interceptor b (serve_started calls b cfg)
      (load_tls_credentials-left calls.pair cfg.server.grpc.tls b) (serve_started-Holds calls b cfg)

ensure_vault-left :
    (cloud : Cloud) (cfg : Config) (b : Bool) (e : ServeError)
    → (ensure_vault cloud cfg).1 ≡ some e
    → left b (some e) ≡ []
unfolding ensure_vault
ensure_vault-left cloud cfg b e h = ground arith

-- The listener is closed on what the rest of `Serve` left.
closed_listener :
    (b : Bool) (e : Option ServeError)
    → held (left b e ++ grpc_listener ∷ outer) (closes grpc_listener ∷ [])
      ≡ some (left b e ++ outer)
closed_listener b e = ground arith

listen_left : (b : Bool) → left b (some listen_failed) ≡ []
listen_left true = refl
listen_left false = refl

on_listener-held :
    (b listens : Bool) (es : List Event) (t : Trace)
    → held outer es ≡ some outer
    → Holds b t
    → let (fs, e) = on_listener listens es t in held outer fs ≡ some (left b e ++ outer)
unfolding on_listener
on_listener-held b false es t setup on = rw (listen_left b) setup
on_listener-held b true es (fs, e) setup on =
    held-append outer es (opens grpc_listener ∷ (fs ++ closes grpc_listener ∷ [])) setup
    ∙ held-append (grpc_listener ∷ outer) fs (closes grpc_listener ∷ []) on
    ∙ closed_listener b e

pub serve-held :
    (calls : Calls) (b : Bool) (cfg : Config)
    → let (es, e) = serve calls b cfg in held outer es ≡ some (left b e ++ outer)
unfolding serve
serve-held calls b cfg =
    let setup = ensure_vault-held calls.cloud cfg in
    elim (Option-cases (ensure_vault calls.cloud cfg).1) [
      | inr (e, f) ↦ rw (serve, f, ensure_vault-left calls.cloud cfg b e f) setup
      | inl f ↦
          rw (serve, f)
            (on_listener-held b (calls.listens (grpc_host cfg) cfg.server.grpc.port)
              (ensure_vault calls.cloud cfg).0 (serve_on calls b cfg) setup
              (serve_on-Holds calls b cfg))
    ]
