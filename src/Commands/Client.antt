-- ===== src/Commands/Client.antt =====
-- vault/internal/commands/adminclient.go: requests to the admin socket. How a request reaches the daemon
-- is a function of the daemon's state, which a command passes on.
use rune_admin.Prelude.{ℕ, ℤ, String, not, leb, ◌==◌, if◌then◌else◌, Option, none, some, List}
use rune_admin.Server.Config.{Config, ConfigError, FileSystem, load_config}
use rune_admin.Server.Config as Config

-- A value of a `map[string]any` that a command sends.
pub data Value : Type 0 where
  text : String → Value
  number : ℤ → Value
  texts : List String → Value

abbrev pub Fields : Type 0
Fields = List (String × Value)

-- How a round trip ends: the URL cannot be parsed, there is no answer, its body cannot be read, or the
-- status and the body.
pub data Sent : Type 0 where
  bad_url : Sent
  no_answer : Sent
  no_body : Sent
  answered : ℕ → String → Sent

-- The message of a refusal: the answer's `error`, or its body without surrounding space.
pub data Message : Type 0 where
  said : String → Message
  trimmed : String → Message

pub data CommandError : Type 0 where
  flags_missing : CommandError
  bad_duration : CommandError
  one_of_two : CommandError
  no_fields : CommandError
  bad_config : ConfigError → CommandError
  socket_unset : CommandError
  socket_missing : String → CommandError
  request_failed : CommandError
  admin_error : ℕ → Message → CommandError
  parse_response : CommandError

pub data Result {ℓ} (A : Type ℓ) : Type ℓ where
  ok : A → Result A
  err : CommandError → Result A

-- `globals`: the flags of every command.
pub record Globals : Type 0 where
  pub config_path : String
  pub admin_socket : String

-- NewAdminClient: the socket's path, which must be there.
unfoldable pub new_admin_client : FileSystem → String → Result String
new_admin_client fs socket_path =
    if socket_path == "" then err socket_unset else elim (fs.mode_of socket_path) [
      | none ↦ err (socket_missing socket_path)
      | some _ ↦ ok socket_path
    ]

unfoldable pub resolve_admin_client :
    FileSystem → (String → Option Config) → Globals → Result String
unfolding new_admin_client
resolve_admin_client fs decode globals =
    if not (globals.admin_socket == "")
    then new_admin_client fs globals.admin_socket
    else elim (load_config fs decode globals.config_path) [
      | Config.err e ↦ err (bad_config e)
      | Config.ok cfg ↦
          if cfg.server.admin.socket == ""
          then err socket_unset
          else new_admin_client fs cfg.server.admin.socket
    ]

-- A request: the method, the path that is put behind "http://admin", and the body's text.
pub record Request : Type 0 where
  pub method : String
  pub path : String
  pub body : Option String

unfoldable pub refusal : (String → Option String) → ℕ → String → CommandError
refusal decode_error status body = elim (decode_error body) [
  | none ↦ admin_error status (trimmed body)
  | some e ↦ if e == "" then admin_error status (trimmed body) else admin_error status (said e)
]

module _ {S : Type 0} (send : String → Request → S → S × Sent) where
  -- `Do`: `dst` is the decoder of the destination, and the destination's first value is given.
  unfoldable pub do_request {ℓ} :
      {A : Type ℓ}
      → (String → Option String)
      → Option (String → Option A)
      → A
      → String
      → Request
      → S
      → S × Result A
  unfolding refusal
  do_request decode_error dst first socket request s =
      let (s', sent) = send socket request s in
      elim sent [
        | bad_url ↦ (s', err request_failed)
        | no_answer ↦ (s', err request_failed)
        | no_body ↦ (s', err request_failed)
        | answered status body ↦
            if leb 400 status then (s', err (refusal decode_error status body)) else elim dst [
              | none ↦ (s', ok first)
              | some decode ↦
                  if body == ""
                  then (s', ok first)
                  else elim (decode body) [ none ↦ (s', err parse_response) | some a ↦ (s', ok a) ]
            ]
      ]

-- A command's own part with the client, after `resolveAdminClient`.
unfoldable pub with_client {ℓ} :
    {A : Type ℓ} → {S : Type 0} → Result String → (String → S → S × Result A) → S → S × Result A
with_client (err e) f s = (s, err e)
with_client (ok socket) f s = f socket s
