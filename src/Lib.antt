-- ===== src/Lib.antt =====
-- Rune-Vault: the vault server of rune-admin.
--
-- The program keeps access tokens and roles, answers three gRPC calls that need them, and decrypts
-- scores and metadata for their holders. The parts and the files that model them:
--
--   Tokens/Role, Tokens/Errors      vault/internal/tokens/role.go, errors.go: roles, scopes and the
--                                   format of a rate limit (`RateLimitParsed` is `rate_limit_parsed`)
--   Tokens/RateLimiter              ratelimit.go: the sliding window of each client's calls
--   Tokens/Token                    token.go, and the texts and dates of new tokens in store.go
--   Tokens/Store                    store.go: the maps of tokens, roles and limiters. `Validate` is in
--                                   Access, `AddToken`, `RevokeToken` and the rotations in Issue, the
--                                   roles in Roles, the listings in Listing; Invariant and History say
--                                   what holds between any two operations, Refinement what they change
--                                   of a store of holders, roles and limiters
--   Tokens/Persister                store.go: the debounce timer, `Flush`, `Shutdown` and the starts of writes
--   Tokens/Files                    store.go: `doPersist`, `atomicWriteYAML` and `LoadFromFiles`
--   Crypto/Metadata                 vault/internal/crypto/metadata.go: AES-CTR under agents' keys
--   Server/TopK, Server/Grpc        vault/internal/server/grpc.go: the selection of scores, and the
--                                   handlers with their audit entries
--   Server/Interceptor              interceptors.go: the checks of a request before its handler
--   Server/Admin                    admin.go: the routes of the admin socket, the table of routes in Mux
--   Server/Audit                    audit.go: the audit log's modes, sinks and lines
--   Server/Serve                    serve.go, ensure_vault.go and the start of admin.go's socket: what is
--                                   opened and closed, in order
--   Server/Run                      the calls behind the interceptor and the admin requests that share one
--                                   Vault, in any order
--   Crypto/Keys                     vault/internal/crypto/keys.go: the handle of the FHE key
--   Server/Config                   config.go: loading, resolving, redacting and validating
--   Duration                        vault/internal/commands/duration.go
--   Commands                        vault/internal/commands: adminclient.go in Client, token.go, role.go,
--                                   status.go with logs.go, and daemon.go in Start; Daemon puts a command
--                                   and the admin socket's server together
--   Prelude, Dict, Machine, Digits, Sort    shared: numbers, lists, maps, 64-bit integers, sorting
--   Examples                        concrete runs, one for each result
--
-- A handler asks the store to validate the token, the store asks the limiter of the token's user, and a
-- change of the store arms the timer whose callback writes the files. The state is passed explicitly: an
-- operation takes a store and returns the new one with its result. A Go function is named here in lower
-- case with underscores. A method that holds a mutex is one step, and the sequences of steps are those
-- of `Reach` and `run`. Clocks, random bytes, faults of the disk, base64, HKDF, the key stream, YAML,
-- JSON and the FHE key are arguments; records such as `Dates`, `Yaml` and `Primitives` hold what the code
-- relies on in them. Go's int is an integer with an explicit wrap-around where the source can leave 64
-- bits. All loops are recursion on a list or on a count that the source has, so no fuel is used.
--
-- A command reaches the daemon by a function of the daemon's state; the record `Wire` holds what the two
-- ends rely on: plain path segments are split at their slashes, and JSON is decoded to what was encoded. The
-- start of the process is a list of events, with the outcome of each call of the system as an argument.
--
-- Not modelled: the HTTP and gRPC servers behind their interfaces, the parsing of flags, the messages of the
-- process's log, and the registration of services. The texts of errors stand for themselves as values. Writes
-- of the files that overlap in time are not modelled. A rotation of all tokens is modelled with nothing between two of
-- its rounds.
pub mod Prelude
pub mod Dict
pub mod Machine
pub mod Digits
pub mod Sort
pub mod Tokens
pub mod Duration
pub mod Commands
pub mod Crypto
pub mod Server
mod Examples
