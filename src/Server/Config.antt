-- ===== src/Server/Config.antt =====
-- vault/internal/server/config.go: the configuration. The file system is a parameter: the permission
-- bits of a path, if it can be examined, and the file's text, if it can be read. The YAML decoder's
-- result is a parameter too.
pub mod Laws
use rune_admin.Prelude.{
  ℕ, String, codes, Bool, true, false, not, ◌&&◌, ◌||◌, Option, none, some, List, [], ◌∷◌, ◌++◌,
  ◌==◌, ◌==ℕ◌, if◌then◌else◌, ℤ, pos, ◌%◌, ◌/◌, zero, suc, ◌-◌, code,
}

pub record TlsConfig : Type 0 where
  pub cert : String
  pub key : String
  pub disable : Bool

pub record GrpcConfig : Type 0 where
  pub host : String
  pub port : ℤ
  pub tls : TlsConfig

pub record AdminConfig : Type 0 where
  pub socket : String

pub record ServerConfig : Type 0 where
  pub grpc : GrpcConfig
  pub admin : AdminConfig

pub record KeysConfig : Type 0 where
  pub path : String
  pub index_name : String
  pub embedding_dim : ℤ

pub record EnvectorConfig : Type 0 where
  pub endpoint : String
  pub api_key : String
  pub api_key_file : String

pub record TokensConfig : Type 0 where
  pub team_secret : String
  pub team_secret_file : String
  pub roles_file : String
  pub tokens_file : String

pub record AuditConfig : Type 0 where
  pub mode : String
  pub path : String

pub record Config : Type 0 where
  pub server : ServerConfig
  pub keys : KeysConfig
  pub envector : EnvectorConfig
  pub tokens : TokensConfig
  pub audit : AuditConfig
  pub source : String

pub data ConfigError : Type 0 where
  not_found : List String → ConfigError
  read_failed : String → ConfigError
  parse_failed : String → List String → ConfigError
  too_permissive : String → ℕ → ConfigError

pub data Result {ℓ} (A : Type ℓ) : Type ℓ where
  ok : A → Result A
  err : ConfigError → Result A

-- The file system that the code examines.
pub record FileSystem : Type 0 where
  -- os.Stat: the permission bits.
  pub mode_of : String → Option ℕ
  -- os.ReadFile
  pub text_of : String → Option String
  -- filepath.Abs
  pub absolute : String → String

abbrev pub config_lookup_paths : List String
config_lookup_paths = "/opt/runevault/configs/runevault.conf" ∷ "./runevault.conf" ∷ []

-- `mode &^ 0o640 != 0` on the permission bits: a bit outside those of 0o640 (owner read and write,
-- group read) is set. The bits are those of the octal digits, from the last.
unfoldable pub is_too_permissive : ℕ → Bool
is_too_permissive mode =
    let others = mode % 8 in
    let group = mode / 8 % 8 in
    let owner = mode / 64 % 8 in
    not (others ==ℕ 0) || not (group % 4 ==ℕ 0) || not (owner % 2 ==ℕ 0)

-- strings.TrimRight(_, "\n")
unfoldable pub trim_newlines : String → String
trim_newlines String.[] = String.[]
trim_newlines (String.◌∷◌ c s) =
    let rest = trim_newlines s in if rest == "" && code c ==ℕ 10 then "" else String.◌∷◌ c rest

module _ (fs : FileSystem) where
  unfoldable pub check_secret_mode : String → Option ConfigError
  unfolding is_too_permissive
  check_secret_mode path = elim (fs.mode_of path) [
    | none ↦ none
    | some mode ↦ if is_too_permissive mode then some (too_permissive path mode) else none
  ]

  unfoldable pub read_secret_file : String → Result String
  unfolding check_secret_mode trim_newlines
  read_secret_file path = elim (check_secret_mode path) [
    | some e ↦ err e
    | none ↦ elim (fs.text_of path) [
      | none ↦ err (read_failed path)
      | some text ↦ ok (trim_newlines text)
    ]
  ]

  -- The value of a secret: the file's, if one is named, or the inline one.
  unfoldable pub secret_of : String → String → Result String
  unfolding read_secret_file
  secret_of file inline = if file == "" then ok inline else read_secret_file file

  -- The method assigns each part as it goes; on an error its caller drops the configuration.
  unfoldable pub resolve : Config → Result Config
  unfolding secret_of
  resolve c = elim (secret_of c.envector.api_key_file c.envector.api_key) [
    | err e ↦ err e
    | ok key ↦ elim (secret_of c.tokens.team_secret_file c.tokens.team_secret) [
      | err e ↦ err e
      | ok secret ↦ ok (record c {
        envector = record c.envector { api_key = key; api_key_file = "" };
        tokens = record c.tokens { team_secret = secret; team_secret_file = "" };
      })
    ]
  ]

  -- The loop over the paths to probe, with the paths searched so far.
  unfoldable pub first_path : List String → List String → Result (String × List String)
  first_path searched [] = err (not_found searched)
  first_path searched (p ∷ ps) = elim (fs.mode_of p) [
    | none ↦ first_path (searched ++ p ∷ []) ps
    | some _ ↦ ok (fs.absolute p, searched ++ p ∷ [])
  ]

  unfoldable pub resolve_config_path : String → Result (String × List String)
  unfolding first_path
  resolve_config_path override =
      if override == "" then first_path [] config_lookup_paths else first_path [] (override ∷ [])

  -- `decode` is the YAML decoder, which knows the fields of `Config`.
  unfoldable pub load_config : (String → Option Config) → String → Result Config
  unfolding resolve_config_path check_secret_mode resolve
  load_config decode override = elim (resolve_config_path override) [
    | err e ↦ err e
    | ok (path, searched) ↦ elim (fs.text_of path) [
      | none ↦ err (read_failed path)
      | some text ↦ elim (decode text) [
        | none ↦ err (parse_failed path searched)
        | some c ↦ elim (check_secret_mode path) [
          | some e ↦ err e
          | none ↦ resolve (record c { source = path })
        ]
      ]
    ]
  ]

-- A secret's replacement in `Redact`.
unfoldable pub sentinel : String → String
sentinel s = if s == "" then s else "[REDACTED]"

unfoldable pub redact : Config → Config
unfolding sentinel
redact c = record c {
  envector = record c.envector {
    api_key = sentinel c.envector.api_key;
    api_key_file = sentinel c.envector.api_key_file;
  };
  tokens = record c.tokens {
    team_secret = sentinel c.tokens.team_secret;
    team_secret_file = sentinel c.tokens.team_secret_file;
  };
}

-- The settings that `Validate` reports, in its order.
pub data Missing : Type 0 where
  socket : Missing
  port : Missing
  certificate : Missing
  key_path : Missing
  embedding_dim : Missing
  roles_file : Missing
  tokens_file : Missing

unfoldable pub is_zero : ℤ → Bool
is_zero (pos zero) = true
is_zero _ = false

unfoldable pub report : Bool → Missing → List Missing → List Missing
report true m ms = m ∷ ms
report false m ms = ms

-- The list that the error's text is made from; it is empty if there is no error.
unfoldable pub validate : Config → List Missing
unfolding report is_zero
validate c = report (c.server.admin.socket == "") socket (
    report (is_zero c.server.grpc.port) port (
      report
        (not c.server.grpc.tls.disable
          && (c.server.grpc.tls.cert == "" || c.server.grpc.tls.key == ""))
        certificate
        (report (c.keys.path == "") key_path (
          report (is_zero c.keys.embedding_dim) embedding_dim (
            report (c.tokens.roles_file == "") roles_file
              (report (c.tokens.tokens_file == "") tokens_file []))))))
