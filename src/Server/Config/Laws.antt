-- ===== src/Server/Config/Laws.antt =====
-- What a loaded configuration guarantees, and what redaction hides.
use rune_admin.Prelude.{
  ℕ, String, ◌≡◌, ◌≢◌, refl, sym, ◌∙◌, Bool, true, false, Option, none, some, List, [], ◌==◌,
  if◌then◌else◌, ℤ, pos, arith, ◌↔◌, ◌⊎◌, inl, inr, Bool-cases, Option-cases, eq_iff,
}
use rune_admin.Server.Config.{
  Config, FileSystem, Result, ok, err, ConfigError, is_too_permissive, check_secret_mode,
  read_secret_file, secret_of, resolve, resolve_config_path, load_config, sentinel, redact,
  validate, report, is_zero, Missing,
}

-- The permission bits of the path, if it can be examined, are within 0o640.
abbrev pub IsGuarded : FileSystem → String → Type 0
IsGuarded fs path = (m : ℕ) → fs.mode_of path ≡ some m → is_too_permissive m ≡ false

Result-cases :
    {A : Type 0} (r : Result A) → ((a : A) × (r ≡ ok a)) ⊎ ((e : ConfigError) × (r ≡ err e))
Result-cases (ok a) = inl (a, refl)
Result-cases (err e) = inr (e, refl)

module _ (fs : FileSystem) where
  check_secret_mode-none : (path : String) → check_secret_mode fs path ≡ none → IsGuarded fs path
  unfolding check_secret_mode
  check_secret_mode-none path h m e = ground arith

  secret_of-ok :
      (file inline s : String) → secret_of fs file inline ≡ ok s → (file ≡ "") ⊎ IsGuarded fs file
  unfolding secret_of read_secret_file
  secret_of-ok file inline s h = elim (Bool-cases (file == "")) [
    | inl e ↦ inl ((eq_iff file "").0 e)
    | inr e ↦ elim (Option-cases (check_secret_mode fs file)) [
      | inl g ↦ inr (check_secret_mode-none file g)
      | inr (x, g) ↦ absurd (ground arith)
    ]
  ]

  abbrev resolved : Config → String → String → Config
  resolved c key secret = record c {
    envector = record c.envector { api_key = key; api_key_file = "" };
    tokens = record c.tokens { team_secret = secret; team_secret_file = "" };
  }

  -- A resolved configuration keeps its path, names no secret file and resolves to itself, and each secret file that
  -- was named has no permission bit outside 0o640.
  pub resolve_lem :
      (c c' : Config)
      → resolve fs c ≡ ok c'
      → (resolve fs c' ≡ ok c')
        × (c'.source ≡ c.source)
        × (c'.envector.api_key_file ≡ "")
        × (c'.tokens.team_secret_file ≡ "")
        × ((c.envector.api_key_file ≡ "") ⊎ IsGuarded fs c.envector.api_key_file)
        × ((c.tokens.team_secret_file ≡ "") ⊎ IsGuarded fs c.tokens.team_secret_file)
  unfolding resolve
  resolve_lem c c' h =
      elim (Result-cases (secret_of fs c.envector.api_key_file c.envector.api_key)) [
        | inr (e, a) ↦ absurd cc
        | inl (key, a) ↦
            elim (Result-cases (secret_of fs c.tokens.team_secret_file c.tokens.team_secret)) [
              | inr (e, b) ↦ absurd cc
              | inl (secret, b) ↦
                  let same : resolved c key secret ≡ c' = ground arith in
                  rw (← same)
                    (refl, refl, refl, refl, secret_of-ok _ _ key a, secret_of-ok _ _ secret b)
            ]
      ]

  -- A configuration is loaded only from a file whose permission bits are within 0o640, and it records
  -- that file's path; it names no secret file any more, and those named in the text had such bits too.
  pub load_config_sound :
      (decode : String → Option Config) (override : String) (c : Config)
      → load_config fs decode override ≡ ok c
      → IsGuarded fs c.source
        × (c.envector.api_key_file ≡ "")
        × (c.tokens.team_secret_file ≡ "")
        × ((text : String) × (raw : Config) × (fs.text_of c.source ≡ some text)
            × (decode text ≡ some raw)
            × ((raw.envector.api_key_file ≡ "") ⊎ IsGuarded fs raw.envector.api_key_file)
            × ((raw.tokens.team_secret_file ≡ "") ⊎ IsGuarded fs raw.tokens.team_secret_file))
  unfolding load_config
  load_config_sound decode override c h = elim (Result-cases (resolve_config_path fs override)) [
    | inr (e, a) ↦ absurd (ground arith)
    | inl ((path, searched), a) ↦ elim (Option-cases (fs.text_of path)) [
      | inl b ↦ absurd (ground arith)
      | inr (text, b) ↦ elim (Option-cases (decode text)) [
        | inl d ↦ absurd (ground arith)
        | inr (raw, d) ↦ elim (Option-cases (check_secret_mode fs path)) [
          | inr (e, g) ↦ absurd (ground arith)
          | inl g ↦
              let resolved : resolve fs (record raw { source = path }) ≡ ok c = ground arith in
              let (_, at_path, no_key, no_secret, key, secret) =
                resolve_lem (record raw { source = path }) c resolved in
              rw at_path
                (check_secret_mode-none path g, no_key, no_secret, (text, raw, b, d, key, secret))
        ]
      ]
    ]
  ]

-- The configuration with other values in its four secret fields.
abbrev pub with_secrets : Config → String → String → String → String → Config
with_secrets c key key_file secret secret_file = record c {
  envector = record c.envector { api_key = key; api_key_file = key_file };
  tokens = record c.tokens { team_secret = secret; team_secret_file = secret_file };
}

sentinel-same : (s t : String) → ((s == "") ≡ (t == "")) → sentinel s ≡ sentinel t
unfolding sentinel
sentinel-same s t h = elim (Bool-cases (s == "")) [
  | inl a ↦ let p = (eq_iff s "").0 a in let q = (eq_iff t "").0 (sym h ∙ a) in ground arith
  | inr a ↦ rw (a, sym h ∙ a, if◌then◌else◌) refl
]

-- A redacted configuration is the same whatever the four secret fields hold, apart from which of
-- them are empty.
pub redact-hides :
    (c : Config) (k k' f f' s s' g g' : String)
    → ((k == "") ≡ (k' == ""))
    → ((f == "") ≡ (f' == ""))
    → ((s == "") ≡ (s' == ""))
    → ((g == "") ≡ (g' == ""))
    → redact (with_secrets c k f s g) ≡ redact (with_secrets c k' f' s' g')
unfolding redact
redact-hides c k k' f f' s s' g g' hk hf hs hg =
    rw (sentinel-same k k' hk, sentinel-same f f' hf, sentinel-same s s' hs, sentinel-same g g' hg)
      refl

report-nil :
    (b : Bool) (m : Missing) (ms : List Missing) → (report b m ms ≡ []) ↔ ((b ≡ false) × (ms ≡ []))
unfolding report
report-nil b m ms = ground arith

is_empty_iff : (s : String) → ((s == "") ≡ false) ↔ (s ≢ "")
is_empty_iff s = ground (arith, eq_iff s "")

is_zero_iff : (n : ℤ) → (is_zero n ≡ false) ↔ (n ≢ pos 0)
unfolding is_zero
is_zero_iff n = ground arith

-- The validation reports nothing exactly if the socket, the port, the key path, the dimension and
-- the two files of the store are set, and the certificate and its key too unless TLS is disabled.
pub validate_iff :
    (c : Config)
    → (validate c ≡ []) ↔ (
        (c.server.admin.socket ≢ "")
        × (c.server.grpc.port ≢ pos 0)
        × ((c.server.grpc.tls.disable ≡ true)
            ⊎ ((c.server.grpc.tls.cert ≢ "") × (c.server.grpc.tls.key ≢ "")))
        × (c.keys.path ≢ "")
        × (c.keys.embedding_dim ≢ pos 0)
        × (c.tokens.roles_file ≢ "")
        × (c.tokens.tokens_file ≢ ""))
unfolding validate
validate_iff c = grind (arith, report-nil, is_empty_iff, is_zero_iff)
