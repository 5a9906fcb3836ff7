-- ===== src/Examples/Settings.antt =====
-- A configuration file with a secret file, and a duration.
use rune_admin.Prelude.{
  ℕ, ◌*◌, String, codes, ◌≡◌, ◌≢◌, ◌↔◌, ◌⊎◌, refl, true, Option, some, List, [], ◌∷◌, ◌++◌, pos,
}
use rune_admin.Machine.{wrap64}
use rune_admin.Digits.{AreDigits}
use rune_admin.Duration.{parse_duration, parse_duration_iff, IsUnit, decimal}
use Prim.Native.Nat.{min}
use rune_admin.Machine.{max_int64}
use rune_admin.Server.Config.{Config, FileSystem, ok, resolve, load_config}
use rune_admin.Server.Config.Laws.{IsGuarded, load_config_sound}

parse_duration_iff_example : (parse_duration "2w" ≡ some (pos 14)) ↔ (
    (n : List ℕ) × (c : ℕ) × (each : ℕ) × (codes "2w" ≡ n ++ c ∷ [])
    × AreDigits n
    × (n ≢ [])
    × IsUnit c each
    × (pos 14 ≡ wrap64 (pos (min (decimal n) max_int64 * each))))
parse_duration_iff_example = parse_duration_iff "2w" (pos 14)

abbrev pub raw : Config
raw = record {
  server = record {
    grpc = record {
      host = "0.0.0.0";
      port = pos 50051;
      tls = record { cert = ""; key = ""; disable = true };
    };
    admin = record { socket = "admin.sock" };
  };
  keys = record { path = "keys"; index_name = ""; embedding_dim = pos 1024 };
  envector = record { endpoint = ""; api_key = ""; api_key_file = "" };
  tokens = record {
    team_secret = "";
    team_secret_file = "team";
    roles_file = "roles.yml";
    tokens_file = "tokens.yml";
  };
  audit = record { mode = ""; path = "" };
  source = "";
}

-- Every file has the bits 0o640 and the text "s" with a line break.
abbrev pub fs : FileSystem
fs = record { mode_of = λ _. some 416; text_of = λ _. some "s\n"; absolute = λ p. p }

abbrev pub decode : String → Option Config
decode _ = some raw

abbrev loaded : Config
loaded = record raw {
  source = "runevault.conf";
  tokens = record raw.tokens { team_secret = "s"; team_secret_file = "" };
}

resolved : resolve fs (record raw { source = "runevault.conf" }) ≡ ok loaded
unfolding resolve
resolved = refl

load : load_config fs decode "runevault.conf" ≡ ok loaded
unfolding load_config
load = refl

load_config_sound_example :
    IsGuarded fs "runevault.conf"
    × (loaded.envector.api_key_file ≡ "")
    × (loaded.tokens.team_secret_file ≡ "")
    × ((text : String) × (c : Config) × (fs.text_of "runevault.conf" ≡ some text)
        × (decode text ≡ some c)
        × ((c.envector.api_key_file ≡ "") ⊎ IsGuarded fs c.envector.api_key_file)
        × ((c.tokens.team_secret_file ≡ "") ⊎ IsGuarded fs c.tokens.team_secret_file))
load_config_sound_example = load_config_sound fs decode "runevault.conf" loaded load
