-- ===== src/Config.antt =====
-- `loadConfig` of cmd/gowallet/main.go. `env` is os.Getenv, "" for a variable that is not set, and
-- `parse_duration` is time.ParseDuration, with none for an error.
use gowallet.Prelude.{
  String, ◌≡◌, ◌≢◌, Option, none, some, Result, ok, err, arith, ◌==◌, eq_iff, if◌then◌else◌,
}
use gowallet.Prelude.Int.{ℤ, pos}

-- The durations are in nanoseconds.
pub record Config : Type 0 where
  pub addr : String
  pub db_path : String
  pub spec_path : String
  pub jwt_secret : String
  pub jwt_ttl : ℤ

pub data ConfigError : Type 0 where
  secret_required : ConfigError
  bad_ttl : ConfigError

module _ (env : String → String) where
  -- `envOr`
  env_or : String → String → String
  env_or key fallback = if env key == "" then fallback else env key

  module _ (parse_duration : String → Option ℤ) where
    ttl : Option ℤ
    ttl =
        if env "GOWALLET_JWT_TTL" == ""
        then some (pos 3_600_000_000_000)
        else parse_duration (env "GOWALLET_JWT_TTL")

    config_with : Option ℤ → Result ConfigError Config
    unfolding env_or
    config_with none = err bad_ttl
    config_with (some t) = ok (record {
      addr = env_or "GOWALLET_ADDR" ":8080";
      db_path = env_or "GOWALLET_DB" "gowallet.db";
      spec_path = env_or "GOWALLET_SPEC" "api/openapi.yaml";
      jwt_secret = env "GOWALLET_JWT_SECRET";
      jwt_ttl = t;
    })

    -- `loadConfig`
    unfoldable pub load_config : Result ConfigError Config
    unfolding config_with ttl
    load_config = if env "GOWALLET_JWT_SECRET" == "" then err secret_required else config_with ttl

    -- A configuration that loads has a signing secret, whatever the environment.
    pub load_config-secret : (c : Config) → load_config ≡ ok c → c.jwt_secret ≢ ""
    unfolding load_config
    load_config-secret c h e = ground (arith, eq_iff (env "GOWALLET_JWT_SECRET") "")
