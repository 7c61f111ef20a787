-- ===== src/Config.antt =====
-- config/config.go: the configuration, where its token comes from and its validation. The flags'
-- parser is a library's.
pub mod Valid
use debugsymd.Base.{
  Bool, not, ◌&&◌, ◌||◌, Option, none, some, if◌then◌else◌, Bytes, codes, length, ◌==◌, ℤ,
}
use debugsymd.Base.Result.{Result, ok, err, ◌>>=◌}

pub record SentryConfig : Type 0 where
  pub api_url : Bytes
  pub org : Bytes
  pub project : Bytes
  pub token : Bytes

pub record StorageConfig : Type 0 where
  pub bucket : Bytes
  pub region : Bytes
  pub endpoint_url : Bytes
  pub key_prefix : Bytes

-- `cache_max_unused_for` is in nanoseconds
pub record Config : Type 0 where
  pub bind : Bytes
  pub admin : Bytes
  pub cache_dir : Bytes
  pub cache_max_unused_for : ℤ
  pub sentry : SentryConfig
  pub storage : StorageConfig
  pub log_level : Bytes
  pub debuginfod : Bool

pub data ConfigError : Type 0 where
  bad_flags : ConfigError
  unreadable_secret : (env : Bytes) → ConfigError
  no_cache_dir no_org_or_project no_token no_bucket : ConfigError

abbrev pub sentry_token_env_name : Bytes
sentry_token_env_name = codes "SENTRY_AUTH_TOKEN"

abbrev pub sentry_token_file_env_name : Bytes
sentry_token_file_env_name = codes "SENTRY_AUTH_TOKEN_FILE"

abbrev pub is_empty : Bytes → Bool
is_empty s = length s == 0

-- `os.Getenv` (a variable that is not set is empty), `os.ReadFile` and `strings.TrimSpace`
pub record Environment : Type 0 where
  pub getenv : Bytes → Bytes
  pub read_file : Bytes → Option Bytes
  pub trim_space : Bytes → Bytes

unfoldable pub load_secret : Environment → Bytes → Bytes → Result ConfigError Bytes
load_secret os file_env value_env =
    let path = os.getenv file_env in
    if is_empty path then ok (os.getenv value_env) else elim (os.read_file path) [
      | none ↦ err (ConfigError.unreadable_secret file_env)
      | some b ↦ ok (os.trim_space b)
    ]

unfoldable pub validate : Config → Result ConfigError Unit
validate c =
    if is_empty c.cache_dir
    then err ConfigError.no_cache_dir
    else if not (is_empty c.sentry.api_url) && (is_empty c.sentry.org || is_empty c.sentry.project)
    then err ConfigError.no_org_or_project
    else if not (is_empty c.sentry.api_url) && is_empty c.sentry.token
    then err ConfigError.no_token
    else if is_empty c.storage.bucket
    then err ConfigError.no_bucket
    else ok tt

-- `parsed` is what the flags' parser makes of the arguments
unfoldable pub load : Option Config → Environment → Result ConfigError Config
unfolding load_secret validate
load none os = err ConfigError.bad_flags
load (some c) os = do
  token ← load_secret os sentry_token_file_env_name sentry_token_env_name
  let full : Config = record c { sentry = record c.sentry { token = token } }
  done ← validate full
  ok full
