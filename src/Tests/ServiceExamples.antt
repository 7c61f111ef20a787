-- ===== src/Tests/ServiceExamples.antt =====
-- The theorems on the debuginfod routes, the configuration and the cache's keys at concrete inputs.
use debugsymd.Base.{
  ℕ, ◌≡◌, refl, true, false, none, some, [], ◌∷◌, ◌++◌, arith, Bytes, codes, pos, if◌then◌else◌,
}
use debugsymd.Base.Result.{ok, err}
use debugsymd.GoStrings.{has_prefix, bytes_eq, trim_right}
use debugsymd.Symstore.Constants.{prefix_elf_debug, prefix_elf_code}
use debugsymd.Httpapi.Handler.{FetchError, Objects, symstore_route}
use debugsymd.Httpapi.Debuginfod.{
  placeholder_debug, placeholder_executable, debuginfod_debug, debuginfod_executable,
}
use debugsymd.Httpapi.Debuginfod.Agrees.{
  debuginfod_debug-symstore_route, debuginfod_executable-symstore_route,
}
use debugsymd.Config.{Config, Environment, load, load_secret, validate, sentry_token_file_env_name}
use debugsymd.Config.Valid.{IsValid, SecretFrom, load-IsValid}
use debugsymd.Diskcache.Keys.{HasNoColon, key_text-injective}
use debugsymd.Tests.Instances.{ascii_tables}

abbrev build_id : Bytes
build_id = codes "0102030405060708090a0b0c0d0e0f10aabbccdd"

-- A service that has every file and no source; a file is a number.
abbrev stocked : Objects ℕ
stocked = record {
  fetch = λ req. ok (some 7);
  fetch_compressed = λ req. ok none;
  source_file = λ req path. some (err FetchError.missing);
}

debuginfod_debug-symstore_route_example :
    debuginfod_debug stocked build_id
    ≡ symstore_route stocked placeholder_debug (prefix_elf_debug ++ build_id) placeholder_debug
debuginfod_debug-symstore_route_example = debuginfod_debug-symstore_route stocked build_id

not_sym : has_prefix build_id (codes "sym-") ≡ false
unfolding has_prefix
not_sym = refl

debuginfod_executable-symstore_route_example :
    debuginfod_executable stocked build_id
    ≡ symstore_route stocked placeholder_executable
        (prefix_elf_code ++ build_id)
        placeholder_executable
debuginfod_executable-symstore_route_example =
    debuginfod_executable-symstore_route stocked build_id not_sym

-- The token's file is named, and ends in a newline.
abbrev mounted : Environment
mounted = record {
  getenv = λ name. if bytes_eq name sentry_token_file_env_name then codes "/run/token" else [];
  read_file = λ path. some (codes "secret" ++ (10 ∷ []));
  trim_space = λ text. trim_right text 10;
}

abbrev flags : Config
flags = record {
  bind = codes ":8080";
  admin = codes ":9090";
  cache_dir = codes "/var/cache/debugsymd";
  cache_max_unused_for = pos 1209600000000000;
  sentry = record { api_url = codes "https://s"; org = codes "o"; project = codes "p"; token = [] };
  storage = record { bucket = codes "b"; region = []; endpoint_url = []; key_prefix = [] };
  log_level = codes "info";
  debuginfod = true;
}

abbrev configured : Config
configured = record flags { sentry = record flags.sentry { token = codes "secret" } }

loads : load (some flags) mounted ≡ ok configured
unfolding load load_secret validate bytes_eq trim_right
loads = refl

load-IsValid_example : IsValid configured × SecretFrom mounted (codes "secret")
load-IsValid_example = load-IsValid (some flags) mounted {full = configured} loads

no_colon_in_role : HasNoColon (codes "objects")
no_colon_in_role = (
  omega arith,
  (omega arith, (omega arith, (omega arith, (omega arith, (omega arith, (omega arith, tt)))))),
)

no_colon_in_id : HasNoColon (codes "ab")
no_colon_in_id = (omega arith, (omega arith, tt))

key_text-injective_example :
    (codes "objects" ≡ codes "objects") × (codes "ab" ≡ codes "ab") × (codes "a:b" ≡ codes "a:b")
key_text-injective_example =
    key_text-injective (codes "objects") (codes "objects") (codes "ab") (codes "ab") (codes "a:b")
      (codes "a:b") no_colon_in_role no_colon_in_role no_colon_in_id no_colon_in_id refl
