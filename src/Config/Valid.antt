-- ===== src/Config/Valid.antt =====
-- What a configuration that `Load` returns has.
use debugsymd.Base.{
  ◌≡◌, ◌<◌, ◌↔◌, refl, Option, none, some, inl, inr, arith, Bytes, length, Bool-cases, Option-cases,
}
use debugsymd.Base.Result.{Result, ok, err, ◌>>=◌}
use debugsymd.Config.{
  Config, ConfigError, Environment, is_empty, load_secret, validate, load, sentry_token_env_name,
  sentry_token_file_env_name,
}

abbrev pub IsValid : Config → Type 0
IsValid c =
    (0 < length c.cache_dir)
    × (0 < length c.storage.bucket)
    × (0 < length c.sentry.api_url
        → (0 < length c.sentry.org) × (0 < length c.sentry.project) × (0 < length c.sentry.token))

pub validate-IsValid : (c : Config) → (validate c ≡ ok tt) ↔ IsValid c
unfolding validate
validate-IsValid c = ground arith

-- Where the token may come from: the file that the one variable names, or the other variable.
pub data SecretFrom (os : Environment) : Bytes → Type 0 where
  of_file :
      {path text token : Bytes}
      → os.getenv sentry_token_file_env_name ≡ path
      → 0 < length path
      → os.read_file path ≡ some text
      → token ≡ os.trim_space text
      → SecretFrom os token
  of_variable :
      {token : Bytes}
      → length (os.getenv sentry_token_file_env_name) ≡ 0
      → token ≡ os.getenv sentry_token_env_name
      → SecretFrom os token

load_secret-SecretFrom :
    (os : Environment) {token : Bytes}
    → load_secret os sentry_token_file_env_name sentry_token_env_name ≡ ok token
    → SecretFrom os token
unfolding load_secret
load_secret-SecretFrom os {token} h =
    let path = os.getenv sentry_token_file_env_name in
    elim (Bool-cases (is_empty path)) [
      | inl unset ↦ SecretFrom.of_variable (ground arith) (ground arith)
      | inr given ↦ elim (Option-cases (os.read_file path)) [
        | inl n ↦ absurd (ground arith)
        | inr (text, e) ↦ SecretFrom.of_file refl (ground arith) e (ground arith)
      ]
    ]

-- A configuration that `Load` returns has a cache directory and a bucket, and with a Sentry URL also an
-- organisation, a project and a token. Its token is the trimmed text of the file that one variable
-- names, if that variable is set, and otherwise the other variable's value.
pub load-IsValid :
    (parsed : Option Config) (os : Environment) {full : Config}
    → load parsed os ≡ ok full
    → IsValid full × SecretFrom os full.sentry.token
unfolding load
load-IsValid none os h = absurd (cc)
load-IsValid (some c) os {full} h =
    go (load_secret os sentry_token_file_env_name sentry_token_env_name) refl
  where
    go :
        (r : Result ConfigError Bytes)
        → load_secret os sentry_token_file_env_name sentry_token_env_name ≡ r
        → IsValid full × SecretFrom os full.sentry.token
    go (err x) e = absurd (unfold load in ground arith)
    go (ok token) e =
        let with_token : Config = record c { sentry = record c.sentry { token = token } } in
        checked with_token (validate with_token) refl (unfold load in (rw e at h))
          (load_secret-SecretFrom os e)
      where
        checked :
            (d : Config) (v : Result ConfigError (Unit {0}))
            → validate d ≡ v
            → (validate d >>= λ done. ok d) ≡ ok full
            → SecretFrom os d.sentry.token
            → IsValid full × SecretFrom os full.sentry.token
        checked d (err x) e h s = absurd (ground arith)
        checked d (ok tt) e h s =
            let same : d ≡ full = ground arith in rw (← same) ((validate-IsValid d).0 e, s)
