-- ===== src/Config.antt =====
-- internal/config and internal/keys: the checks of a configuration once its layers are merged, and
-- the secrets derived from its key. HKDF, filepath.Join and the Unicode tables are parameters.
pub mod Startup
use gh_runner.Prelude.{
  ℕ, Bool, true, false, ◌&&◌, ◌||◌, not, Option, none, some, [], ◌∷◌, if◌then◌else◌, ltb, length,
}
use gh_runner.Prelude.Text.{GoString, codes, text_eq, is_empty, Unicode}
use gh_runner.Prelude.Integers.{ℤ, pos, negsuc, is_not_positive}
use gh_runner.Prelude.Results.{Result, ok, failed}

pub record Config : Type 0 where
  pub db_encryption_key : GoString
  pub port : ℤ
  pub db_path : GoString
  pub log_level : GoString
  pub docker_host : GoString
  pub data_dir : GoString
  pub backup_interval_hours : ℤ
  pub backup_retention_count : ℤ
  pub config_file : GoString
  pub secure_cookie : Bool

pub data ConfigError : Type 0 where
  invalid_log_level invalid_port empty_data_dir empty_db_path empty_docker_host
        short_backup_interval no_backup_retained missing_key weak_key :
      ConfigError

abbrev pub min_encryption_key_bytes : ℕ
min_encryption_key_bytes = 32

unfoldable pub exceeds : ℕ → ℤ → Bool
exceeds limit (pos n) = ltb limit n
exceeds limit (negsuc n) = false

unfoldable pub is_log_level : GoString → Bool
is_log_level level =
    text_eq level (codes "debug")
    || text_eq level (codes "info")
    || text_eq level (codes "warn")
    || text_eq level (codes "error")

-- `none` is a nil error.
unfoldable pub validate_db_encryption_key : Config → Option ConfigError
validate_db_encryption_key c =
    if is_empty c.db_encryption_key
    then some missing_key
    else if ltb (length c.db_encryption_key) min_encryption_key_bytes
    then some weak_key
    else none

unfoldable pub validate : Config → Option ConfigError
unfolding is_log_level exceeds validate_db_encryption_key
validate c =
    if not (is_log_level c.log_level)
    then some invalid_log_level
    else if is_not_positive c.port || exceeds 65_535 c.port
    then some invalid_port
    else if is_empty c.data_dir
    then some empty_data_dir
    else if is_empty c.db_path
    then some empty_db_path
    else if is_empty c.docker_host
    then some empty_docker_host
    else if is_not_positive c.backup_interval_hours
    then some short_backup_interval
    else if is_not_positive c.backup_retention_count
    then some no_backup_retained
    else validate_db_encryption_key c

module _ (text : Unicode) (join_path : GoString → GoString → GoString) where
  unfoldable pub normal_level : GoString → GoString
  normal_level level =
      let lower = text.to_lower (text.trim_space level) in
      if text_eq lower (codes "warning") then codes "warn" else lower

  unfoldable pub normalize : Config → Config
  unfolding normal_level
  normalize c =
      let data_dir = text.trim_space c.data_dir in
      let db_path = text.trim_space c.db_path in
      record c {
        db_encryption_key = text.trim_space c.db_encryption_key;
        log_level = normal_level c.log_level;
        data_dir = data_dir;
        db_path =
            if is_empty db_path && not (is_empty data_dir)
            then join_path data_dir (codes "supervisor.db")
            else db_path;
        docker_host = text.trim_space c.docker_host;
      }

  unfoldable pub checked : Config → Option ConfigError → Result ConfigError Config
  checked c none = ok c
  checked c (some e) = failed e

  -- The end of Load, once the layers are merged.
  unfoldable pub load_merged : Config → Result ConfigError Config
  unfolding normalize validate checked
  load_merged c = checked (normalize c) (validate (normalize c))

pub record Derived : Type 0 where
  pub db_encryption_key : GoString
  pub jwt_signing_secret : GoString

pub data KeyError : Type 0 where
  short_master_key hkdf_error : KeyError

unfoldable pub both_derived : Option GoString → Option GoString → Result KeyError Derived
both_derived none jwt = failed hkdf_error
both_derived (some key) none = failed hkdf_error
both_derived (some key) (some jwt) =
    ok (record { db_encryption_key = key; jwt_signing_secret = jwt })

-- keys.Derive; `hkdf` is hkdf.Key with SHA-256 and no salt, of the key, the label and the size.
unfoldable pub derive :
    (GoString → GoString → ℕ → Option GoString) → GoString → Result KeyError Derived
unfolding both_derived
derive hkdf master_key =
    if ltb (length master_key) 32
    then failed short_master_key
    else both_derived (hkdf master_key (codes "gh-runner/supervisor/db-encryption/aes-256/v1") 32)
        (hkdf master_key (codes "gh-runner/supervisor/jwt-signing/hmac-sha256/v1") 32)
