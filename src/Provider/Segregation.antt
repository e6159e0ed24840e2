-- ===== src/Provider/Segregation.antt =====
-- internal/provider/segregation.go: no master credential may stand in the spec of a container.
pub mod Clean
use gh_runner.Prelude.{
  ℕ, Bool, true, false, ◌&&◌, ◌||◌, not, Option, none, some, List, [], ◌∷◌, ◌++◌, ◌==◌,
  if◌then◌else◌, ltb, length,
}
use gh_runner.Prelude.Text.{GoString, codes, text_eq, contains, join, Unicode}
use gh_runner.Prelude.Dict.{Dict}

pub data ScanError : Type 0 where
  credential_leakage forbidden_env_key dangerous_mount : ScanError

pub record ContainerSpec : Type 0 where
  pub env : List GoString
  pub labels : Dict GoString
  pub mounts : List GoString
  pub image : GoString
  pub cmd : List GoString

pub record SegregationScanner : Type 0 where
  pub forbidden_env_keys : List GoString
  pub forbidden_mounts : List GoString

abbrev pub new_segregation_scanner : SegregationScanner
new_segregation_scanner = record {
  forbidden_env_keys =
      codes "DB_ENCRYPTION_KEY"
      ∷ codes "SUPERVISOR_DB_ENCRYPTION_KEY"
      ∷ codes "JWT_SECRET"
      ∷ codes "SUPERVISOR_PAT"
      ∷ codes "GITHUB_APP_PRIVATE_KEY"
      ∷ codes "MASTER_KEY"
      ∷ codes "APP_PRIVATE_KEY"
      ∷ codes "GITEA_MASTER_TOKEN"
      ∷ codes "FORGEJO_MASTER_TOKEN"
      ∷ [];
  forbidden_mounts =
      codes "/data" ∷ codes "supervisor.db" ∷ codes ".db" ∷ codes "/etc/supervisor" ∷ [];
}

-- strings.SplitN(env, "=", 2), with an empty value where there is no second part.
before_equals : ℕ → GoString × GoString → GoString × GoString
before_equals a (key, val) = (a ∷ key, val)

unfoldable pub split_env : GoString → GoString × GoString
unfolding before_equals
split_env [] = ([], [])
split_env (a ∷ s) = let rest = split_env s in if a == b'=' then ([], s) else before_equals a rest

-- The first error of a list of checks.
abbrev pub or_else : Option ScanError → Option ScanError → Option ScanError
or_else (some e) next = some e
or_else none next = next

unfoldable pub first_error : {A : Type 0} → (A → Option ScanError) → List A → Option ScanError
first_error check [] = none
first_error check (x ∷ xs) = or_else (check x) (first_error check xs)

-- `equal_fold` is strings.EqualFold.
module _ (text : Unicode) (equal_fold : GoString → GoString → Bool) where
  -- One secret against the places of a text: secrets of less than six bytes are passed over.
  unfoldable pub check_secret : (GoString → Bool) → GoString → Option ScanError
  check_secret found secret =
      let clean = text.trim_space secret in
      if ltb (length clean) 6 then none else if found clean then some credential_leakage else none

  unfoldable pub check_key : GoString → GoString → Option ScanError
  check_key key forbidden = if equal_fold key forbidden then some forbidden_env_key else none

  module _ (s : SegregationScanner) (master_credentials : List GoString) where
    unfoldable pub scan_env : GoString → Option ScanError
    unfolding split_env first_error check_secret check_key
    scan_env entry =
        let (raw_key, val) = split_env entry in
        let key = text.trim_space raw_key in
        or_else (first_error (check_key key) s.forbidden_env_keys) (
          first_error (check_secret (λ secret. contains key secret || contains val secret))
            master_credentials)

    unfoldable pub scan_label : GoString × GoString → Option ScanError
    unfolding first_error check_secret
    scan_label (k, v) =
        first_error (check_secret (λ secret. contains k secret || contains v secret))
          master_credentials

    unfoldable pub check_mount : GoString → GoString → Option ScanError
    check_mount mount forbidden = if contains mount forbidden then some dangerous_mount else none

    unfoldable pub scan_arg : GoString → Option ScanError
    unfolding first_error check_secret
    scan_arg arg = first_error (check_secret (λ secret. contains arg secret)) master_credentials

    unfoldable pub scan_mount : GoString → Option ScanError
    unfolding first_error check_mount scan_arg
    scan_mount mount = or_else (first_error (check_mount mount) s.forbidden_mounts) (scan_arg mount)

    -- `none` is a nil error.
    unfoldable pub scan : ContainerSpec → Option ScanError
    unfolding first_error scan_env scan_label scan_mount scan_arg
    scan spec = or_else (first_error scan_env spec.env) (
        or_else (first_error scan_label spec.labels)
          (or_else (first_error scan_mount spec.mounts) (first_error scan_arg spec.cmd)))

-- The environment of a runner and of a Renovate task.
url_entry : GoString → GoString → List GoString
url_entry provider target_url =
    if text_eq provider (codes "github")
    then (codes "GITHUB_REPOSITORY_URL=" ++ target_url) ∷ []
    else if text_eq provider (codes "gitea")
    then (codes "GITEA_INSTANCE_URL=" ++ target_url) ∷ []
    else if text_eq provider (codes "forgejo")
    then (codes "FORGEJO_INSTANCE_URL=" ++ target_url) ∷ []
    else []

unfoldable pub build_runner_env :
    GoString → GoString → GoString → GoString → List GoString → GoString → List GoString
unfolding url_entry
build_runner_env provider token target_url runner_name labels work_dir =
    (codes "RUNNER_PROVIDER=" ++ provider)
    ∷ (codes "RUNNER_TOKEN=" ++ token)
    ∷ (codes "RUNNER_NAME=" ++ runner_name)
    ∷ (codes "RUNNER_WORKDIR=" ++ work_dir)
    ∷ (codes "RUNNER_LABELS=" ++ join (codes ",") labels)
    ∷ url_entry provider target_url

unfoldable pub build_renovate_env : GoString → GoString → GoString → List GoString
build_renovate_env provider token repo_url =
    (codes "RENOVATE_PLATFORM=" ++ provider)
    ∷ (codes "RENOVATE_TOKEN=" ++ token)
    ∷ (codes "RENOVATE_ENDPOINT=" ++ repo_url)
    ∷ []
