-- ===== src/Orchestrator/Platform.antt =====
-- What the controller of internal/orchestrator/controller.go is handed: pools and requests, and the
-- container engine, the database, the Git providers, the clock and the random source behind
-- interfaces. Each call of an interface may change the world; `none` and `false` are Go errors.
use gh_runner.Prelude.{ℕ, Bool, Option, List}
use gh_runner.Prelude.Text.{GoString, Unicode}
use gh_runner.Orchestrator.Tracking.{RunnerStatus}

-- db.RunnerPool. The RPC layer refuses negative counts, so they are natural numbers here.
pub record RunnerPool : Type 0 where
  pub id : ℕ
  pub name : GoString
  pub provider : GoString
  pub repository_url : GoString
  pub scope : GoString
  pub auth_profile_id : ℕ
  pub min_idle_runners : ℕ
  pub max_concurrency : ℕ
  pub labels : GoString
  pub runner_image : GoString
  pub allow_docker : Bool
  pub max_runner_lifetime_seconds : ℕ
  pub cpu_limit : Option GoString
  pub memory_limit : Option GoString

-- RunnerConfig, without the fields that the controller leaves at their zero values.
pub record RunnerConfig : Type 0 where
  pub name : GoString
  pub pool_name : GoString
  pub repo_url : GoString
  pub token : GoString
  pub image : GoString
  pub allow_docker : Bool
  pub env : List GoString
  pub cpu_limit : GoString
  pub memory_limit : GoString

pub record ProvisionRequest : Type 0 where
  pub pool_name : GoString
  pub target_url : GoString
  pub created_at : ℕ

pub data ScalingMode : Type 0 where
  webhook polling : ScalingMode

-- The errors that the controller's methods return.
pub data Error : Type 0 where
  controller_stopped engine_unreachable load_pools_failed resolve_failed : Error
  invalid_credentials token_failed spawn_failed context_canceled terminate_failed : Error

pub record Platform : Type 1 where
  pub World : Type 0
  pub GitProvider : Type 0
  pub unicode : Unicode
  -- json.Unmarshal into a []string.
  pub json_strings : GoString → Option (List GoString)
  -- LogPath(dataDir, id).
  pub log_path : GoString → GoString → GoString
  -- time.Now().UTC(), in nanoseconds.
  pub now : World → ℕ × World
  -- randomHexSuffix(6).
  pub random_hex : World → GoString × World
  -- PoolRepository, PoolTargetsRepository, AppSettingsReader, JobHistoryRecorder.
  pub list_runner_pools : World → Option (List RunnerPool) × World
  pub list_pool_targets : ℕ → World → Option (List GoString) × World
  pub get_app_setting : GoString → World → Option GoString × World
  pub record_job_timeout : ℕ → GoString → GoString → ℕ → ℕ → World → Bool × World
  -- GitProviderResolver and GitProvider.
  pub resolve_provider : ℕ → World → Option GitProvider × World
  pub validate_credentials : GitProvider → World → Bool × World
  pub scaling_mode : GitProvider → ScalingMode
  pub poll_queued_jobs : GitProvider → GoString → World → Option ℕ × World
  pub get_registration_token : GitProvider → GoString → GoString → World → Option GoString × World
  -- Whether the provider implements RunnerDeregistrar, and its method.
  pub is_deregistrar : GitProvider → Bool
  pub deregister : GitProvider → GoString → GoString → GoString → World → Bool × World
  -- ContainerProvider.
  pub ping : World → Bool × World
  pub audit_runners : World → Option (List RunnerStatus) × World
  pub spawn_runner : RunnerConfig → World → Option GoString × World
  pub terminate_runner : GoString → World → Bool × World
  pub capture_logs : GoString → GoString → World → Option GoString × World
  -- TaskExitHandler: whether the container was a task, and whether handling it succeeded.
  pub handle_container_exit : GoString → ℕ → GoString → World → (Bool × Bool) × World

-- The options that do not change while the controller runs. A flag says that an optional
-- collaborator is not nil.
pub record Options : Type 0 where
  pub has_db : Bool
  pub has_targets_repository : Bool
  pub has_app_settings : Bool
  pub has_job_recorder : Bool
  pub has_engine : Bool
  pub has_reconciler : Bool
  pub has_provider_resolver : Bool
  pub has_task_exit_handler : Bool
  pub data_dir : GoString
  pub scale_to_zero_grace_period : ℕ
