-- ===== src/Examples.antt =====
-- A small installation, as concrete inputs for the theorems: one pool of GitHub runners, an engine
-- and a provider that always answer, and a counter for the world.
mod Pools
mod Events
mod Jobs
mod Secrets
mod Accounts
mod Streams
mod Requests
use gh_runner.Prelude.{
  ℕ, ◌+◌, ◌*◌, Bool, true, false, Option, none, some, List, [], ◌∷◌, ◌++◌, refl,
}
use gh_runner.Prelude.Dict.{lookup}
use gh_runner.Prelude.Text.{GoString, codes, text_eq, Unicode}
use gh_runner.Orchestrator.Tracking.{RunnerStatus, Tracked, running_state}
use gh_runner.Orchestrator.Tracking.Valid.{IsValid}
use gh_runner.Orchestrator.Platform.{RunnerPool, ProvisionRequest, webhook, Platform, Options}
use gh_runner.Orchestrator.Controller.{Controller, running}

abbrev pub ascii : Unicode
ascii = record { to_lower = λ s. s; trim_space = λ s. s }

abbrev pub repository : GoString
repository = codes "https://github.com/acme/app"

abbrev pub web_pool : RunnerPool
web_pool = record {
  id = 1;
  name = codes "web";
  provider = codes "github";
  repository_url = repository;
  scope = codes "repo";
  auth_profile_id = 1;
  min_idle_runners = 2;
  max_concurrency = 3;
  labels = codes "linux";
  runner_image = codes "runner";
  allow_docker = false;
  max_runner_lifetime_seconds = 0;
  cpu_limit = none;
  memory_limit = none;
}

abbrev pub idle_runner : RunnerStatus
idle_runner = record {
  id = codes "c0";
  name = codes "ghrs-web-0";
  pool_name = codes "web";
  state = running_state;
  ip_address = [];
  exit_code = 0;
  spawned_at = 5;
  is_busy = false;
  on_demand = false;
  target_url = repository;
}

abbrev pub busy_runner : RunnerStatus
busy_runner = record idle_runner { id = codes "c1"; is_busy = true }

-- Every call counts the world up; the engine lists both runners.
abbrev pub installation : Platform
installation = record {
  World = ℕ;
  GitProvider = ℕ;
  unicode = ascii;
  json_strings = λ s. none;
  log_path = λ dir id. dir ++ id;
  now = λ w. (w * 1_000_000_000, w + 1);
  random_hex = λ w. (codes "abcdef", w + 1);
  list_runner_pools = λ w. (some (web_pool ∷ []), w);
  list_pool_targets = λ id w. (some (repository ∷ []), w);
  get_app_setting = λ key w. (some (codes "3"), w);
  record_job_timeout = λ id name path from to w. (true, w);
  resolve_provider = λ id w. (some 7, w);
  validate_credentials = λ git w. (true, w);
  scaling_mode = λ git. webhook;
  poll_queued_jobs = λ git url w. (some 0, w);
  get_registration_token = λ git scope url w. (some (codes "token"), w);
  is_deregistrar = λ git. true;
  deregister = λ git scope url name w. (true, w);
  ping = λ w. (true, w);
  audit_runners = λ w. (some (idle_runner ∷ busy_runner ∷ []), w);
  spawn_runner = λ config w. (some (codes "n" ++ (w ∷ [])), w + 1);
  terminate_runner = λ id w. (true, w + 1);
  capture_logs = λ id dir w. (some dir, w);
  handle_container_exit = λ id code path w. ((false, true), w);
}

abbrev pub options : Options
options = record {
  has_db = true;
  has_targets_repository = true;
  has_app_settings = true;
  has_job_recorder = true;
  has_engine = true;
  has_reconciler = true;
  has_provider_resolver = true;
  has_task_exit_handler = true;
  data_dir = codes "/data";
  scale_to_zero_grace_period = 600 * 1_000_000_000;
}

abbrev pub request : ProvisionRequest
request = record { pool_name = codes "web"; target_url = []; created_at = 4 }

-- Two runners of the pool are tracked, one of them busy, and a request is queued.
abbrev pub fleet : Controller ℕ
fleet = record {
  tracked = (codes "web", (codes "c0", idle_runner) ∷ (codes "c1", busy_runner) ∷ []) ∷ [];
  queue = request ∷ [];
  state = running;
  last_heartbeat = 1;
  global_max_runners = 3;
  world = 10;
}

pub fleet-IsValid : IsValid fleet.tracked
unfolding lookup text_eq
fleet-IsValid = record {
  pools_distinct = (refl, tt);
  pools = (((refl, (refl, tt)), ((refl, refl), ((refl, refl), tt))), tt);
}
