-- ===== src/Cron/Scheduler/Database.antt =====
-- internal/cron/scheduler.go: SyncFromDB. The resolver of the last run and the factory of tasks, which
-- may be nil or give nil, are parameters; a task is a name.
use gh_runner.Prelude.{
  ℕ, ◌≡◌, refl, sym, ◌∙◌, Bool, true, false, ◌&&◌, ◌||◌, not, Option, none, some, List, [], ◌∷◌,
  if◌then◌else◌,
}
use gh_runner.Prelude.Text.{GoString, is_empty}
use gh_runner.Cron.Scheduler.{
  CronLibrary, run_immediately, JobConfig, Scheduler, register_job, desired, keep_desired, has_job,
}
use gh_runner.Cron.Scheduler.Sync.{has-keep_desired}

-- A row of renovate_configs; `none` is NULL.
pub record RenovateConfig : Type 0 where
  pub pool_id : ℕ
  pub enabled : Bool
  pub cron_schedule : Option GoString
  pub image : GoString

pub record Resolvers : Type 0 where
  pub last_run : Option (ℕ → ℕ)
  pub task_factory : Option (ℕ → GoString → Option ℕ)
  pub stub : ℕ

resolved_run : Option (ℕ → ℕ) → ℕ → ℕ
resolved_run none id = 0
resolved_run (some f) id = f id

or_stub : ℕ → Option ℕ → Option ℕ
or_stub stub none = some stub
or_stub stub (some t) = some t

made_task : Resolvers → Option (ℕ → GoString → Option ℕ) → ℕ → GoString → Option ℕ
unfolding or_stub
made_task r none id image = some r.stub
made_task r (some factory) id image = or_stub r.stub (factory id image)

job_of : Resolvers → RenovateConfig → GoString → JobConfig
unfolding resolved_run made_task
job_of r cfg schedule = record {
  pool_id = cfg.pool_id;
  schedule = schedule;
  last_run = resolved_run r.last_run cfg.pool_id;
  missed_fire_policy = run_immediately;
  task = made_task r r.task_factory cfg.pool_id cfg.image;
}

-- The rows that are not skipped, as jobs.
wanted_job : Resolvers → RenovateConfig → Option GoString → List JobConfig → List JobConfig
unfolding job_of
wanted_job r cfg none rest = rest
wanted_job r cfg (some schedule) rest =
    if not cfg.enabled || is_empty schedule then rest else job_of r cfg schedule ∷ rest

unfoldable pub wanted_jobs : Resolvers → List RenovateConfig → List JobConfig
unfolding wanted_job
wanted_jobs r [] = []
wanted_jobs r (cfg ∷ cfgs) =
    let rest = wanted_jobs r cfgs in wanted_job r cfg cfg.cron_schedule rest

first_true : (a b : Bool) → (a && b) ≡ true → a ≡ true
first_true true b h = refl
first_true false b h = cc

module _ (cron : CronLibrary) where
  open cron use {Schedule}

  -- A job that cannot be registered is only logged.
  register_each : List JobConfig → ℕ → Scheduler Schedule → Scheduler Schedule
  unfolding register_job
  register_each [] now s = s
  register_each (cfg ∷ cfgs) now s =
      let (err, s') = register_job cron cfg now s in register_each cfgs now s'

  sync_listed : List JobConfig → ℕ → Scheduler Schedule → Scheduler Schedule
  unfolding register_each keep_desired
  sync_listed cfgs now s =
      let s' = register_each cfgs now s in record s' { jobs = keep_desired cron cfgs s'.jobs }

  -- The reader is `none` for nil, and its answer `none` for an error; the result says whether there
  -- was no error.
  unfoldable pub sync_from_db :
      Resolvers
      → Option (Option (List RenovateConfig))
      → ℕ
      → Scheduler Schedule
      → Bool × Scheduler Schedule
  unfolding sync_listed wanted_jobs
  sync_from_db r none now s = (true, s)
  sync_from_db r (some none) now s = (false, s)
  sync_from_db r (some (some cfgs)) now s = (true, sync_listed (wanted_jobs r cfgs) now s)

  -- After the rows were read, every job that is in the table is one of an enabled row.
  sync_from_db-desired :
      (r : Resolvers) (cfgs : List RenovateConfig) (now id : ℕ) (s : Scheduler Schedule)
      → has_job id (sync_from_db r (some (some cfgs)) now s).1 ≡ true
      → desired cron id (wanted_jobs r cfgs) ≡ true
  unfolding sync_from_db sync_listed has_job
  sync_from_db-desired r cfgs now id s h =
      let kept =
        has-keep_desired cron (wanted_jobs r cfgs) id
          (register_each (wanted_jobs r cfgs) now s).jobs in
      first_true (desired cron id (wanted_jobs r cfgs)) _ (sym kept ∙ h)
