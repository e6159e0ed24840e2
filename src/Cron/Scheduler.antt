-- ===== src/Cron/Scheduler.antt =====
-- internal/cron/scheduler.go and job.go: the state under the scheduler's mutex. Times are
-- nanoseconds with 0 for the zero time. An entry keeps the number of its object: a started task
-- ends the run of the object it was started for, also when the table holds another by then.
pub mod Firing
pub mod Sync
pub mod Overlap
pub mod Objects
pub mod Database
use gh_runner.Prelude.{
  ℕ, ◌+◌, ◌==◌, Bool, true, false, ◌&&◌, ◌||◌, not, Option, none, some, List, [], ◌∷◌, ◌++◌,
  if◌then◌else◌, ltb, leb, is_some,
}
use gh_runner.Prelude.Text.{GoString}

pub data MissedFirePolicy : Type 0 where
  run_immediately skip : MissedFirePolicy

-- robfig/cron's parser, and the next fire of a parsed schedule after a time.
pub record CronLibrary : Type 1 where
  pub Schedule : Type 0
  pub parse : GoString → Option Schedule
  pub next : Schedule → ℕ → ℕ

pub data Error : Type 0 where
  nil_task invalid_schedule scheduler_stopped scheduler_running job_not_found : Error

-- `task` is a name for the function, `none` for nil.
pub record JobConfig : Type 0 where
  pub pool_id : ℕ
  pub schedule : GoString
  pub last_run : ℕ
  pub missed_fire_policy : MissedFirePolicy
  pub task : Option ℕ

pub record JobEntry (S : Type 0) : Type 0 where
  pub object : ℕ
  pub pool_id : ℕ
  pub expr : GoString
  pub schedule : S
  pub task : ℕ
  pub last_run : ℕ
  pub next_run : ℕ
  pub running : Bool
  pub missed_fire_policy : MissedFirePolicy
  pub pending_immediate : Bool

pub record JobInfo : Type 0 where
  pub pool_id : ℕ
  pub schedule : GoString
  pub next_run : ℕ
  pub last_run : ℕ
  pub is_running : Bool
  pub missed_fire_policy : MissedFirePolicy

-- `started` are the tasks in flight: the object each was started for, and its pool.
pub record Scheduler (S : Type 0) : Type 0 where
  pub jobs : List (JobEntry S)
  pub started : List (ℕ × ℕ)
  pub fresh : ℕ
  pub running : Bool
  pub stopped : Bool

unfoldable pub drop_started : ℕ → List (ℕ × ℕ) → List (ℕ × ℕ)
drop_started o [] = []
drop_started o ((x, id) ∷ ts) =
    let rest = drop_started o ts in if x == o then ts else (x, id) ∷ rest

module _ {S : Type 0} where
  -- The table is keyed by the pool's number.
  unfoldable pub find_job : ℕ → List (JobEntry S) → Option (JobEntry S)
  find_job id [] = none
  find_job id (e ∷ es) = let rest = find_job id es in if e.pool_id == id then some e else rest

  unfoldable pub remove_job : ℕ → List (JobEntry S) → List (JobEntry S)
  remove_job id [] = []
  remove_job id (e ∷ es) = let rest = remove_job id es in if e.pool_id == id then rest else e ∷ rest

  unfoldable pub unregister_job : ℕ → Scheduler S → Bool × Scheduler S
  unfolding find_job remove_job
  unregister_job id s = elim (find_job id s.jobs) [
    | none ↦ (false, s)
    | some _ ↦ (true, record s { jobs = remove_job id s.jobs })
  ]

  unfoldable pub has_job : ℕ → Scheduler S → Bool
  unfolding find_job
  has_job id s = is_some (find_job id s.jobs)

  unfoldable pub next_run : ℕ → Scheduler S → Option ℕ
  unfolding find_job
  next_run id s = elim (find_job id s.jobs) [ none ↦ none | some e ↦ some e.next_run ]

  abbrev job_info : JobEntry S → JobInfo
  job_info e = record {
    pool_id = e.pool_id;
    schedule = e.expr;
    next_run = e.next_run;
    last_run = e.last_run;
    is_running = e.running;
    missed_fire_policy = e.missed_fire_policy;
  }

  unfoldable pub get_job : ℕ → Scheduler S → Option JobInfo
  unfolding find_job
  get_job id s = elim (find_job id s.jobs) [ none ↦ none | some e ↦ some (job_info e) ]

  unfoldable pub list_jobs : List (JobEntry S) → List JobInfo
  list_jobs [] = []
  list_jobs (e ∷ es) = job_info e ∷ list_jobs es

  -- dispatchJobLocked: the entry, and the task it starts.
  unfoldable pub dispatch_job : ℕ → JobEntry S → JobEntry S × List (ℕ × ℕ)
  dispatch_job now e =
      if e.running
      then (e, [])
      else (record e { running = true; last_run = now }, (e.object, e.pool_id) ∷ [])

  -- The deferred function of a task: the object it was started for stops running.
  unfoldable pub clear_running : ℕ → List (JobEntry S) → List (JobEntry S)
  clear_running o [] = []
  clear_running o (e ∷ es) =
      (if e.object == o then record e { running = false } else e) ∷ clear_running o es

  unfoldable pub finish_task : ℕ → Scheduler S → Scheduler S
  unfolding clear_running drop_started
  finish_task o s = record s { jobs = clear_running o s.jobs; started = drop_started o s.started }

  -- The loop of Start over the entries that wait for an immediate run.
  unfoldable pub dispatch_pending : ℕ → List (JobEntry S) → List (JobEntry S) × List (ℕ × ℕ)
  unfolding dispatch_job
  dispatch_pending now [] = ([], [])
  dispatch_pending now (e ∷ es) =
      let (es', ts) = dispatch_pending now es in
      let (e', t) = dispatch_job now (record e { pending_immediate = false }) in
      if e.pending_immediate then (e' ∷ es', t ++ ts) else (e ∷ es', ts)

  unfoldable pub start : ℕ → Scheduler S → Option Error × Scheduler S
  unfolding dispatch_pending
  start now s =
      let (jobs, ts) = dispatch_pending now s.jobs in
      if s.running
      then (some scheduler_running, s)
      else if s.stopped
      then (some scheduler_stopped, s)
      else (none, record s { jobs = jobs; started = ts ++ s.started; running = true })

  unfoldable pub stop : Scheduler S → Scheduler S
  stop s = if not s.running || s.stopped then s else record s { stopped = true; running = false }

  -- earliestNextRunLocked, 0 where no job has a next run.
  unfoldable pub earliest_next_run : List (JobEntry S) → ℕ → ℕ
  earliest_next_run [] earliest = earliest
  earliest_next_run (e ∷ es) earliest =
      if e.next_run == 0
      then earliest_next_run es earliest
      else earliest_next_run es
          (if earliest == 0 || ltb e.next_run earliest then e.next_run else earliest)

module _ (cron : CronLibrary) where
  open cron use {Schedule}

  -- The two sides of the missed fire: whether the task runs at once, and the next run.
  unfoldable pub first_run : JobConfig → Schedule → ℕ → Bool × ℕ
  first_run cfg sched now =
      let expected = cron.next sched cfg.last_run in
      if cfg.last_run == 0
      then (false, cron.next sched now)
      else if ltb expected now
      then (
        elim cfg.missed_fire_policy [ run_immediately ↦ true | skip ↦ false ],
        cron.next sched now,
      )
      else (false, expected)

  unfoldable pub job_entry : JobConfig → Schedule → ℕ → ℕ → ℕ → JobEntry Schedule
  unfolding first_run
  job_entry cfg sched task now object =
      let (immediate, next) = first_run cfg sched now in
      record {
        object = object;
        pool_id = cfg.pool_id;
        expr = cfg.schedule;
        schedule = sched;
        task = task;
        last_run = cfg.last_run;
        next_run = next;
        running = false;
        missed_fire_policy = cfg.missed_fire_policy;
        pending_immediate = immediate;
      }

  -- s.jobs[cfg.PoolID] = entry, and the immediate dispatch.
  unfoldable pub put_entry : JobEntry Schedule → ℕ → Scheduler Schedule → Scheduler Schedule
  unfolding remove_job dispatch_job
  put_entry e now s =
      let (e', ts) = dispatch_job now (record e { pending_immediate = false }) in
      let others = remove_job e.pool_id s.jobs in
      if s.running && e.pending_immediate
      then record s { jobs = e' ∷ others; started = ts ++ s.started; fresh = s.fresh + 1 }
      else record s { jobs = e ∷ others; fresh = s.fresh + 1 }

  register_parsed :
      JobConfig → ℕ → Option Schedule → ℕ → Scheduler Schedule → Option Error × Scheduler Schedule
  unfolding put_entry job_entry
  register_parsed cfg task none now s = (some invalid_schedule, s)
  register_parsed cfg task (some sched) now s =
      if s.stopped
      then (some scheduler_stopped, s)
      else (none, put_entry (job_entry cfg sched task now s.fresh) now s)

  register_task : JobConfig → Option ℕ → ℕ → Scheduler Schedule → Option Error × Scheduler Schedule
  unfolding register_parsed
  register_task cfg none now s = (some nil_task, s)
  register_task cfg (some task) now s = register_parsed cfg task (cron.parse cfg.schedule) now s

  unfoldable pub register_job :
      JobConfig → ℕ → Scheduler Schedule → Option Error × Scheduler Schedule
  unfolding register_task
  register_job cfg now s = register_task cfg cfg.task now s

  abbrev pub desired : ℕ → List JobConfig → Bool
  desired id [] = false
  desired id (cfg ∷ cfgs) = cfg.pool_id == id || desired id cfgs

  -- The last loop of SyncJobs: jobs that are not configured are deleted.
  unfoldable pub keep_desired : List JobConfig → List (JobEntry Schedule) → List (JobEntry Schedule)
  keep_desired cfgs [] = []
  keep_desired cfgs (e ∷ es) =
      let rest = keep_desired cfgs es in if desired e.pool_id cfgs then e ∷ rest else rest

  -- if err != nil { return err }.
  abbrev pub if_ok :
      Option Error
      → Scheduler Schedule
      → Option Error × Scheduler Schedule
      → Option Error × Scheduler Schedule
  if_ok none s rest = rest
  if_ok (some e) s rest = (some e, s)

  register_all : List JobConfig → ℕ → Scheduler Schedule → Option Error × Scheduler Schedule
  unfolding register_job
  register_all [] now s = (none, s)
  register_all (cfg ∷ cfgs) now s =
      let (err, s') = register_job cfg now s in
      let rest = register_all cfgs now s' in if_ok err s' rest

  unfoldable pub sync_jobs :
      List JobConfig → ℕ → Scheduler Schedule → Option Error × Scheduler Schedule
  unfolding register_all keep_desired
  sync_jobs cfgs now s =
      let (err, s') = register_all cfgs now s in
      if_ok err s' (none, record s' { jobs = keep_desired cfgs s'.jobs })

  -- One round of fireDueJobs' loop.
  unfoldable pub fire_due : ℕ → JobEntry Schedule → JobEntry Schedule × List (ℕ × ℕ)
  fire_due now e =
      let next = cron.next e.schedule now in
      if not (e.next_run == 0) && leb e.next_run now
      then (if e.running then (record e { next_run = next }, []) else (
        record e { last_run = now; next_run = next; running = true },
        (e.object, e.pool_id) ∷ [],
      ))
      else (e, [])

  fire_all : ℕ → List (JobEntry Schedule) → List (JobEntry Schedule) × List (ℕ × ℕ)
  unfolding fire_due
  fire_all now [] = ([], [])
  fire_all now (e ∷ es) =
      let (e', t) = fire_due now e in let (es', ts) = fire_all now es in (e' ∷ es', t ++ ts)

  unfoldable pub fire_due_jobs : ℕ → Scheduler Schedule → Scheduler Schedule
  unfolding fire_all
  fire_due_jobs now s =
      let (jobs, ts) = fire_all now s.jobs in record s { jobs = jobs; started = ts ++ s.started }
