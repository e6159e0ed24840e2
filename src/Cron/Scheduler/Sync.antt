-- ===== src/Cron/Scheduler/Sync.antt =====
-- The registered jobs after SyncJobs.
use gh_runner.Prelude.{
  ℕ, ◌==◌, ◌≡◌, refl, sym, ap, subst, Bool, true, false, ◌&&◌, ◌||◌, Option, none, some, List, [],
  ◌∷◌, if◌then◌else◌, arith, inl, inr, Bool-cases, is_some,
}
use gh_runner.Cron.Scheduler.{
  CronLibrary, Error, scheduler_stopped, if_ok, JobConfig, JobEntry, Scheduler, find_job,
  remove_job, has_job, dispatch_job, job_entry, put_entry, register_parsed, register_task,
  register_job, desired, keep_desired, register_all, sync_jobs,
}

-- Whether a job of the pool is in the table.
abbrev has : {S : Type 0} → ℕ → List (JobEntry S) → Bool
has id es = is_some (find_job id es)

has-remove_job :
    {S : Type 0} (id key : ℕ) (es : List (JobEntry S))
    → (key == id) ≡ false
    → has id (remove_job key es) ≡ has id es
unfolding find_job remove_job is_some
has-remove_job id key [] h = refl
has-remove_job id key (e ∷ es) h = ground (arith, has-remove_job id key es h)

module _ (cron : CronLibrary) where
  open cron use {Schedule}

  pub has-keep_desired :
      (cfgs : List JobConfig) (id : ℕ) (es : List (JobEntry Schedule))
      → has id (keep_desired cron cfgs es) ≡ (desired cron id cfgs && has id es)
  unfolding find_job keep_desired is_some
  has-keep_desired cfgs id [] = ground arith
  has-keep_desired cfgs id (e ∷ es) =
      let ih = has-keep_desired cfgs id es in
      elim (Bool-cases (e.pool_id == id)) [ inl same ↦ ground arith | inr other ↦ ground arith ]

  has-put_entry :
      (e : JobEntry Schedule) (now id : ℕ) (s : Scheduler Schedule)
      → has id (put_entry cron e now s).jobs ≡ (e.pool_id == id || has id s.jobs)
  unfolding put_entry dispatch_job find_job is_some
  has-put_entry e now id s = elim (Bool-cases (e.pool_id == id)) [
    | inl same ↦ ground arith
    | inr other ↦ ground (arith, has-remove_job id e.pool_id s.jobs other)
  ]

  if-none :
      (b : Bool) (err : Error) (s x t : Scheduler Schedule)
      → ◌≡◌ {A = Option Error × Scheduler Schedule}
          (if b then (some err, s) else (none, x))
          (none, t)
      → x ≡ t
  if-none true err s x t e = cc
  if-none false err s x t e = ap (λ r. r.1) e

  if_ok-none :
      (err : Option Error) (s : Scheduler Schedule) (rest : Option Error × Scheduler Schedule)
      (t : Scheduler Schedule)
      → if_ok cron err s rest ≡ (none, t)
      → (err ≡ none) × (rest ≡ (none, t))
  if_ok-none none s rest t e = (refl, e)
  if_ok-none (some err) s rest t e = cc

  register_parsed-has :
      (cfg : JobConfig) (task : ℕ) (sched : Option Schedule) (now id : ℕ) (s t : Scheduler Schedule)
      → register_parsed cron cfg task sched now s ≡ (none, t)
      → has id t.jobs ≡ (cfg.pool_id == id || has id s.jobs)
  unfolding register_parsed job_entry
  register_parsed-has cfg task none now id s t e = cc
  register_parsed-has cfg task (some sched) now id s t e =
      let entry = job_entry cron cfg sched task now s.fresh in
      let put = has-put_entry entry now id s in
      subst (λ x. has id x.jobs ≡ (cfg.pool_id == id || has id s.jobs))
        (if-none s.stopped scheduler_stopped s (put_entry cron entry now s) t e) put

  register_task-has :
      (cfg : JobConfig) (task : Option ℕ) (now id : ℕ) (s t : Scheduler Schedule)
      → register_task cron cfg task now s ≡ (none, t)
      → has id t.jobs ≡ (cfg.pool_id == id || has id s.jobs)
  unfolding register_task
  register_task-has cfg none now id s t e = cc
  register_task-has cfg (some task) now id s t e =
      register_parsed-has cfg task (cron.parse cfg.schedule) now id s t e

  register_job-has :
      (cfg : JobConfig) (now id : ℕ) (s t : Scheduler Schedule)
      → register_job cron cfg now s ≡ (none, t)
      → has id t.jobs ≡ (cfg.pool_id == id || has id s.jobs)
  unfolding register_job
  register_job-has cfg now id s t e = register_task-has cfg cfg.task now id s t e

  register_all-has :
      (cfgs : List JobConfig) (now id : ℕ) (s t : Scheduler Schedule)
      → register_all cron cfgs now s ≡ (none, t)
      → has id t.jobs ≡ (desired cron id cfgs || has id s.jobs)
  unfolding register_all
  register_all-has [] now id s t e = ap (λ r. has id r.1.jobs) (sym e)
  register_all-has (cfg ∷ cfgs) now id s t e =
      let first = register_job cron cfg now s in
      let (ok, rest) = if_ok-none first.0 first.1 (register_all cron cfgs now first.1) t e in
      let later = register_all-has cfgs now id first.1 t rest in
      let here = register_job-has cfg now id s first.1 (ap (λ x. (x, first.1)) ok) in ground arith

  -- A SyncJobs that returns no error leaves exactly the configured pools registered.
  pub sync_jobs-has_job :
      (cfgs : List JobConfig) (now id : ℕ) (s t : Scheduler Schedule)
      → sync_jobs cron cfgs now s ≡ (none, t)
      → has_job id t ≡ desired cron id cfgs
  unfolding sync_jobs has_job
  sync_jobs-has_job cfgs now id s t e =
      let all = register_all cron cfgs now s in
      let (ok, kept) =
        if_ok-none all.0 all.1 (none, record all.1 { jobs = keep_desired cron cfgs all.1.jobs }) t
          e in
      let registered = register_all-has cfgs now id s all.1 (ap (λ x. (x, all.1)) ok) in
      let keeps = has-keep_desired cfgs id all.1.jobs in
      let same = ap (λ r. has id r.1.jobs) kept in ground arith
