-- ===== src/Cron/Scheduler/Firing.antt =====
-- Which tasks the scheduler starts.
use mathlib.Core.List.{Memᴰ}
use gh_runner.Prelude.{
  ℕ, suc, ◌==◌, ◌<◌, ◌≡◌, refl, Bool, true, false, ◌&&◌, not, some, List, [], ◌∷◌, ◌++◌,
  if◌then◌else◌, leb, ◌⊎◌, arith, inl, inr, Bool-cases, All,
}
use gh_runner.Cron.Scheduler.{
  CronLibrary, JobConfig, run_immediately, JobEntry, Scheduler, dispatch_job, first_run, job_entry,
  put_entry, register_parsed, register_task, register_job, fire_due, fire_all, fire_due_jobs,
}

-- The tasks of one pool in flight.
unfoldable pub tasks_of : ℕ → List (ℕ × ℕ) → ℕ
tasks_of id [] = 0
tasks_of id ((o, x) ∷ ts) = if x == id then suc (tasks_of id ts) else tasks_of id ts

-- The entry's fire is not in the future.
abbrev pub is_due : {S : Type 0} → ℕ → JobEntry S → Bool
is_due now e = not (e.next_run == 0) && leb e.next_run now

-- The task was started for an entry of the list that was due and not running.
abbrev pub IsFired : {S : Type 0} → ℕ → List (JobEntry S) → ℕ × ℕ → Type 0
IsFired {S} now es (o, id) =
    (e : JobEntry S) × Memᴰ e es
    × (is_due now e ≡ true)
    × (e.running ≡ false)
    × (e.object ≡ o)
    × (e.pool_id ≡ id)

IsFired-there :
    {S : Type 0} (now : ℕ) (e : JobEntry S) (es : List (JobEntry S)) (ts : List (ℕ × ℕ))
    → All (IsFired now es) ts
    → All (IsFired now (e ∷ es)) ts
IsFired-there now e es [] h = tt
IsFired-there now e es ((o, id) ∷ ts) ((x, mem, due, rests, same, pool), hs) =
    ((x, Memᴰ.tail mem, due, rests, same, pool), IsFired-there now e es ts hs)

All-append {ℓ κ} :
    {A : Type ℓ} (P : A → Type κ) (xs ys : List A) → All P xs → All P ys → All P (xs ++ ys)
All-append P [] ys h hs = hs
All-append P (x ∷ xs) ys (h, hs) rest = (h, All-append P xs ys hs rest)

module _ (cron : CronLibrary) where
  open cron use {Schedule}

  fire_due-All :
      (P : ℕ × ℕ → Type 0) (now : ℕ) (e : JobEntry Schedule)
      → (is_due now e ≡ true → e.running ≡ false → P (e.object, e.pool_id))
      → All P (fire_due cron now e).1
  unfolding fire_due
  fire_due-All P now e h = elim (Bool-cases (is_due now e)) [
    | inl due ↦ elim (Bool-cases e.running) [
      | inl busy ↦ rw (due, busy) tt
      | inr rests ↦ let fired = h due rests in rw (due, rests) (fired, tt)
    ]
    | inr early ↦ rw early tt
  ]

  fire_due-IsFired :
      (now : ℕ) (e : JobEntry Schedule) (es : List (JobEntry Schedule))
      → All (IsFired now (e ∷ es)) (fire_due cron now e).1
  fire_due-IsFired now e es =
      fire_due-All (IsFired now (e ∷ es)) now e
        (λ due rests. (e, Memᴰ.head refl, due, rests, refl, refl))

  fire_all-IsFired :
      (now : ℕ) (es : List (JobEntry Schedule)) → All (IsFired now es) (fire_all cron now es).1
  unfolding fire_all
  fire_all-IsFired now [] = tt
  fire_all-IsFired now (e ∷ es) =
      All-append (IsFired now (e ∷ es)) (fire_due cron now e).1 (fire_all cron now es).1
        (fire_due-IsFired now e es)
        (IsFired-there now e es (fire_all cron now es).1 (fire_all-IsFired now es))

  -- A task in flight after fireDueJobs was in flight before or was started for a registered job that
  -- was due and not running; and none of those before is forgotten.
  pub fire_due_jobs-IsFired :
      (now : ℕ) (s : Scheduler Schedule)
      → (ts : List (ℕ × ℕ)) × ((fire_due_jobs cron now s).started ≡ ts ++ s.started)
        × All (IsFired now s.jobs) ts
  unfolding fire_due_jobs
  fire_due_jobs-IsFired now s = ((fire_all cron now s.jobs).1, refl, fire_all-IsFired now s.jobs)

  -- What robfig/cron documents of Next: a time after the given one, or the zero time where there is
  -- none in the next five years.
  abbrev pub MovesOn : Type 0
  MovesOn =
      (sched : Schedule) (time : ℕ) → (cron.next sched time ≡ 0) ⊎ (time < cron.next sched time)

  -- Registering a pool again on a running scheduler, with a missed fire that is to run at once,
  -- starts one more task of the pool, whether or not one of its tasks is in flight.
  pub register_job-tasks_of :
      (cfg : JobConfig) (task : ℕ) (sched : Schedule) (now : ℕ) (s : Scheduler Schedule)
      → cfg.task ≡ some task
      → cron.parse cfg.schedule ≡ some sched
      → s.stopped ≡ false
      → s.running ≡ true
      → (cfg.last_run == 0) ≡ false
      → cron.next sched cfg.last_run < now
      → cfg.missed_fire_policy ≡ run_immediately
      → tasks_of cfg.pool_id (register_job cron cfg now s).1.started
        ≡ suc (tasks_of cfg.pool_id s.started)
  unfolding register_job tasks_of
  register_job-tasks_of cfg task sched now s has_task parsed open_ runs before missed policy =
      unfold register_task register_parsed put_entry job_entry first_run dispatch_job in
      ground arith
