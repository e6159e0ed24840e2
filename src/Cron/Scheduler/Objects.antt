-- ===== src/Cron/Scheduler/Objects.antt =====
-- Registration against the tasks in flight: a new entry is a new object.
use gh_runner.Prelude.{
  ℕ, ◌+◌, ◌==◌, ◌<◌, ◌≡◌, refl, Bool, true, false, ◌&&◌, Option, none, some, List, [], ◌∷◌,
  if◌then◌else◌, arith, inl, inr, Bool-cases, All,
}
use gh_runner.Cron.Scheduler.{
  CronLibrary, JobConfig, JobEntry, Scheduler, remove_job, dispatch_job, job_entry, put_entry,
  Error, scheduler_stopped, register_parsed, register_task, register_job,
}
use gh_runner.Cron.Scheduler.Overlap.{in_flight, IsTruthful, IsAbsent, HasDistinctObjects}

-- The objects in flight are older than the next one.
abbrev pub IsOlder : ℕ → List (ℕ × ℕ) → Type 0
IsOlder n ts = All (λ x. x.0 < n) ts

in_flight-IsOlder : (n : ℕ) (ts : List (ℕ × ℕ)) → IsOlder n ts → in_flight n ts ≡ 0
unfolding in_flight
in_flight-IsOlder n [] h = refl
in_flight-IsOlder n ((x, id) ∷ ts) h = ground (arith, h.0, in_flight-IsOlder n ts h.1)

IsOlder-suc : (n : ℕ) (ts : List (ℕ × ℕ)) → IsOlder n ts → IsOlder (n + 1) ts
IsOlder-suc n [] h = tt
IsOlder-suc n ((x, id) ∷ ts) h = (omega (arith, h.0), IsOlder-suc n ts h.1)

one : (o id : ℕ) (ts : List (ℕ × ℕ)) → in_flight o ts ≡ 0 → in_flight o ((o, id) ∷ ts) ≡ 1
unfolding in_flight
one o id ts h = ground (arith, h)

module _ {S : Type 0} where
  -- The entries are older than the next object.
  abbrev pub IsKnown : ℕ → List (JobEntry S) → Type 0
  IsKnown n es = All (λ e. e.object < n) es

  All-remove_job :
      (P : JobEntry S → Type 0) (id : ℕ) (es : List (JobEntry S))
      → All P es
      → All P (remove_job id es)
  unfolding remove_job
  All-remove_job P id [] h = tt
  All-remove_job P id (e ∷ es) h = elim (Bool-cases (e.pool_id == id)) [
    | inl same ↦ rw same (All-remove_job P id es h.1)
    | inr other ↦ rw other (h.0, All-remove_job P id es h.1)
  ]

  remove_job-HasDistinctObjects :
      (id : ℕ) (es : List (JobEntry S))
      → HasDistinctObjects es
      → HasDistinctObjects (remove_job id es)
  unfolding remove_job
  remove_job-HasDistinctObjects id [] h = tt
  remove_job-HasDistinctObjects id (e ∷ es) h = elim (Bool-cases (e.pool_id == id)) [
    | inl same ↦ rw same (remove_job-HasDistinctObjects id es h.1)
    | inr other ↦
        let absent = All-remove_job (λ x. (e.object == x.object) ≡ false) id es h.0 in
        rw other (absent, remove_job-HasDistinctObjects id es h.1)
  ]

  IsKnown-IsAbsent : (n : ℕ) (es : List (JobEntry S)) → IsKnown n es → IsAbsent n es
  IsKnown-IsAbsent n [] h = tt
  IsKnown-IsAbsent n (e ∷ es) h = (ground (arith, h.0), IsKnown-IsAbsent n es h.1)

  IsKnown-suc : (n : ℕ) (es : List (JobEntry S)) → IsKnown n es → IsKnown (n + 1) es
  IsKnown-suc n [] h = tt
  IsKnown-suc n (e ∷ es) h = (omega (arith, h.0), IsKnown-suc n es h.1)

  -- A task of a new object does not count for the known ones.
  new-IsTruthful :
      (n id : ℕ) (ts : List (ℕ × ℕ)) (es : List (JobEntry S))
      → IsKnown n es
      → IsTruthful ts es
      → IsTruthful ((n, id) ∷ ts) es
  unfolding in_flight
  new-IsTruthful n id ts [] h truth = tt
  new-IsTruthful n id ts (e ∷ es) h truth =
      (ground (arith, h.0, truth.0), new-IsTruthful n id ts es h.1 truth.1)

  -- The flags tell the truth, and the objects are distinct and known.
  pub record IsSound (s : Scheduler S) : Type 0 where
    pub distinct : HasDistinctObjects s.jobs
    pub truthful : IsTruthful s.started s.jobs
    pub known : IsKnown s.fresh s.jobs
    pub older : IsOlder s.fresh s.started

module _ (cron : CronLibrary) where
  open cron use {Schedule}

  -- The table with a new entry of that flag in place of the pool's old one.
  renewed-IsSound :
      (s : Scheduler Schedule) (e : JobEntry Schedule) (ts : List (ℕ × ℕ))
      → IsSound s
      → e.object ≡ s.fresh
      → IsTruthful ts (e ∷ remove_job e.pool_id s.jobs)
      → IsOlder (s.fresh + 1) ts
      → IsSound
          (record s { jobs = e ∷ remove_job e.pool_id s.jobs; started = ts; fresh = s.fresh + 1 })
  renewed-IsSound s e ts sound new truth older =
      let known = All-remove_job (λ x. x.object < s.fresh) e.pool_id s.jobs sound.known in
      record {
        distinct = (
          rw new (IsKnown-IsAbsent s.fresh (remove_job e.pool_id s.jobs) known),
          remove_job-HasDistinctObjects e.pool_id s.jobs sound.distinct,
        );
        truthful = truth;
        known = (omega (arith, new), IsKnown-suc s.fresh (remove_job e.pool_id s.jobs) known);
        older = older;
      }

  put_entry-IsSound :
      (e : JobEntry Schedule) (now : ℕ) (s : Scheduler Schedule)
      → IsSound s
      → e.object ≡ s.fresh
      → e.running ≡ false
      → IsSound (put_entry cron e now s)
  unfolding put_entry dispatch_job
  put_entry-IsSound e now s sound new rests =
      let others = remove_job e.pool_id s.jobs in
      let known = All-remove_job (λ x. x.object < s.fresh) e.pool_id s.jobs sound.known in
      let truth =
        All-remove_job (λ x. in_flight x.object s.started ≡ (if x.running then 1 else 0)) e.pool_id
          s.jobs sound.truthful in
      let idle = in_flight-IsOlder s.fresh s.started sound.older in
      elim (Bool-cases (s.running && e.pending_immediate)) [
        | inl starts ↦
            let e' = record e { pending_immediate = false; running = true; last_run = now } in
            let known' : IsKnown e.object others = rw new known in
            let own : in_flight e.object s.started ≡ 0 = rw new idle in
            rw (starts, rests)
              (renewed-IsSound s e' ((e.object, e.pool_id) ∷ s.started) sound new
                (
                  one e.object e.pool_id s.started own,
                  new-IsTruthful e.object e.pool_id s.started others known' truth,
                )
                (omega (arith, new), IsOlder-suc s.fresh s.started sound.older))
        | inr waits ↦ rw waits (
            renewed-IsSound s e s.started sound new (ground (arith, idle, new, rests), truth)
              (IsOlder-suc s.fresh s.started sound.older))
      ]

  if-IsSound :
      (test : Bool) (s t : Scheduler Schedule)
      → IsSound s
      → IsSound t
      → IsSound
          (if◌then◌else◌ {A = Option Error × Scheduler Schedule} test
            (some scheduler_stopped, s)
            (none, t)).1
  if-IsSound true s t a b = a
  if-IsSound false s t a b = b

  register_parsed-IsSound :
      (cfg : JobConfig) (task : ℕ) (sched : Option Schedule) (now : ℕ) (s : Scheduler Schedule)
      → IsSound s
      → IsSound (register_parsed cron cfg task sched now s).1
  unfolding register_parsed job_entry
  register_parsed-IsSound cfg task none now s sound = sound
  register_parsed-IsSound cfg task (some sched) now s sound =
      let put =
        put_entry-IsSound (job_entry cron cfg sched task now s.fresh) now s sound refl refl in
      if-IsSound s.stopped s (put_entry cron (job_entry cron cfg sched task now s.fresh) now s)
        sound put

  register_task-IsSound :
      (cfg : JobConfig) (task : Option ℕ) (now : ℕ) (s : Scheduler Schedule)
      → IsSound s
      → IsSound (register_task cron cfg task now s).1
  unfolding register_task
  register_task-IsSound cfg none now s sound = sound
  register_task-IsSound cfg (some task) now s sound =
      register_parsed-IsSound cfg task (cron.parse cfg.schedule) now s sound

  -- Registering a job, with or without an error, keeps the table sound: no two entries are the same
  -- object, each has one task in flight exactly if it is marked as running, and a new entry is
  -- never confused with the tasks of an entry that it replaces.
  pub register_job-IsSound :
      (cfg : JobConfig) (now : ℕ) (s : Scheduler Schedule)
      → IsSound s
      → IsSound (register_job cron cfg now s).1
  unfolding register_job
  register_job-IsSound cfg now s sound = register_task-IsSound cfg cfg.task now s sound
