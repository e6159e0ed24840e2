-- ===== src/Examples/Jobs.antt =====
-- The theorems on the scheduler, the HTTP transport, the health tracker and container names at
-- concrete inputs.
use gh_runner.Prelude.{
  ℕ, suc, ◌+◌, ◌*◌, ◌≤◌, ◌≡◌, refl, true, false, none, some, List, [], ◌∷◌, ◌++◌, arith, length,
  All, if◌then◌else◌,
}
use gh_runner.Prelude.Text.{codes, is_empty}
use gh_runner.Orchestrator.Health.{new_health_tracker, record_success, down_threshold}
use gh_runner.Orchestrator.Health.Alerts.{alerts, any_late, record_failure-alerts}
use gh_runner.Orchestrator.Naming.{generate_container_name, is_slug_byte}
use gh_runner.Orchestrator.Naming.Bounds.{IsName, generate_container_name-fits}
use gh_runner.Cron.Scheduler.{
  CronLibrary, JobConfig, run_immediately, Scheduler, has_job, desired, register_job, sync_jobs,
  fire_due_jobs,
}
use gh_runner.Cron.Scheduler.Firing.{
  tasks_of, IsFired, fire_due_jobs-IsFired, register_job-tasks_of,
}
use gh_runner.Cron.Scheduler.Overlap.{
  in_flight, IsTruthful, HasDistinctObjects, fire_due_jobs-IsTruthful,
}
use gh_runner.Cron.Scheduler.Objects.{IsSound, register_job-IsSound}
use gh_runner.Cron.Scheduler.Sync.{sync_jobs-has_job}
use gh_runner.Provider.RateLimit.{
  RateLimitTracker, Network, Transport, Response, response_is_limited, round_trip,
}
use gh_runner.Provider.RateLimit.Delays.{
  InBounds, asked_wait, round_trip-delays, round_trip-asked_wait,
}
use gh_runner.Examples.{ascii}

-- Every schedule fires each hundred nanoseconds after the last fire.
abbrev hourly : CronLibrary
hourly = record { Schedule = ℕ; parse = λ s. some 100; next = λ period time. time + (period + 1) }

abbrev nightly_job : JobConfig
nightly_job = record {
  pool_id = 1;
  schedule = codes "0 2 * * *";
  last_run = 50;
  missed_fire_policy = run_immediately;
  task = some 9;
}

abbrev empty_scheduler : Scheduler ℕ
empty_scheduler = record { jobs = []; started = []; fresh = 0; running = true; stopped = false }

-- The scheduler with the job registered, whose missed task is in flight.
abbrev busy_scheduler : Scheduler ℕ
busy_scheduler = (register_job hourly nightly_job 1_000 empty_scheduler).1

abbrev synced_scheduler : Scheduler ℕ
synced_scheduler = (sync_jobs hourly (nightly_job ∷ []) 1_000 empty_scheduler).1

syncs : sync_jobs hourly (nightly_job ∷ []) 1_000 empty_scheduler ≡ (none, synced_scheduler)
unfolding sync_jobs register_job
syncs = refl

sync_jobs-has_job_example : has_job 1 synced_scheduler ≡ desired hourly 1 (nightly_job ∷ [])
sync_jobs-has_job_example =
    sync_jobs-has_job hourly (nightly_job ∷ []) 1_000 1 empty_scheduler synced_scheduler syncs

fire_due_jobs-IsFired_example :
    (ts : List (ℕ × ℕ)) × ((fire_due_jobs hourly 2_000 busy_scheduler).started
      ≡ ts ++ busy_scheduler.started)
    × All (IsFired 2_000 busy_scheduler.jobs) ts
fire_due_jobs-IsFired_example = fire_due_jobs-IsFired hourly 2_000 busy_scheduler

register_job-tasks_of_example :
    tasks_of 1 (register_job hourly nightly_job 3_000 busy_scheduler).1.started
    ≡ suc (tasks_of 1 busy_scheduler.started)
unfolding register_job
register_job-tasks_of_example =
    register_job-tasks_of hourly nightly_job 9 100 3_000 busy_scheduler refl refl refl refl refl
      (omega arith) refl

-- A server that always limits the rate and asks for two seconds.
abbrev limiting : Network
limiting = record {
  World = ℕ;
  round_trip = λ w. (
    some (record { status_code = 429; remaining = []; retry_after = codes "2"; reset = [] }),
    w + 1,
  );
  reset_body = λ w. (true, w);
  now = λ w. (w, w);
  sleep = λ d w. (true, w + d);
  jitter = λ d w. (0, w);
  parse_positive = λ s. some 2;
  parse_time = λ s. none;
}

abbrev github_transport : Transport
github_transport = record {
  provider_name = codes "github";
  base_delay = 1_000_000_000;
  max_backoff = 900 * 1_000_000_000;
  max_retries = 4;
  has_tracker = true;
  has_get_body = false;
}

abbrev clear_tracker : RateLimitTracker
clear_tracker = record { started_at = []; alert_raised = [] }

round_trip-delays_example :
    let o = round_trip limiting github_transport (λ s. s) clear_tracker 0 in
    All (InBounds github_transport) o.delays × (length o.delays ≤ 4)
round_trip-delays_example =
    round_trip-delays limiting github_transport (λ s. s) clear_tracker 0 (omega arith)

abbrev too_many_requests : Response
too_many_requests = record {
  status_code = 429;
  remaining = [];
  retry_after = codes "10000000000";
  reset = [];
}

-- A server that asks for ten billion seconds.
abbrev stubborn : Network
stubborn = record limiting {
  round_trip = λ w. (some too_many_requests, w + 1);
  parse_positive = λ s. some 10_000_000_000;
}

limits : response_is_limited too_many_requests ≡ true
unfolding response_is_limited
limits = refl

asks : is_empty too_many_requests.retry_after ≡ false
unfolding is_empty
asks = refl

round_trip-asked_wait_example :
    (ds : List ℕ) × ((round_trip stubborn github_transport (λ s. s) clear_tracker 0).delays
      ≡ asked_wait github_transport 10_000_000_000 ∷ ds)
round_trip-asked_wait_example =
    round_trip-asked_wait stubborn github_transport (λ s. s) too_many_requests 3 10_000_000_000
      clear_tracker 0 refl refl limits asks refl (omega arith) (omega arith)

record_failure-alerts_example :
    alerts (7 ∷ 8 ∷ 400 * 1_000_000_000 ∷ []) (record_success new_health_tracker).1
    ≡ (if any_late (7 + down_threshold) (8 ∷ 400 * 1_000_000_000 ∷ []) then 1 else 0)
record_failure-alerts_example =
    record_failure-alerts 7 (8 ∷ 400 * 1_000_000_000 ∷ []) new_health_tracker

hex-IsName : IsName (codes "abcdef")
unfolding is_slug_byte
hex-IsName = (refl, (refl, (refl, (refl, (refl, (refl, tt))))))

generate_container_name-fits_example :
    (length (generate_container_name ascii (codes "abcdef") (codes "Web Pool!")) ≤ 64)
    × IsName (generate_container_name ascii (codes "abcdef") (codes "Web Pool!"))
generate_container_name-fits_example =
    generate_container_name-fits ascii (codes "abcdef") (codes "Web Pool!") refl hex-IsName

busy-IsTruthful :
    HasDistinctObjects busy_scheduler.jobs × IsTruthful busy_scheduler.started busy_scheduler.jobs
unfolding register_job in_flight
busy-IsTruthful = ((tt, tt), (refl, tt))

fire_due_jobs-IsTruthful_example :
    let t = fire_due_jobs hourly 2_000 busy_scheduler in
    HasDistinctObjects t.jobs × IsTruthful t.started t.jobs
fire_due_jobs-IsTruthful_example =
    fire_due_jobs-IsTruthful hourly 2_000 busy_scheduler busy-IsTruthful.0 busy-IsTruthful.1

empty-IsSound : IsSound empty_scheduler
empty-IsSound = record { distinct = tt; truthful = tt; known = tt; older = tt }

register_job-IsSound_example : IsSound (register_job hourly nightly_job 1_000 empty_scheduler).1
register_job-IsSound_example =
    register_job-IsSound hourly nightly_job 1_000 empty_scheduler empty-IsSound
