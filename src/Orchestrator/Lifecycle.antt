-- ===== src/Orchestrator/Lifecycle.antt =====
-- internal/orchestrator/controller.go: the control loop. Reconcile and the event handlers hold
-- provisionMu, so that one call is one function of the state; Boot runs before they start.
pub mod Settings
pub mod Keeps
pub mod Loop
pub mod Quota
pub mod Boot
pub mod Shutdown
use gh_runner.Prelude.{
  ℕ, ◌+◌, ◌-◌, ◌*◌, ◌==◌, Bool, true, false, ◌&&◌, ◌||◌, not, Option, none, some, List, [], ◌∷◌,
  ◌++◌, if◌then◌else◌, ltb, leb, keep, is_some,
}
use gh_runner.Prelude.Text.{GoString, codes, is_empty, text_eq}
use gh_runner.Prelude.Dict.{Dict, lookup}
use gh_runner.Orchestrator.Tracking.{
  RunnerStatus, Tracked, is_running, tracked_pool_runners, untrack_runner,
}
use gh_runner.Orchestrator.Audit.{AuditReport, audit}
use gh_runner.Orchestrator.Platform.{
  RunnerPool, ProvisionRequest, Error, controller_stopped, engine_unreachable, load_pools_failed,
  terminate_failed, Platform, Options,
}
use gh_runner.Orchestrator.Controller.{
  ControllerState, stopped, booting, running, paused, Controller, load_pools, capture_exit_logs,
}
use gh_runner.Orchestrator.Controller.Spawn.{drain_runner}
use gh_runner.Orchestrator.Controller.Queue.{drain_queue}
use gh_runner.Orchestrator.Controller.Pool.{reconcile_pool, validate_and_provision_pool}
use gh_runner.Orchestrator.Lifecycle.Settings.{atoi_positive}

pub record ContainerEvent : Type 0 where
  pub container_id : GoString
  pub pool_name : GoString
  pub action : GoString
  pub exit_code : ℕ

-- state == StatePaused || state == StateStopped
abbrev pub is_inactive : ControllerState → Bool
is_inactive stopped = true
is_inactive paused = true
is_inactive booting = false
is_inactive running = false

module _ {W : Type 0} where
  pause_from : ControllerState → Controller W → Controller W
  pause_from running s = record s { state = paused }
  pause_from stopped s = s
  pause_from booting s = s
  pause_from paused s = s

  unfoldable pub pause : Controller W → Controller W
  unfolding pause_from
  pause s = pause_from s.state s

  resume_from : ControllerState → Controller W → Controller W
  resume_from paused s = record s { state = running }
  resume_from stopped s = s
  resume_from booting s = s
  resume_from running s = s

  unfoldable pub resume : Controller W → Controller W
  unfolding resume_from
  resume s = resume_from s.state s

  -- The queue without the requests of a pool.
  unfoldable pub forget_requests : GoString → Controller W → Controller W
  unfolding keep
  forget_requests name s = record s { queue = keep (λ r. not (text_eq r.pool_name name)) s.queue }

-- The names that are tracked and belong to no current pool.
is_current : GoString → List RunnerPool → Bool
is_current name [] = false
is_current name (p ∷ ps) = text_eq p.name name || is_current name ps

unfoldable pub removed_pools : Tracked → List RunnerPool → List GoString
unfolding is_current
removed_pools [] ps = []
removed_pools ((name, m) ∷ t) ps =
    let rest = removed_pools t ps in if is_current name ps then rest else name ∷ rest

module _ (P : Platform) (c : Options) where
  open P use {World}

  unfoldable pub terminate_if_engine : GoString → World → World
  terminate_if_engine id w = if c.has_engine then (P.terminate_runner id w).1 else w

  unfoldable pub reap_container : GoString → GoString → Controller World → Controller World
  unfolding terminate_if_engine
  reap_container id pool_name s = drain_queue P c (record s {
    tracked = if c.has_reconciler then untrack_runner pool_name id s.tracked else s.tracked;
    world = terminate_if_engine id (capture_exit_logs P c id s.world);
  })

  unfoldable pub reap_all : List RunnerStatus → Controller World → Controller World
  unfolding reap_container
  reap_all [] s = s
  reap_all (r ∷ rs) s = reap_all rs (reap_container r.id r.pool_name s)

  audit_answer :
      Option (List RunnerStatus) → Controller World → Option AuditReport × Controller World
  audit_answer none s = (none, s)
  audit_answer (some statuses) s =
      let (report, t) = audit statuses s.tracked in (some report, record s { tracked = t })

  -- Reconciler.Audit; `none` is its error.
  unfoldable pub run_audit : Controller World → Option AuditReport × Controller World
  unfolding audit_answer
  run_audit s =
      if c.has_engine
      then (let (answer, w) = P.audit_runners s.world in
          audit_answer answer (record s { world = w }))
      else (none, s)

  unfoldable pub reap_exited : Option AuditReport × Controller World → Controller World
  unfolding reap_all
  reap_exited (none, s) = s
  reap_exited (some report, s) = reap_all report.exited s

  set_limit : Option ℕ → Controller World → Controller World
  set_limit none s = s
  set_limit (some n) s = record s { global_max_runners = n }

  read_limit : Option GoString → Controller World → Controller World
  unfolding set_limit
  read_limit none s = s
  read_limit (some value) s = set_limit (atoi_positive value) s

  -- Step 2 of Reconcile: the setting total_allowed_runners replaces the quota, if it is a number
  -- above 0.
  unfoldable pub refresh_settings : Controller World → Controller World
  unfolding read_limit
  refresh_settings s =
      if c.has_app_settings
      then (let (value, w) = P.get_app_setting (codes "total_allowed_runners") s.world in
          read_limit value (record s { world = w }))
      else s

  unfoldable pub drain_runners : GoString → List RunnerStatus → Controller World → Controller World
  drain_runners name [] s = s
  drain_runners name (r ∷ rs) s =
      let s' = if is_running r then drain_runner P c name r s else s in drain_runners name rs s'

  unfoldable pub drain_pool : GoString → Controller World → Controller World
  unfolding drain_runners forget_requests
  drain_pool name s =
      if c.has_engine && c.has_reconciler
      then forget_requests name (drain_runners name (tracked_pool_runners name s.tracked) s)
      else s

  unfoldable pub drain_pools : List GoString → Controller World → Controller World
  unfolding drain_pool
  drain_pools [] s = s
  drain_pools (name ∷ names) s = drain_pools names (drain_pool name s)

  -- r.State == "running", a start time, and a longer run than the pool allows.
  unfoldable pub is_hung : RunnerPool → ℕ → RunnerStatus → Bool
  is_hung p now r =
      is_running r
      && (ltb 0 r.spawned_at
          && ltb (p.max_runner_lifetime_seconds * 1_000_000_000) (now - r.spawned_at))

  abbrev or_blank : Option GoString → GoString
  or_blank none = []
  or_blank (some path) = path

  terminate_hung : RunnerPool → ℕ → RunnerStatus → World → World
  terminate_hung p now r w =
      let (log_path, w1) =
        (if is_empty c.data_dir then (none, w) else P.capture_logs r.id c.data_dir w) in
      let (_, w2) = P.terminate_runner r.id w1 in
      let name = if is_empty r.name then r.id else r.name in
      if c.has_job_recorder
      then (P.record_job_timeout p.id name (or_blank log_path) r.spawned_at now w2).1
      else w2

  -- One hung runner: it is terminated and untracked, and the queue is drained.
  unfoldable pub reap_hung : RunnerPool → ℕ → RunnerStatus → Controller World → Controller World
  unfolding terminate_hung
  reap_hung p now r s = drain_queue P c (record s {
    tracked = untrack_runner p.name r.id s.tracked;
    world = terminate_hung p now r s.world;
  })

  unfoldable pub reap_hung_runners :
      RunnerPool → ℕ → List RunnerStatus → Controller World → Controller World
  unfolding is_hung reap_hung
  reap_hung_runners p now [] s = s
  reap_hung_runners p now (r ∷ rs) s =
      let s' = if is_hung p now r then reap_hung p now r s else s in reap_hung_runners p now rs s'

  unfoldable pub check_pools : ℕ → List RunnerPool → Controller World → Controller World
  unfolding reap_hung_runners
  check_pools now [] s = s
  check_pools now (p ∷ ps) s =
      let s' =
        if p.max_runner_lifetime_seconds == 0
        then s
        else reap_hung_runners p now (tracked_pool_runners p.name s.tracked) s in
      check_pools now ps s'

  -- checkHungRunners.
  unfoldable pub check_hung_runners : List RunnerPool → Controller World → Controller World
  unfolding check_pools
  check_hung_runners ps s =
      if c.has_engine && c.has_reconciler
      then (let (now, w) = P.now s.world in check_pools now ps (record s { world = w }))
      else s

  -- Step 7 of Reconcile: an error of one pool is logged, and the others go on.
  unfoldable pub reconcile_pools : List RunnerPool → Controller World → Controller World
  reconcile_pools [] s = s
  reconcile_pools (p ∷ ps) s = reconcile_pools ps (reconcile_pool P c p s).1

  unfoldable pub beat : Controller World → Controller World
  beat s = let (now, w) = P.now s.world in record s { last_heartbeat = now; world = w }

  -- Steps 5 to 7 of Reconcile.
  unfoldable pub reconcile_loaded :
      Option (List RunnerPool) → Controller World → Option Error × Controller World
  unfolding drain_pools check_hung_runners reconcile_pools beat removed_pools
  reconcile_loaded none s = (some load_pools_failed, s)
  reconcile_loaded (some ps) s =
      let removed = if c.has_reconciler then removed_pools s.tracked ps else [] in
      (none, beat (reconcile_pools ps (check_hung_runners ps (drain_pools removed s))))

  -- Step 1 of Reconcile: the audit, and the reaping of the containers that it found exited.
  unfoldable pub audit_cycle : Controller World → Controller World
  unfolding run_audit reap_exited
  audit_cycle s = if c.has_reconciler then reap_exited (run_audit s) else s

  -- Steps 3 to 7 of Reconcile.
  unfoldable pub reconcile_rest : Controller World → Option Error × Controller World
  unfolding reconcile_loaded
  reconcile_rest s =
      let s1 = drain_queue P c s in
      let (pools, w) = load_pools P c s1.world in reconcile_loaded pools (record s1 { world = w })

  unfoldable pub reconcile : Controller World → Option Error × Controller World
  unfolding audit_cycle refresh_settings reconcile_rest
  reconcile s =
      if is_inactive s.state then (none, s) else reconcile_rest (refresh_settings (audit_cycle s))
