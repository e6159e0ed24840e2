-- ===== src/Orchestrator/Lifecycle/Boot.antt =====
-- internal/orchestrator/controller.go: Boot, HandleContainerEvent, TerminateRunner, Reload and the
-- readiness probe.
pub mod Events
use gh_runner.Prelude.{
  ℕ, ◌-◌, ◌*◌, ◌≤◌, ◌<◌, ◌≡◌, refl, ◌==◌, Bool, true, false, ◌&&◌, ◌||◌, not, Option, none, some,
  List, [], ◌∷◌, if◌then◌else◌, ltb,
}
use gh_runner.Prelude.Text.{GoString, codes, is_empty, text_eq}
use gh_runner.Orchestrator.Tracking.{untrack_runner}
use gh_runner.Orchestrator.Platform.{
  RunnerPool, Error, engine_unreachable, load_pools_failed, terminate_failed, Platform, Options,
}
use gh_runner.Orchestrator.Controller.{
  ControllerState, stopped, booting, running, paused, Controller, load_pools,
}
use gh_runner.Orchestrator.Controller.Queue.{drain_queue}
use gh_runner.Orchestrator.Controller.Pool.{reconcile_pool, validate_and_provision_pool}
use gh_runner.Orchestrator.Lifecycle.{
  ContainerEvent, is_inactive, terminate_if_engine, reap_container, run_audit, beat, reconcile,
}

module _ (P : Platform) (c : Options) where
  open P use {World}

  -- Steps 4 and 5 of Boot: an error of one pool is logged, and the others go on.
  unfoldable pub provision_pools : List RunnerPool → Controller World → Controller World
  provision_pools [] s = s
  provision_pools (p ∷ ps) s = provision_pools ps (validate_and_provision_pool P c p s).1

  boot_loaded : Option (List RunnerPool) → Controller World → Option Error × Controller World
  unfolding provision_pools
  boot_loaded none s = (some load_pools_failed, record s { state = stopped })
  boot_loaded (some ps) s = (none, beat P c (record (provision_pools ps s) { state = running }))

  -- Step 2 of Boot: the engine answers the ping, if there is an engine.
  unfoldable pub ping_engine : Controller World → Bool × Controller World
  ping_engine s =
      if c.has_engine
      then (let (up, w) = P.ping s.world in (up, record s { world = w }))
      else (true, s)

  unfoldable pub boot : Controller World → Option Error × Controller World
  unfolding boot_loaded ping_engine
  boot s =
      let starting = record s { state = booting } in
      let rebuilt = if c.has_reconciler then (run_audit P c starting).1 else starting in
      let (up, pinged) = ping_engine rebuilt in
      if up
      then (let (pools, w) = load_pools P c pinged.world in
          boot_loaded pools (record pinged { world = w }))
      else (some engine_unreachable, record pinged { state = stopped })

  replenish_named : GoString → List RunnerPool → Controller World → Option Error × Controller World
  replenish_named name [] s = (none, s)
  replenish_named name (p ∷ ps) s =
      let rest = replenish_named name ps s in
      if text_eq p.name name then reconcile_pool P c p s else rest

  replenish_loaded :
      GoString → Option (List RunnerPool) → Controller World → Option Error × Controller World
  unfolding replenish_named
  replenish_loaded name none s = (some load_pools_failed, s)
  replenish_loaded name (some ps) s = replenish_named name ps s

  -- The part of HandleContainerEvent behind the task handler.
  unfoldable pub handle_runner_exit :
      ContainerEvent → Controller World → Option Error × Controller World
  unfolding replenish_loaded
  handle_runner_exit e s =
      let s1 = reap_container P c e.container_id e.pool_name s in
      if is_empty e.pool_name
      then (none, s1)
      else (let (pools, w) = load_pools P c s1.world in
          replenish_loaded e.pool_name pools (record s1 { world = w }))

  -- A one-off task container: it is terminated, and the queue is drained.
  unfoldable pub handle_task_exit : ContainerEvent → Controller World → Controller World
  handle_task_exit e s =
      drain_queue P c (record s { world = terminate_if_engine P c e.container_id s.world })

  unfoldable pub handle_exit : ContainerEvent → Controller World → Option Error × Controller World
  unfolding handle_runner_exit handle_task_exit
  handle_exit e s =
      if c.has_task_exit_handler
      then (let log_path =
            if is_empty c.data_dir then [] else P.log_path c.data_dir e.container_id in
          let (answer, w) = P.handle_container_exit e.container_id e.exit_code log_path s.world in
          let s1 = record s { world = w } in
          if answer.0 then (none, handle_task_exit e s1) else handle_runner_exit e s1)
      else handle_runner_exit e s

  -- event.Action is "die" or "destroy".
  abbrev pub is_exit_action : GoString → Bool
  is_exit_action a = text_eq a (codes "die") || text_eq a (codes "destroy")

  unfoldable pub handle_container_event :
      ContainerEvent → Controller World → Option Error × Controller World
  unfolding handle_exit
  handle_container_event e s =
      if is_inactive s.state
      then (none, s)
      else if is_exit_action e.action
      then handle_exit e s
      else (none, s)

  -- The manual TerminateRunner of the RPC layer.
  unfoldable pub terminate_runner :
      GoString → GoString → Controller World → Option Error × Controller World
  terminate_runner pool_name id s =
      let (ok, w) = if c.has_engine then P.terminate_runner id s.world else (true, s.world) in
      if ok
      then (
        none,
        record s {
          tracked = if c.has_reconciler then untrack_runner pool_name id s.tracked else s.tracked;
          world = w;
        },
      )
      else (some terminate_failed, record s { world = w })

  unfoldable pub reload : Controller World → Option Error × Controller World
  reload s = reconcile P c s

pub data ReadyStatus : Type 0 where
  ready degraded not_ready : ReadyStatus

-- DefaultHeartbeatTimeout, in nanoseconds.
abbrev pub heartbeat_timeout : ℕ
heartbeat_timeout = 30 * 1_000_000_000

-- The probe of ReadinessCheck; time.Since is the difference to `now`.
unfoldable pub readiness : {W : Type 0} → ℕ → Controller W → ReadyStatus
readiness now s = elim s.state [
  | stopped ↦ not_ready
  | _ ↦
      if s.last_heartbeat == 0 || ltb heartbeat_timeout (now - s.last_heartbeat)
      then degraded
      else ready
]
