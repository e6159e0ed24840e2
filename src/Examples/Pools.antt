-- ===== src/Examples/Pools.antt =====
-- The theorems on pools, the queue and the audit at the small installation.
use mathlib.Core.List.{Sublist}
use gh_runner.Prelude.{
  ◌+◌, ◌≤◌, ◌<◌, ◌≡◌, ◌≢◌, refl, ap, subst, true, Option, none, some, List, [], ◌∷◌, ◌++◌, max,
  arith, All, count, keep,
}
use gh_runner.Prelude.Text.{GoString, is_empty, codes, text_eq}
use gh_runner.Prelude.Dict.{lookup, insert, weigh}
use gh_runner.Orchestrator.Controller.Spawn.{launch_runner, spawn_single_runner}
use gh_runner.Orchestrator.Tracking.{
  is_running, is_idle, running_one, running_in, tracked_pool_runners, pool_stats, pool_active,
  total_active, pool_map,
}
use gh_runner.Orchestrator.Tracking.Valid.{IsValid}
use gh_runner.Orchestrator.Audit.{audit}
use gh_runner.Orchestrator.Audit.Sync.{IsTracked}
use gh_runner.Orchestrator.Audit.Exact.{lists_id, audit_sync}
use gh_runner.Orchestrator.Platform.{RunnerPool}
use gh_runner.Orchestrator.Controller.{
  load_pool_targets, trimmed_targets, load_pools, queue_length_for_pool,
}
use gh_runner.Orchestrator.Controller.Queue.{
  enqueue_request, drain_requests, drain_request, process_queue, commit_queue, drain_queue,
}
use gh_runner.Orchestrator.Controller.Queue.Promises.{
  drain_queue-total, drain_queue-pool_active, commit_queue-enqueue_request_lost,
}
use gh_runner.Orchestrator.Controller.Pool.{converge, reconcile_pool}
use gh_runner.Orchestrator.Controller.Queue.Paused.{in_state, drain_queue-in_state}
use gh_runner.Orchestrator.Controller.{paused}
use gh_runner.Orchestrator.Controller.Pool.Limits.{
  reconcile_pool-total, reconcile_pool-pool_active, reconcile_pool-frame,
}
use gh_runner.Orchestrator.Controller.Pool.Demand.{
  converge-demand, loaded, reconcile_pool-pool_stats,
}
use gh_runner.Orchestrator.Lifecycle.{run_audit, reconcile}
use gh_runner.Orchestrator.Lifecycle.Quota.{reconcile-total}
use gh_runner.Examples.{
  installation, options, web_pool, idle_runner, busy_runner, repository, fleet, fleet-IsValid,
}

reconcile-total_example :
    let found = (run_audit installation options fleet).1 in
    let t = (reconcile installation options fleet).1 in
    (total_active t.tracked ≤ max (total_active found.tracked) (max 3 t.global_max_runners))
    × (t.state ≡ fleet.state)
    × IsValid t.tracked
reconcile-total_example =
    reconcile-total installation options fleet refl refl fleet-IsValid (omega arith)

reconcile_pool-total_example :
    let t = (reconcile_pool installation options web_pool fleet).1 in
    (total_active t.tracked ≤ max (total_active fleet.tracked) 3)
    × (t.global_max_runners ≡ 3)
    × (t.state ≡ fleet.state)
    × IsValid t.tracked
reconcile_pool-total_example =
    reconcile_pool-total installation options web_pool fleet fleet-IsValid (omega arith)

reconcile_pool-pool_active_example :
    pool_active (codes "web") (reconcile_pool installation options web_pool fleet).1.tracked
    ≤ max (pool_active (codes "web") fleet.tracked) 3
reconcile_pool-pool_active_example =
    reconcile_pool-pool_active installation options web_pool fleet fleet-IsValid (omega arith)

api_differs : codes "api" ≢ codes "web"
unfolding text_eq
api_differs e = let h = ap (λ s. text_eq s (codes "api")) e in cc

reconcile_pool-frame_example :
    pool_map (codes "api") (reconcile_pool installation options web_pool fleet).1.tracked
    ≡ pool_map (codes "api") fleet.tracked
reconcile_pool-frame_example =
    reconcile_pool-frame installation options web_pool fleet (codes "api") fleet-IsValid api_differs

converge-demand_example :
    let t =
      (converge installation options web_pool
        (some 7)
        (repository ∷ [])
        3
        (count is_running (tracked_pool_runners (codes "web") fleet.tracked))
        (keep is_idle (tracked_pool_runners (codes "web") fleet.tracked))
        fleet).1 in
    pool_active (codes "web") t.tracked + queue_length_for_pool (codes "web") t.queue
    ≤ max
        (pool_active (codes "web") fleet.tracked + queue_length_for_pool (codes "web") fleet.queue)
        3
converge-demand_example =
    converge-demand installation options web_pool (some 7) (repository ∷ []) 3 fleet fleet-IsValid

-- The same pool with its limit lowered to one runner.
abbrev small_pool : RunnerPool
small_pool = record web_pool { max_concurrency = 1; min_idle_runners = 1 }

has_target : (loaded installation options small_pool fleet).0 ≡ repository ∷ []
unfolding load_pool_targets trimmed_targets is_empty
has_target = refl

reconcile_pool-pool_stats_example :
    pool_active (codes "web") (reconcile_pool installation options small_pool fleet).1.tracked
    ≤ max (pool_stats (codes "web") fleet.tracked).0 1
reconcile_pool-pool_stats_example =
    reconcile_pool-pool_stats installation options small_pool fleet 7 repository [] fleet-IsValid
      (omega arith) refl refl refl has_target

drain_queue-total_example :
    let t = drain_queue installation options fleet in
    Sublist t.queue fleet.queue
    × (total_active t.tracked ≤ max (total_active fleet.tracked) 3)
    × (t.global_max_runners ≡ 3)
    × (t.state ≡ fleet.state)
    × IsValid t.tracked
drain_queue-total_example = drain_queue-total installation options fleet fleet-IsValid (omega arith)

abbrev or_nil : Option (List RunnerPool) → List RunnerPool
or_nil none = []
or_nil (some ps) = ps

-- The database lists the one pool, whose limit is three.
listed :
    (ps : List RunnerPool)
    → (load_pools installation options 10).0 ≡ some ps
    → All (λ p. p.name ≡ codes "web" → (0 < p.max_concurrency) × (p.max_concurrency ≤ 3)) ps
unfolding load_pools
listed ps e =
    subst
      (λ xs. All (λ p. p.name ≡ codes "web" → (0 < p.max_concurrency) × (p.max_concurrency ≤ 3)) xs)
      (ap or_nil e) ((λ _. (omega arith, omega arith)), tt)

drain_queue-pool_active_example :
    pool_active (codes "web") (drain_queue installation options fleet).tracked
    ≤ max (pool_active (codes "web") fleet.tracked) 3
drain_queue-pool_active_example =
    drain_queue-pool_active installation options fleet (codes "web") 3 listed

-- The queued request is served.
queue_served : (process_queue installation options fleet.queue fleet).0 ≡ some []
unfolding process_queue load_pools drain_requests drain_request total_active weigh running_in
    running_one text_eq lookup insert pool_active pool_map spawn_single_runner launch_runner
queue_served = refl

commit_queue-enqueue_request_lost_example :
    let t = (process_queue installation options fleet.queue fleet).1 in
    ((commit_queue installation options
        (some [])
        (enqueue_request installation options (codes "web") repository t)).queue
      ≡ [])
    × Sublist [] fleet.queue
    × ((enqueue_request installation options
          (codes "web")
          repository
          (commit_queue installation options (some []) t)).queue
        ≡ []
          ++ record {
            pool_name = codes "web";
            target_url = repository;
            created_at = (installation.now t.world).0;
          }
            ∷ [])
commit_queue-enqueue_request_lost_example =
    commit_queue-enqueue_request_lost installation options fleet (codes "web") repository []
      queue_served

audit_sync_example :
    let t' = (audit (idle_runner ∷ busy_runner ∷ []) fleet.tracked).1 in
    All (λ s. IsTracked s.pool_name s.id t') (idle_runner ∷ busy_runner ∷ [])
    × ((p id : GoString) → IsTracked p id t' → lists_id id (idle_runner ∷ busy_runner ∷ []) ≡ true)
    × IsValid t'
audit_sync_example = audit_sync (idle_runner ∷ busy_runner ∷ []) fleet.tracked fleet-IsValid

drain_queue-in_state_example :
    drain_queue installation options (in_state paused fleet)
    ≡ in_state paused (drain_queue installation options fleet)
drain_queue-in_state_example = drain_queue-in_state installation options paused fleet
