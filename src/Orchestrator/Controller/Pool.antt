-- ===== src/Orchestrator/Controller/Pool.antt =====
-- internal/orchestrator/controller.go: reconcilePool and its parts. The counts are natural numbers:
-- each idle runner that is drained was counted as active, so `activeCount` does not fall below 0.
pub mod Drain
pub mod Shrink
pub mod Provision
pub mod Limits
pub mod Target
pub mod Demand
use gh_runner.Prelude.{
  ℕ, zero, suc, ◌+◌, ◌-◌, ◌*◌, ◌<◌, ◌==◌, Bool, true, false, ◌&&◌, ◌||◌, not, Option, none, some,
  List, [], ◌∷◌, if◌then◌else◌, ltb, leb, length, keep, count,
}
use gh_runner.Prelude.Text.{GoString}
use gh_runner.Orchestrator.Tracking.{
  RunnerStatus, is_running, is_idle, tracked_pool_runners, pool_active, total_active,
}
use gh_runner.Orchestrator.Platform.{
  RunnerPool, Error, resolve_failed, invalid_credentials, Platform, Options,
}
use gh_runner.Orchestrator.Controller.{
  Controller, queue_length_for_pool, load_pool_targets, poll_targets, is_polling,
}
use gh_runner.Orchestrator.Controller.Spawn.{spawn_single_runner, drain_runner}
use gh_runner.Orchestrator.Controller.Queue.{pick_target, quota_saturated, enqueue_request}

unfoldable pub effective_grace : ℕ → RunnerPool → ℕ
effective_grace grace p =
    let lifetime = p.max_runner_lifetime_seconds * 1_000_000_000 in
    if ltb 0 p.max_runner_lifetime_seconds && ltb lifetime grace then lifetime else grace

-- isStaleStandby || isStaleOnDemand. A runner from the future has run for a negative time in Go and
-- for 0 here; both are below the positive grace period.
unfoldable pub is_stale : ℕ → ℕ → RunnerStatus → Bool
is_stale grace now r =
    not r.on_demand || (r.on_demand && (ltb 0 r.spawned_at && leb grace (now - r.spawned_at)))

-- The target before the cap: raised by the deficit of queued jobs under polling.
unfoldable pub polled_target : ℕ → ℕ → ℕ → ℕ → ℕ
polled_target min_idle active idle queued =
    let raised = active + (queued - idle) in
    if ltb idle queued && ltb min_idle raised then raised else min_idle

unfoldable pub capped_target : RunnerPool → ℕ → ℕ
capped_target p target =
    if ltb 0 p.max_concurrency && ltb p.max_concurrency target then p.max_concurrency else target

module _ (P : Platform) (c : Options) where
  open P use {World, GitProvider}

  unfoldable pub effective_target :
      RunnerPool → Option GitProvider → List GoString → ℕ → ℕ → World → ℕ × World
  unfolding polled_target capped_target
  effective_target p none targets active idle w = (capped_target p p.min_idle_runners, w)
  effective_target p (some git) targets active idle w =
      if is_polling P c (some git)
      then (let (queued, w') = poll_targets P c git targets 0 w in
          (capped_target p (polled_target p.min_idle_runners active idle queued), w'))
      else (capped_target p p.min_idle_runners, w)

  -- The loop of step 1: drains the first `excess` idle runners and returns how many it drained
  -- with the others.
  unfoldable pub drain_excess :
      GoString
      → ℕ
      → ℕ
      → List RunnerStatus
      → Controller World
      → ℕ × List RunnerStatus × Controller World
  drain_excess name excess drained [] s = (drained, [], s)
  drain_excess name excess drained (r ∷ rs) s = elim (ltb drained excess) [
    | true ↦ drain_excess name excess (drained + 1) rs (drain_runner P c name r s)
    | false ↦
        let (d, remaining, s') = drain_excess name excess drained rs s in (d, r ∷ remaining, s')
  ]

  unfoldable pub enforce_cap :
      RunnerPool
      → ℕ
      → List RunnerStatus
      → Controller World
      → ℕ × List RunnerStatus × Controller World
  unfolding drain_excess
  enforce_cap p active idle s =
      if ltb 0 p.max_concurrency && ltb p.max_concurrency active
      then (let (drained, remaining, s') =
            drain_excess p.name (active - p.max_concurrency) 0 idle s in
          (active - drained, remaining, s'))
      else (active, idle, s)

  -- Step 2 for a pool with no standby runners.
  unfoldable pub scale_to_zero :
      GoString → ℕ → ℕ → List RunnerStatus → ℕ → Controller World → ℕ × Controller World
  unfolding is_stale
  scale_to_zero name grace now [] active s = (active, s)
  scale_to_zero name grace now (r ∷ rs) active s = elim (is_stale grace now r) [
    | true ↦ scale_to_zero name grace now rs (active - 1) (drain_runner P c name r s)
    | false ↦ scale_to_zero name grace now rs active s
  ]

  -- Step 2 for a fixed target: `for i := 0; i < excess && i < len(idle); i++`.
  unfoldable pub drain_first :
      GoString → ℕ → List RunnerStatus → ℕ → Controller World → ℕ × Controller World
  drain_first name zero rs active s = (active, s)
  drain_first name (suc n) [] active s = (active, s)
  drain_first name (suc n) (r ∷ rs) active s =
      drain_first name n rs (active - 1) (drain_runner P c name r s)

  unfoldable pub scale_down :
      RunnerPool → ℕ → List RunnerStatus → ℕ → Controller World → ℕ × Controller World
  unfolding scale_to_zero drain_first effective_grace
  scale_down p target idle active s =
      if p.min_idle_runners == 0
      then (let (now, w) = P.now s.world in
          scale_to_zero p.name (effective_grace c.scale_to_zero_grace_period p) now idle active
            (record s { world = w }))
      else if ltb target (length idle)
      then drain_first p.name (length idle - target) idle active s
      else (active, s)

  -- The loop that spawns or queues, for `needed` rounds.
  unfoldable pub provision :
      RunnerPool
      → Option GitProvider
      → List GoString
      → ℕ
      → ℕ
      → Controller World
      → Option Error × Controller World
  unfolding quota_saturated enqueue_request pick_target
  provision p prov targets zero active s = (none, s)
  provision p prov targets (suc needed) active s =
      elim (ltb 0 p.max_concurrency
        && leb p.max_concurrency (active + queue_length_for_pool p.name s.queue)) [
          | true ↦ (none, s)
          | false ↦
              let url = pick_target targets active [] in
              elim (quota_saturated s) [
                | true ↦ provision p prov targets needed active (enqueue_request P c p.name url s)
                | false ↦
                    let on_demand = p.min_idle_runners == 0 || is_polling P c prov in
                    let (err, s') = spawn_single_runner P p prov on_demand url s in
                    elim err [
                      | some e ↦ (some e, s')
                      | none ↦ provision p prov targets needed (active + 1) s'
                    ]
              ]
        ]

  unfoldable pub replenish :
      RunnerPool
      → Option GitProvider
      → List GoString
      → ℕ
      → ℕ
      → Controller World
      → Option Error × Controller World
  unfolding provision
  replenish p prov targets target active s =
      let present = active + queue_length_for_pool p.name s.queue in
      if leb target present then (none, s) else provision p prov targets (target - present) active s

  -- The three steps after the target is known.
  unfoldable pub converge :
      RunnerPool
      → Option GitProvider
      → List GoString
      → ℕ
      → ℕ
      → List RunnerStatus
      → Controller World
      → Option Error × Controller World
  unfolding enforce_cap scale_down replenish
  converge p prov targets target active idle s =
      let (active1, idle1, s1) = enforce_cap p active idle s in
      let (active2, s2) = scale_down p target idle1 active1 s1 in
      replenish p prov targets target active2 s2

  -- reconcilePoolWithProvider once the targets are loaded; without a target nothing is done.
  unfoldable pub reconcile_targets :
      RunnerPool
      → Option GitProvider
      → List GoString
      → ℕ
      → List RunnerStatus
      → Controller World
      → Option Error × Controller World
  unfolding effective_target
  reconcile_targets p prov [] active idle s = (none, s)
  reconcile_targets p prov (u ∷ us) active idle s =
      let (target, w) = effective_target p prov (u ∷ us) active (length idle) s.world in
      converge p prov (u ∷ us) target active idle (record s { world = w })

  unfoldable pub reconcile_pool_with_provider :
      RunnerPool → Option GitProvider → Controller World → Option Error × Controller World
  unfolding is_idle
  reconcile_pool_with_provider p prov s =
      if c.has_engine && c.has_reconciler
      then (let snapshot = tracked_pool_runners p.name s.tracked in
          let (targets, w) = load_pool_targets P c p s.world in
          reconcile_targets p prov targets (count is_running snapshot) (keep is_idle snapshot)
            (record s { world = w }))
      else (none, s)

  unfoldable pub reconcile_resolved :
      RunnerPool → Option GitProvider → Controller World → Option Error × Controller World
  unfolding reconcile_pool_with_provider
  reconcile_resolved p none s = (some resolve_failed, s)
  reconcile_resolved p (some git) s = reconcile_pool_with_provider p (some git) s

  unfoldable pub reconcile_pool : RunnerPool → Controller World → Option Error × Controller World
  unfolding reconcile_resolved
  reconcile_pool p s =
      if c.has_provider_resolver
      then (let (prov, w) = P.resolve_provider p.auth_profile_id s.world in
          reconcile_resolved p prov (record s { world = w }))
      else (none, s)

  unfoldable pub validate_resolved :
      RunnerPool → Option GitProvider → Controller World → Option Error × Controller World
  unfolding reconcile_pool_with_provider
  validate_resolved p none s = (some resolve_failed, s)
  validate_resolved p (some git) s =
      let (valid, w) = P.validate_credentials git s.world in
      if valid
      then reconcile_pool_with_provider p (some git) (record s { world = w })
      else (some invalid_credentials, record s { world = w })

  unfoldable pub validate_and_provision_pool :
      RunnerPool → Controller World → Option Error × Controller World
  unfolding validate_resolved
  validate_and_provision_pool p s =
      if c.has_provider_resolver
      then (let (prov, w) = P.resolve_provider p.auth_profile_id s.world in
          validate_resolved p prov (record s { world = w }))
      else (none, s)
