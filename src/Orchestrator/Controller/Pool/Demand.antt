-- ===== src/Orchestrator/Controller/Pool/Demand.antt =====
-- The steps of reconcilePool together: how far they fill a pool, and how far they empty it.
use gh_runner.Prelude.{
  ℕ, ◌+◌, ◌≤◌, ◌<◌, ◌≡◌, refl, ap, Option, List, arith, max, keep, count, ◌∷◌, some, true, ◌&&◌,
  length, sym, subst, if◌then◌else◌, none,
}
use gh_runner.Prelude.Text.{GoString}
use gh_runner.Orchestrator.Tracking.{
  RunnerStatus, is_running, is_idle, tracked_pool_runners, pool_stats, pool_active,
}
use gh_runner.Orchestrator.Tracking.Valid.{IsValid}
use gh_runner.Orchestrator.Tracking.Moves.{Moves-pool}
use gh_runner.Orchestrator.Platform.{RunnerPool, Platform, Options}
use gh_runner.Orchestrator.Controller.{Controller, queue_length_for_pool, load_pool_targets}
use gh_runner.Orchestrator.Controller.Pool.{
  enforce_cap, scale_down, converge, effective_target, reconcile_targets,
  reconcile_pool_with_provider, reconcile_resolved, reconcile_pool,
}
use gh_runner.Orchestrator.Controller.Pool.Drain.{
  active-snapshot, idle-snapshot, enforce_cap-active, scale_down-active,
}
use gh_runner.Orchestrator.Controller.Pool.Shrink.{enforce_cap-Drained, scale_down-Drained}
use gh_runner.Orchestrator.Controller.Pool.Provision.{replenish-Effect}
use gh_runner.Orchestrator.Controller.Pool.Limits.{CapsOf, DrainsOf}
use gh_runner.Orchestrator.Controller.Pool.Target.{
  running-split, scale_down-le, enforce_cap-le, replenish-demand,
}

module _ (P : Platform) (c : Options) (p : RunnerPool) (prov : Option P.GitProvider)
    (targets : List GoString) (target : ℕ) (s : Controller P.World) (v : IsValid s.tracked) where
  active : ℕ
  active = count is_running (tracked_pool_runners p.name s.tracked)

  idle : List RunnerStatus
  idle = keep is_idle (tracked_pool_runners p.name s.tracked)

  after_cap : ℕ × List RunnerStatus × Controller P.World
  after_cap = enforce_cap P c p active idle s

  after_scale : ℕ × Controller P.World
  after_scale = scale_down P c p target after_cap.1 after_cap.0 after_cap.2

  -- The facts about the two draining steps.
  drained :
      (pool_active p.name after_scale.1.tracked ≤ after_scale.0)
      × (after_scale.0 ≤ after_cap.0)
      × (active ≡ pool_active p.name s.tracked)
      × (after_scale.1.queue ≡ s.queue)
      × (after_scale.1.global_max_runners ≡ s.global_max_runners)
  unfolding active idle after_cap after_scale
  drained =
      let a = active-snapshot p.name s in
      let (le1, h1) =
        enforce_cap-active P c p active idle s (idle-snapshot p.name s v) (omega (arith, a)) in
      let d1 =
        enforce_cap-Drained P c p s.global_max_runners (CapsOf p) (DrainsOf p) refl active idle s in
      let d2 =
        scale_down-Drained P c p s.global_max_runners (CapsOf p) (DrainsOf p) refl target
          after_cap.1 after_cap.0 after_cap.2 in
      (
        scale_down-active P c p target after_cap.1 after_cap.0 after_cap.2 h1 le1,
        scale_down-le P c p target after_cap.1 after_cap.0 after_cap.2,
        a,
        cc (d2.1, d1.1),
        cc (d2.0.1, d1.0.1),
      )

  -- Reconciling a pool does not overshoot: its running runners and queued requests together do not
  -- pass the target, unless they stood above it before.
  pub converge-demand :
      let t =
        (converge P c p prov targets target
          (count is_running (tracked_pool_runners p.name s.tracked))
          (keep is_idle (tracked_pool_runners p.name s.tracked))
          s).1 in
      pool_active p.name t.tracked + queue_length_for_pool p.name t.queue
      ≤ max (pool_active p.name s.tracked + queue_length_for_pool p.name s.queue) target
  unfolding converge active idle after_cap after_scale
  converge-demand =
      let (n, le, a, q, _) = drained in
      let cap = enforce_cap-le P c p active idle s in
      let same = ap (queue_length_for_pool p.name) q in
      omega (
        arith,
        replenish-demand P c p prov targets target after_scale.0 after_scale.1 n,
        cap.0,
        same,
      )

  converge-pool_stats :
      0 < p.max_concurrency
      → let t =
          (converge P c p prov targets target
            (count is_running (tracked_pool_runners p.name s.tracked))
            (keep is_idle (tracked_pool_runners p.name s.tracked))
            s).1 in
        pool_active p.name t.tracked ≤ max (pool_stats p.name s.tracked).0 p.max_concurrency
  unfolding converge active idle after_cap after_scale pool_stats
  converge-pool_stats pos =
      let (n, le, a, q, g) = drained in
      let cap = enforce_cap-le P c p active idle s in
      let (_, moves) =
        replenish-Effect P c p s.global_max_runners (CapsOf p) (DrainsOf p) (refl, refl) prov
          targets target after_scale.0 after_scale.1 g n in
      omega (
        arith,
        Moves-pool p.name p.max_concurrency
            (λ (m : ℕ) (e : CapsOf p p.name m). (omega (arith, pos, e.1), omega (arith, e.1)))
            moves,
        cap.1 pos,
        running-split (tracked_pool_runners p.name s.tracked),
      )

module _ (P : Platform) (c : Options) (p : RunnerPool) (s : Controller P.World) where
  open P use {World, GitProvider}

  -- The world when the provider is resolved, and the answer to the question for the targets.
  abbrev pub resolved : Option GitProvider × World
  resolved = P.resolve_provider p.auth_profile_id s.world

  abbrev pub loaded : List GoString × World
  loaded = load_pool_targets P c p resolved.1

  reconcile_targets-pool_stats :
      (prov : Option GitProvider) (u : GoString) (us : List GoString) (w : World)
      → IsValid s.tracked
      → 0 < p.max_concurrency
      → let t =
          (reconcile_targets P c p prov
            (u ∷ us)
            (count is_running (tracked_pool_runners p.name s.tracked))
            (keep is_idle (tracked_pool_runners p.name s.tracked))
            (record s { world = w })).1 in
        pool_active p.name t.tracked ≤ max (pool_stats p.name s.tracked).0 p.max_concurrency
  unfolding reconcile_targets
  reconcile_targets-pool_stats prov u us w v pos =
      let snapshot = tracked_pool_runners p.name s.tracked in
      let (target, w') =
        effective_target P c p prov (u ∷ us) (count is_running snapshot)
          (length (keep is_idle snapshot)) w in
      converge-pool_stats P c p prov (u ∷ us) target (record s { world = w' }) v pos

  reconcile_resolved-pool_stats :
      (git : GitProvider) (u : GoString) (us : List GoString)
      → IsValid s.tracked
      → 0 < p.max_concurrency
      → (c.has_engine && c.has_reconciler) ≡ true
      → resolved.0 ≡ some git
      → loaded.0 ≡ u ∷ us
      → pool_active p.name
          (reconcile_resolved P c p resolved.0 (record s { world = resolved.1 })).1.tracked
        ≤ max (pool_stats p.name s.tracked).0 p.max_concurrency
  unfolding reconcile_resolved reconcile_pool_with_provider
  reconcile_resolved-pool_stats git u us v pos ready found targets =
      let done = reconcile_targets-pool_stats (some git) u us loaded.1 v pos in
      rw (found, ready, targets) done

  -- Reconciling a pool that has a concurrency limit, with an engine, a reconciler and a provider
  -- resolver, on tracking maps in shape, where the provider resolves and the pool has a target,
  -- drains a pool whose limit was lowered as far as its idle runners reach: afterwards it runs no
  -- more runners than the limit, or than were busy before if those are more.
  pub reconcile_pool-pool_stats :
      (git : GitProvider) (u : GoString) (us : List GoString)
      → IsValid s.tracked
      → 0 < p.max_concurrency
      → c.has_provider_resolver ≡ true
      → (c.has_engine && c.has_reconciler) ≡ true
      → resolved.0 ≡ some git
      → loaded.0 ≡ u ∷ us
      → pool_active p.name (reconcile_pool P c p s).1.tracked
        ≤ max (pool_stats p.name s.tracked).0 p.max_concurrency
  reconcile_pool-pool_stats git u us v pos resolver ready found targets =
      let chosen = reconcile_resolved P c p resolved.0 (record s { world = resolved.1 }) in
      unfold reconcile_pool in
      subst
        (λ b.
          pool_active p.name (if b then chosen else (none, s)).1.tracked
          ≤ max (pool_stats p.name s.tracked).0 p.max_concurrency)
        (sym resolver) (reconcile_resolved-pool_stats git u us v pos ready found targets)
