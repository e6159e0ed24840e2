-- ===== src/Orchestrator/Controller/Pool/Target.antt =====
-- The steps of reconcilePool against the pool's target and limit.
use gh_runner.Prelude.{
  ℕ, zero, suc, ◌+◌, ◌-◌, ◌≤◌, ◌<◌, ◌≡◌, refl, ap, Bool, ◌&&◌, ◌||◌, ◌==◌, Option, List, [], ◌∷◌,
  inl, inr, arith, ltb, leb, Bool-cases, Option-cases, min, max, keep, count, length,
}
use gh_runner.Prelude.Text.{GoString}
use gh_runner.Orchestrator.Tracking.{RunnerStatus, is_running, is_working, is_idle, pool_active}
use gh_runner.Orchestrator.Platform.{RunnerPool, Platform, Options}
use gh_runner.Orchestrator.Controller.{Controller, queue_length_for_pool, is_polling}
use gh_runner.Orchestrator.Controller.Spawn.{spawn_single_runner, drain_runner}
use gh_runner.Orchestrator.Controller.Spawn.Effect.{
  spawn_single_runner-rest, spawn_single_runner-active,
}
use gh_runner.Orchestrator.Controller.Queue.{quota_saturated, enqueue_request, pick_target}
use gh_runner.Orchestrator.Controller.Pool.{
  is_stale, effective_grace, drain_excess, enforce_cap, scale_to_zero, drain_first, scale_down,
  provision, replenish,
}
use gh_runner.Orchestrator.Controller.Pool.Provision.{queue_length-enqueue}

pub running-split :
    (rs : List RunnerStatus) → count is_running rs ≡ length (keep is_idle rs) + count is_working rs
unfolding count keep is_idle is_working
running-split [] = refl
running-split (r ∷ rs) = ground (arith, running-split rs)

module _ (P : Platform) (c : Options) where
  open P use {World, GitProvider}

  drain_excess-count :
      (name : GoString) (excess drained : ℕ) (rs : List RunnerStatus) (s : Controller World)
      → drained ≤ excess
      → (drain_excess P c name excess drained rs s).0 ≡ min excess (drained + length rs)
  unfolding drain_excess
  drain_excess-count name excess drained [] s le = omega arith
  drain_excess-count name excess drained (r ∷ rs) s le = elim (Bool-cases (ltb drained excess)) [
    | inl more ↦
        rw (more, drain_excess)
          (ground
            (arith, drain_excess-count name excess (drained + 1) rs (drain_runner P c name r s)))
    | inr done ↦
        rw (done, drain_excess) (ground (arith, drain_excess-count name excess drained rs s))
  ]

  scale_to_zero-le :
      (name : GoString) (grace now : ℕ) (rs : List RunnerStatus) (active : ℕ) (s : Controller World)
      → (scale_to_zero P c name grace now rs active s).0 ≤ active
  unfolding scale_to_zero
  scale_to_zero-le name grace now [] active s = omega arith
  scale_to_zero-le name grace now (r ∷ rs) active s = elim (Bool-cases (is_stale grace now r)) [
    | inl stale ↦
        rw (stale, scale_to_zero)
          (omega
            (arith, scale_to_zero-le name grace now rs (active - 1) (drain_runner P c name r s)))
    | inr fresh ↦ rw (fresh, scale_to_zero) (scale_to_zero-le name grace now rs active s)
  ]

  drain_first-le :
      (name : GoString) (n : ℕ) (rs : List RunnerStatus) (active : ℕ) (s : Controller World)
      → (drain_first P c name n rs active s).0 ≤ active
  unfolding drain_first
  drain_first-le name zero rs active s = omega arith
  drain_first-le name (suc n) [] active s = omega arith
  drain_first-le name (suc n) (r ∷ rs) active s =
      omega (arith, drain_first-le name n rs (active - 1) (drain_runner P c name r s))

  pub scale_down-le :
      (p : RunnerPool) (target : ℕ) (idle : List RunnerStatus) (active : ℕ) (s : Controller World)
      → (scale_down P c p target idle active s).0 ≤ active
  unfolding scale_down
  scale_down-le p target idle active s = ground (
    arith,
    scale_to_zero-le p.name (effective_grace c.scale_to_zero_grace_period p) (P.now s.world).0 idle
        active (record s { world = (P.now s.world).1 }),
    drain_first-le p.name (length idle - target) idle active s,
  )

  -- Step 1 drains down to the limit or to the runners that are not idle.
  pub enforce_cap-le :
      (p : RunnerPool) (active : ℕ) (idle : List RunnerStatus) (s : Controller World)
      → ((enforce_cap P c p active idle s).0 ≤ active)
        × (0 < p.max_concurrency
            → (enforce_cap P c p active idle s).0 ≤ max (active - length idle) p.max_concurrency)
  unfolding enforce_cap
  enforce_cap-le p active idle s =
      ground (arith, drain_excess-count p.name (active - p.max_concurrency) 0 idle s (omega arith))

  provision-demand :
      (p : RunnerPool) (prov : Option GitProvider) (targets : List GoString) (needed active : ℕ)
      (s : Controller World)
      → pool_active p.name s.tracked ≤ active
      → let t = (provision P c p prov targets needed active s).1 in
        pool_active p.name t.tracked + queue_length_for_pool p.name t.queue
        ≤ active + queue_length_for_pool p.name s.queue + needed
  unfolding provision
  provision-demand p prov targets zero active s le = omega arith
  provision-demand p prov targets (suc n) active s le =
      elim (Bool-cases (
        ltb 0 p.max_concurrency
        && leb p.max_concurrency (active + queue_length_for_pool p.name s.queue))) [
          | inl stop ↦ rw (stop, provision) (omega arith)
          | inr go ↦ elim (Bool-cases (quota_saturated s)) [
            | inl closed ↦
                let s' = enqueue_request P c p.name url s in
                rw (go, closed, provision)
                  (omega (
                    arith,
                    provision-demand p prov targets n active s' le,
                    queue_length-enqueue P c p.name url s,
                  ))
            | inr open_ ↦
                let s' = (spawn_single_runner P p prov on_demand url s).1 in
                let up = spawn_single_runner-active P p prov on_demand url s in
                let same =
                  ap (queue_length_for_pool p.name)
                    (spawn_single_runner-rest P p prov on_demand url s).1 in
                elim (Option-cases (spawn_single_runner P p prov on_demand url s).0) [
                  | inl fine ↦
                      rw (go, open_, fine, provision)
                        (omega (
                          arith,
                          provision-demand p prov targets n (active + 1) s' (omega arith),
                          same,
                        ))
                  | inr (err, fails) ↦ rw (go, open_, fails, provision) (omega arith)
                ]
          ]
        ]
    where
      url : GoString
      url = pick_target targets active []

      on_demand : Bool
      on_demand = p.min_idle_runners == 0 || is_polling P c prov

  pub replenish-demand :
      (p : RunnerPool) (prov : Option GitProvider) (targets : List GoString) (target active : ℕ)
      (s : Controller World)
      → pool_active p.name s.tracked ≤ active
      → let t = (replenish P c p prov targets target active s).1 in
        pool_active p.name t.tracked + queue_length_for_pool p.name t.queue
        ≤ max (active + queue_length_for_pool p.name s.queue) target
  unfolding replenish
  replenish-demand p prov targets target active s le =
      let n = target - (active + queue_length_for_pool p.name s.queue) in
      ground (arith, provision-demand p prov targets n active s le)
