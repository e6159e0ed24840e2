-- ===== src/Orchestrator/Controller/Pool/Limits.antt =====
-- reconcilePool against the global quota, the pool's limit and the other pools.
use gh_runner.Prelude.{
  ℕ, ◌≤◌, ◌<◌, ◌≡◌, refl, ◌≢◌, ◌&&◌, Option, none, some, List, [], ◌∷◌, inl, inr, arith, Bool-cases,
  max, keep, count, length,
}
use gh_runner.Prelude.Text.{GoString}
use gh_runner.Orchestrator.Tracking.{
  RunnerStatus, is_running, is_idle, pool_map, tracked_pool_runners, pool_active, total_active,
}
use gh_runner.Orchestrator.Tracking.Valid.{IsValid, Pending}
use gh_runner.Orchestrator.Tracking.Moves.{Moves-IsValid, Moves-total, Moves-pool, Moves-frame}
use gh_runner.Orchestrator.Platform.{RunnerPool, Platform, Options}
use gh_runner.Orchestrator.Controller.{Controller, load_pool_targets}
use gh_runner.Orchestrator.Controller.Pool.{
  enforce_cap, scale_down, replenish, effective_target, converge, reconcile_targets,
  reconcile_pool_with_provider, reconcile_resolved, reconcile_pool, validate_resolved,
  validate_and_provision_pool,
}
use gh_runner.Orchestrator.Controller.Pool.Drain.{
  active-snapshot, idle-snapshot, enforce_cap-active, scale_down-active,
}
use gh_runner.Orchestrator.Controller.Pool.Shrink.{Drained, enforce_cap-Drained, scale_down-Drained}
use gh_runner.Orchestrator.Controller.Pool.Provision.{
  Effect, Effect-refl, Effect-trans, Effect-if, replenish-Effect,
}

-- Only this pool is filled, up to its own limit, and only it is drained.
abbrev pub CapsOf : RunnerPool → GoString → ℕ → Type 0
CapsOf p q m = (q ≡ p.name) × (m ≡ p.max_concurrency)

abbrev pub DrainsOf : RunnerPool → GoString → Type 0
DrainsOf p q = q ≡ p.name

module _ (P : Platform) (c : Options) (p : RunnerPool) (limit : ℕ) (Caps : GoString → ℕ → Type 0)
    (Drains : GoString → Type 0) (cap : Caps p.name p.max_concurrency)
    (drains : Drains p.name) where
  open P use {World, GitProvider}

  Drained-Effect :
      (s t : Controller World) → Drained limit Caps Drains s t → Effect limit Caps Drains s t
  Drained-Effect s t d = (d.0, d.2)

  converge-Effect :
      (prov : Option GitProvider) (targets : List GoString) (target active : ℕ)
      (idle : List RunnerStatus) (s : Controller World)
      → s.global_max_runners ≡ limit
      → Pending p.name idle s.tracked
      → pool_active p.name s.tracked ≤ active
      → Effect limit Caps Drains s (converge P c p prov targets target active idle s).1
  unfolding converge
  converge-Effect prov targets target active idle s e h le =
      let step1 = enforce_cap P c p active idle s in
      let s1 = step1.2 in
      let step2 = scale_down P c p target step1.1 step1.0 s1 in
      let s2 = step2.1 in
      let d1 = enforce_cap-Drained P c p limit Caps Drains drains active idle s in
      let d2 = scale_down-Drained P c p limit Caps Drains drains target step1.1 step1.0 s1 in
      let (le1, h1) = enforce_cap-active P c p active idle s h le in
      let le2 = scale_down-active P c p target step1.1 step1.0 s1 h1 le1 in
      Effect-trans s s1 (replenish P c p prov targets target step2.0 s2).1 (Drained-Effect s s1 d1)
        (Effect-trans s1 s2 (replenish P c p prov targets target step2.0 s2).1
          (Drained-Effect s1 s2 d2)
          (replenish-Effect P c p limit Caps Drains cap prov targets target step2.0 s2
            (cc (d2.0.1, d1.0.1, e)) le2))

  reconcile_targets-Effect :
      (prov : Option GitProvider) (targets : List GoString) (active : ℕ) (idle : List RunnerStatus)
      (s : Controller World)
      → s.global_max_runners ≡ limit
      → Pending p.name idle s.tracked
      → pool_active p.name s.tracked ≤ active
      → Effect limit Caps Drains s (reconcile_targets P c p prov targets active idle s).1
  unfolding reconcile_targets
  reconcile_targets-Effect prov [] active idle s e h le = Effect-refl s
  reconcile_targets-Effect prov (u ∷ us) active idle s e h le =
      let (target, w) = effective_target P c p prov (u ∷ us) active (length idle) s.world in
      converge-Effect prov (u ∷ us) target active idle (record s { world = w }) e h le

  pub reconcile_pool_with_provider-Effect :
      (prov : Option GitProvider) (s : Controller World)
      → s.global_max_runners ≡ limit
      → IsValid s.tracked
      → Effect limit Caps Drains s (reconcile_pool_with_provider P c p prov s).1
  unfolding reconcile_pool_with_provider
  reconcile_pool_with_provider-Effect prov s e v =
      elim (Bool-cases (c.has_engine && c.has_reconciler)) [
        | inr off ↦ rw off (Effect-refl s)
        | inl ready ↦
            let snapshot = tracked_pool_runners p.name s.tracked in
            let (targets, w) = load_pool_targets P c p s.world in
            let n : pool_active p.name s.tracked ≤ count is_running snapshot =
              omega (arith, active-snapshot p.name s) in
            rw ready (
              reconcile_targets-Effect prov targets (count is_running snapshot)
                (keep is_idle snapshot) (record s { world = w }) e (idle-snapshot p.name s v) n)
      ]

  reconcile_resolved-Effect :
      (prov : Option GitProvider) (s : Controller World)
      → s.global_max_runners ≡ limit
      → IsValid s.tracked
      → Effect limit Caps Drains s (reconcile_resolved P c p prov s).1
  unfolding reconcile_resolved
  reconcile_resolved-Effect none s e v = Effect-refl s
  reconcile_resolved-Effect (some git) s e v = reconcile_pool_with_provider-Effect (some git) s e v

  pub reconcile_pool-Effect :
      (s : Controller World)
      → s.global_max_runners ≡ limit
      → IsValid s.tracked
      → Effect limit Caps Drains s (reconcile_pool P c p s).1
  unfolding reconcile_pool
  reconcile_pool-Effect s e v =
      let (prov, w) = P.resolve_provider p.auth_profile_id s.world in
      let s' = record s { world = w } in
      Effect-if s c.has_provider_resolver (reconcile_resolved P c p prov s') (none, s)
        (reconcile_resolved-Effect prov s' e v) (Effect-refl s)

  validate_resolved-Effect :
      (prov : Option GitProvider) (s : Controller World)
      → s.global_max_runners ≡ limit
      → IsValid s.tracked
      → Effect limit Caps Drains s (validate_resolved P c p prov s).1
  unfolding validate_resolved
  validate_resolved-Effect none s e v = Effect-refl s
  validate_resolved-Effect (some git) s e v =
      let (valid, w) = P.validate_credentials git s.world in
      elim (Bool-cases (P.validate_credentials git s.world).0) [
        | inl good ↦
            rw good (reconcile_pool_with_provider-Effect (some git) (record s { world = w }) e v)
        | inr bad ↦ rw bad (Effect-refl s)
      ]

  pub validate_and_provision_pool-Effect :
      (s : Controller World)
      → s.global_max_runners ≡ limit
      → IsValid s.tracked
      → Effect limit Caps Drains s (validate_and_provision_pool P c p s).1
  unfolding validate_and_provision_pool
  validate_and_provision_pool-Effect s e v =
      let (prov, w) = P.resolve_provider p.auth_profile_id s.world in
      let s' = record s { world = w } in
      Effect-if s c.has_provider_resolver (validate_resolved P c p prov s') (none, s)
        (validate_resolved-Effect prov s' e v) (Effect-refl s)

module _ (P : Platform) (c : Options) (p : RunnerPool) (s : Controller P.World) where
  own-Effect :
      IsValid s.tracked
      → Effect s.global_max_runners (CapsOf p) (DrainsOf p) s (reconcile_pool P c p s).1
  own-Effect v =
      reconcile_pool-Effect P c p s.global_max_runners (CapsOf p) (DrainsOf p) (refl, refl) refl s
        refl v

  -- Reconciling a pool never takes the running runners of all pools past the global quota, unless
  -- they stood above it before; the quota itself and the controller's state are not changed, and
  -- the tracking maps keep their shape. This holds whatever the engine, the database and the
  -- provider answer.
  pub reconcile_pool-total :
      IsValid s.tracked
      → 0 < s.global_max_runners
      → let t = (reconcile_pool P c p s).1 in
        (total_active t.tracked ≤ max (total_active s.tracked) s.global_max_runners)
        × (t.global_max_runners ≡ s.global_max_runners)
        × (t.state ≡ s.state)
        × IsValid t.tracked
  reconcile_pool-total v pos =
      let (mode, moves) = own-Effect v in
      (Moves-total pos moves, mode.1, mode.0, Moves-IsValid moves v)

  -- With a concurrency limit, reconciling a pool never takes its running runners past the limit,
  -- unless they stood above it before.
  pub reconcile_pool-pool_active :
      IsValid s.tracked
      → 0 < p.max_concurrency
      → pool_active p.name (reconcile_pool P c p s).1.tracked
        ≤ max (pool_active p.name s.tracked) p.max_concurrency
  reconcile_pool-pool_active v pos =
      Moves-pool p.name p.max_concurrency (λ m e. (rw e.1 pos, omega (arith, e.1))) (own-Effect v).1

  -- Reconciling a pool leaves the runners of every other pool as they are.
  pub reconcile_pool-frame :
      (q : GoString)
      → IsValid s.tracked
      → q ≢ p.name
      → pool_map q (reconcile_pool P c p s).1.tracked ≡ pool_map q s.tracked
  reconcile_pool-frame q v ne = Moves-frame q (λ m e. ne e.0) ne (own-Effect v).1
