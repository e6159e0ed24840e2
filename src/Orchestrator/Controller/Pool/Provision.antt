-- ===== src/Orchestrator/Controller/Pool/Provision.antt =====
-- The spawning step of reconcilePool: its moves, and what it leaves of the target.
use gh_runner.Prelude.{
  ℕ, zero, suc, ◌+◌, ◌-◌, ◌≤◌, ◌<◌, ◌≡◌, refl, ◌⊎◌, Bool, true, false, ◌&&◌, ◌||◌, ◌==◌, Option,
  List, [], ◌∷◌, inl, inr, arith, ltb, leb, if◌then◌else◌, Bool-cases, Option-cases, count,
  count-append,
}
use gh_runner.Prelude.Text.{GoString, text_eq, text_eq_refl}
use gh_runner.Orchestrator.Tracking.{pool_active, total_active}
use gh_runner.Orchestrator.Tracking.Moves.{Moves, stay, Moves-trans}
use gh_runner.Orchestrator.Platform.{RunnerPool, ProvisionRequest, Platform, Options}
use gh_runner.Orchestrator.Controller.{Controller, queue_length_for_pool, is_polling}
use gh_runner.Orchestrator.Controller.Spawn.{spawn_single_runner}
use gh_runner.Orchestrator.Controller.Spawn.Effect.{
  SameMode, SameMode-trans, spawn_single_runner-rest, spawn_single_runner-active,
  spawn_single_runner-Moves,
}
use gh_runner.Orchestrator.Controller.Queue.{quota_saturated, enqueue_request, pick_target}
use gh_runner.Orchestrator.Controller.Pool.{provision, replenish}

-- What a step with spawns keeps: the mode, and the tracking map up to moves.
abbrev pub Effect :
    {W : Type 0} (limit : ℕ) (Caps : GoString → ℕ → Type 0) (Drains : GoString → Type 0)
    → Controller W
    → Controller W
    → Type 0
Effect limit Caps Drains s t = SameMode s t × Moves limit Caps Drains s.tracked t.tracked

module _ {W : Type 0} {limit : ℕ} {Caps : GoString → ℕ → Type 0} {Drains : GoString → Type 0} where
  pub Effect-refl : (s : Controller W) → Effect limit Caps Drains s s
  Effect-refl s = ((refl, refl), stay)

  pub Effect-trans :
      (s t u : Controller W)
      → Effect limit Caps Drains s t
      → Effect limit Caps Drains t u
      → Effect limit Caps Drains s u
  Effect-trans s t u a b = (SameMode-trans s t u a.0 b.0, Moves-trans a.1 b.1)

  -- Both branches of a test on an option.
  pub Effect-if :
      {A : Type 0} (s : Controller W) (b : Bool) (x y : A × Controller W)
      → Effect limit Caps Drains s x.1
      → Effect limit Caps Drains s y.1
      → Effect limit Caps Drains s (if b then x else y).1
  Effect-if s true x y a b = a
  Effect-if s false x y a b = b

pub quota_open :
    {W : Type 0} (s : Controller W) (limit : ℕ)
    → s.global_max_runners ≡ limit
    → quota_saturated s ≡ false
    → (limit ≡ 0) ⊎ (total_active s.tracked < limit)
unfolding quota_saturated
quota_open s limit e h = ground arith

room :
    (m active : ℕ) (queued n : ℕ)
    → (ltb 0 m && leb m (active + queued)) ≡ false
    → n ≤ active
    → (m ≡ 0) ⊎ (n < m)
room m active queued n h le = ground arith

module _ (P : Platform) (c : Options) (p : RunnerPool) (limit : ℕ) (Caps : GoString → ℕ → Type 0)
    (Drains : GoString → Type 0) (cap : Caps p.name p.max_concurrency) where
  open P use {World, GitProvider}

  -- A spawn under the checks of the loop.
  pub spawn-Effect :
      (prov : Option GitProvider) (d : Bool) (url : GoString) (s : Controller World)
      → ((limit ≡ 0) ⊎ (total_active s.tracked < limit))
      → ((p.max_concurrency ≡ 0) ⊎ (pool_active p.name s.tracked < p.max_concurrency))
      → Effect limit Caps Drains s (spawn_single_runner P p prov d url s).1
  spawn-Effect prov d url s g h = (
    (spawn_single_runner-rest P p prov d url s).0,
    spawn_single_runner-Moves P limit Caps Drains p prov d url s p.max_concurrency cap g h,
  )

  pub provision-Effect :
      (prov : Option GitProvider) (targets : List GoString) (needed active : ℕ)
      (s : Controller World)
      → s.global_max_runners ≡ limit
      → pool_active p.name s.tracked ≤ active
      → Effect limit Caps Drains s (provision P c p prov targets needed active s).1
  unfolding provision
  provision-Effect prov targets zero active s e le = Effect-refl s
  provision-Effect prov targets (suc n) active s e le = elim (Bool-cases full) [
    | inl stop ↦ rw (stop, provision) (Effect-refl s)
    | inr go ↦ elim (Bool-cases (quota_saturated s)) [
      | inl closed ↦
          let s' = enqueue_request P c p.name url s in
          rw (go, closed, provision)
            (Effect-trans s s' (provision P c p prov targets n active s').1 ((refl, refl), stay)
              (provision-Effect prov targets n active s' e le))
      | inr open_ ↦
          let s' = (spawn_single_runner P p prov on_demand url s).1 in
          let step = spawn-Effect prov on_demand url s (quota_open s limit e open_) (
            room p.max_concurrency active (queue_length_for_pool p.name s.queue)
              (pool_active p.name s.tracked) go le) in
          elim (Option-cases (spawn_single_runner P p prov on_demand url s).0) [
            | inl fine ↦
                rw (go, open_, fine, provision)
                  (Effect-trans s s' (provision P c p prov targets n (active + 1) s').1 step (
                    provision-Effect prov targets n (active + 1) s' (cc (step.0.1, e))
                      (omega (arith, spawn_single_runner-active P p prov on_demand url s))))
            | inr (err, fails) ↦ rw (go, open_, fails, provision) step
          ]
    ]
  ]
    where
      full : Bool
      full =
          ltb 0 p.max_concurrency
          && leb p.max_concurrency (active + queue_length_for_pool p.name s.queue)

      url : GoString
      url = pick_target targets active []

      on_demand : Bool
      on_demand = p.min_idle_runners == 0 || is_polling P c prov

  pub replenish-Effect :
      (prov : Option GitProvider) (targets : List GoString) (target active : ℕ)
      (s : Controller World)
      → s.global_max_runners ≡ limit
      → pool_active p.name s.tracked ≤ active
      → Effect limit Caps Drains s (replenish P c p prov targets target active s).1
  unfolding replenish
  replenish-Effect prov targets target active s e le = elim (Bool-cases (leb target present)) [
    | inl enough ↦ rw enough (Effect-refl s)
    | inr short ↦ rw short (provision-Effect prov targets (target - present) active s e le)
  ]
    where
      present : ℕ
      present = active + queue_length_for_pool p.name s.queue

-- A queued request counts once.
pub queue_length-enqueue :
    (P : Platform) (c : Options) (name url : GoString) (s : Controller P.World)
    → queue_length_for_pool name (enqueue_request P c name url s).queue
      ≡ queue_length_for_pool name s.queue + 1
unfolding queue_length_for_pool enqueue_request count
queue_length-enqueue P c name url s = ground (
  arith,
  count-append (λ (r : ProvisionRequest). text_eq r.pool_name name) s.queue
      (record { pool_name = name; target_url = url; created_at = (P.now s.world).0 } ∷ []),
  text_eq_refl name,
)
