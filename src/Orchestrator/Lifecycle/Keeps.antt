-- ===== src/Orchestrator/Lifecycle/Keeps.antt =====
-- The steps of the control loop as moves of the tracking maps under the global quota.
use gh_runner.Prelude.{ℕ, ◌≡◌, refl, Bool, true, false, ◌&&◌, List, [], ◌∷◌, if◌then◌else◌, All}
use gh_runner.Prelude.Text.{GoString}
use gh_runner.Orchestrator.Tracking.{RunnerStatus, is_running, tracked_pool_runners, untrack_runner}
use gh_runner.Orchestrator.Tracking.Valid.{IsValid}
use gh_runner.Orchestrator.Tracking.Moves.{stay, untracks, Moves-IsValid}
use gh_runner.Orchestrator.Platform.{RunnerPool, Platform, Options}
use gh_runner.Orchestrator.Controller.{Controller, capture_exit_logs}
use gh_runner.Orchestrator.Controller.Spawn.{drain_runner}
use gh_runner.Orchestrator.Controller.Queue.{drain_queue}
use gh_runner.Orchestrator.Controller.Queue.Effects.{drain_queue-Effect}
use gh_runner.Orchestrator.Controller.Pool.Provision.{Effect, Effect-refl, Effect-trans}
use gh_runner.Orchestrator.Lifecycle.{
  forget_requests, terminate_if_engine, reap_container, reap_all, drain_runners, drain_pool,
  drain_pools,
}

-- Any pool may be filled and drained; only the global quota counts.
abbrev pub AnyCap : GoString → ℕ → Type 0
AnyCap p m = Unit {0}

abbrev pub AnyPool : GoString → Type 0
AnyPool p = Unit {0}

-- From a well-formed state under the quota, the step is a sequence of moves under the quota.
abbrev pub Keeps : {W : Type 0} (limit : ℕ) → Controller W → Controller W → Type 0
Keeps limit s t = s.global_max_runners ≡ limit → IsValid s.tracked → Effect limit AnyCap AnyPool s t

module _ {W : Type 0} (limit : ℕ) where
  pub Keeps-refl : (s : Controller W) → Keeps limit s s
  Keeps-refl s e v = Effect-refl s

  pub Keeps-trans : (s t u : Controller W) → Keeps limit s t → Keeps limit t u → Keeps limit s u
  Keeps-trans s t u a b e v =
      let first = a e v in
      Effect-trans s t u first (b (cc (first.0.1, e)) (Moves-IsValid first.1 v))

  pub Keeps-if :
      (s : Controller W) (test : Bool) (t u : Controller W)
      → Keeps limit s t
      → Keeps limit s u
      → Keeps limit s (if test then t else u)
  Keeps-if s true t u a b = a
  Keeps-if s false t u a b = b

All-any : (ps : List RunnerPool) → All (λ p. AnyCap p.name p.max_concurrency) ps
All-any [] = tt
All-any (p ∷ ps) = (tt, All-any ps)

module _ (P : Platform) (c : Options) (limit : ℕ) where
  open P use {World}

  pub drain_queue-Keeps : (s : Controller World) → Keeps limit s (drain_queue P c s)
  drain_queue-Keeps s e v = drain_queue-Effect P c limit AnyCap AnyPool s (λ ps _. All-any ps) e

  -- Untracking a runner, or not, with any change of the world.
  pub untrack-Keeps :
      (s : Controller World) (test : Bool) (p id : GoString) (w : World)
      → Keeps limit s (record s {
        tracked = if test then untrack_runner p id s.tracked else s.tracked;
        world = w;
      })
  untrack-Keeps s true p id w e v = ((refl, refl), untracks p id tt stay)
  untrack-Keeps s false p id w e v = ((refl, refl), stay)

  pub reap_container-Keeps :
      (id pool_name : GoString) (s : Controller World)
      → Keeps limit s (reap_container P c id pool_name s)
  unfolding reap_container
  reap_container-Keeps id pool_name s =
      let w = terminate_if_engine P c id (capture_exit_logs P c id s.world) in
      let s' = record s {
        tracked = if c.has_reconciler then untrack_runner pool_name id s.tracked else s.tracked;
        world = w;
      } in
      Keeps-trans limit s s' (drain_queue P c s') (untrack-Keeps s c.has_reconciler pool_name id w)
        (drain_queue-Keeps s')

  pub reap_all-Keeps :
      (rs : List RunnerStatus) (s : Controller World) → Keeps limit s (reap_all P c rs s)
  unfolding reap_all
  reap_all-Keeps [] s = Keeps-refl limit s
  reap_all-Keeps (r ∷ rs) s =
      let s' = reap_container P c r.id r.pool_name s in
      Keeps-trans limit s s' (reap_all P c rs s') (reap_container-Keeps r.id r.pool_name s)
        (reap_all-Keeps rs s')

  drain_runner-Keeps :
      (name : GoString) (r : RunnerStatus) (s : Controller World)
      → Keeps limit s (drain_runner P c name r s)
  unfolding drain_runner
  drain_runner-Keeps name r s e v = ((refl, refl), untracks name r.id tt stay)

  drain_runners-Keeps :
      (name : GoString) (rs : List RunnerStatus) (s : Controller World)
      → Keeps limit s (drain_runners P c name rs s)
  unfolding drain_runners
  drain_runners-Keeps name [] s = Keeps-refl limit s
  drain_runners-Keeps name (r ∷ rs) s =
      let s' = if is_running r then drain_runner P c name r s else s in
      Keeps-trans limit s s' (drain_runners P c name rs s')
        (Keeps-if limit s (is_running r) (drain_runner P c name r s) s (drain_runner-Keeps name r s)
          (Keeps-refl limit s))
        (drain_runners-Keeps name rs s')

  forget_requests-Keeps :
      (name : GoString) (s : Controller World) → Keeps limit s (forget_requests name s)
  unfolding forget_requests
  forget_requests-Keeps name s e v = ((refl, refl), stay)

  pub drain_pool-Keeps :
      (name : GoString) (s : Controller World) → Keeps limit s (drain_pool P c name s)
  unfolding drain_pool
  drain_pool-Keeps name s =
      let s' = drain_runners P c name (tracked_pool_runners name s.tracked) s in
      Keeps-if limit s (c.has_engine && c.has_reconciler) (forget_requests name s') s
        (Keeps-trans limit s s' (forget_requests name s')
          (drain_runners-Keeps name (tracked_pool_runners name s.tracked) s)
          (forget_requests-Keeps name s'))
        (Keeps-refl limit s)

  pub drain_pools-Keeps :
      (names : List GoString) (s : Controller World) → Keeps limit s (drain_pools P c names s)
  unfolding drain_pools
  drain_pools-Keeps [] s = Keeps-refl limit s
  drain_pools-Keeps (name ∷ names) s =
      let s' = drain_pool P c name s in
      Keeps-trans limit s s' (drain_pools P c names s') (drain_pool-Keeps name s)
        (drain_pools-Keeps names s')
