-- ===== src/Orchestrator/Lifecycle/Loop.antt =====
-- Reconcile behind the refreshed quota: its steps as moves under that quota.
use gh_runner.Prelude.{ℕ, refl, true, ◌&&◌, ◌==◌, Option, none, some, List, [], ◌∷◌, if◌then◌else◌}
use gh_runner.Orchestrator.Tracking.{RunnerStatus, tracked_pool_runners, untrack_runner}
use gh_runner.Orchestrator.Tracking.Moves.{stay}
use gh_runner.Orchestrator.Platform.{RunnerPool, Platform, Options}
use gh_runner.Orchestrator.Controller.{Controller, load_pools}
use gh_runner.Orchestrator.Controller.Queue.{drain_queue}
use gh_runner.Orchestrator.Controller.Pool.{reconcile_pool}
use gh_runner.Orchestrator.Controller.Pool.Limits.{reconcile_pool-Effect}
use gh_runner.Orchestrator.Lifecycle.{
  removed_pools, drain_pools, is_hung, terminate_hung, reap_hung, reap_hung_runners, check_pools,
  check_hung_runners, reconcile_pools, beat, reconcile_loaded, reconcile_rest,
}
use gh_runner.Orchestrator.Lifecycle.Keeps.{
  Keeps, Keeps-refl, Keeps-trans, Keeps-if, drain_queue-Keeps, untrack-Keeps, drain_pools-Keeps,
}

module _ (P : Platform) (c : Options) (limit : ℕ) where
  open P use {World}

  reap_hung-Keeps :
      (p : RunnerPool) (now : ℕ) (r : RunnerStatus) (s : Controller World)
      → Keeps limit s (reap_hung P c p now r s)
  unfolding reap_hung
  reap_hung-Keeps p now r s =
      let w = terminate_hung P c p now r s.world in
      let s' = record s { tracked = untrack_runner p.name r.id s.tracked; world = w } in
      Keeps-trans limit s s' (drain_queue P c s') (untrack-Keeps P c limit s true p.name r.id w)
        (drain_queue-Keeps P c limit s')

  reap_hung_runners-Keeps :
      (p : RunnerPool) (now : ℕ) (rs : List RunnerStatus) (s : Controller World)
      → Keeps limit s (reap_hung_runners P c p now rs s)
  unfolding reap_hung_runners
  reap_hung_runners-Keeps p now [] s = Keeps-refl limit s
  reap_hung_runners-Keeps p now (r ∷ rs) s =
      let s' = if is_hung P c p now r then reap_hung P c p now r s else s in
      Keeps-trans limit s s' (reap_hung_runners P c p now rs s')
        (Keeps-if limit s (is_hung P c p now r) (reap_hung P c p now r s) s
          (reap_hung-Keeps p now r s) (Keeps-refl limit s))
        (reap_hung_runners-Keeps p now rs s')

  check_pools-Keeps :
      (now : ℕ) (ps : List RunnerPool) (s : Controller World)
      → Keeps limit s (check_pools P c now ps s)
  unfolding check_pools
  check_pools-Keeps now [] s = Keeps-refl limit s
  check_pools-Keeps now (p ∷ ps) s =
      let rs = tracked_pool_runners p.name s.tracked in
      let test = p.max_runner_lifetime_seconds == 0 in
      let s' = if test then s else reap_hung_runners P c p now rs s in
      Keeps-trans limit s s' (check_pools P c now ps s')
        (Keeps-if limit s test s (reap_hung_runners P c p now rs s) (Keeps-refl limit s)
          (reap_hung_runners-Keeps p now rs s))
        (check_pools-Keeps now ps s')

  pub check_hung_runners-Keeps :
      (ps : List RunnerPool) (s : Controller World) → Keeps limit s (check_hung_runners P c ps s)
  unfolding check_hung_runners
  check_hung_runners-Keeps ps s =
      let (now, w) = P.now s.world in
      Keeps-if limit s (c.has_engine && c.has_reconciler)
        (check_pools P c now ps (record s { world = w })) s
        (check_pools-Keeps now ps (record s { world = w })) (Keeps-refl limit s)

  reconcile_pools-Keeps :
      (ps : List RunnerPool) (s : Controller World) → Keeps limit s (reconcile_pools P c ps s)
  unfolding reconcile_pools
  reconcile_pools-Keeps [] s = Keeps-refl limit s
  reconcile_pools-Keeps (p ∷ ps) s =
      let s' = (reconcile_pool P c p s).1 in
      Keeps-trans limit s s' (reconcile_pools P c ps s')
        (reconcile_pool-Effect P c p limit _ _ tt tt s) (reconcile_pools-Keeps ps s')

  beat-Keeps : (s : Controller World) → Keeps limit s (beat P c s)
  unfolding beat
  beat-Keeps s e v = ((refl, refl), stay)

  reconcile_loaded-Keeps :
      (pools : Option (List RunnerPool)) (s : Controller World)
      → Keeps limit s (reconcile_loaded P c pools s).1
  unfolding reconcile_loaded
  reconcile_loaded-Keeps none s = Keeps-refl limit s
  reconcile_loaded-Keeps (some ps) s =
      let removed = if c.has_reconciler then removed_pools s.tracked ps else [] in
      let s1 = drain_pools P c removed s in
      let s2 = check_hung_runners P c ps s1 in
      let s3 = reconcile_pools P c ps s2 in
      Keeps-trans limit s s1 (beat P c s3) (drain_pools-Keeps P c limit removed s) (
        Keeps-trans limit s1 s2 (beat P c s3) (check_hung_runners-Keeps ps s1)
          (Keeps-trans limit s2 s3 (beat P c s3) (reconcile_pools-Keeps ps s2) (beat-Keeps s3)))

  -- Everything behind the refreshed quota.
  pub reconcile_rest-Keeps : (s : Controller World) → Keeps limit s (reconcile_rest P c s).1
  unfolding reconcile_rest
  reconcile_rest-Keeps s =
      let s1 = drain_queue P c s in
      let (pools, w) = load_pools P c s1.world in
      let s2 = record s1 { world = w } in
      Keeps-trans limit s s1 (reconcile_loaded P c pools s2).1 (drain_queue-Keeps P c limit s)
        (reconcile_loaded-Keeps pools s2)
