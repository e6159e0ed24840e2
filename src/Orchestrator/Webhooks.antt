-- ===== src/Orchestrator/Webhooks.antt =====
-- internal/orchestrator/webhook_scaling.go: HandleWorkflowJob.
pub mod Limits
use gh_runner.Prelude.{
  ℕ, ◌==◌, ◌≤◌, ◌<◌, ◌≡◌, refl, Bool, true, false, ◌&&◌, ◌||◌, not, Option, none, some, List, [],
  ◌∷◌, ◌++◌, if◌then◌else◌, max, arith, is_some, inl, inr, Bool-cases,
}
use gh_runner.Prelude.Text.{GoString, codes, is_empty, text_eq}
use gh_runner.Orchestrator.Tracking.{mark_runner_busy, total_active, pool_active}
use gh_runner.Orchestrator.Platform.{
  RunnerPool, Error, controller_stopped, load_pools_failed, spawn_failed, Platform, Options,
}
use gh_runner.Orchestrator.Controller.{
  ControllerState, stopped, booting, running, paused, Controller, load_pools, load_pool_targets,
}
use gh_runner.Orchestrator.Controller.Spawn.{spawn_single_runner}
use gh_runner.Orchestrator.Controller.Queue.{quota_saturated, pool_full, enqueue_request}
use gh_runner.Orchestrator.Matching.{
  WorkflowJobEvent, UrlLibrary, match_pool_for_event_with_targets,
}

module _ (P : Platform) (c : Options) where
  open P use {World, unicode, json_strings}

  -- poolTargetsMap, in the order of the pools.
  unfoldable pub load_all_targets :
      List RunnerPool → World → List (RunnerPool × List GoString) × World
  load_all_targets [] w = ([], w)
  load_all_targets (p ∷ ps) w =
      let (targets, w1) = load_pool_targets P c p w in
      let (rest, w2) = load_all_targets ps w1 in ((p, targets) ∷ rest, w2)

  -- The capacity checks; the check under provisionMu repeats the first one on the same state when
  -- nothing else runs in between, and `settle_queued` is what happens under the lock.
  unfoldable pub settle_queued :
      RunnerPool → GoString → Controller World → Option Error × Controller World
  unfolding pool_full quota_saturated enqueue_request
  settle_queued p url s =
      if pool_full p s
      then (none, s)
      else if quota_saturated s
      then (none, enqueue_request P c p.name url s)
      else spawn_single_runner P p none true url s

  admit_queued : RunnerPool → GoString → Controller World → Option Error × Controller World
  unfolding pool_full quota_saturated enqueue_request settle_queued
  admit_queued p url s =
      if pool_full p s
      then (none, s)
      else if quota_saturated s
      then (none, enqueue_request P c p.name url s)
      else settle_queued p url s

  queued_match : Option (RunnerPool × GoString) → Controller World → Option Error × Controller World
  unfolding admit_queued
  queued_match none s = (none, s)
  queued_match (some (p, url)) s = admit_queued p url s

  queued_loaded :
      UrlLibrary
      → GoString
      → WorkflowJobEvent
      → Option (List RunnerPool)
      → Controller World
      → Option Error × Controller World
  unfolding queued_match load_all_targets
  queued_loaded net provider e none s = (some load_pools_failed, s)
  queued_loaded net provider e (some ps) s =
      let (targets, w) = load_all_targets ps s.world in
      queued_match (match_pool_for_event_with_targets unicode net json_strings targets provider e)
        (record s { world = w })

  -- The queued action.
  unfoldable pub handle_queued :
      UrlLibrary → GoString → WorkflowJobEvent → Controller World → Option Error × Controller World
  unfolding queued_loaded
  handle_queued net provider e s =
      let (pools, w) = load_pools P c s.world in
      queued_loaded net provider e pools (record s { world = w })

  -- The in_progress and completed actions.
  unfoldable pub mark_busy : Bool → WorkflowJobEvent → Controller World → Controller World
  mark_busy busy e s =
      if not (is_empty e.runner_name) && c.has_reconciler
      then record s { tracked = mark_runner_busy e.runner_name busy s.tracked }
      else s

  unfoldable pub handle_action :
      UrlLibrary → GoString → WorkflowJobEvent → Controller World → Option Error × Controller World
  unfolding handle_queued mark_busy
  handle_action net provider e s =
      if text_eq e.action (codes "queued")
      then handle_queued net provider e s
      else if text_eq e.action (codes "in_progress")
      then (none, mark_busy true e s)
      else if text_eq e.action (codes "completed")
      then (none, mark_busy false e s)
      else (none, s)

  handle_in :
      ControllerState
      → UrlLibrary
      → GoString
      → WorkflowJobEvent
      → Controller World
      → Option Error × Controller World
  unfolding handle_action
  handle_in stopped net provider e s = (some controller_stopped, s)
  handle_in paused net provider e s = (none, s)
  handle_in _ net provider e s = handle_action net provider e s

  unfoldable pub handle_workflow_job :
      UrlLibrary → GoString → WorkflowJobEvent → Controller World → Option Error × Controller World
  unfolding handle_in
  handle_workflow_job net provider e s = handle_in s.state net provider e s
