-- ===== src/Orchestrator/Webhooks/Limits.antt =====
-- HandleWorkflowJob and the global quota.
use gh_runner.Prelude.{
  ◌≤◌, ◌<◌, ◌≡◌, refl, inl, inr, Bool, true, false, ◌&&◌, ◌||◌, not, Option, none, some, List, [],
  ◌∷◌, arith, max, Bool-cases, Option-cases,
}
use gh_runner.Prelude.Text.{GoString, codes, is_empty, text_eq}
use gh_runner.Prelude.Dict.{Dict, weigh}
use gh_runner.Orchestrator.Tracking.{
  RunnerStatus, Tracked, is_running, running_one, running_in, mark_in, mark_runner_busy,
  total_active,
}
use gh_runner.Orchestrator.Tracking.Moves.{Moves-total}
use gh_runner.Orchestrator.Platform.{RunnerPool, Platform, Options}
use gh_runner.Orchestrator.Controller.{
  ControllerState, stopped, booting, running, paused, Controller, load_pools,
}
use gh_runner.Orchestrator.Controller.Queue.{quota_saturated, pool_full, enqueue_request}
use gh_runner.Orchestrator.Controller.Pool.Provision.{quota_open, spawn-Effect}
use gh_runner.Orchestrator.Lifecycle.Keeps.{AnyCap, AnyPool}
use gh_runner.Orchestrator.Matching.{
  WorkflowJobEvent, UrlLibrary, match_pool_for_event_with_targets,
}
use gh_runner.Orchestrator.Webhooks.{
  settle_queued, admit_queued, queued_match, queued_loaded, load_all_targets, handle_queued,
  mark_busy, handle_action, handle_in, handle_workflow_job,
}

-- Marking a runner busy or idle changes no count of running runners.
mark_in-running :
    (x : GoString) (busy : Bool) (m m' : Dict RunnerStatus)
    → mark_in x busy m ≡ some m'
    → running_in m' ≡ running_in m
unfolding mark_in running_in weigh running_one is_running
mark_in-running x busy [] m' e = cc
mark_in-running x busy ((id, s) ∷ m) m' e = elim (Bool-cases (text_eq s.id x || text_eq s.name x)) [
  | inl found ↦ let e' = (rw (found, mark_in) at e) in ground arith
  | inr other ↦ elim (Option-cases (mark_in x busy m)) [
    | inl missing ↦ let e' = (rw (other, missing, mark_in) at e) in cc
    | inr (rest, got) ↦
        let ih = mark_in-running x busy m rest got in
        let e' = (rw (other, got, mark_in) at e) in ground arith
  ]
]

pub mark_runner_busy-total :
    (x : GoString) (busy : Bool) (t : Tracked)
    → total_active (mark_runner_busy x busy t) ≡ total_active t
unfolding mark_runner_busy total_active weigh
mark_runner_busy-total x busy [] = refl
mark_runner_busy-total x busy ((p, m) ∷ t) = elim (Option-cases (mark_in x busy m)) [
  | inl missing ↦ rw (missing, mark_runner_busy) (omega (arith, mark_runner_busy-total x busy t))
  | inr (m', got) ↦ rw (got, mark_runner_busy) (omega (arith, mark_in-running x busy m m' got))
]

module _ (P : Platform) (c : Options) where
  open P use {World}

  -- The running runners are at most those of before or the quota.
  abbrev InQuota : Controller World → Controller World → Type 0
  InQuota s t = total_active t.tracked ≤ max (total_active s.tracked) s.global_max_runners

  settle_queued-InQuota :
      (p : RunnerPool) (url : GoString) (s : Controller World)
      → 0 < s.global_max_runners
      → InQuota s (settle_queued P c p url s).1
  unfolding settle_queued
  settle_queued-InQuota p url s pos = elim (Bool-cases (pool_full p s)) [
    | inl full ↦ rw full (omega arith)
    | inr room ↦ elim (Bool-cases (quota_saturated s)) [
      | inl closed ↦ rw (room, closed) (unfold enqueue_request in omega arith)
      | inr open_quota ↦
          rw (room, open_quota)
            (Moves-total pos
              (spawn-Effect P c p s.global_max_runners AnyCap AnyPool tt none true url s
                (quota_open s s.global_max_runners refl open_quota)
                (unfold pool_full in ground arith)).1)
    ]
  ]

  admit_queued-InQuota :
      (p : RunnerPool) (url : GoString) (s : Controller World)
      → 0 < s.global_max_runners
      → InQuota s (admit_queued P c p url s).1
  unfolding admit_queued
  admit_queued-InQuota p url s pos = elim (Bool-cases (pool_full p s)) [
    | inl full ↦ rw full (omega arith)
    | inr room ↦ elim (Bool-cases (quota_saturated s)) [
      | inl closed ↦ rw (room, closed) (unfold enqueue_request in omega arith)
      | inr free ↦
          let locked = settle_queued-InQuota p url s pos in
          rw (room, free) (rw (room, free, settle_queued) at locked)
    ]
  ]

  queued_match-InQuota :
      (found : Option (RunnerPool × GoString)) (s : Controller World)
      → 0 < s.global_max_runners
      → InQuota s (queued_match P c found s).1
  unfolding queued_match
  queued_match-InQuota none s pos = omega arith
  queued_match-InQuota (some (p, url)) s pos = admit_queued-InQuota p url s pos

  queued_loaded-InQuota :
      (net : UrlLibrary) (provider : GoString) (e : WorkflowJobEvent)
      (pools : Option (List RunnerPool)) (s : Controller World)
      → 0 < s.global_max_runners
      → InQuota s (queued_loaded P c net provider e pools s).1
  unfolding queued_loaded
  queued_loaded-InQuota net provider e none s pos = omega arith
  queued_loaded-InQuota net provider e (some ps) s pos =
      let (targets, w) = load_all_targets P c ps s.world in
      queued_match-InQuota
        (match_pool_for_event_with_targets P.unicode net P.json_strings targets provider e)
        (record s { world = w }) pos

  handle_queued-InQuota :
      (net : UrlLibrary) (provider : GoString) (e : WorkflowJobEvent) (s : Controller World)
      → 0 < s.global_max_runners
      → InQuota s (handle_queued P c net provider e s).1
  unfolding handle_queued
  handle_queued-InQuota net provider e s pos =
      let (pools, w) = load_pools P c s.world in
      queued_loaded-InQuota net provider e pools (record s { world = w }) pos

  mark_busy-InQuota :
      (busy : Bool) (e : WorkflowJobEvent) (s : Controller World)
      → InQuota s (mark_busy P c busy e s)
  unfolding mark_busy
  mark_busy-InQuota busy e s =
      let same = mark_runner_busy-total e.runner_name busy s.tracked in
      elim (Bool-cases (not (is_empty e.runner_name) && c.has_reconciler)) [
        | inl marks ↦ rw marks (omega (arith, same))
        | inr skips ↦ rw skips (omega arith)
      ]

  handle_action-InQuota :
      (net : UrlLibrary) (provider : GoString) (e : WorkflowJobEvent) (s : Controller World)
      → 0 < s.global_max_runners
      → InQuota s (handle_action P c net provider e s).1
  unfolding handle_action
  handle_action-InQuota net provider e s pos =
      elim (Bool-cases (text_eq e.action (codes "queued"))) [
        | inl queued ↦ rw queued (handle_queued-InQuota net provider e s pos)
        | inr q ↦ elim (Bool-cases (text_eq e.action (codes "in_progress"))) [
          | inl started ↦ rw (q, started) (mark_busy-InQuota true e s)
          | inr p ↦ elim (Bool-cases (text_eq e.action (codes "completed"))) [
            | inl done ↦ rw (q, p, done) (mark_busy-InQuota false e s)
            | inr other ↦ rw (q, p, other) (omega arith)
          ]
        ]
      ]

  handle_in-InQuota :
      (st : ControllerState) (net : UrlLibrary) (provider : GoString) (e : WorkflowJobEvent)
      (s : Controller World)
      → 0 < s.global_max_runners
      → InQuota s (handle_in P c st net provider e s).1
  unfolding handle_in
  handle_in-InQuota stopped net provider e s pos = omega arith
  handle_in-InQuota booting net provider e s pos = handle_action-InQuota net provider e s pos
  handle_in-InQuota running net provider e s pos = handle_action-InQuota net provider e s pos
  handle_in-InQuota paused net provider e s pos = omega arith

  -- Under a positive quota, no workflow_job event takes the running runners past the larger of the
  -- quota and their number before the event.
  pub handle_workflow_job-total :
      (net : UrlLibrary) (provider : GoString) (e : WorkflowJobEvent) (s : Controller World)
      → 0 < s.global_max_runners
      → total_active (handle_workflow_job P c net provider e s).1.tracked
        ≤ max (total_active s.tracked) s.global_max_runners
  unfolding handle_workflow_job
  handle_workflow_job-total net provider e s pos = handle_in-InQuota s.state net provider e s pos
