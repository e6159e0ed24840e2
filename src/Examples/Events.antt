-- ===== src/Examples/Events.antt =====
-- The theorems on events, starts, stops and matching at the small installation.
use gh_runner.Prelude.{if◌then◌else◌, ltb, ◌+◌, ℕ, ◌≤◌, ◌≡◌, refl, none, some, [], ◌∷◌, max, arith}
use gh_runner.Prelude.Dict.{values, lookup, insert}
use gh_runner.Orchestrator.Audit.{audit, audit_all, audit_one, sweep, sweep_pool}
use gh_runner.Prelude.Text.{codes, text_eq}
use gh_runner.Orchestrator.Tracking.{total_active, pool_map, track_runner}
use gh_runner.Orchestrator.Tracking.Valid.{IsValid}
use gh_runner.Orchestrator.Platform.{context_canceled, Platform}
use gh_runner.Orchestrator.Controller.{Controller, stopped, deregister_runner, load_pools}
use gh_runner.Orchestrator.Lifecycle.{ContainerEvent, pause}
use gh_runner.Orchestrator.Lifecycle.Boot.{boot, handle_container_event}
use gh_runner.Orchestrator.Lifecycle.Boot.Events.{
  BootResult, rebuild, handle_container_event-total, boot-total,
}
use gh_runner.Orchestrator.Lifecycle.Shutdown.{
  shutdown_tick, canceled, force_terminate_remaining, immediate_shutdown, remove_idle,
  graceful_shutdown, any_working,
}
use gh_runner.Orchestrator.Lifecycle.Shutdown.Ends.{
  IsOver, immediate_shutdown-IsOver, graceful_shutdown-IsOver,
}
use gh_runner.Orchestrator.Lifecycle.Shutdown.Returns.{
  replicate_ticks, after_ticks, graceful_shutdown_returns,
}
use gh_runner.Orchestrator.Matching.{
  WorkflowJobEvent, UrlLibrary, match_pool_for_event_with_targets,
}
use gh_runner.Orchestrator.Matching.Best.{Promise, match_pool_for_event_with_targets-Promise}
use gh_runner.Orchestrator.Webhooks.{handle_workflow_job}
use gh_runner.Orchestrator.Webhooks.Limits.{handle_workflow_job-total}
use gh_runner.Examples.{
  ascii, installation, options, web_pool, repository, fleet, fleet-IsValid, busy_runner,
}

-- A library that does not parse, so that addresses are compared as they stand.
abbrev plain_urls : UrlLibrary
plain_urls = record { parse = λ s. none; print = λ url. url.path; equal_fold = text_eq }

abbrev queued_job : WorkflowJobEvent
queued_job = record {
  action = codes "queued";
  labels = codes "linux" ∷ [];
  runner_name = [];
  html_url = repository;
  clone_url = [];
  full_name = codes "acme/app";
}

handle_workflow_job-total_example :
    total_active
      (handle_workflow_job installation options plain_urls
        (codes "github")
        queued_job
        fleet).1.tracked
    ≤ max (total_active fleet.tracked) 3
handle_workflow_job-total_example =
    handle_workflow_job-total installation options plain_urls (codes "github") queued_job fleet
      (omega arith)

match_pool_for_event_with_targets-Promise_example :
    Promise ascii plain_urls
      (λ s. none)
      ((web_pool, repository ∷ []) ∷ [])
      (codes "github")
      queued_job
      (match_pool_for_event_with_targets ascii plain_urls
        (λ s. none)
        ((web_pool, repository ∷ []) ∷ [])
        (codes "github")
        queued_job)
match_pool_for_event_with_targets-Promise_example =
    match_pool_for_event_with_targets-Promise ascii plain_urls (λ s. none)
      ((web_pool, repository ∷ []) ∷ []) (codes "github") queued_job

abbrev died : ContainerEvent
died = record {
  container_id = codes "c0";
  pool_name = codes "web";
  action = codes "die";
  exit_code = 0;
}

handle_container_event-total_example :
    let t = (handle_container_event installation options died fleet).1 in
    (total_active t.tracked ≤ max (total_active fleet.tracked) 3)
    × (t.state ≡ fleet.state)
    × (t.global_max_runners ≡ 3)
    × IsValid t.tracked
handle_container_event-total_example =
    handle_container_event-total installation options died fleet fleet-IsValid (omega arith)

boot-total_example :
    (total_active (boot installation options fleet).1.tracked
      ≤ max (total_active (rebuild installation options fleet).tracked) 3)
    × IsValid (boot installation options fleet).1.tracked
    × BootResult installation options (boot installation options fleet)
boot-total_example = boot-total installation options fleet fleet-IsValid (omega arith)

immediate_shutdown-IsOver_example :
    IsOver installation options fleet (immediate_shutdown installation options fleet)
immediate_shutdown-IsOver_example = immediate_shutdown-IsOver installation options fleet

-- The context is canceled while the busy runner works on.
abbrev interrupted : Controller ℕ
interrupted =
    record (force_terminate_remaining installation options
      (remove_idle installation options (pause fleet))) { state = stopped }

interrupts :
    graceful_shutdown installation options (canceled ∷ []) fleet
    ≡ some (some context_canceled, interrupted)
unfolding graceful_shutdown any_working text_eq
interrupts = refl

graceful_shutdown-IsOver_example : IsOver installation options fleet interrupted
graceful_shutdown-IsOver_example =
    graceful_shutdown-IsOver installation options (canceled ∷ []) fleet (some context_canceled)
      interrupted interrupts

-- The engine lists the busy runner until the third question after the idle one is gone.
abbrev finishing : Platform
finishing = record installation {
  audit_runners = λ w. (if ltb w 13 then some (busy_runner ∷ []) else some [], w + 1);
}

finishes :
    (finishing.audit_runners
      (after_ticks finishing options 2 (remove_idle finishing options (pause fleet))).world).0
    ≡ some []
unfolding after_ticks shutdown_tick remove_idle pause values text_eq deregister_runner load_pools
    audit audit_all audit_one lookup pool_map sweep track_runner insert sweep_pool
finishes = refl

graceful_shutdown_returns_example :
    (t : Controller ℕ) × (graceful_shutdown finishing options (replicate_ticks 3 []) fleet
      ≡ some (none, t))
graceful_shutdown_returns_example = graceful_shutdown_returns finishing options 2 [] fleet finishes
