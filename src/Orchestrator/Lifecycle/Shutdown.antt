-- ===== src/Orchestrator/Lifecycle/Shutdown.antt =====
-- internal/orchestrator/controller.go: GracefulShutdown, ImmediateShutdown and
-- forceTerminateRemaining. What the waiting loop selects on is a list of events.
pub mod Ends
pub mod Returns
use gh_runner.Prelude.{
  ℕ, ◌==◌, Bool, true, false, ◌&&◌, ◌||◌, not, Option, none, some, List, [], ◌∷◌, ◌++◌,
  if◌then◌else◌, is_some,
}
use gh_runner.Prelude.Text.{GoString}
use gh_runner.Prelude.Dict.{Dict, values}
use gh_runner.Orchestrator.Tracking.{
  RunnerStatus, Tracked, is_running, is_working, is_idle, total_active,
}
use gh_runner.Orchestrator.Platform.{Error, context_canceled, Platform, Options}
use gh_runner.Orchestrator.Controller.{Controller, stopped, deregister_runner}
use gh_runner.Orchestrator.Lifecycle.{pause, run_audit, reap_exited}

-- The three cases of the select statement.
pub data Wait : Type 0 where
  canceled timed_out ticked : Wait

-- The entries of a pool's map that fail the test.
unfoldable pub strip : (RunnerStatus → Bool) → Dict RunnerStatus → Dict RunnerStatus
strip test [] = []
strip test ((id, s) ∷ m) = if test s then strip test m else (id, s) ∷ strip test m

-- The idle runners of all pools are deleted; a map that becomes empty stays.
unfoldable pub strip_idle : Tracked → Tracked
unfolding strip is_idle
strip_idle [] = []
strip_idle ((p, m) ∷ t) = (p, strip is_idle m) ∷ strip_idle t

-- The running runners of all pools are deleted, and the maps that become empty.
unfoldable pub strip_running : Tracked → Tracked
unfolding strip
strip_running [] = []
strip_running ((p, m) ∷ t) =
    let rest = strip_running t in
    elim (strip is_running m) [ [] ↦ rest | e ∷ m' ↦ (p, e ∷ m') ∷ rest ]

-- Whether a busy runner is left to wait for.
unfoldable pub any_working : Tracked → Bool
unfolding is_working
any_working [] = false
any_working ((p, []) ∷ t) = any_working t
any_working ((p, (id, s) ∷ m) ∷ t) = is_working s || any_working ((p, m) ∷ t)

module _ (P : Platform) (c : Options) where
  open P use {World}

  -- Deregister and terminate each runner that passes the test.
  remove_runners : (RunnerStatus → Bool) → List RunnerStatus → World → World
  remove_runners test [] w = w
  remove_runners test (r ∷ rs) w =
      let w' = if test r then (P.terminate_runner r.id (deregister_runner P c r w)).1 else w in
      remove_runners test rs w'

  unfoldable pub remove_all : (RunnerStatus → Bool) → Tracked → World → World
  unfolding remove_runners
  remove_all test [] w = w
  remove_all test ((p, m) ∷ t) w = remove_all test t (remove_runners test (values m) w)

  unfoldable pub force_terminate_remaining : Controller World → Controller World
  unfolding strip_running remove_all
  force_terminate_remaining s =
      if c.has_engine && c.has_reconciler
      then record s {
        tracked = strip_running s.tracked;
        world = remove_all is_running s.tracked s.world;
      }
      else s

  unfoldable pub immediate_shutdown : Controller World → Controller World
  unfolding force_terminate_remaining
  immediate_shutdown s = record (force_terminate_remaining (pause s)) { state = stopped }

  -- One tick of the waiting loop: the audit, and the reaping of what exited.
  unfoldable pub shutdown_tick : Controller World → Controller World
  unfolding run_audit reap_exited
  shutdown_tick s = reap_exited P c (run_audit P c s)

  -- `none` while the loop still waits when the events end.
  unfoldable pub shutdown_wait :
      List Wait → Controller World → Option (Option Error × Controller World)
  unfolding shutdown_tick
  shutdown_wait [] s = none
  shutdown_wait (canceled ∷ es) s =
      some (some context_canceled, record (force_terminate_remaining s) { state = stopped })
  shutdown_wait (timed_out ∷ es) s =
      some (none, record (force_terminate_remaining s) { state = stopped })
  shutdown_wait (ticked ∷ es) s =
      let s' = shutdown_tick s in
      let rest = shutdown_wait es s' in
      if total_active s'.tracked == 0 then some (none, record s' { state = stopped }) else rest

  -- Step 1 of GracefulShutdown: the idle runners go at once.
  unfoldable pub remove_idle : Controller World → Controller World
  unfolding strip_idle remove_all
  remove_idle s = record s {
    tracked = strip_idle s.tracked;
    world = remove_all is_idle s.tracked s.world;
  }

  unfoldable pub graceful_shutdown :
      List Wait → Controller World → Option (Option Error × Controller World)
  unfolding shutdown_wait remove_idle any_working
  graceful_shutdown events s =
      let quiet = remove_idle (pause s) in
      let waited = shutdown_wait events quiet in
      if not (c.has_engine && c.has_reconciler)
      then some (none, record (pause s) { state = stopped })
      else if any_working s.tracked
      then waited
      else some (none, record quiet { state = stopped })
