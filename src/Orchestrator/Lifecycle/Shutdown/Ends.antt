-- ===== src/Orchestrator/Lifecycle/Shutdown/Ends.antt =====
-- The end of both shutdowns of internal/orchestrator/controller.go.
use gh_runner.Prelude.{
  ◌≡◌, refl, ◌==◌, true, ◌&&◌, Option, none, some, List, [], ◌∷◌, inl, inr, arith, Bool-cases, ◌⊎◌,
  ap, false,
}
use gh_runner.Prelude.Text.{GoString}
use gh_runner.Prelude.Dict.{Dict, weigh}
use gh_runner.Orchestrator.Tracking.{
  RunnerStatus, Tracked, is_running, is_working, is_idle, running_one, running_in, total_active,
}
use gh_runner.Orchestrator.Platform.{Error, Platform, Options}
use gh_runner.Orchestrator.Controller.{
  ControllerState, stopped, booting, running, paused, Controller,
}
use gh_runner.Orchestrator.Lifecycle.{pause, pause_from}
use gh_runner.Orchestrator.Lifecycle.Shutdown.{
  Wait, canceled, timed_out, ticked, strip, strip_idle, strip_running, any_working,
  force_terminate_remaining, immediate_shutdown, shutdown_tick, shutdown_wait, remove_idle,
  graceful_shutdown,
}

strip-running : (m : Dict RunnerStatus) → running_in (strip is_running m) ≡ 0
unfolding strip running_in weigh running_one
strip-running [] = refl
strip-running ((id, s) ∷ m) = ground (arith, strip-running m)

-- No running runner is left after forceTerminateRemaining.
strip_running-total : (t : Tracked) → total_active (strip_running t) ≡ 0
unfolding strip_running total_active weigh
strip_running-total [] = refl
strip_running-total ((p, m) ∷ t) = ground (arith, strip_running-total t, strip-running m)

strip-idle :
    (p : GoString) (m : Dict RunnerStatus) (t : Tracked)
    → any_working ((p, m) ∷ t) ≡ false
    → (running_in (strip is_idle m) ≡ 0) × (any_working t ≡ false)
unfolding strip any_working running_in weigh running_one is_idle is_working
strip-idle p [] t h = (refl, h)
strip-idle p ((id, s) ∷ m) t h = ground (arith, strip-idle p m t)

-- If no runner is busy, none is left when the idle ones are gone.
strip_idle-total : (t : Tracked) → any_working t ≡ false → total_active (strip_idle t) ≡ 0
unfolding strip_idle total_active weigh
strip_idle-total [] h = refl
strip_idle-total ((p, m) ∷ t) h =
    let (here, rest) = strip-idle p m t h in omega (arith, here, strip_idle-total t rest)

module _ (P : Platform) (c : Options) (ready : (c.has_engine && c.has_reconciler) ≡ true) where
  open P use {World}

  -- The controller is stopped and tracks no running runner.
  abbrev Cleared : Controller World → Type 0
  Cleared s = (s.state ≡ stopped) × (total_active s.tracked ≡ 0)

  force_terminate_remaining-total :
      (s : Controller World) → total_active (force_terminate_remaining P c s).tracked ≡ 0
  unfolding force_terminate_remaining
  force_terminate_remaining-total s = rw ready (strip_running-total s.tracked)

  immediate_shutdown-Cleared : (s : Controller World) → Cleared (immediate_shutdown P c s)
  unfolding immediate_shutdown
  immediate_shutdown-Cleared s = (refl, force_terminate_remaining-total (pause s))

  shutdown_wait-Cleared :
      (events : List Wait) (s : Controller World) (err : Option Error) (t : Controller World)
      → shutdown_wait P c events s ≡ some (err, t)
      → Cleared t
  unfolding shutdown_wait
  shutdown_wait-Cleared [] s err t e = cc
  shutdown_wait-Cleared (canceled ∷ es) s err t e =
      ground (arith, force_terminate_remaining-total s)
  shutdown_wait-Cleared (timed_out ∷ es) s err t e =
      ground (arith, force_terminate_remaining-total s)
  shutdown_wait-Cleared (ticked ∷ es) s err t e =
      let s' = shutdown_tick P c s in
      elim (Bool-cases (total_active s'.tracked == 0)) [
        | inl empty ↦ let e' = (rw (empty, shutdown_wait) at e) in ground arith
        | inr busy ↦ shutdown_wait-Cleared es s' err t (rw (busy, shutdown_wait) at e)
      ]

  pub graceful_shutdown_busy :
      (events : List Wait) (s : Controller World)
      → any_working s.tracked ≡ true
      → graceful_shutdown P c events s ≡ shutdown_wait P c events (remove_idle P c (pause s))
  graceful_shutdown_busy events s busy = unfold graceful_shutdown in rw (ready, busy) refl

  pub graceful_shutdown_quiet :
      (events : List Wait) (s : Controller World)
      → any_working s.tracked ≡ false
      → graceful_shutdown P c events s
        ≡ some (none, record (remove_idle P c (pause s)) { state = stopped })
  graceful_shutdown_quiet events s quiet = unfold graceful_shutdown in rw (ready, quiet) refl

  pause_from-tracked :
      (st : ControllerState) (s : Controller World) → (pause_from st s).tracked ≡ s.tracked
  unfolding pause_from
  pause_from-tracked stopped s = refl
  pause_from-tracked booting s = refl
  pause_from-tracked running s = refl
  pause_from-tracked paused s = refl

  pause-tracked : (s : Controller World) → (pause s).tracked ≡ s.tracked
  unfolding pause
  pause-tracked s = pause_from-tracked s.state s

  remove_idle-total :
      (s : Controller World)
      → any_working s.tracked ≡ false
      → total_active (remove_idle P c (pause s)).tracked ≡ 0
  remove_idle-total s quiet =
      let same = pause-tracked s in
      let empty = strip_idle-total s.tracked quiet in unfold remove_idle in rw same empty

  graceful_shutdown-Cleared :
      (events : List Wait) (s : Controller World) (err : Option Error) (t : Controller World)
      → graceful_shutdown P c events s ≡ some (err, t)
      → Cleared t
  graceful_shutdown-Cleared events s err t e = elim (Bool-cases (any_working s.tracked)) [
    | inl busy ↦
        shutdown_wait-Cleared events (remove_idle P c (pause s)) err t
          (rw (graceful_shutdown_busy events s busy) at e)
    | inr quiet ↦
        let e' = (rw (graceful_shutdown_quiet events s quiet) at e) in
        let empty = remove_idle-total s quiet in ground arith
  ]

module _ (P : Platform) (c : Options) where
  open P use {World}

  -- The end of a shutdown: with an engine and a reconciler the controller is stopped and tracks no
  -- running runner; without them nothing but the state has changed.
  abbrev pub IsOver : Controller World → Controller World → Type 0
  IsOver s t =
      (((c.has_engine && c.has_reconciler) ≡ true)
        × (t.state ≡ stopped)
        × (total_active t.tracked ≡ 0))
      ⊎ (((c.has_engine && c.has_reconciler) ≡ false) × (t ≡ record s { state = stopped }))

  pause_from-stopped :
      (st : ControllerState) (s : Controller World)
      → record (pause_from st s) { state = stopped } ≡ record s { state = stopped }
  unfolding pause_from
  pause_from-stopped stopped s = refl
  pause_from-stopped booting s = refl
  pause_from-stopped running s = refl
  pause_from-stopped paused s = refl

  pause-stopped :
      (s : Controller World) → record (pause s) { state = stopped } ≡ record s { state = stopped }
  unfolding pause
  pause-stopped s = pause_from-stopped s.state s

  -- An immediate shutdown leaves the controller stopped. With an engine and a reconciler no running
  -- runner is tracked afterwards; without one of them nothing but the state changes.
  pub immediate_shutdown-IsOver : (s : Controller World) → IsOver s (immediate_shutdown P c s)
  immediate_shutdown-IsOver s = elim (Bool-cases (c.has_engine && c.has_reconciler)) [
    | inl ready ↦
        let (over, empty) = immediate_shutdown-Cleared P c ready s in inl (ready, over, empty)
    | inr off ↦
        let same = pause-stopped s in
        inr (off, unfold immediate_shutdown force_terminate_remaining in rw off same)
  ]

  pub graceful_shutdown_off :
      (events : List Wait) (s : Controller World)
      → (c.has_engine && c.has_reconciler) ≡ false
      → graceful_shutdown P c events s ≡ some (none, record s { state = stopped })
  graceful_shutdown_off events s off =
      let same = pause-stopped s in
      unfold graceful_shutdown in rw off (ap (λ t. some (none, t)) same)

  -- A graceful shutdown that returns leaves the controller stopped, whatever the waiting loop sees.
  -- With an engine and a reconciler no running runner is tracked afterwards; without one of them
  -- nothing but the state changes.
  pub graceful_shutdown-IsOver :
      (events : List Wait) (s : Controller World) (err : Option Error) (t : Controller World)
      → graceful_shutdown P c events s ≡ some (err, t)
      → IsOver s t
  graceful_shutdown-IsOver events s err t e = elim (Bool-cases (c.has_engine && c.has_reconciler)) [
    | inl ready ↦
        let (over, empty) = graceful_shutdown-Cleared P c ready events s err t e in
        inl (ready, over, empty)
    | inr off ↦ let e' = (rw (graceful_shutdown_off events s off) at e) in inr (off, cc e')
  ]
