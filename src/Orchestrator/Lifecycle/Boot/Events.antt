-- ===== src/Orchestrator/Lifecycle/Boot/Events.antt =====
-- Container events and the start of the controller under the quota.
use gh_runner.Prelude.{
  ℕ, ◌≤◌, ◌<◌, ◌≡◌, refl, ap, ◌⊎◌, Bool, true, false, Option, none, some, List, [], ◌∷◌, inl, inr,
  arith, if◌then◌else◌, Bool-cases, max,
}
use gh_runner.Prelude.Text.{GoString, is_empty, text_eq}
use gh_runner.Orchestrator.Tracking.{total_active}
use gh_runner.Orchestrator.Tracking.Valid.{IsValid}
use gh_runner.Orchestrator.Tracking.Moves.{Moves-IsValid, Moves-total}
use gh_runner.Orchestrator.Platform.{
  RunnerPool, Error, engine_unreachable, load_pools_failed, Platform, Options,
}
use gh_runner.Orchestrator.Controller.{Controller, stopped, booting, running, load_pools}
use gh_runner.Orchestrator.Controller.Pool.{reconcile_pool, validate_and_provision_pool}
use gh_runner.Orchestrator.Controller.Pool.Limits.{
  reconcile_pool-Effect, validate_and_provision_pool-Effect,
}
use gh_runner.Orchestrator.Lifecycle.{
  ContainerEvent, is_inactive, terminate_if_engine, reap_container, run_audit, beat,
}
use gh_runner.Orchestrator.Lifecycle.Keeps.{
  AnyCap, AnyPool, Keeps, Keeps-refl, Keeps-trans, drain_queue-Keeps, reap_container-Keeps,
}
use gh_runner.Orchestrator.Lifecycle.Quota.{run_audit-Audited}
use gh_runner.Orchestrator.Lifecycle.Boot.{
  provision_pools, boot_loaded, ping_engine, boot, replenish_named, replenish_loaded,
  handle_runner_exit, handle_task_exit, handle_exit, is_exit_action, handle_container_event,
}

module _ (P : Platform) (c : Options) (limit : ℕ) where
  open P use {World}

  pool-Keeps : (p : RunnerPool) (s : Controller World) → Keeps limit s (reconcile_pool P c p s).1
  pool-Keeps p s e v = reconcile_pool-Effect P c p limit AnyCap AnyPool tt tt s e v

  -- The results of a test.
  Keeps-choice :
      (s : Controller World) (test : Bool) (x y : Option Error × Controller World)
      → Keeps limit s x.1
      → Keeps limit s y.1
      → Keeps limit s (if test then x else y).1
  Keeps-choice s true x y a b = a
  Keeps-choice s false x y a b = b

  replenish_named-Keeps :
      (name : GoString) (ps : List RunnerPool) (s : Controller World)
      → Keeps limit s (replenish_named P c name ps s).1
  unfolding replenish_named
  replenish_named-Keeps name [] s = Keeps-refl limit s
  replenish_named-Keeps name (p ∷ ps) s =
      Keeps-choice s (text_eq p.name name) (reconcile_pool P c p s) (replenish_named P c name ps s)
        (pool-Keeps p s) (replenish_named-Keeps name ps s)

  replenish_loaded-Keeps :
      (name : GoString) (pools : Option (List RunnerPool)) (s : Controller World)
      → Keeps limit s (replenish_loaded P c name pools s).1
  unfolding replenish_loaded
  replenish_loaded-Keeps name none s = Keeps-refl limit s
  replenish_loaded-Keeps name (some ps) s = replenish_named-Keeps name ps s

  handle_runner_exit-Keeps :
      (e : ContainerEvent) (s : Controller World) → Keeps limit s (handle_runner_exit P c e s).1
  unfolding handle_runner_exit
  handle_runner_exit-Keeps e s =
      let s1 = reap_container P c e.container_id e.pool_name s in
      let (pools, w) = load_pools P c s1.world in
      let s2 = record s1 { world = w } in
      let reaped = reap_container-Keeps P c limit e.container_id e.pool_name s in
      Keeps-choice s (is_empty e.pool_name) (none, s1) (replenish_loaded P c e.pool_name pools s2)
        reaped
        (Keeps-trans limit s s1 (replenish_loaded P c e.pool_name pools s2).1 reaped
          (replenish_loaded-Keeps e.pool_name pools s2))

  handle_task_exit-Keeps :
      (e : ContainerEvent) (s : Controller World) → Keeps limit s (handle_task_exit P c e s)
  unfolding handle_task_exit
  handle_task_exit-Keeps e s =
      drain_queue-Keeps P c limit
        (record s { world = terminate_if_engine P c e.container_id s.world })

  handle_exit-Keeps :
      (e : ContainerEvent) (s : Controller World) → Keeps limit s (handle_exit P c e s).1
  unfolding handle_exit
  handle_exit-Keeps e s =
      let log_path = if is_empty c.data_dir then [] else P.log_path c.data_dir e.container_id in
      let (answer, w) = P.handle_container_exit e.container_id e.exit_code log_path s.world in
      let s1 = record s { world = w } in
      Keeps-choice s c.has_task_exit_handler
        (if answer.0 then (none, handle_task_exit P c e s1) else handle_runner_exit P c e s1)
        (handle_runner_exit P c e s)
        (Keeps-choice s answer.0 (none, handle_task_exit P c e s1) (handle_runner_exit P c e s1)
          (handle_task_exit-Keeps e s1) (handle_runner_exit-Keeps e s1))
        (handle_runner_exit-Keeps e s)

  handle_container_event-Keeps :
      (e : ContainerEvent) (s : Controller World) → Keeps limit s (handle_container_event P c e s).1
  unfolding handle_container_event
  handle_container_event-Keeps e s =
      Keeps-choice s (is_inactive s.state) (none, s)
        (if is_exit_action P c e.action then handle_exit P c e s else (none, s))
        (Keeps-refl limit s)
        (Keeps-choice s (is_exit_action P c e.action) (handle_exit P c e s) (none, s)
          (handle_exit-Keeps e s) (Keeps-refl limit s))

  provision_pools-Keeps :
      (ps : List RunnerPool) (s : Controller World) → Keeps limit s (provision_pools P c ps s)
  unfolding provision_pools
  provision_pools-Keeps [] s = Keeps-refl limit s
  provision_pools-Keeps (p ∷ ps) s =
      Keeps-trans limit s (validate_and_provision_pool P c p s).1
        (provision_pools P c ps (validate_and_provision_pool P c p s).1)
        (λ e v. validate_and_provision_pool-Effect P c p limit AnyCap AnyPool tt tt s e v)
        (provision_pools-Keeps ps (validate_and_provision_pool P c p s).1)

module _ (P : Platform) (c : Options) where
  open P use {World}

  -- A container event never takes the running runners past the larger of the quota and their number
  -- before it, and keeps the controller's state, its quota and the shape of the tracking maps.
  pub handle_container_event-total :
      (e : ContainerEvent) (s : Controller World)
      → IsValid s.tracked
      → 0 < s.global_max_runners
      → let t = (handle_container_event P c e s).1 in
        (total_active t.tracked ≤ max (total_active s.tracked) s.global_max_runners)
        × (t.state ≡ s.state)
        × (t.global_max_runners ≡ s.global_max_runners)
        × IsValid t.tracked
  handle_container_event-total e s v pos =
      let (mode, moves) = handle_container_event-Keeps P c s.global_max_runners e s refl v in
      (Moves-total pos moves, mode.0, mode.1, Moves-IsValid moves v)

  -- What Boot leaves: running without an error, or stopped with one of its two errors.
  abbrev pub BootResult : Option Error × Controller World → Type 0
  BootResult (err, t) =
      ((err ≡ none) × (t.state ≡ running))
      ⊎ (((err ≡ some engine_unreachable) ⊎ (err ≡ some load_pools_failed)) × (t.state ≡ stopped))

  -- What Boot promises behind its audit: the running runners at most those of before or the quota,
  -- the maps in shape, and the result.
  abbrev Booted : Controller World → Option Error × Controller World → Type 0
  Booted s r =
      (total_active r.1.tracked ≤ max (total_active s.tracked) s.global_max_runners)
      × IsValid r.1.tracked
      × BootResult r

  boot_loaded-Booted :
      (pools : Option (List RunnerPool)) (s : Controller World)
      → IsValid s.tracked
      → 0 < s.global_max_runners
      → Booted s (boot_loaded P c pools s)
  unfolding boot_loaded beat
  boot_loaded-Booted none s v pos = ((omega arith), v, inr (inr refl, refl))
  boot_loaded-Booted (some ps) s v pos =
      let (mode, moves) = provision_pools-Keeps P c s.global_max_runners ps s refl v in
      (Moves-total pos moves, Moves-IsValid moves v, inl (refl, refl))

  pinged-Booted :
      (up : Bool) (s : Controller World)
      → IsValid s.tracked
      → 0 < s.global_max_runners
      → Booted s (
          if up
          then boot_loaded P c
              (load_pools P c s.world).0
              (record s { world = (load_pools P c s.world).1 })
          else (some engine_unreachable, record s { state = stopped }))
  pinged-Booted true s v pos =
      let (pools, w) = load_pools P c s.world in
      boot_loaded-Booted pools (record s { world = w }) v pos
  pinged-Booted false s v pos = ((omega arith), v, inr (inl refl, refl))

  ping_engine-rest :
      (s : Controller World)
      → ((ping_engine P c s).1.tracked ≡ s.tracked)
        × ((ping_engine P c s).1.global_max_runners ≡ s.global_max_runners)
  unfolding ping_engine
  ping_engine-rest s = elim (Bool-cases c.has_engine) [
    | inl engine ↦ rw engine (refl, refl)
    | inr without ↦ rw without (refl, refl)
  ]

  -- The state that Boot starts the pools from.
  unfoldable pub rebuild : Controller World → Controller World
  rebuild s =
      let starting = record s { state = booting } in
      if c.has_reconciler then (run_audit P c starting).1 else starting

  rebuild-Valid :
      (s : Controller World)
      → IsValid s.tracked
      → IsValid (rebuild s).tracked × ((rebuild s).global_max_runners ≡ s.global_max_runners)
  unfolding rebuild run_audit
  rebuild-Valid s v =
      let (v', mode, same) = run_audit-Audited P c (record s { state = booting }) v in
      elim (Bool-cases c.has_reconciler) [
        | inl reconciles ↦ rw reconciles (v', same)
        | inr without ↦ rw without (v, refl)
      ]

  -- Boot ends running without an error, or stopped with one of its two errors; it keeps the tracking
  -- maps in shape, and takes the running runners at most to the larger of the quota and what the
  -- audit at its start found.
  pub boot-total :
      (s : Controller World)
      → IsValid s.tracked
      → 0 < s.global_max_runners
      → (total_active (boot P c s).1.tracked
          ≤ max (total_active (rebuild s).tracked) s.global_max_runners)
        × IsValid (boot P c s).1.tracked
        × BootResult (boot P c s)
  unfolding boot rebuild
  boot-total s v pos =
      let (valid, quota) = rebuild-Valid s v in
      let (tr, same) = ping_engine-rest (rebuild s) in
      let pinged = ping_engine P c (rebuild s) in
      let (few, shape, result) =
        pinged-Booted pinged.0 pinged.1 (rw tr valid) (rw (same, quota) pos) in
      (omega (arith, few, ap total_active tr, same, quota), shape, result)
