-- ===== src/Orchestrator/Lifecycle/Shutdown/Returns.antt =====
-- When the waiting loop of GracefulShutdown (internal/orchestrator/controller.go) returns.
use gh_runner.Prelude.{
  ℕ, zero, suc, ◌≡◌, refl, sym, ap, subst, ◌==◌, true, ◌&&◌, none, some, List, [], ◌∷◌,
  if◌then◌else◌, inl, inr, arith, Bool-cases,
}
use gh_runner.Prelude.Dict.{Dict, weigh, lookup}
use gh_runner.Orchestrator.Tracking.{RunnerStatus, Tracked, total_active}
use gh_runner.Orchestrator.Audit.{sweep_pool, sweep, audit_all, audit}
use gh_runner.Orchestrator.Platform.{Platform, Options}
use gh_runner.Orchestrator.Controller.{stopped, Controller}
use gh_runner.Orchestrator.Lifecycle.{pause, reap_all, audit_answer, run_audit, reap_exited}
use gh_runner.Orchestrator.Lifecycle.Shutdown.{
  Wait, ticked, any_working, shutdown_tick, shutdown_wait, remove_idle, graceful_shutdown,
}
use gh_runner.Orchestrator.Lifecycle.Shutdown.Ends.{
  graceful_shutdown_busy, graceful_shutdown_quiet, graceful_shutdown_off,
}

-- Ticks of the waiting loop before other events.
unfoldable pub replicate_ticks : ℕ → List Wait → List Wait
replicate_ticks zero es = es
replicate_ticks (suc n) es = ticked ∷ replicate_ticks n es

sweep_pool_none : (m : Dict RunnerStatus) → (sweep_pool [] m).0 ≡ []
unfolding sweep_pool lookup
sweep_pool_none [] = refl
sweep_pool_none ((id, s) ∷ m) = sweep_pool_none m

sweep_none : (t : Tracked) → (sweep [] t).0 ≡ []
unfolding sweep
sweep_none [] = refl
sweep_none ((p, m) ∷ t) =
    let here = sweep_pool_none m in let rest = sweep_none t in rw (here, rest) refl

-- An audit against an empty list forgets every runner.
audit_none : (t : Tracked) → (audit [] t).1 ≡ []
unfolding audit audit_all
audit_none t = sweep_none t

module _ (P : Platform) (c : Options) where
  open P use {World}

  -- The controller after so many ticks of the waiting loop.
  unfoldable pub after_ticks : ℕ → Controller World → Controller World
  after_ticks zero s = s
  after_ticks (suc n) s = after_ticks n (shutdown_tick P c s)

  reap_exited-total :
      (s : Controller World)
      → total_active (reap_exited P c (audit_answer P c (some []) s)).tracked ≡ 0
  unfolding reap_exited reap_all audit_answer audit audit_all total_active weigh
  reap_exited-total s = ap total_active (audit_none s.tracked)

  shutdown_tick-total :
      (s : Controller World)
      → c.has_engine ≡ true
      → (P.audit_runners s.world).0 ≡ some []
      → total_active (shutdown_tick P c s).tracked ≡ 0
  unfolding shutdown_tick run_audit
  shutdown_tick-total s engine listed =
      let audited = record s { world = (P.audit_runners s.world).1 } in
      subst
        (λ b.
          total_active
            (reap_exited P c (
              if b
              then audit_answer P c (P.audit_runners s.world).0 audited
              else (none, s))).tracked
          ≡ 0)
        (sym engine) (rw listed (reap_exited-total audited))

  shutdown_wait_returns :
      (k : ℕ) (rest : List Wait) (s : Controller World)
      → c.has_engine ≡ true
      → (P.audit_runners (after_ticks k s).world).0 ≡ some []
      → (t : Controller World) × (shutdown_wait P c (replicate_ticks (suc k) rest) s
          ≡ some (none, t))
  unfolding shutdown_wait replicate_ticks after_ticks
  shutdown_wait_returns zero rest s engine listed =
      let empty = shutdown_tick-total s engine listed in
      (record (shutdown_tick P c s) { state = stopped }, rw empty refl)
  shutdown_wait_returns (suc k) rest s engine listed =
      let s' = shutdown_tick P c s in
      elim (Bool-cases (total_active s'.tracked == 0)) [
        | inl empty ↦ (record s' { state = stopped }, rw empty refl)
        | inr busy ↦ let (t, e) = shutdown_wait_returns k rest s' engine listed in (t, rw busy e)
      ]

  -- When the waiting loop of a graceful shutdown sees some ticks first, and the container engine
  -- lists no runner when the last of them asks it, the shutdown returns without an error at that
  -- tick or before; what would come after it, the timer or a cancellation, does not matter.
  pub graceful_shutdown_returns :
      (k : ℕ) (rest : List Wait) (s : Controller World)
      → (P.audit_runners (after_ticks k (remove_idle P c (pause s))).world).0 ≡ some []
      → (t : Controller World) × (graceful_shutdown P c (replicate_ticks (suc k) rest) s
          ≡ some (none, t))
  graceful_shutdown_returns k rest s listed =
      let events = replicate_ticks (suc k) rest in
      let quiet = remove_idle P c (pause s) in
      elim (Bool-cases (c.has_engine && c.has_reconciler)) [
        | inr off ↦ (record s { state = stopped }, graceful_shutdown_off P c events s off)
        | inl ready ↦ elim (Bool-cases (any_working s.tracked)) [
          | inr idle ↦
              (record quiet { state = stopped }, graceful_shutdown_quiet P c ready events s idle)
          | inl busy ↦
              let engine : c.has_engine ≡ true = ground arith in
              let (t, e) = shutdown_wait_returns k rest quiet engine listed in
              (t, rw (graceful_shutdown_busy P c ready events s busy) e)
        ]
      ]
