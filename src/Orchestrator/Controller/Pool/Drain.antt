-- ===== src/Orchestrator/Controller/Pool/Drain.antt =====
-- The draining steps of reconcilePool: the local count of active runners and the tracked number.
use gh_runner.Prelude.{
  ℕ, zero, suc, ◌+◌, ◌-◌, ◌≤◌, ◌≡◌, refl, false, ◌&&◌, ◌==◌, List, [], ◌∷◌, inl, inr, arith, ltb,
  Bool-cases, keep, count, length,
}
use gh_runner.Prelude.Text.{GoString}
use gh_runner.Prelude.Dict.{Dict, values, weigh}
use gh_runner.Orchestrator.Tracking.{
  RunnerStatus, is_running, is_idle, running_one, running_in, pool_map, tracked_pool_runners,
  pool_active,
}
use gh_runner.Orchestrator.Tracking.Counting.{pool_active-untrack_running}
use gh_runner.Orchestrator.Tracking.Valid.{
  IsValid, Pending, Pending-untrack_runner, Pending-snapshot,
}
use gh_runner.Orchestrator.Platform.{RunnerPool, Platform, Options}
use gh_runner.Orchestrator.Controller.{Controller}
use gh_runner.Orchestrator.Controller.Spawn.{drain_runner}
use gh_runner.Orchestrator.Controller.Pool.{
  is_stale, drain_excess, enforce_cap, scale_to_zero, drain_first, scale_down, effective_grace,
}

count-values : (m : Dict RunnerStatus) → count is_running (values m) ≡ running_in m
unfolding count values running_in weigh running_one
count-values [] = refl
count-values ((k, r) ∷ m) = omega (arith, count-values m)

-- `activeCount` starts as the number of running runners.
pub active-snapshot :
    {W : Type 0} (name : GoString) (s : Controller W)
    → count is_running (tracked_pool_runners name s.tracked) ≡ pool_active name s.tracked
unfolding tracked_pool_runners pool_active
active-snapshot name s = count-values (pool_map name s.tracked)

pub idle-snapshot :
    {W : Type 0} (name : GoString) (s : Controller W)
    → IsValid s.tracked
    → Pending name (keep is_idle (tracked_pool_runners name s.tracked)) s.tracked
unfolding tracked_pool_runners is_idle
idle-snapshot name s v = Pending-snapshot name is_idle s.tracked (λ r h. ground arith) v

module _ (P : Platform) (c : Options) (name : GoString) where
  open P use {World}

  -- Draining a pending runner frees a place and leaves the others pending.
  drain_runner-Pending :
      (r : RunnerStatus) (rs : List RunnerStatus) (s : Controller World)
      → Pending name (r ∷ rs) s.tracked
      → (pool_active name (drain_runner P c name r s).tracked + 1 ≤ pool_active name s.tracked)
        × Pending name rs (drain_runner P c name r s).tracked
  unfolding drain_runner
  drain_runner-Pending r rs s h = (
    pool_active-untrack_running name r.id s.tracked r h.0 h.1,
    Pending-untrack_runner name r rs s.tracked h,
  )

  pub drain_excess_done :
      (excess drained : ℕ) (rs : List RunnerStatus) (s : Controller World)
      → ltb drained excess ≡ false
      → drain_excess P c name excess drained rs s ≡ (drained, rs, s)
  unfolding drain_excess
  drain_excess_done excess drained [] s h = refl
  drain_excess_done excess drained (r ∷ rs) s h =
      rw (h, drain_excess) (rw (drain_excess_done excess drained rs s h))

  drain_excess-active :
      (excess drained : ℕ) (rs : List RunnerStatus) (s : Controller World) (total : ℕ)
      → Pending name rs s.tracked
      → pool_active name s.tracked + drained ≤ total
      → let (d, remaining, s') = drain_excess P c name excess drained rs s in
        (pool_active name s'.tracked + d ≤ total) × Pending name remaining s'.tracked
  unfolding drain_excess
  drain_excess-active excess drained [] s total h le = (le, tt)
  drain_excess-active excess drained (r ∷ rs) s total h le =
      elim (Bool-cases (ltb drained excess)) [
        | inl more ↦
            let (freed, rest) = drain_runner-Pending r rs s h in
            rw (more, drain_excess)
              (drain_excess-active excess (drained + 1) rs (drain_runner P c name r s) total rest
                (omega arith))
        | inr done ↦ rw (drain_excess_done excess drained (r ∷ rs) s done) (le, h)
      ]

  scale_to_zero-active :
      (grace now : ℕ) (rs : List RunnerStatus) (active : ℕ) (s : Controller World)
      → Pending name rs s.tracked
      → pool_active name s.tracked ≤ active
      → let (a, s') = scale_to_zero P c name grace now rs active s in
        pool_active name s'.tracked ≤ a
  unfolding scale_to_zero
  scale_to_zero-active grace now [] active s h le = le
  scale_to_zero-active grace now (r ∷ rs) active s h le = elim (Bool-cases (is_stale grace now r)) [
    | inl stale ↦
        let (freed, rest) = drain_runner-Pending r rs s h in
        rw (stale, scale_to_zero)
          (scale_to_zero-active grace now rs (active - 1) (drain_runner P c name r s) rest
            (omega arith))
    | inr fresh ↦ rw (fresh, scale_to_zero) (scale_to_zero-active grace now rs active s h.3 le)
  ]

  drain_first-active :
      (n : ℕ) (rs : List RunnerStatus) (active : ℕ) (s : Controller World)
      → Pending name rs s.tracked
      → pool_active name s.tracked ≤ active
      → let (a, s') = drain_first P c name n rs active s in pool_active name s'.tracked ≤ a
  unfolding drain_first
  drain_first-active zero rs active s h le = le
  drain_first-active (suc n) [] active s h le = le
  drain_first-active (suc n) (r ∷ rs) active s h le =
      let (freed, rest) = drain_runner-Pending r rs s h in
      drain_first-active n rs (active - 1) (drain_runner P c name r s) rest (omega arith)

module _ (P : Platform) (c : Options) (p : RunnerPool) where
  open P use {World}

  -- Step 1 keeps the local count above the tracked one, and the idle runners pending.
  pub enforce_cap-active :
      (active : ℕ) (idle : List RunnerStatus) (s : Controller World)
      → Pending p.name idle s.tracked
      → pool_active p.name s.tracked ≤ active
      → let (a, rest, s') = enforce_cap P c p active idle s in
        (pool_active p.name s'.tracked ≤ a) × Pending p.name rest s'.tracked
  unfolding enforce_cap
  enforce_cap-active active idle s h le =
      elim (Bool-cases (ltb 0 p.max_concurrency && ltb p.max_concurrency active)) [
        | inl over ↦
            let (sum, rest) =
              drain_excess-active P c p.name (active - p.max_concurrency) 0 idle s active h
                (omega arith) in
            rw over (omega arith, rest)
        | inr fine ↦ rw fine (le, h)
      ]

  pub scale_down-active :
      (target : ℕ) (idle : List RunnerStatus) (active : ℕ) (s : Controller World)
      → Pending p.name idle s.tracked
      → pool_active p.name s.tracked ≤ active
      → let (a, s') = scale_down P c p target idle active s in pool_active p.name s'.tracked ≤ a
  unfolding scale_down
  scale_down-active target idle active s h le = elim (Bool-cases (p.min_idle_runners == 0)) [
    | inl none_idle ↦ rw none_idle (
        scale_to_zero-active P c p.name (effective_grace c.scale_to_zero_grace_period p)
          (P.now s.world).0 idle active _ h le)
    | inr some_idle ↦ elim (Bool-cases (ltb target (length idle))) [
      | inl over ↦
          rw (some_idle, over)
            (drain_first-active P c p.name (length idle - target) idle active s h le)
      | inr fine ↦ rw (some_idle, fine) le
    ]
  ]
