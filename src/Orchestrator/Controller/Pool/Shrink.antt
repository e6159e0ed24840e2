-- ===== src/Orchestrator/Controller/Pool/Shrink.antt =====
-- The draining steps of reconcilePool as moves of the tracking map.
use gh_runner.Prelude.{
  ℕ, zero, suc, ◌+◌, ◌-◌, ◌≡◌, refl, ◌&&◌, ◌==◌, List, [], ◌∷◌, inl, inr, ltb, Bool-cases, length,
}
use gh_runner.Prelude.Text.{GoString}
use gh_runner.Orchestrator.Tracking.{RunnerStatus}
use gh_runner.Orchestrator.Tracking.Moves.{Moves, stay, untracks, Moves-trans}
use gh_runner.Orchestrator.Platform.{RunnerPool, Platform, Options}
use gh_runner.Orchestrator.Controller.{Controller}
use gh_runner.Orchestrator.Controller.Spawn.{drain_runner}
use gh_runner.Orchestrator.Controller.Spawn.Effect.{SameMode, SameMode-trans}
use gh_runner.Orchestrator.Controller.Pool.Drain.{drain_excess_done}
use gh_runner.Orchestrator.Controller.Pool.{
  is_stale, drain_excess, enforce_cap, scale_to_zero, drain_first, scale_down, effective_grace,
}

-- A step that only drains: the mode and the queue stay, and the tracking map moves.
abbrev pub Drained :
    {W : Type 0} (limit : ℕ) (Caps : GoString → ℕ → Type 0) (Drains : GoString → Type 0)
    → Controller W
    → Controller W
    → Type 0
Drained limit Caps Drains s t =
    SameMode s t × (t.queue ≡ s.queue) × Moves limit Caps Drains s.tracked t.tracked

module _ {W : Type 0} {limit : ℕ} {Caps : GoString → ℕ → Type 0} {Drains : GoString → Type 0} where
  pub Drained-refl : (s : Controller W) → Drained limit Caps Drains s s
  Drained-refl s = ((refl, refl), refl, stay)

  pub Drained-trans :
      (s t u : Controller W)
      → Drained limit Caps Drains s t
      → Drained limit Caps Drains t u
      → Drained limit Caps Drains s u
  Drained-trans s t u a b = (SameMode-trans s t u a.0 b.0, cc (a.1, b.1), Moves-trans a.2 b.2)

module _ (P : Platform) (c : Options) (limit : ℕ) (Caps : GoString → ℕ → Type 0)
    (Drains : GoString → Type 0) (name : GoString) (drains : Drains name) where
  open P use {World}

  pub drain_runner-Drained :
      (r : RunnerStatus) (s : Controller World)
      → Drained limit Caps Drains s (drain_runner P c name r s)
  unfolding drain_runner
  drain_runner-Drained r s = ((refl, refl), refl, untracks name r.id drains stay)

  drain_excess-Drained :
      (excess drained : ℕ) (rs : List RunnerStatus) (s : Controller World)
      → Drained limit Caps Drains s (drain_excess P c name excess drained rs s).2
  unfolding drain_excess
  drain_excess-Drained excess drained [] s = Drained-refl s
  drain_excess-Drained excess drained (r ∷ rs) s = elim (Bool-cases (ltb drained excess)) [
    | inl more ↦
        rw (more, drain_excess)
          (Drained-trans s (drain_runner P c name r s)
            (drain_excess P c name excess (drained + 1) rs (drain_runner P c name r s)).2
            (drain_runner-Drained r s)
            (drain_excess-Drained excess (drained + 1) rs (drain_runner P c name r s)))
    | inr done ↦ rw (drain_excess_done P c name excess drained (r ∷ rs) s done) (Drained-refl s)
  ]

  scale_to_zero-Drained :
      (grace now : ℕ) (rs : List RunnerStatus) (active : ℕ) (s : Controller World)
      → Drained limit Caps Drains s (scale_to_zero P c name grace now rs active s).1
  unfolding scale_to_zero
  scale_to_zero-Drained grace now [] active s = Drained-refl s
  scale_to_zero-Drained grace now (r ∷ rs) active s = elim (Bool-cases (is_stale grace now r)) [
    | inl stale ↦
        rw (stale, scale_to_zero)
          (Drained-trans s (drain_runner P c name r s)
            (scale_to_zero P c name grace now rs (active - 1) (drain_runner P c name r s)).1
            (drain_runner-Drained r s)
            (scale_to_zero-Drained grace now rs (active - 1) (drain_runner P c name r s)))
    | inr fresh ↦ rw (fresh, scale_to_zero) (scale_to_zero-Drained grace now rs active s)
  ]

  drain_first-Drained :
      (n : ℕ) (rs : List RunnerStatus) (active : ℕ) (s : Controller World)
      → Drained limit Caps Drains s (drain_first P c name n rs active s).1
  unfolding drain_first
  drain_first-Drained zero rs active s = Drained-refl s
  drain_first-Drained (suc n) [] active s = Drained-refl s
  drain_first-Drained (suc n) (r ∷ rs) active s =
      Drained-trans s (drain_runner P c name r s)
        (drain_first P c name n rs (active - 1) (drain_runner P c name r s)).1
        (drain_runner-Drained r s)
        (drain_first-Drained n rs (active - 1) (drain_runner P c name r s))

module _ (P : Platform) (c : Options) (p : RunnerPool) (limit : ℕ) (Caps : GoString → ℕ → Type 0)
    (Drains : GoString → Type 0) (d : Drains p.name) where
  open P use {World}

  pub enforce_cap-Drained :
      (active : ℕ) (idle : List RunnerStatus) (s : Controller World)
      → Drained limit Caps Drains s (enforce_cap P c p active idle s).2
  unfolding enforce_cap
  enforce_cap-Drained active idle s =
      elim (Bool-cases (ltb 0 p.max_concurrency && ltb p.max_concurrency active)) [
        | inl over ↦ rw over (
            drain_excess-Drained P c limit Caps Drains p.name d (active - p.max_concurrency) 0 idle
              s)
        | inr fine ↦ rw fine (Drained-refl s)
      ]

  pub scale_down-Drained :
      (target : ℕ) (idle : List RunnerStatus) (active : ℕ) (s : Controller World)
      → Drained limit Caps Drains s (scale_down P c p target idle active s).1
  unfolding scale_down
  scale_down-Drained target idle active s = elim (Bool-cases (p.min_idle_runners == 0)) [
    | inl none_idle ↦ rw none_idle (
        scale_to_zero-Drained P c limit Caps Drains p.name d
          (effective_grace c.scale_to_zero_grace_period p) (P.now s.world).0 idle active
          (record s { world = (P.now s.world).1 }))
    | inr some_idle ↦ elim (Bool-cases (ltb target (length idle))) [
      | inl over ↦
          rw (some_idle, over)
            (drain_first-Drained P c limit Caps Drains p.name d (length idle - target) idle active
              s)
      | inr fine ↦ rw (some_idle, fine) (Drained-refl s)
    ]
  ]
